-- ===== src/Timeline/Store/Loading/Restart.antt =====
-- command_timeline.py: a store that is created on the file of an earlier one has its events.
use mathlib.Core.List.{reverse, reverse-reverse}
use faryo_codex_web_ui.Base.{
  ℕ, suc, ◌+◌, max, ◌≤◌, ◌≡◌, refl, ap, Bool, true, false, some, List, [], ◌∷◌, String, eq_iff,
  eq_refl, arith, leb, ltb, Bool-cases, inl, inr, length, keep, map, Every, length-reverse,
  length-keep-reverse,
}
use faryo_codex_web_ui.Base.Dict.{Dict, get, put, get-put}
use faryo_codex_web_ui.Json.{get_field}
use faryo_codex_web_ui.Timeline.Command.{CommandStatus, running, waiting, completed, failed}
use faryo_codex_web_ui.Json.Read.{Whole, iterated}
use faryo_codex_web_ui.Timeline.Event.{CommandEvent}
use faryo_codex_web_ui.Timeline.Event.Roundtrip.{IsStorable, valid_event-event_value}
use faryo_codex_web_ui.Timeline.Store.{
  Timeline, returns, count_of, select, trim, event_items, body_value, fitting, max_file_bytes,
  body_bytes, save, fresh, is_final,
}
use faryo_codex_web_ui.Timeline.Store.Loading.{
  read_event, read_events, is_open, interrupt, any_open, load_events, is_current, read_iterated,
  load_value, load,
}
use faryo_codex_web_ui.Timeline.Store.Trim.{of_owner}
use faryo_codex_web_ui.Timeline.Store.Loading.Survivors.{IsEnded}

no-more : (es : List CommandEvent) → length es ≤ 0 → [] ≡ es
no-more [] h = refl
no-more (e ∷ es) h = absurd (omega arith)

few-left :
    (selected limit n : ℕ) → selected + suc n ≤ limit → leb limit (suc selected) ≡ true → n ≤ 0
few-left selected limit n few last = ground arith

ltb-below : {a b : ℕ} → a ≤ b → ltb b a ≡ false
ltb-below h = ground arith

leb-above : {a b : ℕ} → suc a ≤ b → leb b a ≡ false
leb-above h = ground arith

owner-head :
    (per_owner : ℕ) (counts : Dict ℕ) (e : CommandEvent) (es : List CommandEvent)
    → count_of (get e.owner_key counts) + length (of_owner e.owner_key (e ∷ es)) ≤ per_owner
    → suc (count_of (get e.owner_key counts)) ≤ per_owner
unfolding keep
owner-head per_owner counts e es h = ground (arith, eq_refl e.owner_key)

owner-rest :
    (per_owner : ℕ) (counts : Dict ℕ) (e : CommandEvent) (es : List CommandEvent) (k : String)
    → count_of (get k counts) + length (of_owner k (e ∷ es)) ≤ per_owner
    → count_of (get k (put e.owner_key (suc (count_of (get e.owner_key counts))) counts))
        + length (of_owner k es)
      ≤ per_owner
unfolding keep count_of
owner-rest per_owner counts e es k h =
    let n = count_of (get e.owner_key counts) in
    ground (arith, get-put e.owner_key k (suc n) counts, eq_iff e.owner_key k)

module _ (per_owner limit : ℕ) where
  select-fits :
      (counts : Dict ℕ) (selected : ℕ) (es : List CommandEvent)
      → ((k : String) → count_of (get k counts) + length (of_owner k es) ≤ per_owner)
      → selected + length es ≤ limit
      → select per_owner limit counts selected es ≡ es
  unfolding select
  select-fits counts selected [] owners few = refl
  select-fits counts selected (e ∷ es) owners few =
      let n = count_of (get e.owner_key counts) in
      let room : suc n ≤ per_owner = owner-head per_owner counts e es (owners e.owner_key) in
      elim (Bool-cases (leb limit (suc selected))) [
        | inl last ↦
            rw (leb-above room, last)
              (ap (λ (xs : List CommandEvent). e ∷ xs)
                (no-more es (few-left selected limit (length es) few last)))
        | inr more ↦
            rw (leb-above room, more)
              (ap (λ (xs : List CommandEvent). e ∷ xs)
                (select-fits (put e.owner_key (suc n) counts) (suc selected) es
                  (λ k. owner-rest per_owner counts e es k (owners k)) (omega arith)))
      ]

  trim-fits :
      (es : List CommandEvent)
      → ((k : String) → length (of_owner k es) ≤ per_owner)
      → length es ≤ limit
      → trim per_owner limit es ≡ es
  unfolding trim
  trim-fits es owners few =
      rw
        (select-fits [] 0 (reverse es)
          (λ k. rw length-keep-reverse (unfold get count_of in omega (arith, owners k)))
          (omega (arith, length-reverse es, few)))
        (reverse-reverse es)

read_events-items :
    (trunc : String → Whole) (es : List CommandEvent)
    → Every IsStorable es
    → read_events trunc (event_items es) ≡ some es
unfolding read_events read_event event_items
read_events-items trunc [] h = refl
read_events-items trunc (e ∷ es) h =
    rw (valid_event-event_value trunc e h.0, read_events-items trunc es h.1) refl

final-closed : (s : CommandStatus) → is_final s ≡ true → is_open s ≡ false
unfolding is_open
final-closed running h = cc
final-closed waiting h = cc
final-closed completed h = refl
final-closed failed h = refl

any_open-ended : (es : List CommandEvent) → Every IsEnded es → any_open es ≡ false
unfolding any_open
any_open-ended [] h = refl
any_open-ended (e ∷ es) h = rw (final-closed e.status h.0, any_open-ended es h.1) refl

map-ended : (now : ℕ) (es : List CommandEvent) → Every IsEnded es → map (interrupt now) es ≡ es
unfolding interrupt
map-ended now [] h = refl
map-ended now (e ∷ es) h = rw (final-closed e.status h.0, map-ended now es h.1) refl

-- A list of events that the store keeps whole: within the limits, small enough for the file.
pub record Fits (s : Timeline) : Type 0 where
  pub owners : (k : String) → length (of_owner k s.events) ≤ s.max_events_per_owner
  pub few : length s.events ≤ s.max_events
  pub positive : 1 ≤ s.max_events
  pub owner_positive : 1 ≤ s.max_events_per_owner
  pub small : body_bytes s.events ≤ max_file_bytes

-- A restart loses nothing: where the events may stand in the file, have ended and fit, a store that is
-- created with the same limits on the file that a save wrote has the same events, and no load error.
pub load-save :
    (trunc : String → Whole) (writes : Bool) (now : ℕ) (s : Timeline)
    → Every IsStorable s.events
    → Every IsEnded s.events
    → Fits s
    → let s' = save true s in
      load trunc writes now (fresh s.max_events s.max_events_per_owner s'.file)
      ≡ returns (record s' { load_errors = 0 })
unfolding load save fresh fitting load_value load_events read_iterated iterated is_current
    body_value get_field
load-save trunc writes now s storable ended fits =
    let small : ltb max_file_bytes (body_bytes s.events) ≡ false = ltb-below fits.small in
    let limit : max 1 s.max_events ≡ s.max_events = omega (arith, fits.positive) in
    let per_owner : max 1 s.max_events_per_owner ≡ s.max_events_per_owner =
      omega (arith, fits.owner_positive) in
    rw
      (
        small,
        small,
        read_events-items trunc s.events storable,
        limit,
        per_owner,
        trim-fits s.max_events_per_owner s.max_events s.events fits.owners fits.few,
        any_open-ended s.events ended,
        map-ended now s.events ended,
      )
      refl
