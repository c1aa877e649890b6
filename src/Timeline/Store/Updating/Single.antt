-- ===== src/Timeline/Store/Updating/Single.antt =====
-- command_timeline.py: `update` changes one event.
use faryo_codex_web_ui.Base.{
  ℕ, ◌≤◌, ◌≡◌, ◌≢◌, refl, sym, ap, ◌∙◌, Bool, true, false, Option, none, some, List, [], ◌∷◌,
  String, str_eq, eq_iff, arith, if◌then◌else◌, Bool-cases, Option-cases, inl, inr, length,
}
use faryo_codex_web_ui.Json.{Value}
use faryo_codex_web_ui.Timeline.Command.{CommandStatus, Metadata}
use faryo_codex_web_ui.Timeline.Event.{CommandEvent, parse_status, clean_metadata}
use faryo_codex_web_ui.Timeline.Store.{
  Timeline, returns, fitting, max_file_bytes, body_bytes, save, saved, find_last, modify_last,
  has_id, is_final,
}
use faryo_codex_web_ui.Timeline.Store.Updating.{
  updated, update_found, update_event, update_status, update,
}

-- The event that the search finds, if any, after a change that keeps what the search looks at.
map_found : (CommandEvent → CommandEvent) → Option CommandEvent → Option CommandEvent
map_found change none = none
map_found change (some e) = some (change e)

modify_last-missing :
    (test : CommandEvent → Bool) (change : CommandEvent → CommandEvent) (e : CommandEvent)
    (es : List CommandEvent)
    → find_last test es ≡ none
    → modify_last test change (e ∷ es) ≡ (if test e then change e else e) ∷ es
unfolding modify_last
modify_last-missing test change e es h = rw h refl

modify_last-found :
    (test : CommandEvent → Bool) (change : CommandEvent → CommandEvent) (e x : CommandEvent)
    (es : List CommandEvent)
    → find_last test es ≡ some x
    → modify_last test change (e ∷ es) ≡ e ∷ modify_last test change es
unfolding modify_last
modify_last-found test change e x es h = rw h refl

find_last-modify :
    (test : CommandEvent → Bool) (change : CommandEvent → CommandEvent) (es : List CommandEvent)
    → ((e : CommandEvent) → test (change e) ≡ test e)
    → find_last test (modify_last test change es) ≡ map_found change (find_last test es)
unfolding find_last map_found
find_last-modify test change [] same = unfold modify_last in refl
find_last-modify test change (e ∷ es) same =
    let rest = find_last-modify test change es same in
    elim (Option-cases (find_last test es)) [
      | inl missing ↦
          rw (modify_last-missing test change e es missing) (elim (Bool-cases (test e)) [
            | inl hit ↦ rw (hit, missing, same e, hit) refl
            | inr miss ↦ rw (miss, missing, miss) refl
          ])
      | inr (x, found) ↦ rw (modify_last-found test change e x es found, rest, found) refl
    ]

find_last-modify-other :
    (test other : CommandEvent → Bool) (change : CommandEvent → CommandEvent)
    (es : List CommandEvent)
    → ((e : CommandEvent) → other (change e) ≡ other e)
    → ((e : CommandEvent) → test e ≡ true → other e ≡ false)
    → find_last other (modify_last test change es) ≡ find_last other es
unfolding find_last
find_last-modify-other test other change [] same apart = unfold modify_last in refl
find_last-modify-other test other change (e ∷ es) same apart =
    let rest = find_last-modify-other test other change es same apart in
    elim (Option-cases (find_last test es)) [
      | inl missing ↦
          rw (modify_last-missing test change e es missing) (elim (Bool-cases (test e)) [
            | inl hit ↦ rw (hit, same e, apart e hit) refl
            | inr miss ↦ rw miss refl
          ])
      | inr (x, found) ↦ rw (modify_last-found test change e x es found, rest) refl
    ]

length-modify :
    (test : CommandEvent → Bool) (change : CommandEvent → CommandEvent) (es : List CommandEvent)
    → length (modify_last test change es) ≡ length es
length-modify test change [] = unfold modify_last in refl
length-modify test change (e ∷ es) = elim (Option-cases (find_last test es)) [
  | inl missing ↦ rw (modify_last-missing test change e es missing) refl
  | inr (x, found) ↦
      rw (modify_last-found test change e x es found, length-modify test change es) refl
]

fitting-small :
    (limit : ℕ) (es : List CommandEvent) → body_bytes es ≤ max_file_bytes → fitting limit es ≡ es
unfolding fitting
fitting-small limit es h = ground arith

is_other : (a b : String) → a ≢ b → str_eq a b ≡ false
is_other a b h = elim (Bool-cases (str_eq a b)) [
  | inl same ↦ absurd (h ((eq_iff a b).0 same))
  | inr different ↦ different
]

-- The event `e` now has the status and the merged metadata, as `e'`.
pub record Moved (now : ℕ) (st : CommandStatus) (e e' : CommandEvent) : Type 0 where
  pub status : e'.status ≡ st
  pub owner : e'.owner_key ≡ e.owner_key
  pub request : e'.request_id ≡ e.request_id
  pub digest : e'.digest ≡ e.digest
  pub ended : is_final st ≡ true → (e'.interaction_id ≡ "") × (e'.completed_at ≡ now)

moved :
    (now : ℕ) (st : CommandStatus) (m : Metadata) (interaction_id : Option String)
    (e : CommandEvent)
    → Moved now st e (updated now st m interaction_id e)
unfolding updated
moved now st m interaction_id e = record {
  status = refl;
  owner = refl;
  request = refl;
  digest = refl;
  ended = λ h. rw h (refl, refl);
}

-- An update of an event that the store has, to a status that there is, returns the event with that status,
-- under the owner, request and digest it had; an event that has ended waits for no interaction. Where the
-- new events still fit the file, the store then has as many events as before, finds that one under its
-- id, and under every other id it finds what it found before.
pub update_one :
    (now : ℕ) (s : Timeline) (event_id status : String) (metadata : Option Value)
    (interaction_id : Option String) (e : CommandEvent) (st : CommandStatus) (m : Metadata)
    → find_last (has_id event_id) s.events ≡ some e
    → parse_status status ≡ some st
    → clean_metadata metadata ≡ some m
    → body_bytes (modify_last (has_id event_id) (updated now st m interaction_id) s.events)
      ≤ max_file_bytes
    → let after = update true now s event_id status metadata interaction_id in
      (e' : CommandEvent) × (after.1 ≡ returns (some e'))
      × Moved now st e e'
      × (length after.0.events ≡ length s.events)
      × (find_last (has_id event_id) after.0.events ≡ some e')
      × ((k : String)
          → k ≢ event_id
          → find_last (has_id k) after.0.events ≡ find_last (has_id k) s.events)
unfolding update update_status update_event update_found save map_found saved
update_one now s event_id status metadata interaction_id e st m found parsed cleaned small =
    let change = updated now st m interaction_id in
    let es = modify_last (has_id event_id) change s.events in
    let kept = fitting-small s.max_events es small in
    rw (parsed, found, cleaned)
      (
        change e,
        refl,
        moved now st m interaction_id e,
        rw kept (length-modify (has_id event_id) change s.events),
        rw kept (
            find_last-modify (has_id event_id) change s.events (λ x. unfold updated in refl)
            ∙ ap (map_found change) found),
        (λ k other. rw kept (
            find_last-modify-other (has_id event_id) (has_id k) change s.events
              (λ x. unfold updated in refl)
              (λ x here.
                is_other x.id k (λ same. other (sym same ∙ (eq_iff x.id event_id).0 here))))),
      )
