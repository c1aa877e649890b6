-- ===== src/Timeline/Store/Loading/Ended.antt =====
-- command_timeline.py: what `_load` leaves in the store.
use faryo_codex_web_ui.Base.{
  Every-map, ℕ, zero, suc, ◌-◌, ◌/◌, max, ◌≤◌, ◌≡◌, refl, subst, Bool, Option, none, some, List, [],
  ◌∷◌, String, arith, ltb, Bool-cases, inl, inr, length, drop, map, Every,
}
use faryo_codex_web_ui.Timeline.Store.Adding.Once.{saved-returns}
use faryo_codex_web_ui.Timeline.Store.Trim.{trim_bounds, trim-Every}
use faryo_codex_web_ui.Json.{Value, mapping, get_field}
use faryo_codex_web_ui.Json.Read.{Whole, iterated}
use faryo_codex_web_ui.Timeline.Event.{CommandEvent}
use faryo_codex_web_ui.Timeline.Store.{
  Timeline, returns, StoredFile, missing, unreadable, content, trim, fitting, max_file_bytes,
  body_bytes, save, saved, fresh,
}
use faryo_codex_web_ui.Timeline.Store.Loading.{
  interrupt, any_open, load_events, version_of, is_current, read_iterated, load_value, load,
}
use faryo_codex_web_ui.Timeline.Store.Loading.Survivors.{
  IsEnded, Stated, Survives, map-Survives, Survives-IsEnded, read_iterated-Stated,
}

-- Events with the property, no more than the limit.
record Loaded (P : CommandEvent → Type 0) (limit : ℕ) (es : List CommandEvent) : Type 0 where
  pub ended : Every P es
  pub few : length es ≤ limit

drop-Loaded :
    {P : CommandEvent → Type 0} (limit n : ℕ) (es : List CommandEvent)
    → Loaded P limit es
    → Loaded P limit (drop n es)
drop-Loaded limit zero es h = h
drop-Loaded limit (suc n) [] h = h
drop-Loaded limit (suc n) (e ∷ es) h =
    let few = h.few in drop-Loaded limit n es (record { ended = h.ended.1; few = omega arith })

fitting-Loaded :
    {P : CommandEvent → Type 0} (limit n : ℕ) (es : List CommandEvent)
    → Loaded P limit es
    → Loaded P limit (fitting n es)
unfolding fitting
fitting-Loaded limit n es h = elim (Bool-cases (ltb max_file_bytes (body_bytes es))) [
  | inl large ↦ rw large (drop-Loaded limit (length es - max 1 (n / 2)) es h)
  | inr fits ↦ rw fits h
]

length-map : (now : ℕ) (es : List CommandEvent) → length (map (interrupt now) es) ≡ length es
length-map now [] = refl
length-map now (e ∷ es) = rw (length-map now es)

interrupted-Loaded :
    (trunc : String → Whole) (file : StoredFile) (now : ℕ) (s : Timeline)
    (events : List CommandEvent)
    → 1 ≤ s.max_events
    → Every (Stated trunc file) events
    → Loaded
        (Survives trunc now file)
        s.max_events
        (map (interrupt now) (trim s.max_events_per_owner s.max_events events))
interrupted-Loaded trunc file now s events h stated =
    let (few, owned, sub) = trim_bounds s.max_events_per_owner s.max_events events h in
    record {
      ended =
          map-Survives trunc now file (trim s.max_events_per_owner s.max_events events)
            (trim-Every s.max_events_per_owner s.max_events (Stated trunc file) events stated);
      few = rw length-map few;
    }

returns-eq : (a b : Timeline) → returns a ≡ returns b → a ≡ b
returns-eq a b h = cc

save-Loaded :
    {P : CommandEvent → Type 0} (writes : Bool) (s s' : Timeline)
    → Loaded P s.max_events s.events
    → saved writes (save writes s) ≡ returns s'
    → Loaded P s.max_events s'.events
unfolding save
save-Loaded {P = P} writes s s' loaded h =
    subst (λ (t : Timeline). Loaded P s.max_events t.events)
      (saved-returns writes (save writes s) s' h)
      (fitting-Loaded s.max_events s.max_events s.events loaded)

load_events-Loaded :
    (trunc : String → Whole) (file : StoredFile) (writes : Bool) (now : ℕ) (s s' : Timeline)
    (o : Option (List CommandEvent))
    → 1 ≤ s.max_events
    → ((events : List CommandEvent) → o ≡ some events → Every (Stated trunc file) events)
    → load_events writes now s o ≡ returns s'
    → Loaded (Survives trunc now file) s.max_events s'.events
unfolding load_events
load_events-Loaded trunc file writes now s s' none one stated h = cc
load_events-Loaded trunc file writes now s s' (some events) one stated h =
    let P = Survives trunc now file in
    let kept = trim s.max_events_per_owner s.max_events events in
    let loaded = interrupted-Loaded trunc file now s events one (stated events refl) in
    let t = record s { events = map (interrupt now) kept } in
    elim (Bool-cases (any_open kept)) [
      | inl begun ↦ save-Loaded writes t s' loaded (rw begun at h)
      | inr closed ↦
          subst (λ (u : Timeline). Loaded P s.max_events u.events)
            (returns-eq t s' (rw closed at h)) loaded
    ]

load_value-Loaded :
    (trunc : String → Whole) (writes : Bool) (now size : ℕ) (s s' : Timeline) (v : Value)
    → 1 ≤ s.max_events
    → Loaded (Survives trunc now (content size v)) s.max_events s.events
    → load_value trunc writes now s v ≡ returns s'
    → Loaded (Survives trunc now (content size v)) s.max_events s'.events
unfolding load_value
load_value-Loaded trunc writes now size s s' (mapping fs) one old h =
    let P = Survives trunc now (content size (mapping fs)) in
    let failed_load = record s { load_errors = suc s.load_errors } in
    elim (Bool-cases (is_current (version_of fs))) [
      | inl current ↦
          load_events-Loaded trunc (content size (mapping fs)) writes now s s'
            (read_iterated trunc (iterated (get_field "events" fs))) one
            (λ events. read_iterated-Stated trunc size fs _ events refl) (rw current at h)
      | inr outdated ↦
          subst (λ (t : Timeline). Loaded P s.max_events t.events)
            (returns-eq failed_load s' (rw outdated at h)) old
    ]
load_value-Loaded trunc writes now size s s' v one old h =
    subst (λ (t : Timeline). Loaded (Survives trunc now (content size v)) s.max_events t.events)
      (returns-eq (record s { load_errors = suc s.load_errors }) s' h) old

none-Loaded : {P : CommandEvent → Type 0} (limit : ℕ) → Loaded P limit []
none-Loaded limit = record { ended = tt; few = omega arith }

load_file-Loaded :
    (trunc : String → Whole) (writes : Bool) (now max_events per_owner : ℕ) (file : StoredFile)
    (s' : Timeline)
    → load trunc writes now (fresh max_events per_owner file) ≡ returns s'
    → Loaded (Survives trunc now file) (max 1 max_events) s'.events
unfolding load fresh
load_file-Loaded trunc writes now max_events per_owner missing s' h =
    subst (λ (t : Timeline). Loaded (Survives trunc now missing) (max 1 max_events) t.events)
      (returns-eq (fresh max_events per_owner missing) s' h) (none-Loaded (max 1 max_events))
load_file-Loaded trunc writes now max_events per_owner unreadable s' h =
    subst (λ (t : Timeline). Loaded (Survives trunc now unreadable) (max 1 max_events) t.events)
      (returns-eq (record (fresh max_events per_owner unreadable) { load_errors = 1 }) s' h)
      (none-Loaded (max 1 max_events))
load_file-Loaded trunc writes now max_events per_owner (content size v) s' h =
    let s = fresh max_events per_owner (content size v) in
    let nothing = none-Loaded (max 1 max_events) in
    elim (Bool-cases (ltb max_file_bytes size)) [
      | inl large ↦
          subst
            (λ (t : Timeline).
              Loaded (Survives trunc now (content size v)) (max 1 max_events) t.events)
            (returns-eq (record s { load_errors = 1 }) s' (rw large at h)) nothing
      | inr small ↦
          load_value-Loaded trunc writes now size s s' v (omega arith) nothing (rw small at h)
    ]

-- Whatever file it finds, each event of a store that has been created is one that the file states: it had ended, and
-- is as it was, or it was running or waiting, and has failed at the time of the start, interrupted by it. So no
-- event is still open, and there are no more of them than the limit.
pub load-IsEnded :
    (trunc : String → Whole) (writes : Bool) (now max_events per_owner : ℕ) (file : StoredFile)
    (s' : Timeline)
    → load trunc writes now (fresh max_events per_owner file) ≡ returns s'
    → Every (Survives trunc now file) s'.events
      × Every IsEnded s'.events
      × (length s'.events ≤ max 1 max_events)
load-IsEnded trunc writes now max_events per_owner file s' h =
    let loaded = load_file-Loaded trunc writes now max_events per_owner file s' h in
    (
      loaded.ended,
      Every-map (Survives trunc now file) IsEnded s'.events (Survives-IsEnded trunc now file)
          loaded.ended,
      loaded.few,
    )
