-- ===== src/Timeline/Store/Loading/Survivors.antt =====
-- command_timeline.py: what a start makes of each event that the file states.
use Prim.Native.String.{◌++◌}
use faryo_codex_web_ui.Base.{
  ap, ◌∙◌, ◌⊎◌, Every-map, ℕ, ◌≡◌, refl, subst, true, false, Option, none, some, List, [], ◌∷◌,
  String, Bool-cases, inl, inr, map, Every,
}
use faryo_codex_web_ui.Json.{Fields, Value, Elements, no_items, item, mapping, get_field}
use faryo_codex_web_ui.Timeline.Command.{CommandStatus, running, waiting, completed, failed}
use faryo_codex_web_ui.Json.Read.{Whole, iterated}
use faryo_codex_web_ui.Timeline.Event.{CommandEvent, Reading, skipped, raised, valid_event, taken}
use faryo_codex_web_ui.Timeline.Store.{StoredFile, content, is_final}
use faryo_codex_web_ui.Timeline.Store.Loading.{
  is_open, read_event, read_events, interrupt, read_iterated,
}

-- The event has ended.
abbrev pub IsEnded : CommandEvent → Type 0
IsEnded e = is_final e.status ≡ true

closed-final : (s : CommandStatus) → is_open s ≡ false → is_final s ≡ true
unfolding is_open
closed-final running h = cc
closed-final waiting h = cc
closed-final completed h = refl
closed-final failed h = refl

-- The value is an item of the array.
pub data Item (raw : Value) : Elements → Type 0 where
  at_head : {rest : Elements} → Item raw (item raw rest)
  in_tail : {v : Value} {rest : Elements} → Item raw rest → Item raw (item v rest)

-- The event is one of those that the file's array of events gives.
abbrev pub Stated : (String → Whole) → StoredFile → CommandEvent → Type 0
Stated trunc (content size (mapping fs)) e =
    (xs : Elements) × (raw : Value) × (iterated (get_field "events" fs) ≡ some xs)
    × Item raw xs
    × (valid_event trunc raw ≡ taken e)
Stated trunc _ e = ⊥

-- What a start makes of an event of the file: one that had ended stays as it was; one that was running or waiting
-- has failed now, is waiting for no answer, and its summary says so.
pub record Survives (trunc : String → Whole) (now : ℕ) (file : StoredFile) (e : CommandEvent)
    : Type 0 where
  pub old : CommandEvent
  pub stated : Stated trunc file old
  pub fate :
      ((is_final old.status ≡ true) × (e ≡ old))
      ⊎ (((old.status ≡ running) ⊎ (old.status ≡ waiting))
          × (e ≡ record old {
            status = failed;
            summary = old.label ++ " interrupted by service restart";
            completed_at = now;
            interaction_id = "";
          }))

open_status : (s : CommandStatus) → is_open s ≡ true → (s ≡ running) ⊎ (s ≡ waiting)
unfolding is_open
open_status running h = inl refl
open_status waiting h = inr refl
open_status completed h = cc h
open_status failed h = cc h

interrupt-Survives :
    (trunc : String → Whole) (now : ℕ) (file : StoredFile) (e : CommandEvent)
    → Stated trunc file e
    → Survives trunc now file (interrupt now e)
unfolding interrupt
interrupt-Survives trunc now file e stated = record {
  old = e;
  stated = stated;
  fate = elim (Bool-cases (is_open e.status)) [
    | inl begun ↦ rw begun (inr (open_status e.status begun, refl))
    | inr closed ↦ rw closed (inl (closed-final e.status closed, refl))
  ];
}

pub map-Survives :
    (trunc : String → Whole) (now : ℕ) (file : StoredFile) (es : List CommandEvent)
    → Every (Stated trunc file) es
    → Every (Survives trunc now file) (map (interrupt now) es)
map-Survives trunc now file [] h = tt
map-Survives trunc now file (e ∷ es) h =
    (interrupt-Survives trunc now file e h.0, map-Survives trunc now file es h.1)

pub Survives-IsEnded :
    (trunc : String → Whole) (now : ℕ) (file : StoredFile) (e : CommandEvent)
    → Survives trunc now file e
    → IsEnded e
Survives-IsEnded trunc now file e v = elim v.fate [
  | inl (ended, same) ↦ ap (λ (x : CommandEvent). is_final x.status) same ∙ ended
  | inr (begun, cut) ↦ ap (λ (x : CommandEvent). is_final x.status) cut
]

-- The events that are read are those of the array.
ReadFrom : (String → Whole) → Elements → CommandEvent → Type 0
ReadFrom trunc xs e = (raw : Value) × Item raw xs × (valid_event trunc raw ≡ taken e)

list-eq : (xs ys : List CommandEvent) → some xs ≡ some ys → xs ≡ ys
list-eq xs ys h = cc h

later-ReadFrom :
    (trunc : String → Whole) (v : Value) (rest : Elements) (es : List CommandEvent)
    → Every (ReadFrom trunc rest) es
    → Every (ReadFrom trunc (item v rest)) es
unfolding ReadFrom
later-ReadFrom trunc v rest es =
    Every-map (ReadFrom trunc rest) (ReadFrom trunc (item v rest)) es
      (λ e found. (found.0, in_tail found.1, found.2))

read_event-ReadFrom :
    (trunc : String → Whole) (v : Value) (rest : Elements) (reading : Reading)
    (later : Option (List CommandEvent)) (es : List CommandEvent)
    → valid_event trunc v ≡ reading
    → ((ds : List CommandEvent) → later ≡ some ds → Every (ReadFrom trunc rest) ds)
    → read_event reading later ≡ some es
    → Every (ReadFrom trunc (item v rest)) es
unfolding read_event
read_event-ReadFrom trunc v rest skipped later es read found h =
    later-ReadFrom trunc v rest es (found es h)
read_event-ReadFrom trunc v rest raised later es read found h = cc h
read_event-ReadFrom trunc v rest (taken e) none es read found h = cc h
read_event-ReadFrom trunc v rest (taken e) (some ds) es read found h =
    subst (Every (ReadFrom trunc (item v rest))) (list-eq (e ∷ ds) es h)
      (unfold ReadFrom in (v, at_head, read), later-ReadFrom trunc v rest ds (found ds refl))

read_events-ReadFrom :
    (trunc : String → Whole) (xs : Elements) (es : List CommandEvent)
    → read_events trunc xs ≡ some es
    → Every (ReadFrom trunc xs) es
unfolding read_events read_event ReadFrom
read_events-ReadFrom trunc no_items es h =
    subst (Every (ReadFrom trunc no_items)) (list-eq [] es h) tt
read_events-ReadFrom trunc (item v rest) es h =
    read_event-ReadFrom trunc v rest (valid_event trunc v) (read_events trunc rest) es refl
      (read_events-ReadFrom trunc rest) h

-- The events of the file's array, where it has one.
pub read_iterated-Stated :
    (trunc : String → Whole) (size : ℕ) (fs : Fields) (o : Option Elements)
    (events : List CommandEvent)
    → iterated (get_field "events" fs) ≡ o
    → read_iterated trunc o ≡ some events
    → Every (Stated trunc (content size (mapping fs))) events
unfolding read_iterated ReadFrom
read_iterated-Stated trunc size fs none events given h = cc h
read_iterated-Stated trunc size fs (some xs) events given h =
    Every-map (ReadFrom trunc xs) (Stated trunc (content size (mapping fs))) events
      (λ e found. (xs, found.0, given, found.1, found.2)) (read_events-ReadFrom trunc xs events h)
