-- ===== src/Timeline/Store.antt =====
-- command_timeline.py: `CommandTimelineStore`. The file is part of the state; `sha256` and the whole part of
-- a float are parameters, and each call is told its random token, the time in milliseconds and whether
-- the file can be written.
pub mod Trim
pub mod Loading
pub mod Adding
pub mod Updating
use Prim.Native.String.{◌++◌, count}
use faryo_codex_web_ui.Base.{
  ℕ, suc, ◌+◌, ◌-◌, ◌*◌, ◌/◌, max, Bool, true, false, not, ◌||◌, ◌&&◌, Option, none, some, List, [],
  ◌∷◌, ◌++◌ as append, String, str_eq, leb, ltb, ◌==◌, if◌then◌else◌, length, drop, keep, map,
}
use mathlib.Core.List.{reverse}
use faryo_codex_web_ui.Base.Dict.{Dict, get, put}
use faryo_codex_web_ui.Base.Text.{take, strip, has_char, is_empty, is_request_id, ℤ, pos}
use faryo_codex_web_ui.Json.{
  Value, Fields, Elements, int, text, bool, array, float, mapping, no_fields, field, no_items, item,
  get_field, encoded_bytes,
}
use faryo_codex_web_ui.Json.Str.{text_or, truthy}
use faryo_codex_web_ui.Json.Read.{Whole, iterated}
use faryo_codex_web_ui.Timeline.Command.{
  CommandStatus, running, waiting, completed, failed, Metadata, command_parts, command_is_durable,
  safe_argument, command_label, command_summary, max_summary_chars,
}
use faryo_codex_web_ui.Timeline.Event.{
  CommandEvent, Reading, skipped, raised, taken, valid_event, event_value, status_text,
  parse_status, clean_metadata,
}

-- What stands at the store's path; a readable file has its size.
pub data StoredFile : Type 0 where
  missing unreadable : StoredFile
  content : ℕ → Value → StoredFile

pub record Timeline : Type 0 where
  pub max_events : ℕ
  pub max_events_per_owner : ℕ
  pub events : List CommandEvent
  pub load_errors : ℕ
  pub file : StoredFile

pub data TimelineError : Type 0 where
  invalid_owner invalid_event id_reused invalid_status os_error type_error : TimelineError

pub data Outcome {ℓ} (A : Type ℓ) : Type ℓ where
  returns : A → Outcome A
  raises : TimelineError → Outcome A

abbrev pub max_file_bytes : ℕ
max_file_bytes = 768 * 1024

count_of : Option ℕ → ℕ
count_of none = 0
count_of (some n) = n

-- The loop of `_trim`, from the newest event: `counts` by owner, and the number selected so far.
unfoldable pub select : ℕ → ℕ → Dict ℕ → ℕ → List CommandEvent → List CommandEvent
unfolding count_of
select per_owner limit counts selected [] = []
select per_owner limit counts selected (e ∷ es) =
    let n = count_of (get e.owner_key counts) in
    let skip = select per_owner limit counts selected es in
    let more = select per_owner limit (put e.owner_key (suc n) counts) (suc selected) es in
    if leb per_owner n then skip else if leb limit (suc selected) then e ∷ [] else e ∷ more

-- `_trim`
unfoldable pub trim : ℕ → ℕ → List CommandEvent → List CommandEvent
unfolding select
trim per_owner limit events = reverse (select per_owner limit [] 0 (reverse events))

event_items : List CommandEvent → Elements
event_items [] = no_items
event_items (e ∷ es) = item (event_value e) (event_items es)

-- The body that `_save` writes, and its bytes with the line end.
unfoldable pub body_value : List CommandEvent → Value
unfolding event_items
body_value events =
    mapping
      (field "events" (array (event_items events)) (field "schemaVersion" (int (pos 1)) no_fields))

unfoldable pub body_bytes : List CommandEvent → ℕ
body_bytes events = encoded_bytes (body_value events) + 1

-- The events that are left where the body is too large: `self.events[-max(1, self.max_events // 2):]`.
fitting : ℕ → List CommandEvent → List CommandEvent
unfolding body_bytes
fitting limit events =
    if ltb max_file_bytes (body_bytes events)
    then drop (length events - max 1 (limit / 2)) events
    else events

-- `_save`; where the file cannot be written it raises OSError, with the events cut all the same.
unfoldable pub save : Bool → Timeline → Timeline
unfolding fitting
save writes s =
    let events = fitting s.max_events s.events in
    record s {
      events = events;
      file = if writes then content (body_bytes events) (body_value events) else s.file;
    }

pub saved {ℓ} : {A : Type ℓ} → Bool → A → Outcome A
saved true a = returns a
saved false a = raises os_error

-- `CommandTimelineStore.__init__`, up to `_load`: both limits are at least one.
unfoldable pub fresh : ℕ → ℕ → StoredFile → Timeline
fresh max_events max_events_per_owner file = record {
  max_events = max 1 max_events;
  max_events_per_owner = max 1 max_events_per_owner;
  events = [];
  load_errors = 0;
  file = file;
}

abbrev pub either {ℓ} : {A : Type ℓ} → Option A → Option A → Option A
either (some a) _ = some a
either none b = b

-- `next((e for e in reversed(events) if test(e)), None)`
unfoldable pub find_last : (CommandEvent → Bool) → List CommandEvent → Option CommandEvent
find_last test [] = none
find_last test (e ∷ es) = either (find_last test es) (if test e then some e else none)

abbrev pub if_found {ℓ κ} : {A : Type ℓ} {B : Type κ} → Option A → B → B → B
if_found (some _) b otherwise = b
if_found none b otherwise = otherwise

-- A change of that event where it stands.
unfoldable pub modify_last :
    (CommandEvent → Bool) → (CommandEvent → CommandEvent) → List CommandEvent → List CommandEvent
modify_last test change [] = []
modify_last test change (e ∷ es) =
    if_found (find_last test es) (e ∷ modify_last test change es)
      ((if test e then change e else e) ∷ es)

-- `_valid_owner_key`
unfoldable pub valid_owner_key : Option Value → Outcome String
valid_owner_key value =
    let key = strip (text_or "" value) in
    if is_empty key || ltb 320 (count key) || has_char 0 key
    then raises invalid_owner
    else returns key

abbrev pub is_final : CommandStatus → Bool
is_final running = false
is_final waiting = false
is_final completed = true
is_final failed = true

abbrev pub has_id : String → CommandEvent → Bool
has_id event_id e = str_eq e.id event_id

interaction_event : Timeline → String → Outcome String → Outcome (Option CommandEvent)
interaction_event s interaction_id (raises e) = raises e
interaction_event s interaction_id (returns key) =
    returns
      (find_last (λ e. str_eq e.owner_key key && str_eq e.interaction_id interaction_id) s.events)

-- `event_for_interaction`
unfoldable pub event_for_interaction :
    Timeline → Option Value → String → Outcome (Option CommandEvent)
unfolding interaction_event
event_for_interaction s owner_key interaction_id =
    interaction_event s interaction_id (valid_owner_key owner_key)

-- `public_event`: the row that a browser sees, without owner, request or digest.
unfoldable pub public_event : CommandEvent → Value
public_event e = mapping (
    field "id" (text e.id) (
      field "kind" (text "command") (
        field "name" (text e.name) (
          field "label" (text (if is_empty e.label then "Codex command" else e.label)) (
            field "summary" (text (take max_summary_chars e.summary)) (
              field "status" (text (status_text e.status)) (
                field "anchorKey" (text e.anchor_key) (
                  field "startedAt" (int (pos e.started_at)) (
                    field "completedAt" (int (pos e.completed_at))
                      (field "final" (bool (is_final e.status)) no_fields))))))))))

owned_events : Timeline → Outcome String → Outcome (List Value)
owned_events s (raises e) = raises e
owned_events s (returns key) =
    returns (map public_event (keep (λ e. str_eq e.owner_key key) s.events))

-- `public_events`
unfoldable pub public_events : Timeline → Option Value → Outcome (List Value)
unfolding owned_events
public_events s owner_key = owned_events s (valid_owner_key owner_key)
