-- ===== src/Timeline/Store/Loading.antt =====
-- command_timeline.py: `_load`.
pub mod Ended
pub mod Restart
pub mod Survivors
use Prim.Native.String.{◌++◌, count}
use faryo_codex_web_ui.Base.{
  ℕ, suc, ◌+◌, ◌-◌, ◌*◌, ◌/◌, max, Bool, true, false, not, ◌||◌, ◌&&◌, Option, none, some, List, [],
  ◌∷◌, ◌++◌ as append, String, str_eq, leb, ltb, ◌==◌, if◌then◌else◌, length, drop, keep, map,
}
use mathlib.Core.List.{reverse}
use faryo_codex_web_ui.Base.Dict.{Dict, get, put}
use faryo_codex_web_ui.Base.Text.{take, strip, has_char, is_empty, is_request_id, ℤ, pos}
use faryo_codex_web_ui.Json.{
  Value, Fields, Elements, int, text, bool, array, float, mapping, no_fields, field, no_items, item,
  get_field, encoded_bytes,
}
use faryo_codex_web_ui.Json.Str.{text_or, truthy}
use faryo_codex_web_ui.Json.Read.{Whole, iterated}
use faryo_codex_web_ui.Timeline.Command.{
  CommandStatus, running, waiting, completed, failed, Metadata, command_parts, command_is_durable,
  safe_argument, command_label, command_summary, max_summary_chars,
}
use faryo_codex_web_ui.Timeline.Event.{
  CommandEvent, Reading, skipped, raised, taken, valid_event, event_value, status_text,
  parse_status, clean_metadata,
}
use faryo_codex_web_ui.Timeline.Store.{
  StoredFile, missing, unreadable, content, Timeline, TimelineError, invalid_owner, invalid_event,
  id_reused, invalid_status, os_error, type_error, Outcome, returns, raises, max_file_bytes, trim,
  save, saved, fresh, either, find_last, modify_last, valid_owner_key, is_final, has_id,
}

read_event : Reading → Option (List CommandEvent) → Option (List CommandEvent)
read_event skipped later = later
read_event raised later = none
read_event (taken e) none = none
read_event (taken e) (some es) = some (e ∷ es)

-- The events of a file's list; `none` is an exception that nothing catches.
read_events : (String → Whole) → Elements → Option (List CommandEvent)
unfolding read_event
read_events trunc no_items = some []
read_events trunc (item v rest) = read_event (valid_event trunc v) (read_events trunc rest)

is_open : CommandStatus → Bool
is_open running = true
is_open waiting = true
is_open completed = false
is_open failed = false

-- What was still open when the service stopped has failed.
pub interrupt : ℕ → CommandEvent → CommandEvent
unfolding is_open
interrupt now e =
    if is_open e.status
    then record e {
      status = failed;
      summary = e.label ++ " interrupted by service restart";
      completed_at = now;
      interaction_id = "";
    }
    else e

any_open : List CommandEvent → Bool
unfolding is_open
any_open [] = false
any_open (e ∷ es) = is_open e.status || any_open es

load_events : Bool → ℕ → Timeline → Option (List CommandEvent) → Outcome Timeline
unfolding saved
load_events writes now s none = raises type_error
load_events writes now s (some events) =
    let kept = trim s.max_events_per_owner s.max_events events in
    let s' = record s { events = map (interrupt now) kept } in
    if any_open kept then saved writes (save writes s') else returns s'

-- The version that the file states, and its list of events; without a list there are none.
abbrev version_of : Fields → Option Value
version_of = get_field "schemaVersion"

is_current : Option Value → Bool
is_current (some (int (pos n))) = n == 1
is_current (some (bool b)) = b
is_current (some (float shown)) = str_eq shown "1.0"
is_current _ = false

pub read_iterated : (String → Whole) → Option Elements → Option (List CommandEvent)
unfolding read_events
read_iterated trunc none = none
read_iterated trunc (some xs) = read_events trunc xs

load_value : (String → Whole) → Bool → ℕ → Timeline → Value → Outcome Timeline
unfolding load_events read_iterated is_current any_open interrupt
load_value trunc writes now s (mapping fs) =
    if is_current (version_of fs)
    then load_events writes now s (read_iterated trunc (iterated (get_field "events" fs)))
    else returns (record s { load_errors = suc s.load_errors })
load_value trunc writes now s _ = returns (record s { load_errors = suc s.load_errors })

-- `_load`, on the file that the state holds.
unfoldable pub load : (String → Whole) → Bool → ℕ → Timeline → Outcome Timeline
unfolding load_value
load trunc writes now s = elim s.file [
  | missing ↦ returns s
  | unreadable ↦ returns (record s { load_errors = suc s.load_errors })
  | content size v ↦
      if ltb max_file_bytes size
      then returns (record s { load_errors = suc s.load_errors })
      else load_value trunc writes now s v
]
