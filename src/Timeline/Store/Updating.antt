-- ===== src/Timeline/Store/Updating.antt =====
-- command_timeline.py: `update`.
pub mod Single
use Prim.Native.String.{◌++◌, count}
use faryo_codex_web_ui.Base.{
  ℕ, suc, ◌+◌, ◌-◌, ◌*◌, ◌/◌, max, Bool, true, false, not, ◌||◌, ◌&&◌, Option, none, some, List, [],
  ◌∷◌, ◌++◌ as append, String, str_eq, leb, ltb, ◌==◌, if◌then◌else◌, length, drop, keep, map,
}
use mathlib.Core.List.{reverse}
use faryo_codex_web_ui.Base.Dict.{Dict, get, put}
use faryo_codex_web_ui.Base.Text.{take, strip, has_char, is_empty, is_request_id, ℤ, pos}
use faryo_codex_web_ui.Json.{
  Value, Fields, Elements, int, text, bool, array, float, mapping, no_fields, field, no_items, item,
  get_field, encoded_bytes,
}
use faryo_codex_web_ui.Json.Str.{text_or, truthy}
use faryo_codex_web_ui.Json.Read.{Whole, iterated}
use faryo_codex_web_ui.Timeline.Command.{
  CommandStatus, running, waiting, completed, failed, Metadata, command_parts, command_is_durable,
  safe_argument, command_label, command_summary, max_summary_chars,
}
use faryo_codex_web_ui.Timeline.Event.{
  CommandEvent, Reading, skipped, raised, taken, valid_event, event_value, status_text,
  parse_status, clean_metadata,
}
use faryo_codex_web_ui.Timeline.Store.{
  StoredFile, missing, unreadable, content, Timeline, TimelineError, invalid_owner, invalid_event,
  id_reused, invalid_status, os_error, type_error, Outcome, returns, raises, max_file_bytes, trim,
  save, saved, fresh, either, find_last, modify_last, valid_owner_key, is_final, has_id,
}

-- `{**old, **new}`
merge : Metadata → Metadata → Metadata
merge old new = record {
  title = either new.title old.title;
  selection = either new.selection old.selection;
  action = either new.action old.action;
  enabled = either new.enabled old.enabled;
}

asked_interaction : Option String → String → String
asked_interaction none old = old
asked_interaction (some i) old = take 160 i

-- The event after `update`.
unfoldable pub updated : ℕ → CommandStatus → Metadata → Option String → CommandEvent → CommandEvent
unfolding merge asked_interaction
updated now status metadata interaction_id e =
    let combined = merge e.metadata metadata in
    record e {
      metadata = combined;
      status = status;
      summary = take max_summary_chars (command_summary e.name status combined);
      interaction_id =
          if is_final status then "" else asked_interaction interaction_id e.interaction_id;
      completed_at = if is_final status then now else e.completed_at;
    }

update_found :
    Bool
    → ℕ
    → Timeline
    → String
    → CommandStatus
    → Option String
    → Option Metadata
    → CommandEvent
    → Timeline × Outcome (Option CommandEvent)
unfolding updated saved
update_found writes now s event_id status interaction_id none e = (s, raises type_error)
update_found writes now s event_id status interaction_id (some metadata) e =
    let change = updated now status metadata interaction_id in
    (
      save writes (record s { events = modify_last (has_id event_id) change s.events }),
      saved writes (some (change e)),
    )

update_event :
    Bool
    → ℕ
    → Timeline
    → String
    → CommandStatus
    → Option Value
    → Option String
    → Option CommandEvent
    → Timeline × Outcome (Option CommandEvent)
unfolding update_found
update_event writes now s event_id status metadata interaction_id none = (s, returns none)
update_event writes now s event_id status metadata interaction_id (some e) =
    update_found writes now s event_id status interaction_id (clean_metadata metadata) e

update_status :
    Bool
    → ℕ
    → Timeline
    → String
    → Option CommandStatus
    → Option Value
    → Option String
    → Timeline × Outcome (Option CommandEvent)
unfolding update_event
update_status writes now s event_id none metadata interaction_id = (s, raises invalid_status)
update_status writes now s event_id (some status) metadata interaction_id =
    update_event writes now s event_id status metadata interaction_id
      (find_last (has_id event_id) s.events)

-- `update`
unfoldable pub update :
    Bool
    → ℕ
    → Timeline
    → String
    → String
    → Option Value
    → Option String
    → Timeline × Outcome (Option CommandEvent)
unfolding update_status
update writes now s event_id status metadata interaction_id =
    update_status writes now s event_id (parse_status status) metadata interaction_id
