-- ===== src/Timeline/Store/Adding.antt =====
-- command_timeline.py: `begin`.
pub mod Once
use Prim.Native.String.{◌++◌, count}
use faryo_codex_web_ui.Base.{
  ℕ, suc, ◌+◌, ◌-◌, ◌*◌, ◌/◌, max, Bool, true, false, not, ◌||◌, ◌&&◌, Option, none, some, List, [],
  ◌∷◌, ◌++◌ as append, String, str_eq, leb, ltb, ◌==◌, if◌then◌else◌, length, drop, keep, map,
}
use mathlib.Core.List.{reverse}
use faryo_codex_web_ui.Base.Dict.{Dict, get, put}
use faryo_codex_web_ui.Base.Text.{take, strip, has_char, is_empty, is_request_id, ℤ, pos}
use faryo_codex_web_ui.Json.{
  Value, Fields, Elements, int, text, bool, array, float, mapping, no_fields, field, no_items, item,
  get_field, encoded_bytes,
}
use faryo_codex_web_ui.Json.Str.{text_or, truthy}
use faryo_codex_web_ui.Json.Read.{Whole, iterated}
use faryo_codex_web_ui.Timeline.Command.{
  CommandStatus, running, waiting, completed, failed, Metadata, command_parts, command_is_durable,
  safe_argument, command_label, command_summary, max_summary_chars,
}
use faryo_codex_web_ui.Timeline.Event.{
  CommandEvent, Reading, skipped, raised, taken, valid_event, event_value, status_text,
  parse_status, clean_metadata,
}
use faryo_codex_web_ui.Timeline.Store.{
  StoredFile, missing, unreadable, content, Timeline, TimelineError, invalid_owner, invalid_event,
  id_reused, invalid_status, os_error, type_error, Outcome, returns, raises, max_file_bytes, trim,
  save, saved, fresh, either, find_last, modify_last, valid_owner_key, is_final, has_id,
}

-- The arguments of `begin`.
pub record Beginning : Type 0 where
  pub owner_key : Option Value
  pub request_id : Option Value
  pub invocation : Option Value
  pub anchor_key : Option Value

abbrev pub is_request : String → String → CommandEvent → Bool
is_request key request_id e = str_eq e.owner_key key && str_eq e.request_id request_id

pub new_event : ℕ → String → String → String → String → String → String → String → CommandEvent
new_event now token key request_id digest name argument anchor = record {
  id = "cmd_" ++ token;
  owner_key = key;
  request_id = request_id;
  digest = digest;
  name = name;
  label = command_label name;
  status = running;
  summary = command_summary name running (safe_argument name argument);
  anchor_key = take 160 anchor;
  interaction_id = "";
  metadata = safe_argument name argument;
  started_at = now;
  completed_at = 0;
}

-- What `begin` does under its lock, with a digest and the event that it would add.
begin_locked :
    Bool
    → Timeline
    → CommandEvent
    → Option CommandEvent
    → Timeline × Outcome (Option CommandEvent × Bool)
unfolding saved
begin_locked writes s e (some existing) =
    if str_eq existing.digest e.digest
    then (s, returns (some existing, true))
    else (s, raises id_reused)
begin_locked writes s e none =
    let s' = record s {
      events = trim s.max_events_per_owner s.max_events (append s.events (e ∷ []));
    } in
    (save writes s', saved writes (some e, false))

begin_owned : Bool → Timeline → CommandEvent → Timeline × Outcome (Option CommandEvent × Bool)
unfolding begin_locked
begin_owned writes s e =
    begin_locked writes s e (find_last (is_request e.owner_key e.request_id) s.events)

begin_key :
    Bool
    → ℕ
    → String
    → Timeline
    → String
    → String
    → (String × String)
    → String
    → Outcome String
    → Timeline × Outcome (Option CommandEvent × Bool)
unfolding begin_owned new_event
begin_key writes now token s request_id digest (name, argument) anchor (raises e) = (s, raises e)
begin_key writes now token s request_id digest (name, argument) anchor (returns key) =
    begin_owned writes s (new_event now token key request_id digest name argument anchor)

begin_parts :
    (String → String)
    → Bool
    → ℕ
    → String
    → Timeline
    → Beginning
    → Option (String × String)
    → Timeline × Outcome (Option CommandEvent × Bool)
unfolding begin_key
begin_parts sha256 writes now token s b none = (s, raises invalid_event)
begin_parts sha256 writes now token s b (some parts) =
    let request_id = strip (text_or "" b.request_id) in
    if is_request_id request_id
    then (if command_is_durable b.invocation
        then begin_key writes now token s request_id (sha256 (strip (text_or "" b.invocation)))
            parts (text_or "" b.anchor_key) (valid_owner_key b.owner_key)
        else (s, returns (none, false)))
    else (s, raises invalid_event)

-- `begin`: the event, if the command is kept at all, and whether it was there before.
unfoldable pub begin :
    (String → String)
    → Bool
    → ℕ
    → String
    → Timeline
    → Beginning
    → Timeline × Outcome (Option CommandEvent × Bool)
unfolding begin_parts
begin sha256 writes now token s b =
    begin_parts sha256 writes now token s b (command_parts b.invocation)
