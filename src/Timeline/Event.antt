-- ===== src/Timeline/Event.antt =====
-- command_timeline.py: an event, its JSON form in the file, and `_valid_event`, which reads it back. The
-- result of `int` on a float, given by its repr, is the parameter `trunc`.
pub mod Roundtrip
use Prim.Native.Char.{code}
use Prim.Native.String.{count}
use faryo_codex_web_ui.Base.{
  ℕ, Bool, true, false, not, ◌||◌, ◌&&◌, Option, none, some, String, str_eq, leb, ◌==◌,
  if◌then◌else◌,
}
use faryo_codex_web_ui.Base.Text.{
  after_text, take, is_empty, all_chars, is_digit, is_alnum, is_request_id, ℤ, pos, negsuc, int,
}
use faryo_codex_web_ui.Json.{
  Value, Fields, bool, int as int_value, float, text, array, mapping, no_fields, field, get_field,
}
use faryo_codex_web_ui.Json.Str.{text_or, truthy}
use faryo_codex_web_ui.Json.Read.{Whole, Number, number, refused, overflows, time_field}
use faryo_codex_web_ui.Timeline.Command.{
  CommandStatus, running, waiting, completed, failed, Metadata, is_command, is_control_verb,
  no_metadata, safe_selection, command_label, max_title_chars, max_summary_chars,
}

pub record CommandEvent : Type 0 where
  pub id : String
  pub owner_key : String
  pub request_id : String
  pub digest : String
  pub name : String
  pub label : String
  pub status : CommandStatus
  pub summary : String
  pub anchor_key : String
  pub interaction_id : String
  pub metadata : Metadata
  pub started_at : ℕ
  pub completed_at : ℕ

abbrev pub status_text : CommandStatus → String
status_text running = "running"
status_text waiting = "waiting"
status_text completed = "completed"
status_text failed = "failed"

-- `status in COMMAND_STATUSES`, with the status read.
unfoldable pub parse_status : String → Option CommandStatus
parse_status s =
    if str_eq s "running"
    then some running
    else if str_eq s "waiting"
    then some waiting
    else if str_eq s "completed"
    then some completed
    else if str_eq s "failed"
    then some failed
    else none

clean_title : Option Value → Option String
clean_title (some (text s)) = some (take max_title_chars s)
clean_title _ = none

clean_selection : Option Value → Option String
clean_selection (some (text s)) = if safe_selection s then some s else none
clean_selection _ = none

-- A test of membership in a set hashes the value, which raises TypeError on a list or an object.
is_hashable : Option Value → Bool
is_hashable (some (array xs)) = false
is_hashable (some (mapping fs)) = false
is_hashable _ = true

clean_action : Option Value → Option String
clean_action (some (text s)) = if is_control_verb s || str_eq s "cancel" then some s else none
clean_action _ = none

clean_enabled : Option Value → Option Bool
clean_enabled (some (bool b)) = some b
clean_enabled _ = none

clean_fields : Fields → Metadata
clean_fields fs = record {
  title = clean_title (get_field "title" fs);
  selection = clean_selection (get_field "selection" fs);
  action = clean_action (get_field "action" fs);
  enabled = clean_enabled (get_field "enabled" fs);
}

-- `_clean_metadata`; `none` is its TypeError.
unfoldable pub clean_metadata : Option Value → Option Metadata
unfolding clean_fields clean_title clean_selection clean_action clean_enabled is_hashable
clean_metadata (some (mapping fs)) =
    if is_hashable (get_field "action" fs) then some (clean_fields fs) else none
clean_metadata _ = some no_metadata

-- `re.fullmatch(r"cmd_[A-Za-z0-9_-]{16,80}", s)`
abbrev is_token_char : ℕ → Bool
is_token_char n = is_alnum n || n == b'_' || n == b'-'

token_fits : Option String → Bool
token_fits none = false
token_fits (some s) = all_chars is_token_char s && leb 16 (count s) && leb (count s) 80

unfoldable pub is_event_id : String → Bool
unfolding token_fits
is_event_id s = token_fits (after_text "cmd_" s)

-- `re.fullmatch(r"[0-9a-f]{64}", s)`
unfoldable pub is_digest : String → Bool
is_digest s = all_chars (λ n. is_digit n || (leb b'a' n && leb n b'f')) s && count s == 64

-- `_valid_event` leaves an entry out, takes it, or raises what its callers do not catch.
pub data Reading : Type 0 where
  skipped raised : Reading
  taken : CommandEvent → Reading

abbrev text_field : String → Fields → String
text_field key fs = text_or "" (get_field key fs)

event_of : Fields → CommandStatus → ℕ → ℕ → Option Metadata → Reading
event_of fs status started done none = raised
event_of fs status started done (some metadata) = taken (record {
  id = text_field "id" fs;
  owner_key = text_field "ownerKey" fs;
  request_id = text_field "requestId" fs;
  digest = text_field "digest" fs;
  name = text_field "name" fs;
  label = command_label (text_field "name" fs);
  status = status;
  summary = take max_summary_chars (text_field "summary" fs);
  anchor_key = take 160 (text_field "anchorKey" fs);
  interaction_id = take 160 (text_field "interactionId" fs);
  metadata = metadata;
  started_at = started;
  completed_at = done;
})

event_times : Fields → CommandStatus → Number → Number → Reading
unfolding event_of
event_times fs status (number started) (number done) =
    event_of fs status started done (clean_metadata (get_field "metadata" fs))
event_times fs status (number started) refused = skipped
event_times fs status (number started) overflows = raised
event_times fs status refused done = skipped
event_times fs status overflows done = raised

abbrev names_fit : Fields → Bool
names_fit fs =
    is_event_id (text_field "id" fs)
    && not (is_empty (text_field "ownerKey" fs))
    && leb (count (text_field "ownerKey" fs)) 320
    && is_request_id (text_field "requestId" fs)
    && is_digest (text_field "digest" fs)
    && is_command (text_field "name" fs)

event_status : (String → Whole) → Fields → Option CommandStatus → Reading
unfolding event_times
event_status trunc fs none = skipped
event_status trunc fs (some status) =
    event_times fs status (time_field trunc (get_field "startedAt" fs))
      (time_field trunc (get_field "completedAt" fs))

-- `_valid_event`
unfoldable pub valid_event : (String → Whole) → Value → Reading
unfolding event_status
valid_event trunc (mapping fs) =
    if names_fit fs then event_status trunc fs (parse_status (text_field "status" fs)) else skipped
valid_event trunc _ = skipped

optional_field : String → Option Value → Fields → Fields
optional_field k none fs = fs
optional_field k (some v) fs = field k v fs

text_value : Option String → Option Value
text_value none = none
text_value (some s) = some (text s)

bool_value : Option Bool → Option Value
bool_value none = none
bool_value (some b) = some (bool b)

-- The object that `json.dumps(..., sort_keys=True)` writes for metadata.
metadata_value : Metadata → Value
unfolding optional_field text_value bool_value
metadata_value m = mapping (
    optional_field "action" (text_value m.action) (
      optional_field "enabled" (bool_value m.enabled) (
        optional_field "selection" (text_value m.selection)
          (optional_field "title" (text_value m.title) no_fields))))

unfoldable pub event_value : CommandEvent → Value
unfolding metadata_value
event_value e = mapping (
    field "anchorKey" (text e.anchor_key) (
      field "completedAt" (int_value (pos e.completed_at)) (
        field "digest" (text e.digest) (
          field "id" (text e.id) (
            field "interactionId" (text e.interaction_id) (
              field "label" (text e.label) (
                field "metadata" (metadata_value e.metadata) (
                  field "name" (text e.name) (
                    field "ownerKey" (text e.owner_key) (
                      field "requestId" (text e.request_id) (
                        field "startedAt" (int_value (pos e.started_at)) (
                          field "status" (text (status_text e.status))
                            (field "summary" (text e.summary) no_fields)))))))))))))
