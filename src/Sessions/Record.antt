-- ===== src/Sessions/Record.antt =====
-- appserver_registry.py: `WebSessionRecord`, its JSON form in the file, and `from_value`, which reads it back.
pub mod Valid
use Prim.Native.String.{count}
use faryo_codex_web_ui.Base.{
  ℕ, Bool, not, ◌||◌, ◌&&◌, Option, none, some, List, String, str_eq, leb, ◌==◌, if◌then◌else◌,
  first,
}
use faryo_codex_web_ui.Base.Text.{take, is_empty, has_char, all_chars, is_digit, pos}
use faryo_codex_web_ui.Json.{Value, Fields, int, text, mapping, no_fields, field, get_field}
use faryo_codex_web_ui.Json.Read.{Whole, Number, number, refused, overflows, time_field, or_value}
use faryo_codex_web_ui.Json.Str.{text_or}
use faryo_codex_web_ui.Sessions.Namespace.{is_session_name, has_name}

pub data WorkerState : Type 0 where
  unknown starting ready reconnecting degraded stopping exited : WorkerState

abbrev pub worker_state_text : WorkerState → String
worker_state_text unknown = "unknown"
worker_state_text starting = "starting"
worker_state_text ready = "ready"
worker_state_text reconnecting = "reconnecting"
worker_state_text degraded = "degraded"
worker_state_text stopping = "stopping"
worker_state_text exited = "exited"

-- `state in WORKER_STATES`, with the state read.
unfoldable pub parse_worker_state : String → Option WorkerState
parse_worker_state s =
    if str_eq s "unknown"
    then some unknown
    else if str_eq s "starting"
    then some starting
    else if str_eq s "ready"
    then some ready
    else if str_eq s "reconnecting"
    then some reconnecting
    else if str_eq s "degraded"
    then some degraded
    else if str_eq s "stopping"
    then some stopping
    else if str_eq s "exited"
    then some exited
    else none

pub record WebSessionRecord : Type 0 where
  pub name : String
  pub thread_id : String
  pub cwd : String
  pub title : String
  pub model : String
  pub launch_id : String
  pub created_at : ℕ
  pub updated_at : ℕ
  pub worker_id : String
  pub worker_generation : ℕ
  pub worker_state : WorkerState

-- `session_backend.APP_SERVER.value`, the backend of every record.
abbrev pub backend : String
backend = "web-managed"

-- `WORKER_ID_RE.fullmatch(worker_id)`
unfoldable pub is_worker_id : String → Bool
is_worker_id s = all_chars (λ n. is_digit n || (leb b'a' n && leb n b'f')) s && count s == 24

-- `new_worker_id`, given the tokens that `secrets.token_hex` draws; `none` where it would draw more.
unfoldable pub new_worker_id : List String → List String → Option String
new_worker_id draws existing = first (λ value. not (has_name value existing)) draws

-- `from_value` leaves a value out, takes a record, raises what nothing catches, or draws on.
pub data Entry : Type 0 where
  skipped raised drawing : Entry
  taken : WebSessionRecord → Entry

abbrev two_keys : String → String → Fields → Option Value
two_keys old new fs = or_value (get_field old fs) (get_field new fs)

state_or_unknown : Option WorkerState → WorkerState
state_or_unknown none = unknown
state_or_unknown (some s) = s

record_of : Fields → String → ℕ → ℕ → ℕ → WebSessionRecord
unfolding state_or_unknown
record_of fs worker_id created updated generation = record {
  name = text_or "" (get_field "name" fs);
  thread_id = text_or "" (two_keys "thread_id" "threadId" fs);
  cwd = text_or "" (get_field "cwd" fs);
  title = take 240 (text_or "" (get_field "title" fs));
  model = take 160 (text_or "" (get_field "model" fs));
  launch_id = take 160 (text_or "" (two_keys "launch_id" "launchId" fs));
  created_at = created;
  updated_at = updated;
  worker_id = worker_id;
  worker_generation = generation;
  worker_state =
      state_or_unknown
        (parse_worker_state (text_or "unknown" (two_keys "worker_state" "workerState" fs)));
}

-- The three numbers are read in this order, and the first exception ends it.
record_times : Fields → String → Number → Number → Number → Entry
unfolding record_of
record_times fs worker_id (number created) (number updated) (number generation) =
    taken (record_of fs worker_id created updated generation)
record_times fs worker_id (number created) (number updated) refused = skipped
record_times fs worker_id (number created) (number updated) overflows = raised
record_times fs worker_id (number created) refused generation = skipped
record_times fs worker_id (number created) overflows generation = raised
record_times fs worker_id refused updated generation = skipped
record_times fs worker_id overflows updated generation = raised

record_worker : (String → Whole) → Fields → Option String → Entry
unfolding record_times
record_worker trunc fs none = drawing
record_worker trunc fs (some worker_id) =
    if is_worker_id worker_id
    then record_times fs worker_id (time_field trunc (two_keys "created_at" "createdAt" fs))
        (time_field trunc (two_keys "updated_at" "updatedAt" fs))
        (time_field trunc (two_keys "worker_generation" "workerGeneration" fs))
    else skipped

worker_of : List String → Bool → List String → Fields → Option String
worker_of draws allow_missing existing fs =
    let given = text_or "" (two_keys "worker_id" "workerId" fs) in
    if is_empty given && allow_missing then new_worker_id draws existing else some given

abbrev names_fit : Fields → Bool
names_fit fs =
    let cwd = text_or "" (get_field "cwd" fs) in
    is_session_name (text_or "" (get_field "name" fs))
    && not (is_empty (text_or "" (two_keys "thread_id" "threadId" fs)))
    && not (is_empty cwd)
    && not (has_char 0 cwd)

-- `WebSessionRecord.from_value`
unfoldable pub from_value : (String → Whole) → List String → Bool → List String → Value → Entry
unfolding worker_of record_worker
from_value trunc draws allow_missing existing (mapping fs) =
    if names_fit fs
    then record_worker trunc fs (worker_of draws allow_missing existing fs)
    else skipped
from_value trunc draws allow_missing existing _ = skipped

-- `asdict(record)`, with its keys sorted.
unfoldable pub record_value : WebSessionRecord → Value
record_value r = mapping (
    field "backend" (text backend) (
      field "created_at" (int (pos r.created_at)) (
        field "cwd" (text r.cwd) (
          field "launch_id" (text r.launch_id) (
            field "model" (text r.model) (
              field "name" (text r.name) (
                field "thread_id" (text r.thread_id) (
                  field "title" (text r.title) (
                    field "updated_at" (int (pos r.updated_at)) (
                      field "worker_generation" (int (pos r.worker_generation)) (
                        field "worker_id" (text r.worker_id) (
                          field "worker_state" (text (worker_state_text r.worker_state))
                            no_fields))))))))))))

-- `WebSessionRecord.public`, which leaves out the worker and the launch.
unfoldable pub public : WebSessionRecord → Value
public r = mapping (
    field "session" (text r.name) (
      field "threadId" (text r.thread_id) (
        field "cwd" (text r.cwd) (
          field "title" (text r.title) (
            field "model" (text r.model) (
              field "createdAt" (int (pos r.created_at)) (
                field "updatedAt" (int (pos r.updated_at)) (
                  field "backend" (text backend) (
                    field "workerState" (text (worker_state_text r.worker_state)) no_fields)))))))))
