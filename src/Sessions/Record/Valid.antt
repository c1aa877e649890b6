-- ===== src/Sessions/Record/Valid.antt =====
-- appserver_registry.py: what `from_value` takes.
use faryo_codex_web_ui.Base.{
  ◌≡◌, subst, Bool, true, Option, none, some, List, String, arith, Bool-cases, inl, inr,
}
use faryo_codex_web_ui.Json.{Value, Fields, mapping, get_field}
use faryo_codex_web_ui.Json.Read.{Whole, Number, number, refused, overflows}
use faryo_codex_web_ui.Json.Str.{text_or}
use faryo_codex_web_ui.Sessions.Namespace.{is_session_name}
use faryo_codex_web_ui.Sessions.Record.{
  WebSessionRecord, taken, is_worker_id, record_of, record_times, record_worker, worker_of,
  names_fit, from_value,
}

-- The name and the worker of a record that was taken.
pub record IsValid (r : WebSessionRecord) : Type 0 where
  pub name : is_session_name r.name ≡ true
  pub worker : is_worker_id r.worker_id ≡ true

names_fit-named :
    (fs : Fields) → names_fit fs ≡ true → is_session_name (text_or "" (get_field "name" fs)) ≡ true
names_fit-named fs h = ground arith

record_times-IsValid :
    (fs : Fields) (w : String) (a b c : Number) (r : WebSessionRecord)
    → is_session_name (text_or "" (get_field "name" fs)) ≡ true
    → is_worker_id w ≡ true
    → record_times fs w a b c ≡ taken r
    → IsValid r
unfolding record_times record_of
record_times-IsValid fs w (number a) (number b) (number c) r named worker h =
    let x = record_of fs w a b c in
    let both : taken x ≡ taken r = h in
    let same : x ≡ r = cc both in subst IsValid same (record { name = named; worker = worker })
record_times-IsValid fs w (number a) (number b) refused r named worker h = cc
record_times-IsValid fs w (number a) (number b) overflows r named worker h = cc
record_times-IsValid fs w (number a) refused c r named worker h = cc
record_times-IsValid fs w (number a) overflows c r named worker h = cc
record_times-IsValid fs w refused b c r named worker h = cc
record_times-IsValid fs w overflows b c r named worker h = cc

record_worker-IsValid :
    (trunc : String → Whole) (fs : Fields) (o : Option String) (r : WebSessionRecord)
    → is_session_name (text_or "" (get_field "name" fs)) ≡ true
    → record_worker trunc fs o ≡ taken r
    → IsValid r
unfolding record_worker
record_worker-IsValid trunc fs none r named h = cc
record_worker-IsValid trunc fs (some w) r named h = elim (Bool-cases (is_worker_id w)) [
  | inl valid ↦ record_times-IsValid fs w _ _ _ r named valid (rw valid at h)
  | inr bad ↦ cc (rw bad at h)
]

-- A record that is taken from the file has a session name and a well-formed worker id.
pub from_value-IsValid :
    (trunc : String → Whole) (draws : List String) (allow_missing : Bool) (existing : List String)
    (v : Value) (r : WebSessionRecord)
    → from_value trunc draws allow_missing existing v ≡ taken r
    → IsValid r
unfolding from_value
from_value-IsValid trunc draws allow_missing existing (mapping fs) r h =
    elim (Bool-cases (names_fit fs)) [
      | inl fit ↦
          record_worker-IsValid trunc fs (worker_of draws allow_missing existing fs) r
            (names_fit-named fs fit) (rw fit at h)
      | inr bad ↦ cc (rw bad at h)
    ]
from_value-IsValid trunc draws allow_missing existing _ r h = cc
