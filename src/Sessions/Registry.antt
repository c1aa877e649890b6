-- ===== src/Sessions/Registry.antt =====
-- appserver_registry.py: `WebSessionRegistry`. The file is part of the state; each call is told the tokens that
-- are drawn, the time in seconds and whether the file can be written.
pub mod Invariant
pub mod Adding
pub mod Changes
pub mod Reached
pub mod Loading
pub mod Reassign
use Prim.Native.String.{compare}
use Prim.Native.Nat.{Ordering, lt, eq, gt}
use faryo_codex_web_ui.Base.{
  ℕ, suc, ◌+◌, ◌-◌, Bool, true, false, not, ◌||◌, ◌&&◌, Option, none, some, is_some, List, [], ◌∷◌,
  ◌++◌ as append, String, str_eq, ltb, ◌==◌, if◌then◌else◌, map, first, any, keep,
}
use faryo_codex_web_ui.Base.Dict.{Dict, get, put, del}
use faryo_codex_web_ui.Base.Text.{take, is_empty, pos}
use faryo_codex_web_ui.Json.{
  Value, Fields, Elements, int, text, bool, float, array, mapping, no_fields, field, no_items, item,
  get_field,
}
use faryo_codex_web_ui.Json.Read.{Whole, iterated}
use faryo_codex_web_ui.Sessions.Namespace.{is_session_name, has_name, next_name}
use faryo_codex_web_ui.Sessions.Record.{
  WorkerState, unknown, parse_worker_state, WebSessionRecord, is_worker_id, new_worker_id, Entry,
  skipped, raised, drawing, taken, from_value, record_value,
}

pub data RegistryFile : Type 0 where
  missing unreadable : RegistryFile
  content : Value → RegistryFile

-- `None`
abbrev pub Nothing : Type 0
Nothing = Unit

pub record Registry : Type 0 where
  pub records : Dict WebSessionRecord
  pub load_errors : ℕ
  pub file : RegistryFile

-- What a call raises; `draws_on` stands for one that still draws tokens.
pub data RegistryError : Type 0 where
  name_unavailable worker_invalid worker_unavailable state_invalid type_error overflow_error
        os_error draws_on :
      RegistryError

pub data Outcome {ℓ} (A : Type ℓ) : Type ℓ where
  returns : A → Outcome A
  raises : RegistryError → Outcome A

-- `values`
abbrev pub values : Dict WebSessionRecord → List WebSessionRecord
values = map (λ entry. entry.1)

abbrev pub names : Dict WebSessionRecord → List String
names = map (λ entry. entry.0)

insert_record : WebSessionRecord → List WebSessionRecord → List WebSessionRecord
insert_record r [] = r ∷ []
insert_record r (q ∷ rs) =
    let rest = insert_record r rs in elim (compare r.name q.name) [ gt ↦ q ∷ rest | _ ↦ r ∷ q ∷ rs ]

-- `sorted(records, key=lambda item: item.name)`
sorted_records : List WebSessionRecord → List WebSessionRecord
unfolding insert_record
sorted_records [] = []
sorted_records (r ∷ rs) = insert_record r (sorted_records rs)

record_items : List WebSessionRecord → Elements
record_items [] = no_items
record_items (r ∷ rs) = item (record_value r) (record_items rs)

unfoldable pub body_value : Dict WebSessionRecord → Value
unfolding sorted_records record_items
body_value records = mapping (
    field "schemaVersion" (int (pos 2))
      (field "sessions" (array (record_items (sorted_records (values records)))) no_fields))

-- `save`; where the file cannot be written, OSError is raised and the records stay changed.
unfoldable pub save : Bool → Registry → Registry
save true s = record s { file = content (body_value s.records) }
save false s = s

pub saved {ℓ} : {A : Type ℓ} → Bool → A → Outcome A
saved true a = returns a
saved false a = raises os_error

pub is_known : Dict WebSessionRecord → String → Bool
is_known records name = is_some (get name records)

-- The arguments of `add`.
pub record Addition : Type 0 where
  pub thread_id : String
  pub cwd : String
  pub title : String
  pub model : String
  pub launch_id : String
  pub reserved : List String
  pub name : String
  pub worker_id : String

abbrev pub new_record : Addition → String → String → ℕ → WebSessionRecord
new_record a name worker_id now = record {
  name = name;
  thread_id = a.thread_id;
  cwd = a.cwd;
  title = take 240 a.title;
  model = take 160 a.model;
  launch_id = take 160 a.launch_id;
  created_at = now;
  updated_at = now;
  worker_id = worker_id;
  worker_generation = 0;
  worker_state = unknown;
}

abbrev pub worker_ids : Dict WebSessionRecord → List String
worker_ids records = map (λ (r : WebSessionRecord). r.worker_id) (values records)

add_worker :
    Bool → ℕ → Registry → Addition → String → Option String → Registry × Outcome WebSessionRecord
unfolding saved
add_worker writes now s a name none = (s, raises draws_on)
add_worker writes now s a name (some worker_id) =
    let r = new_record a name worker_id now in
    if not (is_worker_id worker_id)
    then (s, raises worker_invalid)
    else if has_name worker_id (worker_ids s.records)
    then (s, raises worker_unavailable)
    else (save writes (record s { records = put name r s.records }), saved writes r)

selected_worker : List String → Registry → Addition → Option String
selected_worker draws s a =
    if is_empty a.worker_id then new_worker_id draws (worker_ids s.records) else some a.worker_id

selected_name : Registry → Addition → String
selected_name s a =
    if is_empty a.name then next_name (names s.records ∷ a.reserved ∷ []) else a.name

-- `add`
unfoldable pub add :
    List String → Bool → ℕ → Registry → Addition → Registry × Outcome WebSessionRecord
unfolding add_worker selected_worker selected_name is_known
add draws writes now s a =
    let name = selected_name s a in
    if not (is_session_name name) || is_known s.records name
    then (s, raises name_unavailable)
    else add_worker writes now s a name (selected_worker draws s a)

-- `by_thread` and `by_launch`
unfoldable pub by_thread : Registry → String → Option WebSessionRecord
by_thread s thread_id = first (λ r. str_eq r.thread_id thread_id) (values s.records)

unfoldable pub by_launch : Registry → String → Option WebSessionRecord
by_launch s launch_id =
    if is_empty launch_id
    then none
    else first (λ r. str_eq r.launch_id launch_id) (values s.records)

-- A change of one record, and its time, where there is one under the name.
change_found :
    Bool
    → Registry
    → String
    → (WebSessionRecord → WebSessionRecord)
    → Option WebSessionRecord
    → Registry × Outcome Nothing
unfolding saved
change_found writes s name change none = (s, returns tt)
change_found writes s name change (some r) =
    (save writes (record s { records = put name (change r) s.records }), saved writes tt)

change_record :
    Bool → Registry → String → (WebSessionRecord → WebSessionRecord) → Registry × Outcome Nothing
unfolding change_found
change_record writes s name change = change_found writes s name change (get name s.records)

-- `touch`
unfoldable pub touch : Bool → ℕ → Registry → String → Registry × Outcome Nothing
unfolding change_record
touch writes now s name = change_record writes s name (λ r. record r { updated_at = now })

given : ℕ → Option String → String → String
given limit none old = old
given limit (some new) old = take limit new

-- `update_metadata`
unfoldable pub update_metadata :
    Bool → ℕ → Registry → String → Option String → Option String → Registry × Outcome Nothing
unfolding change_record given
update_metadata writes now s name title model = change_record writes s name (λ r. record r {
  title = given 240 title r.title;
  model = given 160 model r.model;
  updated_at = now;
})

update_known_state :
    Bool → ℕ → Registry → String → Bool → Option WorkerState → Registry × Outcome Nothing
unfolding change_record
update_known_state writes now s name increment none = (s, raises state_invalid)
update_known_state writes now s name increment (some state) = change_record writes s name (λ r.
    record r {
      worker_state = state;
      worker_generation = if increment then suc r.worker_generation else r.worker_generation;
      updated_at = now;
    })

-- `update_worker_state`
unfoldable pub update_worker_state :
    Bool → ℕ → Registry → String → String → Bool → Registry × Outcome Nothing
unfolding update_known_state
update_worker_state writes now s name state increment =
    update_known_state writes now s name increment (parse_worker_state state)

-- `remove`
unfoldable pub remove : Bool → Registry → String → Registry × Outcome Bool
unfolding is_known saved
remove writes s name =
    if is_known s.records name
    then (save writes (record s { records = del name s.records }), saved writes true)
    else (s, returns false)
