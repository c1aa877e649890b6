-- ===== src/Sessions/Tests.antt =====
-- session_namespace.py and appserver_registry.py: runs on small inputs, and the theorems at such inputs.
use faryo_codex_web_ui.Base.{
  ℕ, ◌≤◌, ◌<◌, ◌≡◌, refl, true, false, some, List, [], ◌∷◌, String, any, keep, first,
}
use faryo_codex_web_ui.Base.Dict.{Dict, get, put, del}
use faryo_codex_web_ui.Base.Text.{take, is_empty, has_char, all_chars, decimal, after_text, pos}
use faryo_codex_web_ui.Json.{int, text, array, mapping, item, no_items, field, no_fields, get_field}
use faryo_codex_web_ui.Json.Read.{Whole, whole, time_field, or_value, iterated}
use faryo_codex_web_ui.Json.Str.{text_or, truthy, to_text}
use faryo_codex_web_ui.Sessions.Namespace.{
  is_session_name, has_name, session_name, next_name, normalized_names,
}
use faryo_codex_web_ui.Sessions.Namespace.Free.{in_groups, next_name_free}
use faryo_codex_web_ui.Sessions.Record.{
  ready, WebSessionRecord, is_worker_id, new_worker_id, parse_worker_state, from_value,
}
use faryo_codex_web_ui.Sessions.Registry.{
  RegistryFile, missing, content, Registry, returns, Addition, new_record, worker_ids, names, add,
  update_worker_state, remove,
}
use faryo_codex_web_ui.Sessions.Registry.Adding.{Added, add-Added, add_returns}
use faryo_codex_web_ui.Sessions.Registry.Invariant.{IsRegistry}
use faryo_codex_web_ui.Sessions.Registry.Loading.{load}
use faryo_codex_web_ui.Sessions.Registry.Loading.Established.{load-IsRegistry}
use faryo_codex_web_ui.Sessions.Registry.Reached.{
  adds, moves, removes, unchanged, then_change, Changes-IsRegistry,
}
use faryo_codex_web_ui.Sessions.Registry.Reassign.Kept.{Kept}
use faryo_codex_web_ui.Sessions.Registry.Reassign.{reassign_conflicts}

abbrev two_groups : List (List String)
two_groups = ("faryo1" ∷ "faryo3" ∷ []) ∷ ("faryo2" ∷ "x" ∷ []) ∷ []

next_name_free_example :
    (n : ℕ) × (next_name two_groups ≡ session_name n)
    × (1 ≤ n)
    × (is_session_name (session_name n) ≡ true)
    × (in_groups (session_name n) two_groups ≡ false)
    × ((m : ℕ) → 1 ≤ m → m < n → in_groups (session_name m) two_groups ≡ true)
next_name_free_example = next_name_free two_groups

abbrev token : String
token = "0123456789abcdef01234567"

abbrev trunc : String → Whole
trunc shown = whole (pos 1)

abbrev addition : Addition
addition = record {
  thread_id = "t1";
  cwd = "/work";
  title = "A title";
  model = "";
  launch_id = "l1";
  reserved = "faryo1" ∷ [];
  name = "";
  worker_id = "";
}

abbrev nothing_yet : Registry
nothing_yet = record { records = []; load_errors = 0; file = missing }

abbrev first_record : WebSessionRecord
first_record = new_record addition "faryo2" token 7

first_added : (add (token ∷ []) true 7 nothing_yet addition).1 ≡ returns first_record
unfolding add is_empty next_name normalized_names keep is_session_name after_text all_chars any
    decimal get is_worker_id new_worker_id first take
first_added = refl

add-Added_example :
    Added addition nothing_yet (add (token ∷ []) true 7 nothing_yet addition).0 first_record
add-Added_example = add-Added (token ∷ []) true 7 nothing_yet addition first_record first_added

token_drawn : new_worker_id (token ∷ []) (worker_ids nothing_yet.records) ≡ some token
unfolding new_worker_id first any
token_drawn = refl

token_fits : is_worker_id token ≡ true
unfolding is_worker_id all_chars
token_fits = refl

no_text : is_empty "" ≡ true
unfolding is_empty
no_text = refl

add_returns_example :
    let name = next_name (names nothing_yet.records ∷ addition.reserved ∷ []) in
    ((add (token ∷ []) true 7 nothing_yet addition).1 ≡ returns (new_record addition name token 7))
    × (has_name name addition.reserved ≡ false)
add_returns_example =
    add_returns (token ∷ []) 7 nothing_yet addition token no_text no_text token_drawn token_fits

-- A file with a record, a second under the same name, and a value that is none.
abbrev stored : RegistryFile
stored =
    let one = mapping (
      field "name" (text "faryo2") (
        field "thread_id" (text "t1") (
          field "cwd" (text "/work")
            (field "worker_id" (text token) (field "worker_state" (text "ready") no_fields))))) in
    content (
      mapping (
        field "schemaVersion" (int (pos 2))
          (field "sessions" (array (item one (item one (item (text "x") no_items)))) no_fields)))

abbrev read_record : WebSessionRecord
read_record = record {
  name = "faryo2";
  thread_id = "t1";
  cwd = "/work";
  title = "";
  model = "";
  launch_id = "";
  created_at = 0;
  updated_at = 0;
  worker_id = token;
  worker_generation = 0;
  worker_state = ready;
}

abbrev one_read : Registry
one_read = record { records = ("faryo2", read_record) ∷ []; load_errors = 0; file = stored }

stored_loaded : load trunc true [] (record nothing_yet { file = stored }) ≡ returns one_read
unfolding load get_field from_value is_session_name after_text all_chars text_or truthy to_text
    is_empty has_char or_value is_worker_id time_field iterated take parse_worker_state get put any
stored_loaded = refl

load-IsRegistry_example : IsRegistry one_read.records
load-IsRegistry_example =
    load-IsRegistry trunc true [] (record nothing_yet { file = stored }) one_read stored_loaded

Changes-IsRegistry_example :
    IsRegistry
      (remove false
        (update_worker_state true 9
          (add (token ∷ []) true 8 one_read addition).0
          "faryo2"
          "exited"
          true).0
        "faryo2").0.records
Changes-IsRegistry_example =
    Changes-IsRegistry
      (then_change
        (then_change (then_change unchanged (adds (token ∷ []) true 8 addition))
          (moves true 9 "faryo2" "exited" true))
        (removes false "faryo2"))
      load-IsRegistry_example

reassigned :
    (reassign_conflicts true one_read ("faryo2" ∷ "faryo1" ∷ [])).1
    ≡ returns (("faryo2", "faryo3") ∷ [])
unfolding reassign_conflicts keep any next_name normalized_names is_session_name after_text
    all_chars decimal put del
reassigned = refl
