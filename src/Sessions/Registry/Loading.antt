-- ===== src/Sessions/Registry/Loading.antt =====
-- appserver_registry.py: `load`.
pub mod Established
use faryo_codex_web_ui.Base.{
  ℕ, suc, Bool, true, false, ◌||◌, Option, none, some, List, [], ◌∷◌, String, str_eq, ◌==◌,
  if◌then◌else◌,
}
use faryo_codex_web_ui.Base.Dict.{Dict, put}
use faryo_codex_web_ui.Base.Text.{pos}
use faryo_codex_web_ui.Json.{
  Value, Elements, int, bool, float, array, mapping, no_items, item, get_field,
}
use faryo_codex_web_ui.Json.Read.{Whole, iterated}
use faryo_codex_web_ui.Sessions.Namespace.{has_name}
use faryo_codex_web_ui.Sessions.Record.{
  WebSessionRecord, Entry, skipped, raised, drawing, taken, from_value,
}
use faryo_codex_web_ui.Sessions.Registry.{
  RegistryFile, missing, unreadable, content, Registry, type_error, overflow_error, draws_on,
  Outcome, returns, raises, save, saved, is_known,
}

-- The records and the workers that a load has met so far.
pub record Loading : Type 0 where
  records : Dict WebSessionRecord
  workers : List String

accept : WebSessionRecord → Loading → Loading
unfolding is_known
accept r l =
    if is_known l.records r.name || has_name r.worker_id l.workers
    then l
    else record { records = put r.name r l.records; workers = r.worker_id ∷ l.workers }

load_entry : Entry → Outcome Loading → (WebSessionRecord → Outcome Loading) → Outcome Loading
load_entry skipped skip use_it = skip
load_entry raised skip use_it = raises overflow_error
load_entry drawing skip use_it = raises draws_on
load_entry (taken r) skip use_it = use_it r

-- The loop of `load`. Each record that lacks a worker has its own tokens drawn from the list of lists.
load_items : (String → Whole) → Bool → List (List String) → Elements → Loading → Outcome Loading
unfolding load_entry accept
load_items trunc is_legacy draws no_items l = returns l
load_items trunc is_legacy [] (item v rest) l =
    load_entry (from_value trunc [] is_legacy l.workers v) (load_items trunc is_legacy [] rest l)
      (λ r. load_items trunc is_legacy [] rest (accept r l))
load_items trunc is_legacy (tokens ∷ draws) (item v rest) l =
    load_entry (from_value trunc tokens is_legacy l.workers v)
      (load_items trunc is_legacy draws rest l)
      (λ r. load_items trunc is_legacy draws rest (accept r l))

-- `schemaVersion` against 1 and 2. Membership in a set hashes the value: TypeError on a list or an object.
pub data Version : Type 0 where
  legacy current other unhashable : Version

number_version : ℕ → Version
number_version n = if n == 1 then legacy else if n == 2 then current else other

version_of : Option Value → Version
unfolding number_version
version_of (some (int (pos n))) = number_version n
version_of (some (bool b)) = if b then legacy else other
version_of (some (float shown)) =
    if str_eq shown "1.0" then legacy else if str_eq shown "2.0" then current else other
version_of (some (array xs)) = unhashable
version_of (some (mapping fs)) = unhashable
version_of _ = other

failed_load : Registry → Registry
failed_load s = record s { records = []; load_errors = suc s.load_errors }

loaded : Bool → Bool → Registry → Outcome Loading → Outcome Registry
unfolding saved
loaded is_legacy writes s (raises e) = raises e
loaded is_legacy writes s (returns l) =
    let s' = record s { records = l.records } in
    if is_legacy then saved writes (save writes s') else returns s'

load_iterated :
    (String → Whole)
    → Bool
    → Bool
    → List (List String)
    → Registry
    → Option Elements
    → Outcome Registry
unfolding loaded load_items
load_iterated trunc is_legacy writes draws s none = raises type_error
load_iterated trunc is_legacy writes draws s (some xs) =
    loaded is_legacy writes s
      (load_items trunc is_legacy draws xs (record { records = []; workers = [] }))

load_version :
    (String → Whole)
    → Bool
    → List (List String)
    → Registry
    → Option Elements
    → Version
    → Outcome Registry
unfolding load_iterated failed_load
load_version trunc writes draws s sessions legacy = load_iterated trunc true writes draws s sessions
load_version trunc writes draws s sessions current =
    load_iterated trunc false writes draws s sessions
load_version trunc writes draws s sessions other = returns (failed_load s)
load_version trunc writes draws s sessions unhashable = raises type_error

load_value : (String → Whole) → Bool → List (List String) → Registry → Value → Outcome Registry
unfolding load_version version_of failed_load
load_value trunc writes draws s (mapping fs) =
    load_version trunc writes draws s (iterated (get_field "sessions" fs))
      (version_of (get_field "schemaVersion" fs))
load_value trunc writes draws s _ = returns (failed_load s)

load_file :
    (String → Whole) → Bool → List (List String) → Registry → RegistryFile → Outcome Registry
unfolding load_value
load_file trunc writes draws s missing = returns (record s { records = [] })
load_file trunc writes draws s unreadable = returns (failed_load s)
load_file trunc writes draws s (content v) = load_value trunc writes draws s v

-- `load`, on the file that the state holds.
unfoldable pub load : (String → Whole) → Bool → List (List String) → Registry → Outcome Registry
unfolding load_file
load trunc writes draws s = load_file trunc writes draws s s.file
