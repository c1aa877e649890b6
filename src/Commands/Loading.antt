-- ===== src/Commands/Loading.antt =====
-- codex_command_policy.py: `load_catalog`, from the file that comes with the release and the one of the installed Codex.
use Prim.Native.Char.{code}
use Prim.Native.Nat.{Ordering}
use Prim.Native.String.{◌++◌, compare, count}
use faryo_codex_web_ui.Base.{
  ℕ, ◌*◌, Bool, true, false, not, ◌||◌, ◌&&◌, Option, none, some, List, [], ◌∷◌, map, String,
  str_eq, leb, ltb, ◌==◌, if◌then◌else◌, is_some, any, keep,
}
use faryo_codex_web_ui.Base.Dict.{Dict, get, put}
use faryo_codex_web_ui.Base.Letters.{lower}
use faryo_codex_web_ui.Base.Text.{
  is_lower, is_empty, all_chars, strip, take, has_char, split_at, pos,
}
use faryo_codex_web_ui.Json.{
  Value, Fields, Elements, null, bool, int, float, text, array, mapping, no_items, item, no_fields,
  field, get_field,
}
use faryo_codex_web_ui.Json.Str.{text_or, truthy}
use faryo_codex_web_ui.Commands.Catalog.{CommandEntry, CommandCatalog, Source, fallback, runtime}
use faryo_codex_web_ui.Commands.Entries.{entries}
pub mod Versions

-- What stands at a catalogue's path; `parsed` is `none` for a text that is no JSON.
pub record CatalogFile : Type 0 where
  pub is_symlink : Bool
  pub is_file : Bool
  pub bytes : ℕ
  pub parsed : Option Value

-- `value.get("schemaVersion") == CATALOG_SCHEMA_VERSION`
is_schema_version : Option Value → Bool
is_schema_version (some (int (pos n))) = n == 1
is_schema_version (some (bool b)) = b
is_schema_version (some (float shown)) = str_eq shown "1.0"
is_schema_version _ = false

checked_payload : Option Value → Option Fields
unfolding is_schema_version
checked_payload (some (mapping fs)) =
    if is_schema_version (get_field "schemaVersion" fs) then some fs else none
checked_payload _ = none

-- `_read_payload`
unfoldable pub read_payload : Option CatalogFile → Option Fields
unfolding checked_payload
read_payload none = none
read_payload (some file) =
    if file.is_symlink || not file.is_file || ltb (512 * 1024) file.bytes
    then none
    else checked_payload file.parsed

-- `{entry.command: entry for entry in entries}`
unfoldable pub index : List CommandEntry → Dict CommandEntry → Dict CommandEntry
index [] result = result
index (e ∷ es) result = index es (put e.command e result)

unfoldable pub insert_sorted : String → List String → List String
insert_sorted s [] = s ∷ []
insert_sorted s (t ∷ ts) = elim (compare s t) [
  | Ordering.gt ↦ t ∷ insert_sorted s ts
  | _ ↦ s ∷ t ∷ ts
]

-- `sorted(names - others)`
unfoldable pub sorted_difference : List String → List String → List String
unfolding insert_sorted
sorted_difference [] others = []
sorted_difference (name ∷ names) others =
    let rest = sorted_difference names others in
    if any (str_eq name) others then rest else insert_sorted name rest

pub data CatalogError : Type 0 where
  no_fallback type_error : CatalogError

pub data CatalogLoad : Type 0 where
  loads : CommandCatalog → CatalogLoad
  raises : CatalogError → CatalogLoad

abbrev version : String → Fields → String
version key payload = text_or "" (get_field key payload)

fallback_catalog : String → List CommandEntry → CommandCatalog
fallback_catalog tested es = record {
  tested_codex_version = tested;
  observed_codex_version = "";
  entries = es;
  source = fallback;
  added = [];
  removed = [];
}

-- A runtime catalogue without entries is not used.
with_runtime : String → String → List CommandEntry → Option (List CommandEntry) → CatalogLoad
unfolding fallback_catalog
with_runtime tested observed known none = raises type_error
with_runtime tested observed known (some []) = loads (fallback_catalog tested known)
with_runtime tested observed known (some (e ∷ es)) =
    let names = map (λ entry. entry.command) (e ∷ es) in
    let known_names = map (λ entry. entry.command) known in
    loads (record {
      tested_codex_version = tested;
      observed_codex_version = observed;
      entries = e ∷ es;
      source = runtime;
      added = sorted_difference names known_names;
      removed = sorted_difference known_names names;
    })

-- The busy-task capability is taken from the runtime file only for the tested version of Codex.
with_payload : String → List CommandEntry → Option Fields → CatalogLoad
unfolding with_runtime fallback_catalog
with_payload tested known none = loads (fallback_catalog tested known)
with_payload tested known (some payload) =
    let observed = version "observedCodexVersion" payload in
    with_runtime tested observed known
      (entries payload (index known []) (not (is_empty observed) && str_eq observed tested))

with_fallback : Fields → Option (List CommandEntry) → Option Fields → CatalogLoad
unfolding with_payload
with_fallback payload none runtime_payload = raises type_error
with_fallback payload (some known) runtime_payload =
    with_payload (version "testedCodexVersion" payload) known runtime_payload

of_payloads : Option Fields → Option Fields → CatalogLoad
unfolding with_fallback
of_payloads none runtime_payload = raises no_fallback
of_payloads (some payload) runtime_payload =
    with_fallback payload (entries payload [] true) runtime_payload

-- `load_catalog`
unfoldable pub load_catalog : Option CatalogFile → Option CatalogFile → CatalogLoad
unfolding of_payloads
load_catalog fallback_file runtime_file =
    of_payloads (read_payload fallback_file) (read_payload runtime_file)
