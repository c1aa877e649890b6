-- ===== src/Commands/Catalog.antt =====
-- codex_command_policy.py: the catalogue of commands, and its index by command and alias.
use Prim.Native.Char.{code}
use Prim.Native.Nat.{Ordering}
use Prim.Native.String.{◌++◌, compare, count}
use faryo_codex_web_ui.Base.{
  ℕ, ◌*◌, Bool, true, false, not, ◌||◌, ◌&&◌, Option, none, some, List, [], ◌∷◌, map, String,
  str_eq, leb, ltb, ◌==◌, if◌then◌else◌, is_some, any, keep,
}
use faryo_codex_web_ui.Base.Dict.{Dict, get, put}
use faryo_codex_web_ui.Json.{
  Value, Elements, text, bool, array, int, mapping, no_items, item, no_fields, field,
}
use faryo_codex_web_ui.Base.Letters.{lower}
use faryo_codex_web_ui.Base.Text.{
  pos, is_lower, is_empty, all_chars, strip, take, has_char, split_at, pos,
}
use faryo_codex_web_ui.Json.{
  Value, Fields, Elements, null, bool, int, float, text, array, mapping, no_items, item, no_fields,
  field, get_field,
}
use faryo_codex_web_ui.Json.Str.{text_or, truthy}
pub mod Lookup

pub record CommandEntry : Type 0 where
  pub command : String
  pub description : String
  pub category : String
  pub behavior : String
  pub argument_hint : String
  pub aliases : List String
  pub available_during_task : Bool

pub data Source : Type 0 where
  fallback runtime : Source

pub record CommandCatalog : Type 0 where
  pub tested_codex_version : String
  pub observed_codex_version : String
  pub entries : List CommandEntry
  pub source : Source
  pub added : List String
  pub removed : List String

-- `result[alias] = entry` for each alias.
unfoldable pub put_aliases : CommandEntry → List String → Dict CommandEntry → Dict CommandEntry
put_aliases e [] result = result
put_aliases e (alias ∷ aliases) result = put_aliases e aliases (put alias e result)

-- The loop of `by_command`.
unfoldable pub put_entries : List CommandEntry → Dict CommandEntry → Dict CommandEntry
unfolding put_aliases
put_entries [] result = result
put_entries (e ∷ es) result = put_entries es (put_aliases e e.aliases (put e.command e result))

-- `CommandCatalog.by_command`
unfoldable pub by_command : CommandCatalog → Dict CommandEntry
unfolding put_entries
by_command c = put_entries c.entries []

is_none_left : List String → Bool
is_none_left [] = true
is_none_left (_ ∷ _) = false

-- `CommandCatalog.drifted`
unfoldable pub drifted : CommandCatalog → Bool
unfolding is_none_left
drifted c =
    not (is_none_left c.added)
    || not (is_none_left c.removed)
    || (not (is_empty c.observed_codex_version)
        && not (is_empty c.tested_codex_version)
        && not (str_eq c.observed_codex_version c.tested_codex_version))

text_items : List String → Elements
text_items [] = no_items
text_items (s ∷ ss) = item (text s) (text_items ss)

-- `CommandEntry.public_value`
unfoldable pub entry_value : CommandEntry → Value
unfolding text_items
entry_value e = mapping (
    field "command" (text e.command) (
      field "description" (text e.description) (
        field "category" (text e.category) (
          field "behavior" (text e.behavior) (
            field "argumentHint" (text e.argument_hint) (
              field "aliases" (array (text_items e.aliases))
                (field "availableDuringTask" (bool e.available_during_task) no_fields)))))))

entry_items : List CommandEntry → Elements
entry_items [] = no_items
entry_items (e ∷ es) = item (entry_value e) (entry_items es)

source_name : Source → String
source_name fallback = "fallback"
source_name runtime = "runtime"

-- `CommandCatalog.public_value`
unfoldable pub public_value : CommandCatalog → Value
unfolding text_items entry_items source_name drifted
public_value c = mapping (
    field "schemaVersion" (int (pos 1)) (
      field "testedCodexVersion" (text c.tested_codex_version) (
        field "observedCodexVersion" (text c.observed_codex_version) (
          field "source" (text (source_name c.source)) (
            field "drifted" (bool (drifted c)) (
              field "added" (array (text_items c.added)) (
                field "removed" (array (text_items c.removed))
                  (field "commands" (array (entry_items c.entries)) no_fields))))))))
