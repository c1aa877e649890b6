-- ===== src/Commands/Tests.antt =====
-- A catalogue read from two files, and the theorems at it.
use faryo_codex_web_ui.Base.{◌≡◌, refl, true, false, some, List, [], ◌∷◌, String}
use faryo_codex_web_ui.Base.Dict.{get, put}
use faryo_codex_web_ui.Base.Letters.{lower}
use faryo_codex_web_ui.Base.Text.{
  strip, lstrip, rstrip, all_chars, is_empty, pos, has_char, split_at,
}
use faryo_codex_web_ui.Json.{
  Fields, int, bool, text, array, mapping, no_items, item, no_fields, field,
}
use faryo_codex_web_ui.Json.Str.{text_or, truthy, to_text}
use faryo_codex_web_ui.Commands.Catalog.{
  CommandEntry, CommandCatalog, by_command, put_entries, put_aliases, runtime, drifted,
}
use faryo_codex_web_ui.Commands.Catalog.Lookup.{last_named, get-by_command}
use faryo_codex_web_ui.Commands.Entries.{entries, clean_command, is_exact_command}
use faryo_codex_web_ui.Commands.Loading.{CatalogFile}
use faryo_codex_web_ui.Commands.Invocation.{
  exact_command, command_invocation, command_entry, command_behavior,
}

abbrev file_of : Fields → CatalogFile
file_of fs = record { is_symlink = false; is_file = true; bytes = 200; parsed = some (mapping fs) }

abbrev release_file : CatalogFile
release_file = file_of (
    field "schemaVersion" (int (pos 1)) (
      field "testedCodexVersion" (text "1") (
        field "commands"
          (array (
            item
              (mapping (
                field "command" (text "/Status") (
                  field "aliases" (array (item (text "/st") (item (text "/status") no_items)))
                    (field "availableDuringTask" (bool true) no_fields))))
              (item (text "/plan") no_items)))
          no_fields)))

abbrev installed_file : CatalogFile
installed_file = file_of (
    field "schemaVersion" (int (pos 1)) (
      field "observedCodexVersion" (text "2")
        (field "commands" (array (item (text "/new") (item (text "/status") no_items))) no_fields)))

abbrev entry : String → String → String → String → List String → CommandEntry
entry command description category behavior aliases = record {
  command = command;
  description = description;
  category = category;
  behavior = behavior;
  argument_hint = "";
  aliases = aliases;
  available_during_task = false;
}

abbrev catalog : CommandCatalog
catalog = record {
  tested_codex_version = "1";
  observed_codex_version = "2";
  entries =
      entry "/new" "New Codex command" "Unclassified" "unclassified" []
      ∷ entry "/status" "New Codex command" "Unclassified" "unclassified" ("/st" ∷ [])
      ∷ [];
  source = runtime;
  added = "/new" ∷ [];
  removed = "/plan" ∷ [];
}

get-by_command_example : get "/st" (by_command catalog) ≡ last_named "/st" catalog.entries
get-by_command_example = get-by_command "/st" catalog

invocation_test :
    (command_invocation (some (text " /ST  all")) catalog ≡ some "/st  all")
    × (command_behavior (some (text "/st")) catalog ≡ some "unclassified")
    × (drifted catalog ≡ true)
unfolding command_invocation command_behavior command_entry exact_command drifted by_command
    put_entries put_aliases clean_command is_exact_command text_or truthy to_text strip lstrip
    rstrip lower all_chars is_empty has_char split_at get put
invocation_test = (refl, refl, refl)
