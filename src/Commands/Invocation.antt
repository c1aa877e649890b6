-- ===== src/Commands/Invocation.antt =====
-- codex_command_policy.py: which command a line invokes, and how it behaves.
use Prim.Native.String.{◌++◌, count}
use faryo_codex_web_ui.Base.{
  Bool, ◌||◌, Option, none, some, String, ltb, ◌==◌, if◌then◌else◌, is_some,
}
use faryo_codex_web_ui.Base.Dict.{Dict, get}
use faryo_codex_web_ui.Base.Text.{is_empty, strip, has_char, split_at}
use faryo_codex_web_ui.Json.{Value, text}
use faryo_codex_web_ui.Json.Str.{text_or}
use faryo_codex_web_ui.Commands.Catalog.{CommandEntry, CommandCatalog, by_command}
use faryo_codex_web_ui.Commands.Entries.{clean_command}

known_command : Dict CommandEntry → Option String → Option String
known_command names none = none
known_command names (some command) = if is_some (get command names) then some command else none

-- `exact_command`
unfoldable pub exact_command : Option Value → CommandCatalog → Option String
unfolding known_command
exact_command value catalog = known_command (by_command catalog) (clean_command value)

-- The command and what follows it, a separator included.
with_arguments : String → Bool → Option String → Option String
with_arguments arguments separated none = none
with_arguments arguments separated (some command) =
    some (if separated then command ++ (" " ++ arguments) else command)

-- `command_invocation`
unfoldable pub command_invocation : Option Value → CommandCatalog → Option String
unfolding with_arguments exact_command
command_invocation value catalog =
    let line = strip (text_or "" value) in
    let (head, arguments) = split_at (λ c. c == 32) line in
    if is_empty line
      || ltb 4096 (count line)
      || has_char 10 line
      || has_char 13 line
      || has_char 0 line
    then none
    else with_arguments arguments (has_char 32 line) (exact_command (some (text head)) catalog)

entry_of_invocation : Dict CommandEntry → Option String → Option CommandEntry
entry_of_invocation names none = none
entry_of_invocation names (some invocation) = get (split_at (λ c. c == 32) invocation).0 names

-- `command_entry`
unfoldable pub command_entry : Option Value → CommandCatalog → Option CommandEntry
unfolding entry_of_invocation command_invocation
command_entry command catalog =
    entry_of_invocation (by_command catalog) (command_invocation command catalog)

behavior_of : Option CommandEntry → Option String
behavior_of none = none
behavior_of (some e) = some e.behavior

-- `command_behavior`
unfoldable pub command_behavior : Option Value → CommandCatalog → Option String
unfolding behavior_of command_entry
command_behavior command catalog = behavior_of (command_entry command catalog)
