-- ===== src/Interaction/Service/Command/Once.antt =====
-- A command is typed once and entered once, however its run ends.
use faryo_codex_web_ui.Base.{◌+◌, ◌≤◌, Bool}
use faryo_codex_web_ui.Json.{Value}
use faryo_codex_web_ui.Interaction.Runtime.{Config, Runtime, Interactions}
use faryo_codex_web_ui.Interaction.Typings.{typings}
use faryo_codex_web_ui.Interaction.Service.Command.{begin_command}
use faryo_codex_web_ui.Interaction.Service.Command.Entered.{begin_command-Does}

-- However a command ends, at most one text and one key were sent: no error and no wait makes the code type or enter
-- it twice.
pub begin_command_types :
    (r : Runtime) (c : Config) (command client_request_id : Value) (confirmed keys : Bool)
    (s : Interactions)
    → typings keys (begin_command r c command client_request_id confirmed s).1 ≤ typings keys s + 1
begin_command_types r c command client_request_id confirmed keys s =
    ((begin_command-Does {r = r} c 0 command client_request_id confirmed).sends keys).bound s
