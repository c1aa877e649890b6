-- ===== src/Interaction/Tests.antt =====
-- Runs of the interaction service, and the theorems at concrete inputs.
use faryo_codex_web_ui.Base.{◌+◌, ◌≢◌, ◌≤◌, true, false}
use faryo_codex_web_ui.Json.{text}
use faryo_codex_web_ui.Program.{raises}
use faryo_codex_web_ui.Interaction.Runtime.{out_of_rounds}
use faryo_codex_web_ui.Interaction.Typings.{typings}
use faryo_codex_web_ui.Interaction.Service.Finished.{operations_finish}
use faryo_codex_web_ui.Interaction.Service.Respond.{respond}
use faryo_codex_web_ui.Interaction.Service.Command.{begin_command}
use faryo_codex_web_ui.Interaction.Service.Command.Once.{begin_command_types}
use faryo_codex_web_ui.Interaction.Examples.{runtime, composer, config, start, runtime-Ticks, id}

operations_finish_example :
    ((respond runtime config (text id) (text "choose") (text "") (text "request-0001") start).0
      ≢ raises out_of_rounds)
    × ((begin_command runtime config (text "/model") (text "request-0001") true start).0
        ≢ raises out_of_rounds)
operations_finish_example =
    operations_finish runtime config (text id) (text "choose") (text "") (text "/model")
      (text "request-0001") true start runtime-Ticks

begin_command_types_example :
    typings true (begin_command composer config (text "/model") (text "request-0001") false start).1
    ≤ typings true start + 1
begin_command_types_example =
    begin_command_types composer config (text "/model") (text "request-0001") false true start
