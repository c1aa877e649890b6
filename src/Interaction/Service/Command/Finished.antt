-- ===== src/Interaction/Service/Command/Finished.antt =====
-- A command ends: none of its waits runs out of rounds.
use faryo_codex_web_ui.Base.{◌≢◌, Bool, arith}
use faryo_codex_web_ui.Json.{Value}
use faryo_codex_web_ui.Program.{raises}
use faryo_codex_web_ui.Interaction.Runtime.{Config, Runtime, Interactions, out_of_rounds}
use faryo_codex_web_ui.Interaction.Clock.{Ticks}
use faryo_codex_web_ui.Interaction.Service.Respond.Finished.{finished}
use faryo_codex_web_ui.Interaction.Service.Command.{begin_command}
use faryo_codex_web_ui.Interaction.Service.Command.Entered.{begin_command-Does}

-- Where the clock never goes back and a pause takes time, every command ends: each of its four waits has rounds
-- enough for its deadline.
pub begin_command_finishes :
    (r : Runtime) (c : Config) (command client_request_id : Value) (confirmed : Bool)
    (s : Interactions)
    → Ticks r
    → (begin_command r c command client_request_id confirmed s).0 ≢ raises out_of_rounds
begin_command_finishes r c command client_request_id confirmed s ticks =
    finished r s _ (
      ((begin_command-Does c 0 command client_request_id confirmed).runs ticks).ran s (omega arith))
