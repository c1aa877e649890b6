-- ===== src/Interaction/Service/Finished.antt =====
-- The operations that wait for the terminal end.
use faryo_codex_web_ui.Base.{◌≢◌, Bool}
use faryo_codex_web_ui.Json.{Value}
use faryo_codex_web_ui.Program.{raises}
use faryo_codex_web_ui.Interaction.Runtime.{Config, Runtime, Interactions, out_of_rounds}
use faryo_codex_web_ui.Interaction.Clock.{Ticks}
use faryo_codex_web_ui.Interaction.Service.Respond.{respond}
use faryo_codex_web_ui.Interaction.Service.Respond.Finished.{respond_finishes}
use faryo_codex_web_ui.Interaction.Service.Command.{begin_command}
use faryo_codex_web_ui.Interaction.Service.Command.Finished.{begin_command_finishes}

-- Where the clock never goes back and a pause takes time, every answer and every command ends: each of their waits
-- has rounds enough for its deadline.
pub operations_finish :
    (r : Runtime) (c : Config) (interaction_id action option_id command client_request_id : Value)
    (confirmed : Bool) (s : Interactions)
    → Ticks r
    → ((respond r c interaction_id action option_id client_request_id s).0 ≢ raises out_of_rounds)
      × ((begin_command r c command client_request_id confirmed s).0 ≢ raises out_of_rounds)
operations_finish r c interaction_id action option_id command client_request_id confirmed s ticks =
    (
      respond_finishes r c interaction_id action option_id client_request_id s ticks,
      begin_command_finishes r c command client_request_id confirmed s ticks,
    )
