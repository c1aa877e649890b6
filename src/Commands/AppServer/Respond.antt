-- ===== src/Commands/AppServer/Respond.antt =====
-- appserver_commands.py: `respond`.
use faryo_codex_web_ui.Base.{
  true, false, not, Option, none, some, String, str_eq, if◌then◌else◌, first,
}
use faryo_codex_web_ui.Base.Dict.{get}
use faryo_codex_web_ui.Base.Text.{is_empty}
use faryo_codex_web_ui.Json.{Fields, no_fields}
use faryo_codex_web_ui.Program.{◌>>=◌, ◌>>◌, pure, throw, get_state}
use faryo_codex_web_ui.Commands.AppServer.{
  CommandChoice, PendingCommand, Runtime, M, ask, close, resolved, unknown_option,
}
pub mod Taken

-- `choice.params or {}`
unfoldable pub params_of : Option Fields → Fields
params_of none = no_fields
params_of (some fs) = fs

-- `_close`, and the result.
unfoldable pub concluded : String → PendingCommand → M (Option Fields)
concluded session p = do close p; pure (some (resolved session p.generation))

unfoldable pub take_choice :
    Runtime → String → PendingCommand → Option CommandChoice → M (Option Fields)
unfolding params_of concluded
take_choice r session p none = throw unknown_option
take_choice r session p (some c) =
    if is_empty c.method
    then concluded session p
    else do ask r c.method (params_of c.params); concluded session p

respond_to : Runtime → String → String → String → PendingCommand → M (Option Fields)
unfolding take_choice concluded
respond_to r session option_id action p =
    if str_eq action "cancel"
    then concluded session p
    else take_choice r session p (first (λ c. str_eq c.id option_id) p.choices)

respond_pending :
    Runtime → String → String → String → String → Option PendingCommand → M (Option Fields)
unfolding respond_to
respond_pending r session interaction_id option_id action none = pure none
respond_pending r session interaction_id option_id action (some p) =
    if not (str_eq p.id interaction_id) then pure none else respond_to r session option_id action p

-- `respond`; none where the interaction is not one of this service.
unfoldable pub respond : Runtime → String → String → String → String → M (Option Fields)
unfolding respond_pending
respond r session interaction_id option_id action = do
  known ← get_state (λ s. get session s.tables.pending)
  respond_pending r session interaction_id option_id action known
