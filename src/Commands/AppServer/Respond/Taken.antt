-- ===== src/Commands/AppServer/Respond/Taken.antt =====
-- An option of a command that was opened.
use faryo_codex_web_ui.Base.{◌≡◌, Option, none, some, ◌∷◌, String, if◌then◌else◌}
use faryo_codex_web_ui.Base.Dict.{get}
use faryo_codex_web_ui.Base.Text.{is_empty}
use faryo_codex_web_ui.Json.{Fields}
use faryo_codex_web_ui.Program.{Outcome, returns, raises}
use faryo_codex_web_ui.Commands.AppServer.{
  CommandChoice, PendingCommand, closes, Task, CommandError, rpc_failed, History, resolved,
}
use faryo_codex_web_ui.Commands.AppServer.Begin.Opened.{view}
use faryo_codex_web_ui.Commands.AppServer.Respond.{params_of}

-- The calls after a choice was taken.
abbrev pub called : CommandChoice → History → History
called c rpcs =
    if is_empty c.method
    then rpcs
    else record { method = c.method; params = params_of c.params } ∷ rpcs

-- The command is closed and resolved, or the call raised and the command is still pending.
abbrev pub Taken :
    String → PendingCommand → Task → History → Outcome CommandError (Option Fields) × Task → Type 0
Taken session p s rpcs (returns v, t) =
    (v ≡ some (resolved session p.generation))
    × (get session t.tables.pending ≡ none)
    × (t.notices ≡ closes session p.id ∷ s.notices)
    × (t.rpcs ≡ rpcs)
Taken session p s rpcs (raises e, t) =
    (e ≡ rpc_failed) × (view session t ≡ view session s) × (t.rpcs ≡ rpcs)
