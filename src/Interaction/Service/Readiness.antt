-- ===== src/Interaction/Service/Readiness.antt =====
-- interaction_service.py: the checks of `begin_command` before a command is typed.
use faryo_codex_web_ui.Base.{
  suc, ◌+◌, min, Bool, true, false, not, ◌||◌, ◌&&◌, String, if◌then◌else◌, is_some,
}
use faryo_codex_web_ui.Commands.Catalog.{CommandEntry}
use faryo_codex_web_ui.Program.{◌>>=◌, ◌>>◌, pure, ensure}
use faryo_codex_web_ui.Interaction.Runtime.{
  Config, Runtime, M, ask, tell, Round, goes_on, stops, rounds, has_session, is_codex,
  ready_for_input, turn_running, composer_has_draft, monotonic, sleep, unavailable, already_waiting,
  disabled_in_task, not_ready, unsent_draft,
}
use faryo_codex_web_ui.Interaction.Service.{snapshot}

-- A command after its checks.
pub record Command : Type 0 where
  pub request_id : String
  pub invocation : String
  pub entry : CommandEntry

-- Whether the composer takes the command, and whether a turn runs.
abbrev pub Readiness : Type 0
Readiness = Bool × Bool

unfoldable pub may_start : Command → Readiness → Bool
may_start command state = state.0 || (command.entry.available_during_task && state.1)

-- One round of the wait for a composer that takes input.
unfoldable pub poll_ready : Runtime → Config → Bool → Unit {0} → M (Round (Unit {0}) Readiness)
poll_ready r c was_running _ = do
  busy ← ask turn_running r.turn_running
  if busy then pure (stops (false, true)) else do
    tell sleep
    latest ← snapshot r c
    ensure (not (is_some latest.interaction)) already_waiting
    ready ← ask ready_for_input r.ready_for_input
    pure (if ready then stops (true, was_running) else goes_on tt)

unfoldable pub still_not_ready : Bool → Unit {0} → M Readiness
still_not_ready was_running _ = pure (false, was_running)

unfoldable pub await_ready : Runtime → Config → Bool → M Readiness
unfolding rounds poll_ready still_not_ready
await_ready r c was_running = do
  now ← ask monotonic r.monotonic
  rounds r (suc r.transition_timeout) (now + min r.readiness_limit r.transition_timeout)
      (poll_ready r c was_running) (still_not_ready was_running) tt

unfoldable pub readiness : Runtime → Config → Command → M Readiness
unfolding may_start await_ready
readiness r c command = do
  ready ← ask ready_for_input r.ready_for_input
  busy ← ask turn_running r.turn_running
  if may_start command (ready, busy) then pure (ready, busy) else await_ready r c busy

unfoldable pub is_codex_session : Runtime → Bool → M Bool
is_codex_session r false = pure false
is_codex_session r true = ask is_codex r.is_codex

-- The checks of the terminal before a command is typed.
unfoldable pub checked_terminal : Runtime → Config → Command → M (Unit {0})
unfolding is_codex_session readiness may_start
checked_terminal r c command = do
  alive ← ask has_session r.has_session
  codex ← is_codex_session r alive
  ensure codex unavailable
  latest ← snapshot r c
  ensure (not (is_some latest.interaction)) already_waiting
  state ← readiness r c command
  ensure (may_start command state) (if state.1 then disabled_in_task else not_ready)
  draft ← ask composer_has_draft r.composer_has_draft
  ensure (not draft) unsent_draft
