-- ===== src/Interaction/Service/Command.antt =====
-- interaction_service.py: `begin_command`, a slash command that is typed into the terminal.
use faryo_codex_web_ui.Base.{
  ℕ, suc, ◌+◌, min, Bool, true, false, not, ◌||◌, ◌&&◌, Option, none, some, String, str_eq,
  if◌then◌else◌, is_some,
}
use faryo_codex_web_ui.Json.{Value, text}
use faryo_codex_web_ui.Commands.Catalog.{CommandEntry}
use faryo_codex_web_ui.Commands.Invocation.{command_invocation, command_entry}
use faryo_codex_web_ui.Program.{◌>>=◌, ◌>>◌, pure, throw, ensure, catch, get_state, set_state}
use faryo_codex_web_ui.Timeline.Event.{CommandEvent, status_text}
use faryo_codex_web_ui.Timeline.Store
use faryo_codex_web_ui.Timeline.Store.{Timeline, TimelineError, public_event}
use faryo_codex_web_ui.Timeline.Store.Adding.{begin}
use faryo_codex_web_ui.Interaction.Runtime.{
  Config, Runtime, History, Snapshot, Result, InteractionError, M, ask, tell, Round, goes_on, stops,
  rounds, has_session, capture, is_codex, ready_for_input, turn_running, composer_has_draft,
  composer_contains, completion_ready, anchor_key, monotonic, sleep, send_key, send_literal,
  timeline_draw, invalid_request_id, unsupported_command, confirmation_required, unavailable,
  already_waiting, disabled_in_task, not_ready, unsent_draft, attempt_failed, not_placed,
  not_accepted, timeline_refused, timeline_raised,
}
use faryo_codex_web_ui.Interaction.Service.{
  snapshot, no_interaction, clean_request_id, prune_receipts, existing_receipt, remember_receipt,
}
use faryo_codex_web_ui.Interaction.Service.Respond.{
  command_owner_key, update_event, interaction_id_of,
}
use faryo_codex_web_ui.Interaction.Service.Readiness.{Command, checked_terminal}
pub mod Waits
pub mod Finished
pub mod Entered
pub mod Once

-- The timeline's own errors are refusals; what else it raises goes through.
refusal : TimelineError → InteractionError
refusal Store.os_error = timeline_raised Store.os_error
refusal Store.type_error = timeline_raised Store.type_error
refusal e = timeline_refused e

begun : Store.Outcome (Option CommandEvent × Bool) → M (Option CommandEvent × Bool)
unfolding refusal
begun (Store.returns a) = pure a
begun (Store.raises e) = throw (refusal e)

pub begin_in : Runtime → Config → Command → Option Timeline → M (Option CommandEvent × Bool)
unfolding begun
begin_in r c command none = pure (none, false)
begin_in r c command (some timeline) = do
  anchor ← ask anchor_key r.anchor_key
  owner ← command_owner_key r c
  writes ← ask timeline_draw r.writes
  now ← ask timeline_draw r.milliseconds
  token ← ask timeline_draw r.random
  let started = begin r.sha256 writes now token timeline (record {
    owner_key = some (text owner);
    request_id = some (text command.request_id);
    invocation = some (text command.invocation);
    anchor_key = some (text anchor);
  })
  set_state (λ s. record s { timeline = some started.0 })
  begun started.1

poll_placed : Runtime → String → Unit {0} → M (Round (Unit {0}) (Unit {0}))
poll_placed r invocation _ = do
  there ← ask composer_contains (r.composer_contains invocation)
  if there then pure (stops tt) else do tell sleep; pure (goes_on tt)

give_up : Unit {0} → M (Unit {0})
give_up _ = pure tt

pub await_placed : Runtime → String → M (Unit {0})
unfolding rounds poll_placed give_up
await_placed r invocation = do
  now ← ask monotonic r.monotonic
  rounds r (suc r.transition_timeout) (now + min r.draft_limit r.transition_timeout)
      (poll_placed r invocation) give_up tt

poll_completion : (History → Bool) → Unit {0} → M (Round (Unit {0}) (Unit {0}))
poll_completion ready _ = do
  done ← ask completion_ready ready
  if done then pure (stops tt) else do tell sleep; pure (goes_on tt)

pub await_completion : Runtime → CommandEntry → ℕ → Option (String → History → Bool) → M (Unit {0})
unfolding rounds poll_completion give_up
await_completion r entry deadline none = tell sleep
await_completion r entry deadline (some ready) =
    rounds r (suc r.transition_timeout) deadline (poll_completion (ready entry.command)) give_up tt

-- How a command that was entered turned out, and the last snapshot.
abbrev pub Turnout : Type 0
Turnout = String × Snapshot

poll_again : Runtime → Config → M (Round Snapshot Turnout)
poll_again r c = do tell sleep; newer ← snapshot r c; pure (goes_on newer)

left_composer : Runtime → Config → Snapshot → M (Round Snapshot Turnout)
unfolding poll_again
left_composer r c latest = do
  ready ← ask ready_for_input r.ready_for_input
  if ready then pure (stops ("completed", latest)) else do
    busy ← ask turn_running r.turn_running
    if busy then pure (stops ("running", latest)) else poll_again r c

poll_turnout : Runtime → Config → String → Snapshot → M (Round Snapshot Turnout)
unfolding left_composer poll_again
poll_turnout r c invocation latest = do
  codex ← ask is_codex r.is_codex
  if not codex
      then pure (stops ("completed", no_interaction))
      else if is_some latest.interaction
      then pure (stops ("pending", latest))
      else do
        there ← ask composer_contains (r.composer_contains invocation)
        if there then poll_again r c else left_composer r c latest

ambiguous : Snapshot → M Turnout
ambiguous latest = pure ("ambiguous", latest)

await_turnout : Runtime → Config → String → M Turnout
unfolding rounds poll_turnout ambiguous
await_turnout r c invocation = do
  now ← ask monotonic r.monotonic
  latest ← snapshot r c
  rounds r (suc r.transition_timeout) (now + r.transition_timeout) (poll_turnout r c invocation)
      ambiguous latest

public_update : Runtime → Snapshot → String → Option CommandEvent → M (Option Value)
unfolding update_event interaction_id_of
public_update r latest status none = pure none
public_update r latest status (some e) =
    update_event r e (if str_eq status "pending" then "waiting" else "completed") none
      (some (interaction_id_of latest.interaction))

some_event : Option Value → Option (Option Value)
some_event none = none
some_event (some v) = some (some v)

command_result : Command → Turnout → Bool → Option Value → Result
unfolding some_event
command_result command turnout changed shown = record {
  request_id = command.request_id;
  command = some (record {
    command = command.entry.command;
    behavior = command.entry.behavior;
    command_state = turnout.0;
  });
  interaction = turnout.1.interaction;
  revision = turnout.1.revision;
  changed = changed;
  resolved = none;
  duplicate = false;
  command_event = some_event shown;
}

-- After the command was entered: how it turned out, and its receipt.
pub followed : Runtime → Config → Command → String → Option CommandEvent → String → M Result
unfolding await_turnout public_update command_result
followed r c command identity event baseline = do
  turnout ← await_turnout r c command.invocation
  ensure (not (str_eq turnout.0 "ambiguous")) not_accepted
  screen ← ask capture r.capture
  shown ← public_update r turnout.1 turnout.0 event
  remember_receipt r command.request_id c.session identity
      (command_result command turnout (not (str_eq screen baseline)) shown)

-- After the text was sent: it is entered once it stands in the composer.
enter : Runtime → Config → Command → String → Option CommandEvent → String → M Result
unfolding await_placed await_completion followed
enter r c command identity event baseline = do
  await_placed r command.invocation
  placed ← ask composer_contains (r.composer_contains command.invocation)
  ensure placed not_placed
  now ← ask monotonic r.monotonic
  await_completion r command.entry (now + min r.completion_limit r.transition_timeout)
      r.completion_ready
  tell (send_key "Enter")
  followed r c command identity event baseline

-- The body of the `try`: the command is typed, entered once, and followed.
type_command : Runtime → Config → Command → String → Option CommandEvent → M Result
unfolding enter
type_command r c command identity event = do
  baseline ← ask capture r.capture
  tell (send_literal command.invocation)
  enter r c command identity event baseline

-- The `except`: the event has failed, and the exception goes on.
pub fail_event : Runtime → Option CommandEvent → InteractionError → M Result
unfolding update_event
fail_event r none e = throw e
fail_event r (some event) e = do update_event r event "failed" none none; throw e

-- A command that the timeline has already: its state is told, and nothing is typed.
repeated : Runtime → Config → Command → CommandEvent → M Result
repeated r c command event = do
  ensure (not (str_eq (status_text event.status) "failed")) attempt_failed
  first ← snapshot r c
  second ← snapshot r c
  pure (record {
    request_id = command.request_id;
    command = some (record {
      command = command.entry.command;
      behavior = command.entry.behavior;
      command_state = status_text event.status;
    });
    interaction = first.interaction;
    revision = second.revision;
    changed = false;
    resolved = none;
    duplicate = true;
    command_event = some (some (public_event event));
  })

entered : Runtime → Config → Command → String → Option CommandEvent × Bool → M Result
unfolding repeated fail_event type_command
entered r c command identity (some event, true) = repeated r c command event
entered r c command identity (event, _) =
    catch (type_command r c command identity event) (fail_event r event)

-- A command that no receipt answers.
run_command : Runtime → Config → Command → String → M Result
unfolding checked_terminal begin_in entered
run_command r c command identity = do
  checked_terminal r c command
  timeline ← get_state (λ s. s.timeline)
  begun_event ← begin_in r c command timeline
  entered r c command identity begun_event

run_unless : Runtime → Config → Command → String → Option Result → M Result
unfolding run_command
run_unless r c command identity (some existing) = pure existing
run_unless r c command identity none = run_command r c command identity

needs_confirmation : CommandEntry → Bool
needs_confirmation e = str_eq e.behavior "dangerous" || str_eq e.behavior "unclassified"

required_id : Option String → M String
required_id none = throw invalid_request_id
required_id (some id) = pure id

begin_checked :
    Runtime → Config → Option String → Bool → Option String → Option CommandEntry → M Result
unfolding needs_confirmation required_id run_unless
begin_checked r c (some invocation) confirmed request_id (some entry) = do
  ensure (not (needs_confirmation entry) || confirmed) confirmation_required
  id ← required_id request_id
  prune_receipts r
  existing ← existing_receipt r id c.session (r.sha256 invocation)
  run_unless r c (record { request_id = id; invocation = invocation; entry = entry })
      (r.sha256 invocation) existing
begin_checked r c _ confirmed request_id _ = throw unsupported_command

entry_for : Runtime → Option String → Option CommandEntry
entry_for r none = none
entry_for r (some invocation) = command_entry (some (text invocation)) r.catalog

-- `begin_command`
unfoldable pub begin_command : Runtime → Config → Value → Value → Bool → M Result
unfolding begin_checked entry_for
begin_command r c command client_request_id confirmed =
    let invocation = command_invocation (some command) r.catalog in
    begin_checked r c invocation confirmed (clean_request_id client_request_id)
      (entry_for r invocation)
