-- ===== src/Interaction/Service/Command/Waits.antt =====
-- The steps of a command end and send nothing: its checks, its waits and what follows its entering.
use faryo_codex_web_ui.Base.{
  ℕ, ◌+◌, ◌≤◌, ◌≢◌, refl, Bool, true, false, not, Option, none, some, String, str_eq, min,
  if◌then◌else◌, arith, is_some,
}
use faryo_codex_web_ui.Commands.Catalog.{CommandEntry}
use faryo_codex_web_ui.Timeline.Event.{CommandEvent}
use faryo_codex_web_ui.Timeline.Store
use faryo_codex_web_ui.Timeline.Store.{Timeline, TimelineError, public_event}
use faryo_codex_web_ui.Interaction.Runtime.{
  Config, Runtime, History, Snapshot, goes_on, stops, out_of_rounds, anchor_key, timeline_draw,
  ready_for_input, turn_running, is_codex, composer_has_draft, composer_contains, has_session,
  completion_ready, capture, sleep, disabled_in_task, not_ready, unavailable, already_waiting,
  unsent_draft, not_accepted,
}
use faryo_codex_web_ui.Interaction.Clock.{free, per_round, per_round-le}
use faryo_codex_web_ui.Interaction.Does.{
  Does, nothing, Does-bind, Does-skip, Does-pure, Does-throw, Does-ensure, Does-set_state, Does-if,
  Does-ask, Does-tell, Does-sleep, Does-now, Does-rounds,
}
use faryo_codex_web_ui.Interaction.Service.Ends.{snapshot-Does, remember_receipt-Does}
use faryo_codex_web_ui.Interaction.Service.Respond.Updates.{
  command_owner_key-Does, update_event-Does,
}
use faryo_codex_web_ui.Interaction.Service.Readiness.{
  Command, may_start, poll_ready, still_not_ready, await_ready, readiness, is_codex_session,
  checked_terminal,
}
use faryo_codex_web_ui.Interaction.Service.Command.{
  refusal, begun, begin_in, poll_placed, give_up, await_placed, poll_completion, await_completion,
  poll_again, left_composer, poll_turnout, ambiguous, await_turnout, public_update, command_result,
  followed,
}

pub min-le : (limit timeout : ℕ) → min limit timeout ≤ timeout
min-le limit timeout = ground arith

refusal-Known : (e : TimelineError) → refusal e ≢ out_of_rounds
unfolding refusal
refusal-Known Store.os_error same = cc same
refusal-Known Store.type_error same = cc same
refusal-Known Store.invalid_owner same = cc same
refusal-Known Store.invalid_event same = cc same
refusal-Known Store.id_reused same = cc same
refusal-Known Store.invalid_status same = cc same

may_start-Known : (busy : Bool) → (if busy then disabled_in_task else not_ready) ≢ out_of_rounds
may_start-Known true same = cc same
may_start-Known false same = cc same

module _ {r : Runtime} where
  -- A pause and a new snapshot end a round.
  poll_ready-Does :
      (c : Config) (was_running : Bool) (u : Unit {0})
      → Does r 0 nothing per_round (poll_ready r c was_running u)
  unfolding poll_ready
  poll_ready-Does c was_running u =
      Does-bind (Does-ask turn_running r.turn_running (λ keys. refl)) (λ busy.
        Does-if busy (Does-pure _ refl) (
          Does-sleep (λ round. per_round-le round)
            (Does-bind (snapshot-Does 0 c) (λ latest.
              Does-skip
                (Does-ensure (not (is_some latest.interaction)) already_waiting (λ same. cc same))
                (Does-bind (Does-ask ready_for_input r.ready_for_input (λ keys. refl)) (λ ready.
                  Does-pure (if ready then stops (true, was_running) else goes_on tt) refl))))))

  poll_placed-Does :
      (invocation : String) (u : Unit {0}) → Does r 0 nothing per_round (poll_placed r invocation u)
  unfolding poll_placed
  poll_placed-Does invocation u =
      Does-bind (Does-ask composer_contains (r.composer_contains invocation) (λ keys. refl))
        (λ there.
          Does-if there (Does-pure _ refl)
            (Does-sleep (λ round. per_round-le round) (Does-pure (goes_on tt) refl)))

  poll_completion-Does :
      (ready : History → Bool) (u : Unit {0}) → Does r 0 nothing per_round (poll_completion ready u)
  unfolding poll_completion
  poll_completion-Does ready u = Does-bind (Does-ask completion_ready ready (λ keys. refl)) (λ done.
      Does-if done (Does-pure _ refl)
        (Does-sleep (λ round. per_round-le round) (Does-pure (goes_on tt) refl)))

  poll_again-Does : (c : Config) → Does r 0 nothing per_round (poll_again r c)
  unfolding poll_again
  poll_again-Does c =
      Does-sleep (λ round. per_round-le round)
        (Does-bind (snapshot-Does 0 c) (λ newer. Does-pure (goes_on newer) refl))

  left_composer-Does :
      (c : Config) (latest : Snapshot) → Does r 0 nothing per_round (left_composer r c latest)
  unfolding left_composer
  left_composer-Does c latest =
      Does-bind (Does-ask ready_for_input r.ready_for_input (λ keys. refl)) (λ ready.
        Does-if ready (Does-pure _ refl) (
          Does-bind (Does-ask turn_running r.turn_running (λ keys. refl))
            (λ busy. Does-if busy (Does-pure _ refl) (poll_again-Does c))))

  poll_turnout-Does :
      (c : Config) (invocation : String) (latest : Snapshot)
      → Does r 0 nothing per_round (poll_turnout r c invocation latest)
  unfolding poll_turnout
  poll_turnout-Does c invocation latest =
      Does-bind (Does-ask is_codex r.is_codex (λ keys. refl)) (λ codex.
        Does-if (not codex) (Does-pure _ refl) (
          Does-if (is_some latest.interaction) (Does-pure _ refl) (
            Does-bind (Does-ask composer_contains (r.composer_contains invocation) (λ keys. refl))
              (λ there. Does-if there (poll_again-Does c) (left_composer-Does c latest)))))

module _ {r : Runtime} (from : ℕ) (c : Config) where
  await_ready-Does : (was_running : Bool) → Does r from nothing free (await_ready r c was_running)
  unfolding await_ready still_not_ready
  await_ready-Does was_running = Does-now (λ now.
      Does-rounds {body = poll_ready r c was_running} {late = still_not_ready was_running} now
        (min r.readiness_limit r.transition_timeout) (min-le r.readiness_limit r.transition_timeout)
        (poll_ready-Does c was_running) (λ u. Does-pure (false, was_running) refl) tt)

  readiness-Does : (command : Command) → Does r from nothing free (readiness r c command)
  unfolding readiness
  readiness-Does command =
      Does-bind (Does-ask ready_for_input r.ready_for_input (λ keys. refl)) (λ ready.
        Does-bind (Does-ask turn_running r.turn_running (λ keys. refl)) (λ busy.
          Does-if (may_start command (ready, busy)) (Does-pure (ready, busy) refl)
            (await_ready-Does busy)))

  is_codex_session-Does : (alive : Bool) → Does r from nothing free (is_codex_session r alive)
  unfolding is_codex_session
  is_codex_session-Does false = Does-pure false refl
  is_codex_session-Does true = Does-ask is_codex r.is_codex (λ keys. refl)

  pub checked_terminal-Does :
      (command : Command) → Does r from nothing free (checked_terminal r c command)
  unfolding checked_terminal
  checked_terminal-Does command =
      Does-bind (Does-ask has_session r.has_session (λ keys. refl)) (λ alive.
        Does-bind (is_codex_session-Does alive) (λ codex.
          Does-skip (Does-ensure codex unavailable (λ same. cc same)) (
            Does-bind (snapshot-Does from c) (λ latest.
              Does-skip
                (Does-ensure (not (is_some latest.interaction)) already_waiting (λ same. cc same))
                (Does-bind (readiness-Does command) (λ state.
                  Does-skip
                    (Does-ensure (may_start command state)
                      (if state.1 then disabled_in_task else not_ready) (may_start-Known state.1))
                    (Does-bind (Does-ask composer_has_draft r.composer_has_draft (λ keys. refl))
                      (λ draft. Does-ensure (not draft) unsent_draft (λ same. cc same)))))))))

  begun-Does :
      (result : Store.Outcome (Option CommandEvent × Bool))
      → Does r from nothing free (begun result)
  unfolding begun
  begun-Does (Store.returns a) = Does-pure a refl
  begun-Does (Store.raises e) = Does-throw (refusal e) (refusal-Known e)

  pub begin_in-Does :
      (command : Command) (timeline : Option Timeline)
      → Does r from nothing free (begin_in r c command timeline)
  unfolding begin_in
  begin_in-Does command none = Does-pure (none, false) refl
  begin_in-Does command (some timeline) =
      Does-bind (Does-ask anchor_key r.anchor_key (λ keys. refl)) (λ anchor.
        Does-bind (command_owner_key-Does from c) (λ owner.
          Does-bind (Does-ask timeline_draw r.writes (λ keys. refl)) (λ writes.
            Does-bind (Does-ask timeline_draw r.milliseconds (λ keys. refl)) (λ now.
              Does-bind (Does-ask timeline_draw r.random (λ keys. refl))
                (λ token. Does-skip (Does-set_state _ (λ s. refl)) (begun-Does _))))))

  pub await_placed-Does :
      (invocation : String) → Does r from nothing free (await_placed r invocation)
  unfolding await_placed give_up
  await_placed-Does invocation = Does-now (λ now.
      Does-rounds {body = poll_placed r invocation} {late = give_up} now
        (min r.draft_limit r.transition_timeout) (min-le r.draft_limit r.transition_timeout)
        (poll_placed-Does invocation) (λ u. Does-pure tt refl) tt)

  -- The wait that starts now, for a part of the timeout.
  pub await_completion-Does :
      (entry : CommandEntry) (limit : ℕ) (probe : Option (String → History → Bool))
      → limit ≤ r.transition_timeout
      → Does r from nothing free (await_completion r entry (from + limit) probe)
  unfolding await_completion give_up
  await_completion-Does entry limit none le = Does-tell sleep (λ keys. refl)
  await_completion-Does entry limit (some ready) le =
      Does-rounds {body = poll_completion (ready entry.command)} {late = give_up} from limit le
        (poll_completion-Does (ready entry.command)) (λ u. Does-pure tt refl) tt

  await_turnout-Does :
      (invocation : String) → Does r from nothing free (await_turnout r c invocation)
  unfolding await_turnout ambiguous
  await_turnout-Does invocation = Does-now (λ now. Does-bind (snapshot-Does now c) (λ latest.
      Does-rounds {body = poll_turnout r c invocation} {late = ambiguous} now r.transition_timeout
        (omega arith) (poll_turnout-Does c invocation) (λ last. Does-pure ("ambiguous", last) refl)
        latest))

  public_update-Does :
      (latest : Snapshot) (status : String) (event : Option CommandEvent)
      → Does r from nothing free (public_update r latest status event)
  unfolding public_update
  public_update-Does latest status none = Does-pure none refl
  public_update-Does latest status (some e) = update_event-Does from e _ _ _

  pub followed-Does :
      (command : Command) (id baseline : String) (event : Option CommandEvent)
      → Does r from nothing free (followed r c command id event baseline)
  unfolding followed
  followed-Does command id baseline event =
      Does-bind (await_turnout-Does command.invocation) (λ turnout.
        Does-skip (Does-ensure (not (str_eq turnout.0 "ambiguous")) not_accepted (λ same. cc same))
          (Does-bind (Does-ask capture r.capture (λ keys. refl)) (λ screen.
            Does-bind (public_update-Does turnout.1 turnout.0 event) (λ shown.
              remember_receipt-Does from command.request_id c.session id
                (command_result command turnout (not (str_eq screen baseline)) shown)))))
