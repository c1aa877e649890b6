-- ===== src/Interaction/Service/Command/Entered.antt =====
-- A command ends, and sends at most one text and one key, whatever follows the check of its name.
use faryo_codex_web_ui.Base.{
  ℕ, ◌+◌, ◌≤◌, ◌≢◌, if◌then◌else◌, refl, Bool, true, false, not, ◌||◌, Option, none, some, String,
  str_eq, min, arith,
}
use faryo_codex_web_ui.Json.{Value}
use faryo_codex_web_ui.Program.{
  AtMost, AtMost-skip, AtMost-throw, Outcome, returns, raises, throw, next, catch,
}
use faryo_codex_web_ui.Commands.Catalog.{CommandEntry}
use faryo_codex_web_ui.Commands.Invocation.{command_invocation}
use faryo_codex_web_ui.Timeline.Event.{CommandEvent, status_text}
use faryo_codex_web_ui.Interaction.Runtime.{
  Config, Runtime, Result, Interactions, InteractionError, out_of_rounds, composer_contains,
  capture, send_key, send_literal, unsupported_command, confirmation_required, invalid_request_id,
  not_placed, attempt_failed,
}
use faryo_codex_web_ui.Interaction.Clock.{Ticks, Ran, free, caught-Ran}
use faryo_codex_web_ui.Interaction.Does.{
  Does, nothing, Does-le, Does-bind, Does-skip, Does-both, Does-pure, Does-throw, Does-ensure,
  Does-get_state, Does-ask, Does-typed, Does-now,
}
use faryo_codex_web_ui.Interaction.Typings.{typings, weight, AtMost-catch}
use faryo_codex_web_ui.Interaction.Service.{clean_request_id}
use faryo_codex_web_ui.Interaction.Service.Ends.{
  snapshot-Does, prune_receipts-Does, existing_receipt-Does,
}
use faryo_codex_web_ui.Interaction.Service.Respond.{update_event}
use faryo_codex_web_ui.Interaction.Service.Respond.Updates.{update_event-Does}
use faryo_codex_web_ui.Interaction.Service.Readiness.{Command}
use faryo_codex_web_ui.Interaction.Service.Command.{
  enter, type_command, fail_event, repeated, entered, run_command, run_unless, needs_confirmation,
  required_id, begin_checked, entry_for, begin_command,
}
use faryo_codex_web_ui.Interaction.Service.Command.Waits.{
  min-le, checked_terminal-Does, begin_in-Does, await_placed-Does, await_completion-Does,
  followed-Does,
}

abbrev pub once : Bool → ℕ
once keys = 1

literal_or_key : (keys : Bool) → (if not keys then 1 else 0) + (if keys then 1 else 0) ≤ 1
literal_or_key true = omega arith
literal_or_key false = omega arith

module _ (r : Runtime) where
  thrown-Ran :
      {A : Type 0} (e : InteractionError) (s t : Interactions)
      (result : Outcome InteractionError A × Interactions)
      → e ≢ out_of_rounds
      → Ran r free t result
      → Ran r free s (next {B = Result} result (λ _. throw e))
  thrown-Ran e s t (returns a, u) known h = known
  thrown-Ran e s t (raises other, u) known h = h

  fail_event-AtMost :
      (keys : Bool) (event : Option CommandEvent) (e : InteractionError)
      → AtMost (typings keys) 0 (fail_event r event e)
  unfolding fail_event
  fail_event-AtMost keys none e = AtMost-throw e
  fail_event-AtMost keys (some event) e =
      AtMost-skip ((update_event-Does {r = r} 0 event "failed" none none).sends keys)
        (AtMost-throw e)

module _ {r : Runtime} (c : Config) where
  enter-Does :
      (from : ℕ) (command : Command) (id baseline : String) (event : Option CommandEvent)
      → Does r from
          (λ keys. weight keys (send_key "Enter"))
          free
          (enter r c command id event baseline)
  unfolding enter
  enter-Does from command id baseline event =
      Does-skip (await_placed-Does from c command.invocation) (
        Does-bind
          (Does-ask composer_contains (r.composer_contains command.invocation) (λ keys. refl))
          (λ placed. Does-skip (Does-ensure placed not_placed (λ same. cc same)) (
            Does-now (λ now.
              Does-skip
                (await_completion-Does now c command.entry
                  (min r.completion_limit r.transition_timeout) r.completion_ready
                  (min-le r.completion_limit r.transition_timeout))
                (Does-le (λ keys. omega arith)
                  (Does-both (Does-typed (send_key "Enter"))
                    (followed-Does now c command id baseline event)))))))

  type_command-Does :
      (from : ℕ) (command : Command) (id : String) (event : Option CommandEvent)
      → Does r from once free (type_command r c command id event)
  unfolding type_command
  type_command-Does from command id event =
      Does-bind (Does-ask capture r.capture (λ keys. refl)) (λ baseline. Does-le literal_or_key (
        Does-both (Does-typed (send_literal command.invocation))
          (enter-Does from command id baseline event)))

  -- Whatever the state is in which the event fails, the exception goes on.
  fail_event-Ran :
      (ticks : Ticks r) (event : Option CommandEvent) (s : Interactions) (e : InteractionError)
      (t : Interactions)
      → e ≢ out_of_rounds
      → Ran r free s (fail_event r event e t)
  unfolding fail_event
  fail_event-Ran ticks none s e t known = known
  fail_event-Ran ticks (some event) s e t known =
      thrown-Ran r e s t (update_event r event "failed" none none t) known
        (((update_event-Does 0 event "failed" none none).runs ticks).ran t (omega arith))

  attempt-Does :
      (from : ℕ) (command : Command) (id : String) (event : Option CommandEvent)
      → Does r from once free (catch (type_command r c command id event) (fail_event r event))
  attempt-Does from command id event = record {
    sends = λ keys.
        AtMost-catch keys ((type_command-Does from command id event).sends keys)
          (fail_event-AtMost r keys event);
    runs = λ ticks. record {
      ran = λ s late.
          caught-Ran r (fail_event r event) s (type_command r c command id event s)
            (((type_command-Does from command id event).runs ticks).ran s late)
            (λ e t known. fail_event-Ran ticks event s e t known);
    };
  }

  repeated-Does :
      (from : ℕ) (command : Command) (event : CommandEvent)
      → Does r from nothing free (repeated r c command event)
  unfolding repeated
  repeated-Does from command event =
      Does-skip
        (Does-ensure (not (str_eq (status_text event.status) "failed")) attempt_failed
          (λ same. cc same))
        (Does-bind (snapshot-Does from c)
          (λ first. Does-bind (snapshot-Does from c) (λ second. Does-pure _ refl)))

  entered-Does :
      (from : ℕ) (command : Command) (id : String) (begun_event : Option CommandEvent × Bool)
      → Does r from once free (entered r c command id begun_event)
  unfolding entered
  entered-Does from command id (some event, true) =
      Does-le (λ keys. omega arith) (repeated-Does from command event)
  entered-Does from command id (some event, false) = attempt-Does from command id (some event)
  entered-Does from command id (none, true) = attempt-Does from command id none
  entered-Does from command id (none, false) = attempt-Does from command id none

  run_unless-Does :
      (from : ℕ) (command : Command) (id : String) (existing : Option Result)
      → Does r from once free (run_unless r c command id existing)
  unfolding run_unless run_command
  run_unless-Does from command id (some existing) = Does-pure existing refl
  run_unless-Does from command id none = Does-skip (checked_terminal-Does from c command) (
      Does-bind (Does-get_state (λ s. s.timeline)) (λ timeline.
        Does-bind (begin_in-Does from c command timeline)
          (λ begun_event. entered-Does from command id begun_event)))

  required_id-Does : (from : ℕ) (id : Option String) → Does r from nothing free (required_id id)
  unfolding required_id
  required_id-Does from none = Does-throw invalid_request_id (λ same. cc same)
  required_id-Does from (some id) = Does-pure id refl

  begin_checked-Does :
      (from : ℕ) (invocation : Option String) (confirmed : Bool) (request_id : Option String)
      (entry : Option CommandEntry)
      → Does r from once free (begin_checked r c invocation confirmed request_id entry)
  unfolding begin_checked
  begin_checked-Does from none confirmed request_id entry =
      Does-throw unsupported_command (λ same. cc same)
  begin_checked-Does from (some invocation) confirmed request_id none =
      Does-throw unsupported_command (λ same. cc same)
  begin_checked-Does from (some invocation) confirmed request_id (some entry) =
      Does-skip
        (Does-ensure (not (needs_confirmation entry) || confirmed) confirmation_required
          (λ same. cc same))
        (Does-bind (required_id-Does from request_id) (λ id. Does-skip (prune_receipts-Does from) (
          Does-bind (existing_receipt-Does from id c.session (r.sha256 invocation)) (λ existing.
            run_unless-Does from
              (record { request_id = id; invocation = invocation; entry = entry })
              (r.sha256 invocation) existing))))

  pub begin_command-Does :
      (from : ℕ) (command client_request_id : Value) (confirmed : Bool)
      → Does r from once free (begin_command r c command client_request_id confirmed)
  unfolding begin_command
  begin_command-Does from command client_request_id confirmed =
      begin_checked-Does from (command_invocation (some command) r.catalog) confirmed
        (clean_request_id client_request_id)
        (entry_for r (command_invocation (some command) r.catalog))
