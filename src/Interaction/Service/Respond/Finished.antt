-- ===== src/Interaction/Service/Respond/Finished.antt =====
-- An answer ends: the wait for its effect never runs out of rounds.
use faryo_codex_web_ui.Base.{
  ℕ, ◌≢◌, refl, false, not, Option, none, some, List, [], ◌∷◌, String, str_eq, arith, Bool-cases,
  inl, inr, any,
}
use faryo_codex_web_ui.Base.Text.{is_empty}
use faryo_codex_web_ui.Json.{Value, text}
use faryo_codex_web_ui.Program.{Outcome, returns, raises}
use faryo_codex_web_ui.Timeline.Event.{CommandEvent}
use faryo_codex_web_ui.Timeline.Store.{Timeline, event_for_interaction}
use faryo_codex_web_ui.Interaction.Types.{DetectedInteraction, selected_index}
use faryo_codex_web_ui.Interaction.Runtime.{
  Config, Runtime, Interactions, InteractionError, out_of_rounds, PublicInteraction, PublicOption,
  Snapshot, Result, goes_on, invalid_request_id, missing_response, not_applied,
}
use faryo_codex_web_ui.Interaction.Clock.{
  Ticks, Ran, Runs, free, per_round, per_round-le, Runs-bind, Runs-skip, Runs-pure, Runs-throw,
  Runs-ensure, Runs-get_state, Runs-if, Runs-tell, Runs-sleep, Runs-now, Runs-rounds,
}
use faryo_codex_web_ui.Interaction.Service.{is_pending, clean_request_id}
use faryo_codex_web_ui.Interaction.Service.Ends.{
  snapshot-Does, prune_receipts-Does, existing_receipt-Does, remember_receipt-Does,
  current_or_stale-Does,
}
use faryo_codex_web_ui.Interaction.Service.Respond.{
  keys_to, keys_at, keys_for_option, keys_for_action, keys_for_response, action_key, nth, lift,
  send_each, poll_changed, unchanged, wait_for_transition, event_in, with_event, answer,
  answer_unless, answer_result, respond_to, respond_clean, respond, Answer, identity_of,
}
use faryo_codex_web_ui.Interaction.Service.Respond.Updates.{
  command_owner_key-Does, of_timeline-Does, update_event-Does,
}

-- An error of the code.
Known : Outcome InteractionError (List String) → Type 0
Known (returns keys) = Unit
Known (raises e) = e ≢ out_of_rounds

keys_to-Known : (wanted : ℕ) (selected : Option ℕ) → Known (keys_to wanted selected)
unfolding keys_to Known
keys_to-Known wanted none = λ same. cc same
keys_to-Known wanted (some selected) = tt

keys_at-Known :
    (d : DetectedInteraction) (wanted : ℕ) (o : Option PublicOption) → Known (keys_at d wanted o)
unfolding keys_at Known
keys_at-Known d wanted none = λ same. cc same
keys_at-Known d wanted (some o) = elim (Bool-cases o.disabled) [
  | inl off ↦ rw off (λ same. cc same)
  | inr on ↦ rw on (keys_to-Known wanted (selected_index d))
]

keys_for_option-Known :
    (payload : PublicInteraction) (d : DetectedInteraction) (wanted : Option ℕ)
    → Known (keys_for_option payload d wanted)
unfolding keys_for_option Known
keys_for_option-Known payload d none = λ same. cc same
keys_for_option-Known payload d (some wanted) = keys_at-Known d wanted (nth wanted payload.options)

keys_for_action-Known :
    (d : DetectedInteraction) (action : String) (key : Option String)
    → Known (keys_for_action d action key)
unfolding keys_for_action Known
keys_for_action-Known d action none = λ same. cc same
keys_for_action-Known d action (some key) = elim (Bool-cases (any (str_eq action) d.actions)) [
  | inl offered ↦ rw offered tt
  | inr other ↦ rw other (λ same. cc same)
]

keys_for_response-Known :
    (payload : PublicInteraction) (d : DetectedInteraction) (action option_id : String)
    → Known (keys_for_response payload d action option_id)
unfolding keys_for_response
keys_for_response-Known payload d action option_id = elim (Bool-cases (is_empty option_id)) [
  | inl none_given ↦ rw none_given (keys_for_action-Known d action (action_key action))
  | inr given ↦ rw given (keys_for_option-Known payload d _)
]

module _ {r : Runtime} (ticks : Ticks r) where
  poll_changed-Runs :
      (c : Config) (prior_id : String) (latest : Snapshot)
      → Runs r 0 per_round (poll_changed r c prior_id latest)
  unfolding poll_changed
  poll_changed-Runs c prior_id latest =
      Runs-if (not (is_pending prior_id latest.interaction)) (Runs-pure _ refl) (
        Runs-sleep ticks (λ round. per_round-le round)
          (Runs-bind ((snapshot-Does 0 c).runs ticks) (λ newer. Runs-pure (goes_on newer) refl)))

module _ {r : Runtime} (ticks : Ticks r) (from : ℕ) where
  lift-Runs :
      (keys : Outcome InteractionError (List String)) → Known keys → Runs r from free (lift keys)
  unfolding lift Known
  lift-Runs (returns keys) known = Runs-pure keys refl
  lift-Runs (raises e) known = Runs-throw e known

  send_each-Runs : (keys : List String) → Runs r from free (send_each keys)
  unfolding send_each
  send_each-Runs [] = Runs-pure tt refl
  send_each-Runs (key ∷ keys) =
      Runs-skip (Runs-tell ticks _) (Runs-skip (Runs-tell ticks _) (send_each-Runs keys))

  wait_for_transition-Runs :
      (c : Config) (prior_id : String) → Runs r from free (wait_for_transition r c prior_id)
  unfolding wait_for_transition unchanged
  wait_for_transition-Runs c prior_id = Runs-now ticks (λ now.
      Runs-bind ((snapshot-Does now c).runs ticks) (λ latest.
        Runs-rounds ticks {body = poll_changed r c prior_id} {late = unchanged} now
          r.transition_timeout (omega arith) (poll_changed-Runs ticks c prior_id)
          (λ a. Runs-pure (a, false) refl) latest))

  event_in-Runs :
      (c : Config) (id : String) (timeline : Option Timeline)
      → Runs r from free (event_in r c id timeline)
  unfolding event_in
  event_in-Runs c id none = Runs-pure none refl
  event_in-Runs c id (some timeline) =
      Runs-bind ((command_owner_key-Does from c).runs ticks) (λ owner.
        (of_timeline-Does from (event_for_interaction timeline (some (text owner)) id)).runs ticks)

  with_event-Runs :
      (action : String) (result : Result) (event : Option CommandEvent)
      → Runs r from free (with_event r action result event)
  unfolding with_event
  with_event-Runs action result none = Runs-pure result refl
  with_event-Runs action result (some e) =
      Runs-bind ((update_event-Does from e _ _ _).runs ticks)
        (λ updated. Runs-pure (record result { command_event = some updated }) refl)

  answer-Runs : (c : Config) (a : Answer) (id : String) → Runs r from free (answer r c a id)
  unfolding answer
  answer-Runs c a id =
      Runs-bind ((current_or_stale-Does from c a.interaction_id).runs ticks) (λ pending.
        Runs-bind (Runs-get_state (λ s. s.timeline)) (λ timeline.
          Runs-bind (event_in-Runs c a.interaction_id timeline) (λ event.
            Runs-bind
              (lift-Runs (keys_for_response pending.0 pending.1 a.action a.option_id)
                (keys_for_response-Known pending.0 pending.1 a.action a.option_id))
              (λ keys. Runs-skip (send_each-Runs keys) (
                Runs-bind (wait_for_transition-Runs c a.interaction_id) (λ latest.
                  Runs-skip (Runs-ensure _ not_applied (λ same. cc same)) (
                    Runs-bind (with_event-Runs a.action (answer_result a latest.0 latest.1) event)
                      (λ result.
                        (remember_receipt-Does from a.request_id c.session id result).runs
                          ticks))))))))

  answer_unless-Runs :
      (c : Config) (a : Answer) (id : String) (existing : Option Result)
      → Runs r from free (answer_unless r c a id existing)
  unfolding answer_unless
  answer_unless-Runs c a id (some existing) = Runs-pure existing refl
  answer_unless-Runs c a id none = answer-Runs c a id

  respond_to-Runs : (c : Config) (a : Answer) → Runs r from free (respond_to r c a)
  unfolding respond_to
  respond_to-Runs c a = Runs-skip ((prune_receipts-Does from).runs ticks) (
      Runs-bind ((existing_receipt-Does from a.request_id c.session (identity_of r a)).runs ticks)
        (λ existing. answer_unless-Runs c a (identity_of r a) existing))

  respond_clean-Runs :
      (c : Config) (interaction_id action option_id : Value) (request_id : Option String)
      → Runs r from free (respond_clean r c interaction_id action option_id request_id)
  unfolding respond_clean
  respond_clean-Runs c interaction_id action option_id none =
      Runs-throw invalid_request_id (λ same. cc same)
  respond_clean-Runs c interaction_id action option_id (some request_id) =
      Runs-skip (Runs-ensure _ missing_response (λ same. cc same)) (respond_to-Runs c _)

  respond-Runs :
      (c : Config) (interaction_id action option_id client_request_id : Value)
      → Runs r from free (respond r c interaction_id action option_id client_request_id)
  unfolding respond
  respond-Runs c interaction_id action option_id client_request_id =
      respond_clean-Runs c interaction_id action option_id (clean_request_id client_request_id)

-- What ran did not run out of rounds.
pub finished :
    {A : Type 0} (r : Runtime) (s : Interactions)
    (result : Outcome InteractionError A × Interactions)
    → Ran r free s result
    → result.0 ≢ raises out_of_rounds
finished r s (returns a, t) h same = cc same
finished r s (raises e, t) h same = h (cc same)

-- Where the clock never goes back and a pause takes time, every answer ends: the wait for the terminal has
-- rounds enough for its timeout.
pub respond_finishes :
    (r : Runtime) (c : Config) (interaction_id action option_id client_request_id : Value)
    (s : Interactions)
    → Ticks r
    → (respond r c interaction_id action option_id client_request_id s).0 ≢ raises out_of_rounds
respond_finishes r c interaction_id action option_id client_request_id s ticks =
    finished r s _ (
      (respond-Runs ticks 0 c interaction_id action option_id client_request_id).ran s
        (omega arith))
