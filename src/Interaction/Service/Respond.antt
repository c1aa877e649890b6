-- ===== src/Interaction/Service/Respond.antt =====
-- interaction_service.py: `respond`, the keys of an answer and the wait for what they change.
use Prim.Native.String.{◌++◌}
use faryo_codex_web_ui.Base.{
  ℕ, zero, suc, ◌+◌, ◌-◌, Bool, true, false, not, ◌||◌, ◌&&◌, Option, none, some, List, [], ◌∷◌,
  ◌++◌ as append, String, str_eq, ltb, any, if◌then◌else◌, is_some,
}
use faryo_codex_web_ui.Base.Letters.{lower}
use faryo_codex_web_ui.Base.Text.{strip, is_empty}
use faryo_codex_web_ui.Json.{Value, text, mapping, no_fields, field}
use faryo_codex_web_ui.Json.Str.{text_or}
use faryo_codex_web_ui.Program.{
  Outcome, returns, raises, ◌>>=◌, ◌>>◌, pure, throw, ensure, get_state, set_state,
}
use faryo_codex_web_ui.Timeline.Event.{CommandEvent}
use faryo_codex_web_ui.Timeline.Store
use faryo_codex_web_ui.Timeline.Store.{Timeline, TimelineError, public_event, event_for_interaction}
use faryo_codex_web_ui.Timeline.Store.Updating.{update}
use faryo_codex_web_ui.Interaction.Types.{DetectedInteraction, first_index, selected_index}
use faryo_codex_web_ui.Interaction.Runtime.{
  Config, Runtime, PublicOption, PublicInteraction, Snapshot, Result, InteractionError, M, ask,
  tell, Round, goes_on, stops, rounds, owner_key, monotonic, sleep, send_key, timeline_draw,
  invalid_request_id, missing_response, unknown_option, disabled_option, no_selection,
  unsupported_action, not_applied, timeline_raised,
}
use faryo_codex_web_ui.Interaction.Service.{
  zero_char, snapshot, clean_request_id, prune_receipts, existing_receipt, remember_receipt,
  is_pending, current_or_stale,
}
pub mod Finished
pub mod Keys
pub mod Repeated
pub mod Tests
pub mod Updates

-- `[key] * count`
unfoldable pub repeat : ℕ → String → List String
repeat zero key = []
repeat (suc n) key = key ∷ repeat n key

-- The keys from the selected to the wanted index, and the one that takes it.
unfoldable pub keys_between : ℕ → ℕ → List String
unfolding repeat
keys_between selected wanted =
    append
      (if ltb selected wanted
        then repeat (wanted - selected) "Down"
        else repeat (selected - wanted) "Up")
      ("Enter" ∷ [])

unfoldable pub nth : ℕ → List PublicOption → Option PublicOption
nth n [] = none
nth zero (o ∷ os) = some o
nth (suc n) (o ∷ os) = nth n os

keys_to : ℕ → Option ℕ → Outcome InteractionError (List String)
unfolding keys_between
keys_to wanted none = raises no_selection
keys_to wanted (some selected) = returns (keys_between selected wanted)

keys_at : DetectedInteraction → ℕ → Option PublicOption → Outcome InteractionError (List String)
unfolding keys_to
keys_at d wanted none = raises unknown_option
keys_at d wanted (some o) =
    if o.disabled then raises disabled_option else keys_to wanted (selected_index d)

keys_for_option :
    PublicInteraction → DetectedInteraction → Option ℕ → Outcome InteractionError (List String)
unfolding keys_at nth
keys_for_option payload d none = raises unknown_option
keys_for_option payload d (some wanted) = keys_at d wanted (nth wanted payload.options)

action_key : String → Option String
action_key action =
    if str_eq action "previous"
    then some "Up"
    else if str_eq action "next"
    then some "Down"
    else if str_eq action "choose"
    then some "Enter"
    else if str_eq action "cancel"
    then some "Escape"
    else none

keys_for_action :
    DetectedInteraction → String → Option String → Outcome InteractionError (List String)
keys_for_action d action none = raises unsupported_action
keys_for_action d action (some key) =
    if any (str_eq action) d.actions then returns (key ∷ []) else raises unsupported_action

-- `_keys_for_response`
unfoldable pub keys_for_response :
    PublicInteraction
    → DetectedInteraction
    → String
    → String
    → Outcome InteractionError (List String)
unfolding keys_for_option keys_for_action action_key
keys_for_response payload d action option_id =
    if is_empty option_id
    then keys_for_action d action (action_key action)
    else keys_for_option payload d (first_index (λ o. str_eq o.id option_id) payload.options)

lift : {A : Type 0} → Outcome InteractionError A → M A
lift (returns a) = pure a
lift (raises e) = throw e

-- Each key, and a pause after it.
unfoldable pub send_each : List String → M (Unit {0})
send_each [] = pure tt
send_each (key ∷ keys) = do tell (send_key key); tell sleep; send_each keys

poll_changed : Runtime → Config → String → Snapshot → M (Round Snapshot (Snapshot × Bool))
poll_changed r c prior_id latest =
    if not (is_pending prior_id latest.interaction)
    then pure (stops (latest, true))
    else do tell sleep; newer ← snapshot r c; pure (goes_on newer)

unchanged : Snapshot → M (Snapshot × Bool)
unchanged latest = pure (latest, false)

-- `_wait_for_transition`: a pause takes at least one unit of the clock, so the timeout bounds the rounds.
unfoldable pub wait_for_transition : Runtime → Config → String → M (Snapshot × Bool)
unfolding rounds poll_changed unchanged
wait_for_transition r c prior_id = do
  started ← ask monotonic r.monotonic
  latest ← snapshot r c
  rounds r (suc r.transition_timeout) (started + r.transition_timeout) (poll_changed r c prior_id)
      unchanged latest

-- `_command_owner_key`
unfoldable pub command_owner_key : Runtime → Config → M String
command_owner_key r c = do
  resolved ← ask owner_key r.owner_key
  let value = strip resolved
  pure (if is_empty value then "tui:" ++ c.session else value)

-- What a call of the timeline gives.
unfoldable pub of_timeline : {A : Type 0} → Store.Outcome A → M A
of_timeline (Store.returns a) = pure a
of_timeline (Store.raises e) = throw (timeline_raised e)

event_in : Runtime → Config → String → Option Timeline → M (Option CommandEvent)
unfolding command_owner_key of_timeline
event_in r c interaction_id none = pure none
event_in r c interaction_id (some timeline) = do
  owner ← command_owner_key r c
  of_timeline (event_for_interaction timeline (some (text owner)) interaction_id)

public_of : Option CommandEvent → Option Value
public_of none = none
public_of (some e) = some (public_event e)

update_in :
    Runtime
    → CommandEvent
    → String
    → Option Value
    → Option String
    → Option Timeline
    → M (Option Value)
unfolding of_timeline public_of
update_in r e status metadata interaction_id none = pure none
update_in r e status metadata interaction_id (some timeline) = do
  writes ← ask timeline_draw r.writes
  now ← ask timeline_draw r.milliseconds
  let changed = update writes now timeline e.id status metadata interaction_id
  set_state (λ s. record s { timeline = some changed.0 })
  updated ← of_timeline changed.1
  pure (public_of updated)

-- `command_timeline.update` for an event, and its public form.
unfoldable pub update_event :
    Runtime → CommandEvent → String → Option Value → Option String → M (Option Value)
unfolding update_in
update_event r e status metadata interaction_id = do
  timeline ← get_state (λ s. s.timeline)
  update_in r e status metadata interaction_id timeline

unfoldable pub interaction_id_of : Option PublicInteraction → String
interaction_id_of none = ""
interaction_id_of (some p) = p.id

cancelled : String → Option Value
cancelled action =
    if str_eq action "cancel"
    then some (mapping (field "action" (text "cancel") no_fields))
    else none

with_event : Runtime → String → Result → Option CommandEvent → M Result
unfolding update_event interaction_id_of cancelled
with_event r action result none = pure result
with_event r action result (some e) = do
  updated ←
      update_event r e (if is_some result.interaction then "waiting" else "completed")
        (cancelled action) (some (interaction_id_of result.interaction))
  pure (record result { command_event = some updated })

-- A request after its checks.
pub record Answer : Type 0 where
  pub request_id : String
  pub interaction_id : String
  pub action : String
  pub option_id : String

answer_result : Answer → Snapshot → Bool → Result
answer_result a latest changed = record {
  request_id = a.request_id;
  command = none;
  interaction = latest.interaction;
  revision = latest.revision;
  changed = changed;
  resolved = some (not (is_some latest.interaction));
  duplicate = false;
  command_event = none;
}

-- Whether the terminal shows the effect that the answer needs.
applied : Answer → Snapshot × Bool → Bool
applied a latest =
    latest.1
    || not (not (is_empty a.option_id) || str_eq a.action "choose" || str_eq a.action "cancel")

-- The answer itself: the keys are sent, and the terminal must show their effect.
unfoldable pub answer : Runtime → Config → Answer → String → M Result
unfolding event_in lift with_event answer_result send_each applied
answer r c a response_identity = do
  pending ← current_or_stale r c a.interaction_id
  timeline ← get_state (λ s. s.timeline)
  event ← event_in r c a.interaction_id timeline
  keys ← lift (keys_for_response pending.0 pending.1 a.action a.option_id)
  send_each keys
  latest ← wait_for_transition r c a.interaction_id
  ensure (applied a latest) not_applied
  result ← with_event r a.action (answer_result a latest.0 latest.1) event
  remember_receipt r a.request_id c.session response_identity result

answer_unless : Runtime → Config → Answer → String → Option Result → M Result
unfolding answer
answer_unless r c a response_identity (some existing) = pure existing
answer_unless r c a response_identity none = answer r c a response_identity

identity_of : Runtime → Answer → String
identity_of r a =
    r.sha256 (a.interaction_id ++ (zero_char ++ (a.action ++ (zero_char ++ a.option_id))))

-- `respond` after its checks.
unfoldable pub respond_to : Runtime → Config → Answer → M Result
unfolding answer_unless identity_of
respond_to r c a = do
  prune_receipts r
  existing ← existing_receipt r a.request_id c.session (identity_of r a)
  answer_unless r c a (identity_of r a) existing

cleaned : Value → String
cleaned value = strip (text_or "" (some value))

answer_of : Value → Value → Value → String → Answer
unfolding cleaned
answer_of interaction_id action option_id request_id = record {
  request_id = request_id;
  interaction_id = cleaned interaction_id;
  action = lower (cleaned action);
  option_id = cleaned option_id;
}

respond_clean : Runtime → Config → Value → Value → Value → Option String → M Result
unfolding respond_to answer_of
respond_clean r c interaction_id action option_id none = throw invalid_request_id
respond_clean r c interaction_id action option_id (some request_id) = do
  let a : Answer = answer_of interaction_id action option_id request_id
  ensure (not (is_empty a.interaction_id) && not (is_empty a.action && is_empty a.option_id))
      missing_response
  respond_to r c a

-- `respond`
unfoldable pub respond : Runtime → Config → Value → Value → Value → Value → M Result
unfolding respond_clean
respond r c interaction_id action option_id client_request_id =
    respond_clean r c interaction_id action option_id (clean_request_id client_request_id)
