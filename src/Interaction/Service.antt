-- ===== src/Interaction/Service.antt =====
-- interaction_service.py: `InteractionService`, its snapshots, receipts and `respond`. A session's lock is held for a
-- whole answer, so an answer is one step.
use Prim.Native.String.{◌++◌}
use faryo_codex_web_ui.Base.{
  ℕ, zero, suc, ◌+◌, ◌-◌, Bool, true, false, not, ◌||◌, ◌&&◌, Option, none, some, List, [], ◌∷◌,
  ◌++◌ as append, String, str_eq, ltb, leb, any, if◌then◌else◌,
}
use faryo_codex_web_ui.Base.Dict.{Dict, get, put, retain}
use faryo_codex_web_ui.Base.Letters.{lower}
use faryo_codex_web_ui.Base.Text.{strip, is_empty, take, decimal, is_request_id}
use faryo_codex_web_ui.Json.{Value, text, mapping, no_fields, field}
use faryo_codex_web_ui.Json.Str.{text_or}
use faryo_codex_web_ui.Program.{
  Outcome, returns, raises, ◌>>=◌, ◌>>◌, pure, throw, ensure, get_state, set_state,
}
use faryo_codex_web_ui.Timeline.Event.{CommandEvent}
use faryo_codex_web_ui.Timeline.Store.{Timeline, TimelineError, public_event, event_for_interaction}
use faryo_codex_web_ui.Timeline.Store as Store
use faryo_codex_web_ui.Timeline.Store.Updating.{update}
use faryo_codex_web_ui.Interaction.Types.{
  InteractionOption, DetectedInteraction, fingerprint, first_index, selected_index,
}
use faryo_codex_web_ui.Interaction.Runtime.{
  Config, Runtime, RuntimeCall, History, PublicOption, PublicInteraction, Snapshot, SessionState,
  CommandPart, Result, Receipt, Interactions, InteractionError, M, ask, tell, Round, goes_on, stops,
  rounds, has_session, capture, owner_key, monotonic, sleep, send_key, timeline_draw,
  invalid_request_id, missing_response, id_reused, not_current, unknown_option, disabled_option,
  no_selection, unsupported_action, not_applied, timeline_refused, timeline_raised,
}
pub mod Ends
pub mod Respond
pub mod Readiness
pub mod Command
pub mod Finished

-- The separator of what is hashed: the character zero.
abbrev zero_char : String
zero_char = "\0"

-- `_opaque`
unfoldable pub opaque_id : Runtime → Config → String → String → ℕ → String
opaque_id r c namespace value length =
    namespace ++ ("_" ++ take length (r.hmac c.token (namespace ++ (zero_char ++ value))))

fingerprint_or_empty : Runtime → Option DetectedInteraction → String
fingerprint_or_empty r none = ""
fingerprint_or_empty r (some d) = fingerprint r.sha256 d

-- The generation of a screen after a previous state of the session.
unfoldable pub next_generation : String → Option SessionState → ℕ
next_generation found none = 1
next_generation found (some previous) =
    if str_eq previous.fingerprint found then previous.generation else previous.generation + 1

-- `_state_for_detection`: the state that is kept for the session.
unfoldable pub state_for_detection :
    Runtime → Option DetectedInteraction → Option SessionState → SessionState
unfolding fingerprint_or_empty next_generation
state_for_detection r detected previous =
    let found = fingerprint_or_empty r detected in
    record { fingerprint = found; generation = next_generation found previous; detected = detected }

public_option : Runtime → Config → String → ℕ → InteractionOption → PublicOption
unfolding opaque_id
public_option r c interaction_id index o = record {
  id =
      opaque_id r c "opt" (interaction_id ++ (zero_char ++ (decimal index ++ (zero_char ++ o.key))))
        24;
  label = o.label;
  description = o.description;
  selected = o.selected;
  current = o.current;
  disabled = o.disabled;
}

-- The loop over the options, from an index on.
unfoldable pub public_options :
    Runtime → Config → String → ℕ → List InteractionOption → List PublicOption
unfolding public_option
public_options r c interaction_id index [] = []
public_options r c interaction_id index (o ∷ os) =
    public_option r c interaction_id index o ∷ public_options r c interaction_id (suc index) os

-- What the ids of an interaction and of its revision are made of.
identity : Config → SessionState → String
identity c state =
    c.session ++ (zero_char ++ (decimal state.generation ++ (zero_char ++ state.fingerprint)))

payload_of_detected :
    Runtime → Config → SessionState → Option DetectedInteraction → Option PublicInteraction
unfolding identity opaque_id public_options
payload_of_detected r c state none = none
payload_of_detected r c state (some d) =
    let id = opaque_id r c "ix" (identity c state) 32 in
    some (record {
      id = id;
      generation = state.generation;
      kind = d.kind;
      title = d.title;
      prompt = d.prompt;
      options = public_options r c id 0 d.options;
      actions = d.actions;
      source = d.source;
    })

-- `_public_payload`
unfoldable pub public_payload : Runtime → Config → SessionState → Option PublicInteraction
unfolding payload_of_detected
public_payload r c state = payload_of_detected r c state state.detected

-- `snapshot_from_capture`
unfoldable pub snapshot_from_capture : Runtime → Config → String → M Snapshot
unfolding state_for_detection public_payload identity
snapshot_from_capture r c screen = do
  previous ← get_state (λ s. get c.session s.session_states)
  let state = state_for_detection r (r.detector screen) previous
  set_state (λ s. record s { session_states = put c.session state s.session_states })
  pure (record {
    interaction = public_payload r c state;
    revision = opaque_id r c "ixr" (identity c state) 20;
  })

abbrev pub no_interaction : Snapshot
no_interaction = record { interaction = none; revision = "none" }

captured : Runtime → Config → Bool → M Snapshot
captured r c false = pure no_interaction
captured r c true = do screen ← ask capture r.capture; snapshot_from_capture r c screen

-- `snapshot`
unfoldable pub snapshot : Runtime → Config → M Snapshot
unfolding captured
snapshot r c = do alive ← ask has_session r.has_session; captured r c alive

-- `_clean_request_id`
unfoldable pub clean_request_id : Value → Option String
clean_request_id value =
    let request_id = strip (text_or "" (some value)) in
    if is_request_id request_id then some request_id else none

-- `_prune_receipts`
unfoldable pub prune_receipts : Runtime → M (Unit {0})
prune_receipts r = do
  now ← ask monotonic r.monotonic
  set_state (λ s. record s {
    receipts = retain (λ kept. not (ltb (kept.updated_at + r.receipt_ttl) now)) s.receipts;
  })

-- The receipt of a request that was answered before, if it is the same request.
answered : Runtime → String → String → String → Option Receipt → M (Option Result)
answered r request_id session identity none = pure none
answered r request_id session identity (some kept) =
    if not (str_eq kept.session session && str_eq kept.identity identity)
    then throw id_reused
    else do
      now ← ask monotonic r.monotonic
      set_state (λ s. record s {
        receipts = put request_id (record kept { updated_at = now }) s.receipts;
      })
      pure (some (record kept.payload { duplicate = true }))

-- `_existing_receipt`
unfoldable pub existing_receipt : Runtime → String → String → String → M (Option Result)
unfolding answered
existing_receipt r request_id session identity = do
  known ← get_state (λ s. get request_id s.receipts)
  answered r request_id session identity known

-- `_remember_receipt`
unfoldable pub remember_receipt : Runtime → String → String → String → Result → M Result
remember_receipt r request_id session identity payload = do
  now ← ask monotonic r.monotonic
  set_state (λ s. record s {
    receipts =
        put request_id
          (record { session = session; identity = identity; payload = payload; updated_at = now })
          s.receipts;
  })
  pure payload

unfoldable pub is_pending : String → Option PublicInteraction → Bool
is_pending id none = false
is_pending id (some p) = str_eq p.id id

required :
    Option PublicInteraction
    → Option DetectedInteraction
    → M (PublicInteraction × DetectedInteraction)
required (some payload) (some detected) = pure (payload, detected)
required _ _ = throw not_current

detected_of : Option SessionState → Option DetectedInteraction
detected_of none = none
detected_of (some state) = state.detected

-- `_current_or_stale`
unfoldable pub current_or_stale :
    Runtime → Config → String → M (PublicInteraction × DetectedInteraction)
unfolding is_pending required detected_of
current_or_stale r c interaction_id = do
  latest ← snapshot r c
  ensure (is_pending interaction_id latest.interaction) not_current
  state ← get_state (λ s. get c.session s.session_states)
  required latest.interaction (detected_of state)
