-- ===== src/Interaction/Runtime.antt =====
-- interaction_service.py: what the service asks of its runtime, with answers that may depend on every call made so
-- far. A capability that a runtime lacks is one that never holds, unless it changes the course of the code.
use faryo_codex_web_ui.Base.{ℕ, zero, suc, Bool, Option, List, ◌∷◌, String, ltb, if◌then◌else◌}
use faryo_codex_web_ui.Base.Dict.{Dict}
use faryo_codex_web_ui.Program.{Program, returns, ◌>>=◌, pure, throw}
use faryo_codex_web_ui.Commands.Catalog.{CommandCatalog}
use faryo_codex_web_ui.Json.{Value}
use faryo_codex_web_ui.Timeline.Store.{Timeline, TimelineError}
use faryo_codex_web_ui.Interaction.Types.{DetectedInteraction}

pub data RuntimeCall : Type 0 where
  has_session capture is_codex ready_for_input turn_running composer_has_draft composer_contains
        completion_ready owner_key anchor_key monotonic sleep timeline_draw :
      RuntimeCall
  send_key : String → RuntimeCall
  send_literal : String → RuntimeCall

abbrev pub History : Type 0
History = List RuntimeCall

pub record Config : Type 0 where
  pub session : String
  pub token : String

-- The three limits are those of the waits before and after a command is typed, in the clock's unit.
pub record Runtime : Type 0 where
  pub transition_timeout : ℕ
  pub receipt_ttl : ℕ
  pub readiness_limit : ℕ
  pub draft_limit : ℕ
  pub completion_limit : ℕ
  pub catalog : CommandCatalog
  pub detector : String → Option DetectedInteraction
  pub hmac : String → String → String
  pub sha256 : String → String
  pub has_session : History → Bool
  pub capture : History → String
  pub is_codex : History → Bool
  pub ready_for_input : History → Bool
  pub turn_running : History → Bool
  pub composer_has_draft : History → Bool
  pub composer_contains : String → History → Bool
  pub completion_ready : Option (String → History → Bool)
  pub owner_key : History → String
  pub anchor_key : History → String
  pub monotonic : History → ℕ
  pub milliseconds : History → ℕ
  pub random : History → String
  pub writes : History → Bool

pub record PublicOption : Type 0 where
  pub id : String
  pub label : String
  pub description : String
  pub selected : Bool
  pub current : Bool
  pub disabled : Bool

-- The payload of a pending interaction; its status is always the same.
pub record PublicInteraction : Type 0 where
  pub id : String
  pub generation : ℕ
  pub kind : String
  pub title : String
  pub prompt : String
  pub options : List PublicOption
  pub actions : List String
  pub source : String

pub record Snapshot : Type 0 where
  pub interaction : Option PublicInteraction
  pub revision : String

pub record SessionState : Type 0 where
  pub fingerprint : String
  pub generation : ℕ
  pub detected : Option DetectedInteraction

-- The part of a result that only a command has.
pub record CommandPart : Type 0 where
  pub command : String
  pub behavior : String
  pub command_state : String

-- A result: a key that may be absent is an option.
pub record Result : Type 0 where
  pub request_id : String
  pub command : Option CommandPart
  pub interaction : Option PublicInteraction
  pub revision : String
  pub changed : Bool
  pub resolved : Option Bool
  pub duplicate : Bool
  pub command_event : Option (Option Value)

pub record Receipt : Type 0 where
  pub session : String
  pub identity : String
  pub payload : Result
  pub updated_at : ℕ

pub record Interactions : Type 0 where
  pub session_states : Dict SessionState
  pub receipts : Dict Receipt
  pub timeline : Option Timeline
  pub calls : History

-- `out_of_rounds` is no error of the code: a loop that is given too few rounds ends in it.
pub data InteractionError : Type 0 where
  invalid_request_id missing_response id_reused not_current unknown_option disabled_option
        no_selection unsupported_action not_applied unsupported_command confirmation_required
        unavailable already_waiting disabled_in_task not_ready unsent_draft attempt_failed
        not_placed not_accepted out_of_rounds :
      InteractionError
  timeline_refused timeline_raised : TimelineError → InteractionError

abbrev pub M : Type 0 → Type 0
M A = Program Interactions InteractionError A

-- A question to the runtime.
unfoldable pub ask : {A : Type 0} → RuntimeCall → (History → A) → M A
ask call answer s = (returns (answer s.calls), record s { calls = call ∷ s.calls })

-- A call without an answer.
unfoldable pub tell : RuntimeCall → M (Unit {0})
unfolding ask
tell call = ask call (λ _. tt)

-- One round of a loop: it goes on with a value, or stops with the result.
pub data Round (A B : Type 0) : Type 0 where
  goes_on : A → Round A B
  stops : B → Round A B

unfoldable pub continue : {A B : Type 0} → (A → M B) → Round A B → M B
continue again (goes_on a) = again a
continue again (stops b) = pure b

-- `while self._now() < deadline: body`, and what follows a loop that the deadline ends.
unfoldable pub rounds : {A B : Type 0} → Runtime → ℕ → ℕ → (A → M (Round A B)) → (A → M B) → A → M B
unfolding continue ask
rounds r zero deadline body late a = throw out_of_rounds
rounds r (suc n) deadline body late a =
    let again : _ → _ = rounds r n deadline body late in
    do
      now ← ask monotonic r.monotonic
      if ltb now deadline then body a >>= continue again else late a
