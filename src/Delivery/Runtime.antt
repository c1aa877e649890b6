-- ===== src/Delivery/Runtime.antt =====
-- delivery_service.py: what the service asks of its runtime, as `DeliveryRuntime` in server.py answers it. An answer
-- may depend on every call made so far, so that the pane, the clocks and the disk change between any two of them.
-- A runtime call that raises an exception of its own is left out.
use faryo_codex_web_ui.Base.{ℕ, Bool, true, false, Option, List, ◌∷◌, String}
use faryo_codex_web_ui.Base.Dict.{Dict}
use faryo_codex_web_ui.Program.{Program, returns, pure}
use faryo_codex_web_ui.Commands.Catalog.{CommandCatalog}
use faryo_codex_web_ui.Delivery.Record.{Floats, Delivery}
use faryo_codex_web_ui.Delivery.Store.{DeliveryStore}

-- The calls of one pane's runtime; a tmux command is its list of arguments.
pub data RuntimeCall : Type 0 where
  has_session new_id monotonic epoch agent_in_pane agent_profile composer_has_draft submission_probe
        probe_from_state probe_state capture cursor queued_count token wait_for_paste sleep
        composer_contains wait_for_submission submission_key :
      RuntimeCall
  write_temporary : String → RuntimeCall
  unlink : String → RuntimeCall
  tmux : List String → RuntimeCall

abbrev pub History : Type 0
History = List RuntimeCall

-- A rollout file and the size that it had.
abbrev pub Probe : Type 0
Probe = String × ℕ

pub record ProbeState : Type 0 where
  pub device : Option ℕ
  pub inode : Option ℕ
  pub offset : Option ℕ

pub record Completed : Type 0 where
  pub success : Bool
  pub stderr : String

-- What is asked of a wait for evidence that a message was taken.
pub record Wait : Type 0 where
  pub probe : Option Probe
  pub queued_baseline : ℕ
  pub allow_composer_disappearance : Bool

pub record Runtime : Type 0 where
  pub max_send_chars : ℕ
  pub send_key_max_attempts : ℕ
  pub delivery_ttl_seconds : ℕ
  pub floats : Floats
  pub sha256 : String → String
  pub is_agent_launch_command : String → Bool
  pub shell_prep_matches : String → Bool
  pub catalog : CommandCatalog
  pub tmux_target : String
  pub has_session : History → Bool
  pub new_id : History → String
  pub monotonic : History → ℕ
  pub epoch : History → ℕ
  pub agent_in_pane : History → Bool
  pub codex_in_pane : History → Bool
  pub composer_has_draft : History → Bool
  pub submission_probe : History → Option Probe
  pub probe_from_state : Delivery → History → Option Probe
  pub probe_state : Option Probe → History → ProbeState
  pub queued_count : String → History → ℕ
  pub token : History → String
  pub temporary_name : History → String
  pub tmux : List String → History → Completed
  pub wait_for_paste : String → History → Bool
  pub composer_contains : String → History → Bool
  pub wait_for_submission : String → Wait → History → Option String
  pub submission_key : History → String

-- The errors of `owner_error`, and those of a value on disk that the code does not expect.
pub data SendError : Type 0 where
  session_not_found empty_text text_too_long invalid_id slash_command id_reused unsent_draft
        paste_unconfirmed ambiguous not_accepted missing_key type_error overflow_error :
      SendError
  tmux_failed : String → SendError

-- The calls are kept latest first.
pub record Service : Type 0 where
  pub deliveries : Dict Delivery
  pub store : DeliveryStore
  pub calls : History

abbrev pub M : Type 0 → Type 0
M A = Program Service SendError A

-- A question to the runtime.
unfoldable pub ask : {A : Type 0} → RuntimeCall → (History → A) → M A
ask call answer s = (returns (answer s.calls), record s { calls = call ∷ s.calls })

-- A question that is asked only under a condition.
unfoldable pub ask_if : {A : Type 0} → Bool → A → RuntimeCall → (History → A) → M A
unfolding ask
ask_if true otherwise call answer = ask call answer
ask_if false otherwise call answer = pure otherwise

-- A call without an answer.
unfoldable pub tell : RuntimeCall → M (Unit {0})
unfolding ask
tell call = ask call (λ _. tt)
