-- ===== src/Interaction/Examples.antt =====
-- A terminal with a menu, for the runs of the interaction service.
use faryo_codex_web_ui.Base.{
  Bool, true, false, none, some, [], ◌∷◌, String, str_eq, length, any, if◌then◌else◌, arith,
}
use faryo_codex_web_ui.Commands.Catalog.{CommandCatalog, fallback}
use faryo_codex_web_ui.Interaction.Types.{InteractionOption, DetectedInteraction}
use faryo_codex_web_ui.Interaction.Runtime.{
  Config, Runtime, RuntimeCall, PublicOption, PublicInteraction, Interactions, Result, send_key,
  send_literal,
}
use faryo_codex_web_ui.Interaction.Clock.{Ticks}

abbrev option : String → Bool → Bool → InteractionOption
option key selected disabled = record {
  key = key;
  label = key;
  description = "";
  selected = selected;
  current = false;
  disabled = disabled;
  ordinal = none;
}

abbrev pub menu : DetectedInteraction
menu = record {
  kind = "menu";
  title = "Model";
  prompt = "";
  options = option "one" false false ∷ option "two" true false ∷ option "three" false true ∷ [];
  actions = "choose" ∷ "cancel" ∷ [];
  source = "tui";
}

abbrev is_enter : RuntimeCall → Bool
is_enter (send_key key) = str_eq key "Enter"
is_enter _ = false

abbrev is_text : RuntimeCall → Bool
is_text (send_literal line) = true
is_text _ = false

abbrev catalog : CommandCatalog
catalog = record {
  tested_codex_version = "1";
  observed_codex_version = "";
  entries =
      record {
        command = "/model";
        description = "";
        category = "";
        behavior = "interactive";
        argument_hint = "";
        aliases = [];
        available_during_task = false;
      }
      ∷ [];
  source = fallback;
  added = [];
  removed = [];
}

-- A terminal with a menu until it is entered; every call takes a unit of time.
abbrev pub runtime : Runtime
runtime = record {
  transition_timeout = 20;
  receipt_ttl = 100;
  readiness_limit = 5;
  draft_limit = 5;
  completion_limit = 5;
  catalog = catalog;
  detector = λ screen. if str_eq screen "menu" then some menu else none;
  hmac = λ key value. "0123456789abcdef0123456789abcdef";
  sha256 = λ value. "abcdef";
  has_session = λ h. true;
  capture = λ h. if any is_enter h then "done" else "menu";
  is_codex = λ h. true;
  ready_for_input = λ h. true;
  turn_running = λ h. false;
  composer_has_draft = λ h. false;
  composer_contains = λ line h. if any is_enter h then false else any is_text h;
  completion_ready = none;
  owner_key = λ h. "";
  anchor_key = λ h. "";
  monotonic = λ h. length h;
  milliseconds = λ h. 0;
  random = λ h. "";
  writes = λ h. true;
}

-- The same terminal, where no menu is seen.
abbrev pub composer : Runtime
composer = record runtime { detector = λ screen. none }

abbrev pub config : Config
config = record { session = "codex-1"; token = "secret" }

abbrev pub start : Interactions
start = record { session_states = []; receipts = []; timeline = none; calls = [] }

pub runtime-Ticks : Ticks runtime
runtime-Ticks = record { goes = λ call h. omega arith; pauses = λ h. omega arith }

abbrev pub id : String
id = "ix_0123456789abcdef0123456789abcdef"

abbrev public : String → Bool → Bool → PublicOption
public name selected disabled = record {
  id = name;
  label = name;
  description = "";
  selected = selected;
  current = false;
  disabled = disabled;
}

abbrev pub payload : PublicInteraction
payload = record {
  id = id;
  generation = 1;
  kind = "menu";
  title = "Model";
  prompt = "";
  options =
      public "opt_one" false false
      ∷ public "opt_two" true false
      ∷ public "opt_three" false true
      ∷ [];
  actions = "choose" ∷ "cancel" ∷ [];
  source = "tui";
}

abbrev pub answered : Result
answered = record {
  request_id = "request-0001";
  command = none;
  interaction = none;
  revision = "ixr_0123456789abcdef0123";
  changed = true;
  resolved = some true;
  duplicate = false;
  command_event = none;
}
