-- ===== src/Commands/AppServer/Begin.antt =====
-- appserver_commands.py: `begin`.
use faryo_codex_web_ui.Base.{
  Bool, true, false, not, ◌||◌, ◌&&◌, Option, none, some, List, [], ◌∷◌, String, str_eq, ◌==◌,
  if◌then◌else◌, first, is_some,
}
use faryo_codex_web_ui.Base.Dict.{get}
use faryo_codex_web_ui.Base.Letters.{lower}
use faryo_codex_web_ui.Base.Text.{is_empty, strip, split_at, take, pos}
use faryo_codex_web_ui.Json.{
  Value, Fields, null, bool, int, text, mapping, no_fields, field, get_field,
}
use faryo_codex_web_ui.Json.Str.{text_or, truthy, to_text}
use faryo_codex_web_ui.Json.Read.{or_value}
use faryo_codex_web_ui.Program.{◌>>=◌, ◌>>◌, pure, throw, ensure, get_state}
use faryo_codex_web_ui.Commands.AppServer.{
  CommandChoice, Runtime, M, ask, choice, opened, resolved, paged, already_pending, requires_title,
  unknown_model, unknown_profile, not_available,
}
use faryo_codex_web_ui.Commands.AppServer.Usage.{usage_prompt, goal_prompt}
pub mod Calls
pub mod Opened
pub mod Started

-- The arguments of `begin`, with the name and the argument of the command.
pub record Invocation : Type 0 where
  pub session : String
  pub thread_id : String
  pub cwd : String
  pub thread : Fields
  pub name : String
  pub argument : String

-- `str(mapping.get(key) or "")`
text_at : String → Fields → String
text_at key fs = text_or "" (get_field key fs)

abbrev settings_update : String
settings_update = "thread/settings/update"

-- The parameters of a call on the thread of the command.
unfoldable pub on_thread : Invocation → Fields → Fields
on_thread q fs = field "threadId" (text q.thread_id) fs

fast : Runtime → Invocation → M Fields
unfolding on_thread text_at
fast r q = do
  ask r settings_update (
      on_thread q (
        field "serviceTier"
          (if str_eq (text_at "serviceTier" q.thread) "fast" then null else text "fast") no_fields))
  pure (resolved q.session 0)

rename : Runtime → Invocation → M Fields
unfolding on_thread
rename r q = do
  ensure (not (is_empty q.argument)) requires_title
  ask r "thread/name/set" (on_thread q (field "name" (text (take 240 q.argument)) no_fields))
  pure (resolved q.session 0)

compact : Runtime → Invocation → M Fields
unfolding on_thread
compact r q = do ask r "thread/compact/start" (on_thread q no_fields); pure (resolved q.session 0)

-- `str(a or b)` of two values that may be missing.
either_text : Option Value → String
either_text none = "None"
either_text (some v) = to_text v

is_model : String → Fields → Bool
unfolding text_at
is_model name model = str_eq name (text_at "id" model) || str_eq name (text_at "model" model)

select_model : Runtime → Invocation → Option Fields → M Fields
unfolding on_thread either_text
select_model r q none = throw unknown_model
select_model r q (some model) = do
  ask r settings_update (
      on_thread q (
        field "model"
          (text (either_text (or_value (get_field "model" model) (get_field "id" model))))
          no_fields))
  pure (resolved q.session 0)

-- `str(first.get(..) or second.get(..) or fallback)`
first_text : String → Option Value → Option Value → String
first_text fallback one two = text_or fallback (or_value one two)

model_name : Fields → String
unfolding first_text
model_name model = first_text "" (get_field "model" model) (get_field "id" model)

model_label : Fields → String
unfolding first_text
model_label model =
    first_text "Model" (get_field "displayName" model)
      (or_value (get_field "id" model) (get_field "model" model))

model_choices : Runtime → Invocation → String → List Fields → M (List CommandChoice)
unfolding model_name model_label on_thread text_at is_model
model_choices r q current [] = pure []
model_choices r q current (model ∷ models) =
    if is_empty (model_name model) then model_choices r q current models else do
      c ←
          choice r (model_label model) (text_at "description" model) settings_update
            (some (on_thread q (field "model" (text (model_name model)) no_fields)))
            (is_model current model)
      cs ← model_choices r q current models
      pure (c ∷ cs)

model_command : Runtime → Invocation → List Fields → M Fields
unfolding select_model model_choices is_model text_at
model_command r q models =
    if not (is_empty q.argument) then select_model r q (first (is_model q.argument) models) else do
      choices ← model_choices r q (text_at "model" q.thread) models
      opened r q.session "model_select" "Select model" "Choose the model for subsequent turns."
          choices

-- `profile.get("allowed", False)`, as a test.
is_allowed : Option Value → Bool
is_allowed none = false
is_allowed (some v) = truthy v

profile_id : Fields → String
unfolding text_at
profile_id profile = text_at "id" profile

select_profile : Runtime → Invocation → Option Fields → M Fields
unfolding on_thread is_allowed
select_profile r q none = throw unknown_profile
select_profile r q (some profile) = do
  ensure (is_allowed (get_field "allowed" profile)) unknown_profile
  ask r settings_update (on_thread q (field "permissions" (text q.argument) no_fields))
  pure (resolved q.session 0)

profile_choices : Runtime → Invocation → String → List Fields → M (List CommandChoice)
unfolding is_allowed profile_id on_thread text_at
profile_choices r q current [] = pure []
profile_choices r q current (profile ∷ profiles) =
    if not (is_allowed (get_field "allowed" profile) && not (is_empty (profile_id profile)))
    then profile_choices r q current profiles
    else do
      c ←
          choice r (text_or "Permissions" (get_field "id" profile)) (text_at "description" profile)
            settings_update
            (some (on_thread q (field "permissions" (text (profile_id profile)) no_fields)))
            (str_eq current (profile_id profile))
      cs ← profile_choices r q current profiles
      pure (c ∷ cs)

current_profile : Option Value → String
unfolding text_at
current_profile (some (mapping profile)) = text_at "id" profile
current_profile _ = ""

permissions_command : Runtime → Invocation → List Fields → M Fields
unfolding select_profile profile_choices current_profile profile_id
permissions_command r q profiles =
    if not (is_empty q.argument)
    then select_profile r q (first (λ profile. str_eq (profile_id profile) q.argument) profiles)
    else do
      choices ←
          profile_choices r q (current_profile (get_field "activePermissionProfile" q.thread))
            profiles
      opened r q.session "permissions_select" "Select permissions"
          "Choose the official Codex permissions profile for subsequent turns." choices

-- A prompt that can only be closed.
shown : Runtime → Invocation → String → String → String → M Fields
shown r q kind title prompt = do
  c ← choice r "Close" "Return to the conversation." "" none false
  opened r q.session kind title prompt (c ∷ [])

usage : Runtime → Invocation → M Fields
unfolding shown
usage r q = do
  rate_limits ← ask r "account/rateLimits/read" no_fields
  used ← ask r "account/usage/read" no_fields
  shown r q "usage_select" "Usage" (usage_prompt r.one_decimal rate_limits used)

goal : Runtime → Invocation → M Fields
unfolding shown on_thread
goal r q = do
  result ← ask r "thread/goal/get" (on_thread q no_fields)
  shown r q "goal" "Goal status" (goal_prompt result)

model : Runtime → Invocation → M Fields
unfolding model_command
model r q = do
  models ←
      paged r "model/list"
        (field "includeHidden" (bool false) (field "limit" (int (pos 100)) no_fields))
  model_command r q models

permissions : Runtime → Invocation → M Fields
unfolding permissions_command
permissions r q = do
  profiles ←
      paged r "permissionProfile/list"
        (field "cwd" (text q.cwd) (field "limit" (int (pos 100)) no_fields))
  permissions_command r q profiles

-- The command, after the check of what is pending.
unfoldable pub run : Runtime → Invocation → M Fields
unfolding fast rename compact model permissions usage goal
run r q =
    if str_eq q.name "/fast"
    then fast r q
    else if str_eq q.name "/rename"
    then rename r q
    else if str_eq q.name "/compact"
    then compact r q
    else if str_eq q.name "/model"
    then model r q
    else if str_eq q.name "/permissions"
    then permissions r q
    else if str_eq q.name "/usage"
    then usage r q
    else if str_eq q.name "/goal"
    then goal r q
    else throw not_available

-- The parts of a line: `invocation.partition(" ")`.
unfoldable pub invocation_of : String → String → String → Fields → String → Invocation
invocation_of session thread_id cwd thread command =
    let (name, argument) = split_at (λ c. c == b' ') (strip command) in
    record {
      session = session;
      thread_id = thread_id;
      cwd = cwd;
      thread = thread;
      name = lower name;
      argument = strip argument;
    }

-- `begin`
unfoldable pub begin : Runtime → String → String → String → Fields → String → M Fields
unfolding run invocation_of
begin r session thread_id cwd thread command = do
  known ← get_state (λ s. get session s.tables.pending)
  ensure (not (is_some known)) already_pending
  run r (invocation_of session thread_id cwd thread command)
