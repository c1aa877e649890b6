-- ===== src/Requests/Build.antt =====
-- appserver_requests.py: `_build`, `_approval_choices`, `_questions`, what the browser is shown of a
-- request. The random tokens of one call are its arguments.
pub mod Names
use Prim.Native.String.{◌++◌}
use faryo_codex_web_ui.Base.{
  ℕ, suc, Bool, true, false, not, ◌||◌, ◌&&◌, Option, none, some, List, [], ◌∷◌, String, str_eq,
  any, if◌then◌else◌,
}
use faryo_codex_web_ui.Base.Dict.{get, put}
use faryo_codex_web_ui.Base.Text.{is_empty}
use faryo_codex_web_ui.Json.{
  Value, Elements, Fields, text, array, mapping, no_items, item, no_fields, field, get_field,
}
use faryo_codex_web_ui.Json.Str.{text_or, truthy, to_text}
use faryo_codex_web_ui.Requests.{
  InteractionChoice, Question, QuestionOption, choice, questions, Pending, Broker, is_legacy,
  user_input_method,
}

-- `asix_` and `asopt_` tokens: the id of the interaction, and of its options in the order of creation.
pub record Tokens : Type 0 where
  pub interaction : String
  pub option : ℕ → String

abbrev make_choice : Tokens → ℕ → String → String → Fields → InteractionChoice
make_choice tokens n label description response = record {
  public_id = tokens.option n;
  label = label;
  description = description;
  response = response;
}

abbrev pub decision : String → Fields
decision d = field "decision" (text d) no_fields

-- The rows of `definitions` in `_approval_choices`: decision, label, description.
abbrev definitions : List (String × String × String)
definitions =
    ("accept", "Allow once", "Approve this action once.")
    ∷ ("acceptForSession", "Allow for session", "Approve matching actions for this session.")
    ∷ ("decline", "Decline", "Do not approve this action; let Codex continue.")
    ∷ ("cancel", "Decline and stop", "Decline this action and interrupt the turn.")
    ∷ []

choices_from : Tokens → ℕ → List (String × String × String) → List String → List InteractionChoice
choices_from tokens n [] allowed = []
choices_from tokens n ((d, label, description) ∷ rest) allowed =
    let with_it =
      make_choice tokens n label description (decision d)
      ∷ choices_from tokens (suc n) rest allowed in
    let without = choices_from tokens n rest allowed in
    if any (λ a. str_eq a d) allowed then with_it else without

or_decline : Tokens → List InteractionChoice → List InteractionChoice
or_decline tokens [] =
    make_choice tokens 0 "Decline" "Do not approve this action." (decision "decline") ∷ []
or_decline tokens (c ∷ cs) = c ∷ cs

unfoldable pub approval_choices : Tokens → List String → List InteractionChoice
unfolding choices_from or_decline
approval_choices tokens allowed = or_decline tokens (choices_from tokens 0 definitions allowed)

abbrev all_decisions : List String
all_decisions = "accept" ∷ "acceptForSession" ∷ "decline" ∷ "cancel" ∷ []

texts_of : Elements → List String
texts_of no_items = []
texts_of (item (text s) rest) = s ∷ texts_of rest
texts_of (item _ rest) = texts_of rest

-- `availableDecisions`, or all decisions if that is no list.
allowed_decisions : Option Value → List String
unfolding texts_of
allowed_decisions (some (array xs)) = texts_of xs
allowed_decisions _ = all_decisions

question_options : Elements → List QuestionOption
question_options no_items = []
question_options (item (mapping o) rest) =
    let label = text_or "" (get_field "label" o) in
    let kept : QuestionOption = record {
      label = label;
      description = text_or "" (get_field "description" o);
    } in
    if is_empty label then question_options rest else kept ∷ question_options rest
question_options (item _ rest) = question_options rest

list_or_nil : Option Value → Elements
list_or_nil (some (array xs)) = xs
list_or_nil _ = no_items

flag_or : Bool → Option Value → Bool
flag_or fallback none = fallback
flag_or fallback (some v) = truthy v

clean_question : Fields → Question
unfolding question_options list_or_nil flag_or
clean_question raw = record {
  id = text_or "" (get_field "id" raw);
  header = text_or "Question" (get_field "header" raw);
  question = text_or "" (get_field "question" raw);
  options = question_options (list_or_nil (get_field "options" raw));
  is_other = flag_or true (get_field "isOther" raw);
  is_secret = flag_or false (get_field "isSecret" raw);
}

clean_questions : Elements → List Question
unfolding clean_question
clean_questions no_items = []
clean_questions (item (mapping raw) rest) =
    let q = clean_question raw in
    if is_empty q.id || is_empty q.question then clean_questions rest else q ∷ clean_questions rest
clean_questions (item _ rest) = clean_questions rest

-- `_questions`
unfoldable pub questions_from : Option Value → List Question
unfolding clean_questions
questions_from (some (array xs)) = clean_questions xs
questions_from _ = []

join_words : Elements → String
join_words no_items = ""
join_words (item x no_items) = to_text x
join_words (item x (item y xs)) = to_text x ++ (" " ++ join_words (item y xs))

command_words : Option Value → String
unfolding join_words
command_words (some (array xs)) = join_words xs
command_words _ = ""

mapping_or_empty : Option Value → Fields
mapping_or_empty (some (mapping fs)) = fs
mapping_or_empty _ = no_fields

permission_choices : Tokens → Fields → List InteractionChoice
permission_choices tokens permissions =
    make_choice tokens 0 "Allow once" "Grant the requested permissions for this turn."
      (field "permissions" (mapping permissions) (field "scope" (text "turn") no_fields))
    ∷ make_choice tokens 1 "Allow for session" "Grant the requested permissions for this session."
        (field "permissions" (mapping permissions) (field "scope" (text "session") no_fields))
    ∷ make_choice tokens 2 "Decline" "Continue without the requested permissions."
        (field "permissions" (mapping no_fields) (field "scope" (text "turn") no_fields))
    ∷ []

legacy_choices : Tokens → List InteractionChoice
legacy_choices tokens =
    make_choice tokens 0 "Allow once" "Approve this legacy Codex request." (decision "approved")
    ∷ make_choice tokens 1 "Decline" "Do not approve this request." (decision "denied")
    ∷ []

abbrev param : String → Fields → String
param key params = text_or "" (get_field key params)

-- The part of a pending request that all methods share.
abbrev base_pending : Tokens → String → String → Fields → ℕ → Pending
base_pending tokens session method params generation = record {
  id = tokens.interaction;
  session = session;
  method = method;
  thread_id = param "threadId" params;
  turn_id = param "turnId" params;
  item_id = text_or (param "callId" params) (get_field "itemId" params);
  generation = generation;
  kind = "approval";
  title = "";
  prompt = "";
  response_kind = choice;
  choices = [];
  questions = [];
  details = no_fields;
}

question_pending : Pending → List Question → Option Pending
question_pending p [] = none
question_pending p (q ∷ qs) = some (record p {
  kind = "user_input";
  title = "Codex needs your input";
  prompt = "Answer the questions to continue this turn.";
  response_kind = questions;
  questions = q ∷ qs;
})

-- What `_build` makes of a request whose generation was counted.
unfoldable pub build_pending : Tokens → String → String → Fields → ℕ → Option Pending
unfolding allowed_decisions permission_choices legacy_choices mapping_or_empty command_words
    question_pending
build_pending tokens session method params generation =
    let p = base_pending tokens session method params generation in
    let reason = get_field "reason" params in
    if str_eq method "item/commandExecution/requestApproval"
    then some (record p {
      title = "Allow this command?";
      prompt = text_or "Codex needs permission to run a command." reason;
      choices = approval_choices tokens (allowed_decisions (get_field "availableDecisions" params));
      details =
          field "command" (text (param "command" params))
            (field "cwd" (text (param "cwd" params)) no_fields);
    })
    else if str_eq method "item/fileChange/requestApproval"
    then some (record p {
      title = "Allow file changes?";
      prompt = text_or "Codex needs permission to modify files." reason;
      choices = approval_choices tokens all_decisions;
      details = field "path" (text (param "grantRoot" params)) no_fields;
    })
    else if str_eq method "item/permissions/requestApproval"
    then (let permissions = mapping_or_empty (get_field "permissions" params) in
        some (record p {
          title = "Allow additional permissions?";
          prompt = text_or "Codex requested additional sandbox permissions." reason;
          choices = permission_choices tokens permissions;
          details =
              field "cwd" (text (param "cwd" params))
                (field "permissions" (mapping permissions) no_fields);
        }))
    else if str_eq method user_input_method
    then question_pending p (questions_from (get_field "questions" params))
    else if is_legacy method
    then some (record p {
      title = "Allow this Codex action?";
      prompt = text_or "Approval is required." reason;
      choices = legacy_choices tokens;
      details =
          field "command" (text (command_words (get_field "command" params)))
            (field "path" (text (param "grantRoot" params)) no_fields);
    })
    else none

abbrev generation_of : Option ℕ → ℕ
generation_of none = 0
generation_of (some n) = n

-- `_build`: a request with no thread is refused before the session's generation is counted.
unfoldable pub build : Broker → Tokens → String → String → Fields → Broker × Option Pending
build b tokens session method params =
    let generation = suc (generation_of (get session b.generations)) in
    if is_empty (param "threadId" params) && not (is_legacy method) then (b, none) else (
      record b { generations = put session generation b.generations },
      build_pending tokens session method params generation,
    )
