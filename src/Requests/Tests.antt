-- ===== src/Requests/Tests.antt =====
-- appserver_requests.py: runs of the broker on small inputs, and its theorems at such inputs.
use Prim.Native.String.{◌++◌}
use faryo_codex_web_ui.Base.{
  ◌≡◌, ◌≢◌, refl, true, false, some, [], ◌∷◌, String, arith, any, first, Among, at_head, in_tail,
  ◌∙◌, sym,
}
use faryo_codex_web_ui.Base.Dict.{get, put, retain}
use faryo_codex_web_ui.Base.Text.{decimal, strip, is_request_id, is_empty, all_chars}
use faryo_codex_web_ui.Json.{
  Fields, field, no_fields, text, get_field, mapping, array, item, no_items,
}
use faryo_codex_web_ui.Json.Str.{text_or, truthy, to_text}
use faryo_codex_web_ui.Requests.{
  public, InteractionChoice, Pending, Broker, Response, init, result, ok, err, cannot_cancel,
  request_id_reused, declined_response, choice,
}
use faryo_codex_web_ui.Requests.Build.{Tokens, build, build_pending, approval_choices}
use faryo_codex_web_ui.Requests.Flow.{
  declined, open_request, respond, cancel, Answer, prune_receipts, chosen, refuses, identity_of,
}
use faryo_codex_web_ui.Requests.Flow.Tables.{IsSynced, init-IsSynced}
use faryo_codex_web_ui.Requests.Flow.Steps.{
  Step, start, after, opens, responds, cancels, Reaches-IsSynced, Reaches-keeps_result,
}
use faryo_codex_web_ui.Requests.Flow.Answers.{Accepted, respond-Accepted, respond_again}
use faryo_codex_web_ui.Requests.Flow.Refusals.{
  RefusesBy, DistinctIds, grants, declined_response-refuses, open_request-declined, cancel-refuses,
  cancel-permissions,
}

abbrev tokens : Tokens
tokens = record { interaction = "asix_1"; option = λ n. "asopt_" ++ decimal n }

abbrev command_params : Fields
command_params = field "threadId" (text "t1") (field "command" (text "ls") no_fields)

abbrev command_method : String
command_method = "item/commandExecution/requestApproval"

abbrev opened : Broker
opened = (open_request (init 100) tokens "faryo1" command_method command_params).0

abbrev allow : Answer
allow = record {
  session = "faryo1";
  interaction_id = "asix_1";
  option_id = "asopt_0";
  answers = no_fields;
  client_request_id = " request-1 ";
}

abbrev allowed : Response
allowed = record {
  request_id = "request-1";
  interaction_revision = "appserver:2";
  duplicate = false;
}

abbrev answered : Broker
answered = (respond opened 5 6 allow).0

allow_accepted : (respond opened 5 6 allow).1 ≡ ok allowed
unfolding respond chosen open_request build build_pending approval_choices strip is_request_id
    all_chars get put retain text_or truthy to_text get_field decimal is_empty any first
allow_accepted = refl

opens_first : Step (init 100) opened
unfolding get
opens_first = opens (init 100) tokens "faryo1" command_method command_params refl refl

Reaches-IsSynced_example : IsSynced answered
Reaches-IsSynced_example =
    Reaches-IsSynced (init-IsSynced 100)
      (after (after start opens_first) (responds opened 5 6 allow))

accept_fields :
    get "asix_1" answered.futures ≡ some (result (field "decision" (text "accept") no_fields))
unfolding respond chosen open_request build build_pending approval_choices strip is_request_id
    all_chars get put retain text_or truthy to_text get_field decimal is_empty any first
accept_fields = refl

Reaches-keeps_result_example :
    get "asix_1" (cancel answered 7 8 "faryo1" "request-2").0.futures
    ≡ some (result (field "decision" (text "accept") no_fields))
Reaches-keeps_result_example =
    Reaches-keeps_result "asix_1" (field "decision" (text "accept") no_fields)
      (after start (cancels answered 7 8 "faryo1" "request-2")) accept_fields

respond-Accepted_example : Accepted (prune_receipts opened 5) 6 allow answered allowed
respond-Accepted_example = respond-Accepted opened 5 6 allow allowed allow_accepted refl

respond_again_example :
    (identity_of allow ≡ identity_of allow
      → respond answered 7 8 allow
        ≡ (prune_receipts answered 7, ok (record allowed { duplicate = true })))
    × (identity_of allow ≢ identity_of allow
        → respond answered 7 8 allow ≡ (prune_receipts answered 7, err request_id_reused))
unfolding open_request build get is_empty text_or get_field truthy to_text build_pending
respond_again_example =
    respond_again opened 5 6 7 8 allow allow allowed allow_accepted refl (omega arith) refl

declined_response-refuses_example : grants (declined_response "item/unknown" no_fields) ≡ false
declined_response-refuses_example = declined_response-refuses "item/unknown" no_fields

busy_declined :
    (open_request opened tokens "faryo1" command_method command_params).1
    ≡ declined (declined_response command_method command_params)
unfolding open_request build build_pending approval_choices get put text_or truthy to_text get_field
    is_empty any
busy_declined = refl

open_request-declined_example :
    let c = (open_request opened tokens "faryo1" command_method command_params).0 in
    (grants (declined_response command_method command_params) ≡ false)
    × (c.pending_by_id ≡ opened.pending_by_id)
    × (c.pending_by_session ≡ opened.pending_by_session)
    × (c.futures ≡ opened.futures)
    × (c.receipts ≡ opened.receipts)
open_request-declined_example =
    open_request-declined opened tokens "faryo1" command_method command_params
      (declined_response command_method command_params) busy_declined

-- A command that may only be declined.
abbrev decline_params : Fields
decline_params =
    field "threadId" (text "t1")
      (field "availableDecisions" (array (item (text "decline") no_items)) no_fields)

abbrev only_decline : Broker
only_decline = (open_request (init 100) tokens "faryo1" command_method decline_params).0

abbrev decline_choice : InteractionChoice
decline_choice = record {
  public_id = "asopt_0";
  label = "Decline";
  description = "Do not approve this action; let Codex continue.";
  response = field "decision" (text "decline") no_fields;
}

abbrev decline_pending : Pending
decline_pending = record {
  id = "asix_1";
  session = "faryo1";
  method = command_method;
  thread_id = "t1";
  turn_id = "";
  item_id = "";
  generation = 1;
  kind = "approval";
  title = "Allow this command?";
  prompt = "Codex needs permission to run a command.";
  response_kind = choice;
  choices = decline_choice ∷ [];
  questions = [];
  details = field "command" (text "") (field "cwd" (text "") no_fields);
}

decline_held : get "faryo1" only_decline.pending_by_session ≡ some decline_pending
unfolding open_request build build_pending approval_choices get put text_or truthy to_text get_field
    is_empty decimal any
decline_held = refl

decline_opens : Step (init 100) only_decline
unfolding get
decline_opens = opens (init 100) tokens "faryo1" command_method decline_params refl refl

single-DistinctIds : (x : InteractionChoice) → DistinctIds (x ∷ [])
single-DistinctIds x c d (at_head p) (at_head q) e = p ∙ sym q
single-DistinctIds x c d (at_head p) (in_tail m) e = elim m [ ]
single-DistinctIds x c d (in_tail m) q e = elim m [ ]

decline_accepted :
    (cancel only_decline 1 2 "faryo1" "request-4").1
    ≡ ok (record allowed { request_id = "request-4" })
unfolding cancel refuses respond chosen open_request build build_pending approval_choices strip
    is_request_id all_chars get put retain text_or truthy to_text get_field decimal is_empty any
    first
decline_accepted = refl

cancel-refuses_example :
    (c : InteractionChoice) × Among c decline_pending.choices
    × RefusesBy c
    × (get "asix_1" (cancel only_decline 1 2 "faryo1" "request-4").0.futures
        ≡ some (result c.response))
cancel-refuses_example =
    cancel-refuses only_decline 1 2 "faryo1" "request-4" decline_pending
      (record allowed { request_id = "request-4" })
      (Reaches-IsSynced (init-IsSynced 100) (after start decline_opens)) decline_held refl
      (single-DistinctIds decline_choice) decline_accepted refl

-- The permission request of a second session.
abbrev permission_params : Fields
permission_params =
    field "threadId" (text "t2")
      (field "permissions" (mapping (field "network" (text "all") no_fields)) no_fields)

abbrev permission_method : String
permission_method = "item/permissions/requestApproval"

abbrev asking : Broker
asking = (open_request (init 100) tokens "faryo2" permission_method permission_params).0

abbrev permission_pending : Pending
permission_pending = record {
  id = "asix_1";
  session = "faryo2";
  method = permission_method;
  thread_id = "t2";
  turn_id = "";
  item_id = "";
  generation = 1;
  kind = "approval";
  title = "Allow additional permissions?";
  prompt = "Codex requested additional sandbox permissions.";
  response_kind = choice;
  choices =
      record {
        public_id = "asopt_0";
        label = "Allow once";
        description = "Grant the requested permissions for this turn.";
        response =
            field "permissions" (mapping (field "network" (text "all") no_fields))
              (field "scope" (text "turn") no_fields);
      }
      ∷ record {
        public_id = "asopt_1";
        label = "Allow for session";
        description = "Grant the requested permissions for this session.";
        response =
            field "permissions" (mapping (field "network" (text "all") no_fields))
              (field "scope" (text "session") no_fields);
      }
      ∷ record {
        public_id = "asopt_2";
        label = "Decline";
        description = "Continue without the requested permissions.";
        response = field "permissions" (mapping no_fields) (field "scope" (text "turn") no_fields);
      }
      ∷ [];
  questions = [];
  details =
      field "cwd" (text "")
        (field "permissions" (mapping (field "network" (text "all") no_fields)) no_fields);
}

permission_built :
    build_pending tokens "faryo2" permission_method permission_params 1 ≡ some permission_pending
unfolding build_pending text_or truthy to_text get_field is_empty decimal
permission_built = refl

permission_held : get "faryo2" asking.pending_by_session ≡ some permission_pending
unfolding open_request build build_pending get put text_or truthy to_text get_field is_empty decimal
permission_held = refl

cancel-permissions_example :
    (cancel asking 1 2 "faryo2" "request-3" ≡ (asking, err cannot_cancel))
    × (shown : Fields) × (public permission_pending ≡ mapping shown)
    × (get_field "actions" shown ≡ some (array (item (text "cancel") no_items)))
cancel-permissions_example =
    cancel-permissions asking 1 2 tokens "faryo2" "request-3" permission_params 1 permission_pending
      permission_built permission_held
