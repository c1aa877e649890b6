-- ===== src/Requests.antt =====
-- The broker of apps/owner/local-tmux-owner/appserver_requests.py, which holds the questions of the
-- Codex App Server until the browser answers: its data and its state.
pub mod Build
pub mod Flow
pub mod Tests
use Prim.Native.String.{String}
use faryo_codex_web_ui.Base.{
  ℕ, suc, Bool, true, false, Option, none, some, List, [], ◌∷◌, str_eq, ◌||◌, if◌then◌else◌, any,
}
use faryo_codex_web_ui.Base.Dict.{Dict}
use faryo_codex_web_ui.Base.Text.{pos}
use faryo_codex_web_ui.Json.{
  Value, Elements, Fields, null, bool, int, text, array, mapping, no_items, item, no_fields, field,
  get_field, put_field,
}
use faryo_codex_web_ui.Json.Str.{to_text}

pub record InteractionChoice : Type 0 where
  pub public_id : String
  pub label : String
  pub description : String
  pub response : Fields

choice_public : InteractionChoice → Value
choice_public c = mapping (
    field "id" (text c.public_id) (
      field "label" (text c.label) (
        field "description" (text c.description) (
          field "selected" (bool false)
            (field "current" (bool false) (field "disabled" (bool false) no_fields))))))

pub record QuestionOption : Type 0 where
  pub label : String
  pub description : String

-- A question as `_questions` cleans it.
pub record Question : Type 0 where
  pub id : String
  pub header : String
  pub question : String
  pub options : List QuestionOption
  pub is_other : Bool
  pub is_secret : Bool

to_items {ℓ} : {A : Type ℓ} → (A → Value) → List A → Elements
to_items f [] = no_items
to_items f (x ∷ xs) = item (f x) (to_items f xs)

option_value : QuestionOption → Value
option_value o =
    mapping (field "label" (text o.label) (field "description" (text o.description) no_fields))

question_value : Question → Value
unfolding option_value to_items
question_value q = mapping (
    field "id" (text q.id) (
      field "header" (text q.header) (
        field "question" (text q.question) (
          field "options" (array (to_items option_value q.options))
            (field "isOther" (bool q.is_other) (field "isSecret" (bool q.is_secret) no_fields))))))

-- `response_kind`: "choice" or "questions".
pub data ResponseKind : Type 0 where
  choice questions : ResponseKind

abbrev kind_text : ResponseKind → String
kind_text choice = "choice"
kind_text questions = "questions"

-- `PendingAppServerInteraction`, but for its future, which the broker's state holds under the id.
pub record Pending : Type 0 where
  pub id : String
  pub session : String
  pub method : String
  pub thread_id : String
  pub turn_id : String
  pub item_id : String
  pub generation : ℕ
  pub kind : String
  pub title : String
  pub prompt : String
  pub response_kind : ResponseKind
  pub choices : List InteractionChoice
  pub questions : List Question
  pub details : Fields

unfoldable pub public : Pending → Value
unfolding choice_public question_value to_items
public p = mapping (
    field "id" (text p.id) (
      field "generation" (int (pos p.generation)) (
        field "kind" (text p.kind) (
          field "title" (text p.title) (
            field "prompt" (text p.prompt) (
              field "options" (array (to_items choice_public p.choices)) (
                field "questions" (array (to_items question_value p.questions)) (
                  field "details" (mapping p.details) (
                    field "responseKind" (text (kind_text p.response_kind)) (
                      field "actions" (array (item (text "cancel") no_items)) (
                        field "source" (text "codex-app-server")
                          (field "status" (text "pending") no_fields))))))))))))

-- The future of a request: not done, or done with a result or by cancellation.
pub data Future : Type 0 where
  waiting : Future
  result : Fields → Future
  cancelled : Future

-- `identity`: what a client request id was used for.
pub record Identity : Type 0 where
  pub session : String
  pub interaction_id : String
  pub option_id : String
  pub answers : List (String × List String)

-- The answer to the browser; its other fields are constant.
pub record Response : Type 0 where
  pub request_id : String
  pub interaction_revision : String
  pub duplicate : Bool

unfoldable pub response_value : Response → Value
response_value r = mapping (
    field "ok" (bool true) (
      field "requestId" (text r.request_id) (
        field "interaction" null (
          field "interactionRevision" (text r.interaction_revision) (
            field "changed" (bool true)
              (field "resolved" (bool true) (field "duplicate" (bool r.duplicate) no_fields)))))))

pub record Receipt : Type 0 where
  pub identity : Identity
  pub result : Response
  pub updated_at : ℕ

-- The calls of the handlers that the broker was given.
pub data Call : Type 0 where
  on_open : String → Value → Call
  on_close : String → String → Call

-- `AppServerInteractionBroker`. Both tables of pending requests point at one object, whose future
-- stands in `futures` under its id.
pub record Broker : Type 0 where
  pub receipt_ttl : ℕ
  pub pending_by_session : Dict Pending
  pub pending_by_id : Dict Pending
  pub generations : Dict ℕ
  pub receipts : Dict Receipt
  pub futures : Dict Future
  pub calls : List Call

abbrev pub init : ℕ → Broker
init receipt_ttl = record {
  receipt_ttl = receipt_ttl;
  pending_by_session = [];
  pending_by_id = [];
  generations = [];
  receipts = [];
  futures = [];
  calls = [];
}

pub data RequestError : Type 0 where
  invalid_request_id request_id_reused not_current already_resolved unknown_option cannot_cancel :
      RequestError

pub data Result {ℓ} (A : Type ℓ) : Type ℓ where
  ok : A → Result A
  err : RequestError → Result A

abbrev pub user_input_method : String
user_input_method = "item/tool/requestUserInput"

abbrev pub is_legacy : String → Bool
is_legacy method = str_eq method "execCommandApproval" || str_eq method "applyPatchApproval"

decline_answers : Elements → Fields → Fields
decline_answers no_items answers = answers
decline_answers (item (mapping q) rest) answers = decline_answers rest (elim (get_field "id" q) [
  | some (text i) ↦ put_field i (mapping (field "answers" (array no_items) no_fields)) answers
  | _ ↦ answers
])
decline_answers (item _ rest) answers = decline_answers rest answers

questions_of : Option Value → Elements
questions_of (some (array xs)) = xs
questions_of _ = no_items

-- `declined_response`: what the App Server is told where nobody may or did allow the request.
unfoldable pub declined_response : String → Fields → Fields
unfolding decline_answers questions_of
declined_response method params =
    if str_eq method "item/commandExecution/requestApproval"
      || str_eq method "item/fileChange/requestApproval"
    then field "decision" (text "decline") no_fields
    else if str_eq method "item/permissions/requestApproval"
    then field "permissions" (mapping no_fields) (field "scope" (text "turn") no_fields)
    else if str_eq method user_input_method
    then field "answers"
        (mapping (decline_answers (questions_of (get_field "questions" params)) no_fields))
        no_fields
    else if is_legacy method
    then field "decision" (text "denied") no_fields
    else no_fields
