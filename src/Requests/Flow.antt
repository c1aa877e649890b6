-- ===== src/Requests/Flow.antt =====
-- appserver_requests.py: `request` up to its `await` and after it, `respond`, `cancel`, `snapshot` and
-- `_prune_receipts`. Clock readings, in any unit, are arguments.
pub mod Tables
pub mod Cancel
pub mod Resolved
pub mod Steps
pub mod Answers
pub mod Refusals
use Prim.Native.String.{◌++◌, compare}
use Prim.Native.Nat.{Ordering}
use faryo_codex_web_ui.Base.{
  ℕ, suc, ◌+◌, Bool, true, false, not, ◌||◌, ◌&&◌, Option, none, some, List, [], ◌∷◌,
  ◌++◌ as append, String, str_eq, ltb, first, if◌then◌else◌,
}
use faryo_codex_web_ui.Base.Dict.{Dict, get, put, del, retain}
use faryo_codex_web_ui.Base.Text.{strip, is_empty, is_request_id, decimal}
use faryo_codex_web_ui.Json.{
  Value, Elements, Fields, text, array, mapping, no_items, item, no_fields, field, get_field,
  put_field,
}
use faryo_codex_web_ui.Requests.{
  InteractionChoice, Question, ResponseKind, choice, questions, Pending, public, Future, waiting,
  result, cancelled, Identity, Response, Receipt, Broker, on_open, on_close, invalid_request_id,
  request_id_reused, not_current, already_resolved, unknown_option, cannot_cancel, Result, ok, err,
  declined_response,
}
use faryo_codex_web_ui.Requests.Build.{Tokens, build}

-- A request is refused at once, or waits for the future of its interaction.
pub data Opened : Type 0 where
  declined : Fields → Opened
  awaits : Pending → Opened

-- The future is created, both tables take the request, and the browser is told.
register : Broker → Pending → Broker
register b p = record b {
  futures = put p.id waiting b.futures;
  pending_by_session = put p.session p b.pending_by_session;
  pending_by_id = put p.id p b.pending_by_id;
  calls = append b.calls (on_open p.session (public p) ∷ []);
}

open_built : Broker × Option Pending → String → Fields → Broker × Opened
unfolding register
open_built (b, none) method params = (b, declined (declined_response method params))
open_built (b, some p) method params = (register b p, awaits p)

-- `request` up to `await pending.future`.
unfoldable pub open_request : Broker → Tokens → String → String → Fields → Broker × Opened
unfolding open_built
open_request b tokens session method params = elim (get session b.pending_by_session) [
  | some _ ↦ (b, declined (declined_response method params))
  | none ↦ open_built (build b tokens session method params) method params
]

-- The await ends because the future is done, or because the task is cancelled.
pub data Ending : Type 0 where
  woken task_cancelled : Ending

abbrev cancel_future : Future → Future
cancel_future waiting = cancelled
cancel_future done = done

settle : Ending → Option Future → Option Future
settle woken f = f
settle task_cancelled none = none
settle task_cancelled (some f) = some (cancel_future f)

abbrev put_future : String → Option Future → Dict Future → Dict Future
put_future i none d = d
put_future i (some f) d = put i f d

result_of : Ending → Option Future → Option Fields
result_of woken (some (result r)) = some r
result_of _ _ = none

-- `request` from its `await` on: `none` is a raised CancelledError. The `finally` block always runs.
unfoldable pub close_request : Broker → Pending → Ending → Broker × Option Fields
unfolding settle result_of
close_request b p ending =
    let f = get p.id b.futures in
    (
      record b {
        futures = put_future p.id (settle ending f) b.futures;
        pending_by_session = del p.session b.pending_by_session;
        pending_by_id = del p.id b.pending_by_id;
        calls = append b.calls (on_close p.session p.id ∷ []);
      },
      result_of ending f,
    )

unfoldable pub snapshot : Broker → String → Option Value
snapshot b session = elim (get session b.pending_by_session) [
  | none ↦ none
  | some p ↦ some (public p)
]

-- `value["updatedAt"] < cutoff`, for a cutoff of `now - receipt_ttl`, drops a receipt.
unfoldable pub prune_receipts : Broker → ℕ → Broker
prune_receipts b now = record b {
  receipts = retain (λ r. not (ltb (r.updated_at + b.receipt_ttl) now)) b.receipts;
}

answer_texts : Elements → List String
answer_texts no_items = []
answer_texts (item (text s) rest) = s ∷ answer_texts rest
answer_texts (item _ rest) = answer_texts rest

-- `raw if isinstance(raw, list) else [raw]`
abbrev as_items : Value → Elements
as_items (array xs) = xs
as_items v = item v no_items

insert_answer : String → List String → List (String × List String) → List (String × List String)
insert_answer k v [] = (k, v) ∷ []
insert_answer k v ((j, w) ∷ rest) = elim (compare k j) [
  | Ordering.gt ↦ (j, w) ∷ insert_answer k v rest
  | _ ↦ (k, v) ∷ (j, w) ∷ rest
]

-- `_normalized_answers`: the texts of each answer, sorted by key; a mapping has each key once.
unfoldable pub normalized_answers : Fields → List (String × List String)
unfolding answer_texts insert_answer
normalized_answers no_fields = []
normalized_answers (field k v rest) =
    insert_answer k (answer_texts (as_items v)) (normalized_answers rest)

texts_eq : List String → List String → Bool
texts_eq [] [] = true
texts_eq (x ∷ xs) (y ∷ ys) = str_eq x y && texts_eq xs ys
texts_eq _ _ = false

answers_eq : List (String × List String) → List (String × List String) → Bool
answers_eq [] [] = true
answers_eq ((k, v) ∷ xs) ((j, w) ∷ ys) = str_eq k j && texts_eq v w && answers_eq xs ys
answers_eq _ _ = false

-- `existing["identity"] == identity`
unfoldable pub identity_eq : Identity → Identity → Bool
unfolding texts_eq answers_eq
identity_eq a b =
    str_eq a.session b.session
    && str_eq a.interaction_id b.interaction_id
    && str_eq a.option_id b.option_id
    && answers_eq a.answers b.answers

spoken : Elements → Elements
spoken no_items = no_items
spoken (item (text s) rest) =
    if is_empty (strip s) then spoken rest else item (text s) (spoken rest)
spoken (item _ rest) = spoken rest

submitted_items : Option Value → Elements
submitted_items none = no_items
submitted_items (some v) = as_items v

question_answers : List Question → Fields → Fields → Fields
question_answers [] submitted answers = answers
question_answers (q ∷ qs) submitted answers = question_answers qs submitted (
    put_field q.id
      (mapping
        (field "answers" (array (spoken (submitted_items (get_field q.id submitted)))) no_fields))
      answers)

-- `_question_response`
unfoldable pub question_response : List Question → Fields → Fields
unfolding question_answers spoken submitted_items
question_response asked submitted =
    field "answers" (mapping (question_answers asked submitted no_fields)) no_fields

-- The arguments of `respond`; `answers` is empty where the caller gave none.
pub record Answer : Type 0 where
  pub session : String
  pub interaction_id : String
  pub option_id : String
  pub answers : Fields
  pub client_request_id : String

abbrev pub identity_of : Answer → Identity
identity_of a = record {
  session = a.session;
  interaction_id = a.interaction_id;
  option_id = a.option_id;
  answers = normalized_answers a.answers;
}

abbrev choice_result : Option InteractionChoice → Result Fields
choice_result none = err unknown_option
choice_result (some c) = ok c.response

chosen_by : ResponseKind → Pending → Answer → Result Fields
chosen_by questions p a = ok (question_response p.questions a.answers)
chosen_by choice p a = choice_result (first (λ c. str_eq c.public_id a.option_id) p.choices)

-- The result that an answer gives a request.
unfoldable pub chosen : Pending → Answer → Result Fields
unfolding chosen_by
chosen p a = chosen_by p.response_kind p a

make_response : Pending → String → Response
make_response p request_id = record {
  request_id = request_id;
  interaction_revision = "appserver:" ++ decimal (suc p.generation);
  duplicate = false;
}

-- `set_result`, and the receipt of this answer.
resolve : Broker → ℕ → Pending → Answer → String → Result Fields → Broker × Result Response
unfolding make_response
resolve b now p a request_id (err e) = (b, err e)
resolve b now p a request_id (ok fields) =
    let response = make_response p request_id in
    (
      record b {
        futures = put p.id (result fields) b.futures;
        receipts =
            put request_id
              (record { identity = identity_of a; result = response; updated_at = now }) b.receipts;
      },
      ok response,
    )

resolve_waiting : Broker → ℕ → Pending → Answer → String → Option Future → Broker × Result Response
unfolding resolve
resolve_waiting b now p a request_id (some waiting) = resolve b now p a request_id (chosen p a)
resolve_waiting b now p a request_id _ = (b, err already_resolved)

respond_pending : Broker → ℕ → Answer → String → Option Pending → Broker × Result Response
unfolding resolve_waiting
respond_pending b now a request_id none = (b, err not_current)
respond_pending b now a request_id (some p) =
    if str_eq p.session a.session
    then resolve_waiting b now p a request_id (get p.id b.futures)
    else (b, err not_current)

respond_receipt : Broker → ℕ → Answer → String → Option Receipt → Broker × Result Response
unfolding respond_pending
respond_receipt b now a request_id (some r) =
    if identity_eq r.identity (identity_of a)
    then (b, ok (record r.result { duplicate = true }))
    else (b, err request_id_reused)
respond_receipt b now a request_id none =
    respond_pending b now a request_id (get a.interaction_id b.pending_by_id)

-- `respond`, which reads the clock when it prunes and again for the receipt.
unfoldable pub respond : Broker → ℕ → ℕ → Answer → Broker × Result Response
unfolding respond_receipt prune_receipts
respond b pruned_at now a =
    let pruned = prune_receipts b pruned_at in
    let request_id = strip a.client_request_id in
    if is_request_id request_id
    then respond_receipt pruned now a request_id (get request_id pruned.receipts)
    else (pruned, err invalid_request_id)

is_refusal : Option Value → Bool
is_refusal (some (text d)) = str_eq d "cancel" || str_eq d "decline" || str_eq d "denied"
is_refusal _ = false

-- `choice.response.get("decision") in {"cancel", "decline", "denied"}`
unfoldable pub refuses : InteractionChoice → Bool
unfolding is_refusal
refuses c = is_refusal (get_field "decision" c.response)

no_answers : List Question → Fields → Fields
no_answers [] answers = answers
no_answers (q ∷ qs) answers = no_answers qs (put_field q.id (array no_items) answers)

-- The answer by which `cancel` picks a choice.
abbrev pub cancel_answer : String → Pending → String → InteractionChoice → Answer
cancel_answer session p request_id c = record {
  session = session;
  interaction_id = p.id;
  option_id = c.public_id;
  answers = no_fields;
  client_request_id = request_id;
}

cancel_choice :
    Broker → ℕ → ℕ → String → Pending → String → Option InteractionChoice → Broker × Result Response
cancel_choice b pruned_at now session p request_id none = (b, err cannot_cancel)
cancel_choice b pruned_at now session p request_id (some c) =
    respond b pruned_at now (cancel_answer session p request_id c)

cancel_by : ResponseKind → Broker → ℕ → ℕ → String → String → Pending → Broker × Result Response
unfolding cancel_choice no_answers
cancel_by questions b pruned_at now session request_id p = respond b pruned_at now (record {
  session = session;
  interaction_id = p.id;
  option_id = "";
  answers = no_answers p.questions no_fields;
  client_request_id = request_id;
})
cancel_by choice b pruned_at now session request_id p =
    cancel_choice b pruned_at now session p request_id (first refuses p.choices)

-- `cancel`
unfoldable pub cancel : Broker → ℕ → ℕ → String → String → Broker × Result Response
unfolding cancel_by
cancel b pruned_at now session request_id = elim (get session b.pending_by_session) [
  | none ↦ (b, err not_current)
  | some p ↦ cancel_by p.response_kind b pruned_at now session request_id p
]
