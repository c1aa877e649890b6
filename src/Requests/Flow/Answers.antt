-- ===== src/Requests/Flow/Answers.antt =====
-- appserver_requests.py: what an accepted answer does, and what happens to the next ones.
use faryo_codex_web_ui.Base.{
  false≢true, ℕ, ◌+◌, ◌≤◌, ◌≡◌, ◌≢◌, ◌↔◌, refl, sym, ◌∙◌, true, false, Option, none, some, List, [],
  ◌∷◌, String, str_eq, eq_iff, arith, Bool-cases, inl, inr, first, first_holds, first-Among, Among,
}
use faryo_codex_web_ui.Base.Dict.{get, get-put_self, get-retain}
use faryo_codex_web_ui.Base.Text.{strip, is_request_id}
use faryo_codex_web_ui.Json.{Fields}
use faryo_codex_web_ui.Requests.{
  InteractionChoice, ResponseKind, choice, questions, Pending, Future, waiting, result, Identity,
  Response, Receipt, Broker, request_id_reused, Result, ok, err,
}
use faryo_codex_web_ui.Requests.Flow.{
  Answer, respond, prune_receipts, resolve, resolve_waiting, respond_pending, respond_receipt,
  chosen, chosen_by, choice_result, identity_of, identity_eq, texts_eq, answers_eq,
  question_response,
}

texts_eq_iff : (xs ys : List String) → (texts_eq xs ys ≡ true) ↔ (xs ≡ ys)
unfolding texts_eq
texts_eq_iff [] [] = ((λ h. refl), λ h. refl)
texts_eq_iff (x ∷ xs) [] = ((λ h. ground arith), λ h. ground arith)
texts_eq_iff [] (y ∷ ys) = ((λ h. ground arith), λ h. ground arith)
texts_eq_iff (x ∷ xs) (y ∷ ys) = (
  (λ h. ground (arith, eq_iff x y, texts_eq_iff xs ys)),
  λ h. ground (arith, eq_iff x y, texts_eq_iff xs ys),
)

answers_eq_iff : (xs ys : List (String × List String)) → (answers_eq xs ys ≡ true) ↔ (xs ≡ ys)
unfolding answers_eq
answers_eq_iff [] [] = ((λ h. refl), λ h. refl)
answers_eq_iff (x ∷ xs) [] = ((λ h. ground arith), λ h. ground arith)
answers_eq_iff [] (y ∷ ys) = ((λ h. ground arith), λ h. ground arith)
answers_eq_iff ((k, v) ∷ xs) ((j, w) ∷ ys) = (
  (λ h. ground (arith, eq_iff k j, texts_eq_iff v w, answers_eq_iff xs ys)),
  λ h. ground (arith, eq_iff k j, texts_eq_iff v w, answers_eq_iff xs ys),
)

identity_eq_iff : (a b : Identity) → (identity_eq a b ≡ true) ↔ (a ≡ b)
unfolding identity_eq
identity_eq_iff a b = (
  (λ h. ground (
    arith,
    eq_iff a.session b.session,
    eq_iff a.interaction_id b.interaction_id,
    eq_iff a.option_id b.option_id,
    answers_eq_iff a.answers b.answers,
  )),
  λ h. ground (
    arith,
    eq_iff a.session b.session,
    eq_iff a.interaction_id b.interaction_id,
    eq_iff a.option_id b.option_id,
    answers_eq_iff a.answers b.answers,
  ),
)

-- The answer `a` gives a request the fields `f`: those of one of its choices, or texts for its questions.
pub data Offered (p : Pending) (a : Answer) (f : Fields) : Type 0 where
  by_choice :
      (c : InteractionChoice)
      → p.response_kind ≡ choice
      → Among c p.choices
      → c.public_id ≡ a.option_id
      → f ≡ c.response
      → Offered p a f
  by_answers :
      p.response_kind ≡ questions → f ≡ question_response p.questions a.answers → Offered p a f

choice_result-ok :
    (o : Option InteractionChoice) (f : Fields)
    → choice_result o ≡ ok f
    → (c : InteractionChoice) × (o ≡ some c) × (f ≡ c.response)
choice_result-ok none f h = cc
choice_result-ok (some c) f h = (c, refl, ground arith)

chosen_by-Offered :
    (k : ResponseKind) (p : Pending) (a : Answer) (f : Fields)
    → p.response_kind ≡ k
    → chosen_by k p a ≡ ok f
    → Offered p a f
unfolding chosen_by
chosen_by-Offered questions p a f e h = by_answers e (ground arith)
chosen_by-Offered choice p a f e h =
    let test = λ (c : InteractionChoice). str_eq c.public_id a.option_id in
    let (c, found, same) = choice_result-ok (first test p.choices) f h in
    by_choice c e (first-Among test p.choices c found)
      ((eq_iff c.public_id a.option_id).0 (first_holds test p.choices c found)) same

-- What a fresh success means.
pub record Accepted (b : Broker) (n : ℕ) (a : Answer) (c : Broker) (r : Response) : Type 0 where
  pub pending : Pending
  pub fields : Fields
  pub held : get a.interaction_id b.pending_by_id ≡ some pending
  pub of_session : pending.session ≡ a.session
  pub was_waiting : get pending.id b.futures ≡ some waiting
  pub offered : Offered pending a fields
  pub done : get pending.id c.futures ≡ some (result fields)
  pub receipt :
      get (strip a.client_request_id) c.receipts
      ≡ some (record { identity = identity_of a; result = r; updated_at = n })
  pub same_ttl : c.receipt_ttl ≡ b.receipt_ttl

resolve-Accepted :
    (b : Broker) (n : ℕ) (p : Pending) (a : Answer) (out : Result Fields) (r : Response)
    → get a.interaction_id b.pending_by_id ≡ some p
    → p.session ≡ a.session
    → get p.id b.futures ≡ some waiting
    → chosen p a ≡ out
    → (resolve b n p a (strip a.client_request_id) out).1 ≡ ok r
    → Accepted b n a (resolve b n p a (strip a.client_request_id) out).0 r
unfolding resolve chosen
resolve-Accepted b n p a (err e) r held session was e' h = cc
resolve-Accepted b n p a (ok f) r held session was e' h = record {
  pending = p;
  fields = f;
  held = held;
  of_session = session;
  was_waiting = was;
  offered = chosen_by-Offered p.response_kind p a f refl e';
  done = get-put_self p.id (result f) b.futures;
  receipt = get-put_self _ _ b.receipts ∙ ground arith;
  same_ttl = refl;
}

resolve_waiting-Accepted :
    (b : Broker) (n : ℕ) (p : Pending) (a : Answer) (o : Option Future) (r : Response)
    → get a.interaction_id b.pending_by_id ≡ some p
    → p.session ≡ a.session
    → get p.id b.futures ≡ o
    → (resolve_waiting b n p a (strip a.client_request_id) o).1 ≡ ok r
    → Accepted b n a (resolve_waiting b n p a (strip a.client_request_id) o).0 r
unfolding resolve_waiting
resolve_waiting-Accepted b n p a (some waiting) r held session e h =
    resolve-Accepted b n p a (chosen p a) r held session e refl h
resolve_waiting-Accepted b n p a _ r held session e h = cc

respond_pending-Accepted :
    (b : Broker) (n : ℕ) (a : Answer) (o : Option Pending) (r : Response)
    → get a.interaction_id b.pending_by_id ≡ o
    → (respond_pending b n a (strip a.client_request_id) o).1 ≡ ok r
    → Accepted b n a (respond_pending b n a (strip a.client_request_id) o).0 r
unfolding respond_pending
respond_pending-Accepted b n a none r e h = cc
respond_pending-Accepted b n a (some p) r e h = elim (Bool-cases (str_eq p.session a.session)) [
  | inl same ↦ rw same (
      resolve_waiting-Accepted b n p a (get p.id b.futures) r e
        ((eq_iff p.session a.session).0 same) refl (rw same at h))
  | inr other ↦ cc (rw other at h)
]

respond_receipt-Accepted :
    (b : Broker) (n : ℕ) (a : Answer) (o : Option Receipt) (r : Response)
    → (respond_receipt b n a (strip a.client_request_id) o).1 ≡ ok r
    → r.duplicate ≡ false
    → Accepted b n a (respond_receipt b n a (strip a.client_request_id) o).0 r
unfolding respond_receipt
respond_receipt-Accepted b n a none r h fresh =
    respond_pending-Accepted b n a (get a.interaction_id b.pending_by_id) r refl h
respond_receipt-Accepted b n a (some x) r h fresh =
    elim (Bool-cases (identity_eq x.identity (identity_of a))) [
      | inl same ↦ absurd (false≢true (sym fresh ∙ duplicate_of (rw same at h)))
      | inr other ↦ cc (rw other at h)
    ]
  where
    duplicate_of : ok (record x.result { duplicate = true }) ≡ ok r → r.duplicate ≡ true
    duplicate_of e = ground (arith, e)

-- An answer that is accepted for the first time (its reply is not marked as a duplicate) was given to a
-- request that is open in the answer's own session and whose future was not done. The future then has the
-- response of an offered choice, or the texts submitted for the questions asked: nothing else can reach the
-- App Server. A receipt is kept under the client's request id.
pub respond-Accepted :
    (b : Broker) (t n : ℕ) (a : Answer) (r : Response)
    → (respond b t n a).1 ≡ ok r
    → r.duplicate ≡ false
    → Accepted (prune_receipts b t) n a (respond b t n a).0 r
unfolding respond
respond-Accepted b t n a r h fresh =
    let pruned = prune_receipts b t in
    let request_id = strip a.client_request_id in
    elim (Bool-cases (is_request_id request_id)) [
      | inl valid ↦ rw valid (
          respond_receipt-Accepted pruned n a (get request_id pruned.receipts) r (rw valid at h)
            fresh)
      | inr bad ↦ cc (rw bad at h)
    ]

respond_receipt-known :
    (b : Broker) (n : ℕ) (a : Answer) (x : Receipt)
    → (identity_of a ≡ x.identity
        → respond_receipt b n a (strip a.client_request_id) (some x)
          ≡ (b, ok (record x.result { duplicate = true })))
      × (identity_of a ≢ x.identity
          → respond_receipt b n a (strip a.client_request_id) (some x) ≡ (b, err request_id_reused))
unfolding respond_receipt
respond_receipt-known b n a x = (
  (λ same. rw ((identity_eq_iff x.identity (identity_of a)).1 (sym same))),
  λ other. elim (Bool-cases (identity_eq x.identity (identity_of a))) [
    | inl same ↦ absurd (other (sym ((identity_eq_iff x.identity (identity_of a)).0 same)))
    | inr differs ↦ rw differs
  ],
)

respond-valid :
    (b : Broker) (t n : ℕ) (a : Answer) (r : Response)
    → (respond b t n a).1 ≡ ok r
    → is_request_id (strip a.client_request_id) ≡ true
unfolding respond
respond-valid b t n a r h = elim (Bool-cases (is_request_id (strip a.client_request_id))) [
  | inl valid ↦ valid
  | inr bad ↦ cc (rw bad at h)
]

respond-known :
    (c : Broker) (t n : ℕ) (a : Answer) (x : Receipt)
    → is_request_id (strip a.client_request_id) ≡ true
    → get (strip a.client_request_id) (prune_receipts c t).receipts ≡ some x
    → respond c t n a
      ≡ respond_receipt (prune_receipts c t) n a (strip a.client_request_id) (some x)
unfolding respond
respond-known c t n a x valid e = rw (valid, e)

prune_receipts-ttl : (b : Broker) (t : ℕ) → (prune_receipts b t).receipt_ttl ≡ b.receipt_ttl
unfolding prune_receipts
prune_receipts-ttl b t = refl

kept-receipt :
    (c : Broker) (t : ℕ) (k : String) (x : Receipt)
    → t ≤ x.updated_at + c.receipt_ttl
    → get k c.receipts ≡ some x
    → get k (prune_receipts c t).receipts ≡ some x
unfolding prune_receipts
kept-receipt c t k x early e = get-retain _ k x c.receipts (ground arith) e

-- While its receipt is not yet expired, a client request id is spent on the answer that it was accepted
-- for: the same answer again gets the first reply, marked as a duplicate, and any other answer under that
-- id is refused; both leave every request and future as they are.
pub respond_again :
    (b : Broker) (t n t' n' : ℕ) (a a' : Answer) (r : Response)
    → (respond b t n a).1 ≡ ok r
    → r.duplicate ≡ false
    → t' ≤ n + b.receipt_ttl
    → strip a'.client_request_id ≡ strip a.client_request_id
    → let c = (respond b t n a).0 in
      (identity_of a' ≡ identity_of a
        → respond c t' n' a' ≡ (prune_receipts c t', ok (record r { duplicate = true })))
      × (identity_of a' ≢ identity_of a
          → respond c t' n' a' ≡ (prune_receipts c t', err request_id_reused))
respond_again b t n t' n' a a' r h fresh early same_id =
    let done = respond-Accepted b t n a r h fresh in
    let c = (respond b t n a).0 in
    let x : Receipt = record { identity = identity_of a; result = r; updated_at = n } in
    let spent : get (strip a'.client_request_id) c.receipts ≡ some x = rw same_id done.receipt in
    let kept =
      kept-receipt c t' (strip a'.client_request_id) x
        (omega (arith, done.same_ttl, prune_receipts-ttl b t)) spent in
    let known = respond_receipt-known (prune_receipts c t') n' a' x in
    rw (respond-known c t' n' a' x (rw same_id (respond-valid b t n a r h)) kept) known
