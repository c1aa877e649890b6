-- ===== src/Requests/Flow/Refusals.antt =====
-- appserver_requests.py: what is never granted: refused requests, and cancellations.
use faryo_codex_web_ui.Base.{
  subst, ℕ, ◌≡◌, refl, ap, sym, ◌∙◌, Bool, true, false, ◌||◌, Option, none, some, List, String,
  str_eq, arith, Option-cases, Bool-cases, eq_iff, ◌⊎◌, inl, inr, first, first_holds, first-Among,
  Among,
}
use faryo_codex_web_ui.Base.Dict.{get}
use faryo_codex_web_ui.Json.{Value, Fields, text, mapping, field, get_field, array, item, no_items}
use faryo_codex_web_ui.Requests.{
  result, InteractionChoice, ResponseKind, choice, questions, Pending, Broker, Response, ok, err,
  cannot_cancel, declined_response, public,
}
use faryo_codex_web_ui.Requests.Build.{Tokens, build, build_pending}
use faryo_codex_web_ui.Requests.Build.Names.{build-state}
use faryo_codex_web_ui.Requests.Flow.{
  Answer, respond, cancel, cancel_by, cancel_choice, cancel_answer, refuses, is_refusal, declined,
  open_request, open_built, prune_receipts,
}
use faryo_codex_web_ui.Requests.Flow.Tables.{IsSynced}
use faryo_codex_web_ui.Requests.Flow.Answers.{Offered, by_choice, by_answers, respond-Accepted}

abbrev grants_decision : Option Value → Bool
grants_decision (some (text d)) =
    str_eq d "accept" || str_eq d "acceptForSession" || str_eq d "approved"
grants_decision _ = false

abbrev grants_permissions : Option Value → Bool
grants_permissions (some (mapping (field k v fs))) = true
grants_permissions _ = false

-- The response allows something: an accepting decision, or some permissions.
pub grants : Fields → Bool
grants f =
    grants_decision (get_field "decision" f) || grants_permissions (get_field "permissions" f)

-- The answer that the App Server gets for a request that is refused unseen grants nothing, whatever the
-- method, known or not, and its parameters.
pub declined_response-refuses :
    (method : String) (params : Fields) → grants (declined_response method params) ≡ false
unfolding declined_response grants get_field
declined_response-refuses method params = ground arith

open_built-declined :
    (b : Broker) (o : Option Pending) (method : String) (params r : Fields)
    → (open_built (b, o) method params).1 ≡ declined r
    → (r ≡ declined_response method params) × ((open_built (b, o) method params).0 ≡ b)
unfolding open_built
open_built-declined b none method params r h = (ground arith, refl)
open_built-declined b (some p) method params r h = cc

-- A request that is declined at once (its session is busy, or it cannot be shown) is answered with no
-- grant, opens nothing in the tables and no future, and leaves the receipts.
pub open_request-declined :
    (b : Broker) (tokens : Tokens) (session method : String) (params r : Fields)
    → (open_request b tokens session method params).1 ≡ declined r
    → let c = (open_request b tokens session method params).0 in
      (grants r ≡ false)
      × (c.pending_by_id ≡ b.pending_by_id)
      × (c.pending_by_session ≡ b.pending_by_session)
      × (c.futures ≡ b.futures)
      × (c.receipts ≡ b.receipts)
unfolding open_request
open_request-declined b tokens session method params r h =
    elim (Option-cases (get session b.pending_by_session)) [
      | inl free ↦
          let made = build b tokens session method params in
          let out =
            open_built-declined made.0 made.1 method params r (rw (free, open_request) at h) in
          let (i, s, f, x) = build-state b tokens session method params in
          rw (free, open_request)
            (rw (out.0, out.1) (declined_response-refuses method params, i, s, f, x))
      | inr (q, busy) ↦
          let same : declined (declined_response method params) ≡ declined r =
            rw (busy, open_request) at h in
          rw (busy, open_request)
            (ground (arith, same, declined_response-refuses method params), refl, refl, refl, refl)
    ]

abbrev pub DistinctIds : List InteractionChoice → Type 0
DistinctIds cs =
    (c d : InteractionChoice) → Among c cs → Among d cs → c.public_id ≡ d.public_id → c ≡ d

-- An accepted answer with the id of a choice gives that choice's response.
Offered-choice :
    (p : Pending) (a : Answer) (f : Fields) (c : InteractionChoice)
    → p.response_kind ≡ choice
    → DistinctIds p.choices
    → Among c p.choices
    → a.option_id ≡ c.public_id
    → Offered p a f
    → f ≡ c.response
Offered-choice p a f c kind distinct among same (by_choice d _ in_choices id e) =
    e ∙ ap (λ x. x.response) (distinct d c in_choices among (id ∙ same))
Offered-choice p a f c kind distinct among same (by_answers other e) = cc

cancel_choice-refuses :
    (b : Broker) (t n : ℕ) (session request_id : String) (p : Pending) (r : Response)
    (o : Option InteractionChoice)
    → get p.id b.pending_by_id ≡ some p
    → p.response_kind ≡ choice
    → DistinctIds p.choices
    → first refuses p.choices ≡ o
    → (cancel_choice b t n session p request_id o).1 ≡ ok r
    → r.duplicate ≡ false
    → (c : InteractionChoice) × Among c p.choices
      × (refuses c ≡ true)
      × (get p.id (cancel_choice b t n session p request_id o).0.futures ≡ some (result c.response))
unfolding cancel_choice prune_receipts
cancel_choice-refuses b t n session request_id p r none held kind distinct e h fresh = cc
cancel_choice-refuses b t n session request_id p r (some c) held kind distinct e h fresh =
    let a = cancel_answer session p request_id c in
    let done = respond-Accepted b t n a r h fresh in
    let both : some p ≡ some done.pending = sym held ∙ done.held in
    let same : p ≡ done.pending = cc both in
    let among = first-Among refuses p.choices c e in
    let offered = subst (λ q. Offered q a done.fields) (sym same) done.offered in
    (
      c,
      among,
      first_holds refuses p.choices c e,
      ap (λ q. get q.id (respond b t n a).0.futures) same
          ∙ done.done
          ∙ ap (λ f. some (result f))
              (Offered-choice p a done.fields c kind distinct among refl offered),
    )

cancel_by-refuses :
    (k : ResponseKind) (b : Broker) (t n : ℕ) (session request_id : String) (p : Pending)
    (r : Response)
    → get p.id b.pending_by_id ≡ some p
    → p.response_kind ≡ k
    → k ≡ choice
    → DistinctIds p.choices
    → (cancel_by k b t n session request_id p).1 ≡ ok r
    → r.duplicate ≡ false
    → (c : InteractionChoice) × Among c p.choices
      × (refuses c ≡ true)
      × (get p.id (cancel_by k b t n session request_id p).0.futures ≡ some (result c.response))
unfolding cancel_by
cancel_by-refuses questions b t n session request_id p r held kind is distinct h fresh = cc
cancel_by-refuses choice b t n session request_id p r held kind is distinct h fresh =
    cancel_choice-refuses b t n session request_id p r (first refuses p.choices) held kind distinct
      refl h fresh

-- The response of a choice has one of the three decisions that refuse.
pub record RefusesBy (c : InteractionChoice) : Type 0 where
  pub decision : String
  pub stated : get_field "decision" c.response ≡ some (text decision)
  pub refusing : (decision ≡ "cancel") ⊎ ((decision ≡ "decline") ⊎ (decision ≡ "denied"))

is_refusal-text :
    (d : String)
    → is_refusal (some (text d)) ≡ true
    → (d ≡ "cancel") ⊎ ((d ≡ "decline") ⊎ (d ≡ "denied"))
unfolding is_refusal
is_refusal-text d h = elim (Bool-cases (str_eq d "cancel")) [
  | inl first_one ↦ inl ((eq_iff d "cancel").0 first_one)
  | inr others ↦ elim (Bool-cases (str_eq d "decline")) [
    | inl second ↦ inr (inl ((eq_iff d "decline").0 second))
    | inr third ↦ inr (inr ((eq_iff d "denied").0 (rw (others, third) at h)))
  ]
]

refusal-RefusesBy :
    (c : InteractionChoice) (o : Option Value)
    → get_field "decision" c.response ≡ o
    → is_refusal o ≡ true
    → RefusesBy c
unfolding is_refusal
refusal-RefusesBy c (some (text d)) e h = record {
  decision = d;
  stated = e;
  refusing = is_refusal-text d h;
}
refusal-RefusesBy c _ e h = cc

refuses-RefusesBy : (c : InteractionChoice) → refuses c ≡ true → RefusesBy c
unfolding refuses
refuses-RefusesBy c h = refusal-RefusesBy c (get_field "decision" c.response) refl h

-- A first cancellation of a request with choices resolves it with one of its choices that refuses: the
-- decision "cancel", "decline" or "denied".
pub cancel-refuses :
    (b : Broker) (t n : ℕ) (session request_id : String) (p : Pending) (r : Response)
    → IsSynced b
    → get session b.pending_by_session ≡ some p
    → p.response_kind ≡ choice
    → DistinctIds p.choices
    → (cancel b t n session request_id).1 ≡ ok r
    → r.duplicate ≡ false
    → (c : InteractionChoice) × Among c p.choices
      × RefusesBy c
      × (get p.id (cancel b t n session request_id).0.futures ≡ some (result c.response))
unfolding cancel
cancel-refuses b t n session request_id p r v held kind distinct h fresh =
    let (c, among, refusing, done) =
      cancel_by-refuses p.response_kind b t n session request_id p r (v.by_session session p held).1
        refl kind distinct (rw (held, cancel) at h) fresh in
    (c, among, refuses-RefusesBy c refusing, rw (held, cancel) done)

permission_request :
    (tokens : Tokens) (session : String) (params : Fields) (g : ℕ) (p : Pending)
    → build_pending tokens session "item/permissions/requestApproval" params g ≡ some p
    → (p.response_kind ≡ choice) × (first refuses p.choices ≡ none)
unfolding build_pending first refuses get_field
permission_request tokens session params g p made = ground arith

cancel_by-permissions :
    (k : ResponseKind) (b : Broker) (t n : ℕ) (session request_id : String) (p : Pending)
    → (k ≡ choice) × (first refuses p.choices ≡ none)
    → cancel_by k b t n session request_id p ≡ (b, err cannot_cancel)
unfolding cancel_by cancel_choice
cancel_by-permissions questions b t n session request_id p h = cc h.0
cancel_by-permissions choice b t n session request_id p h = rw h.1

-- A pending request for permissions cannot be cancelled: the cancellation is refused and changes nothing. Yet what
-- the browser is shown of the request gives "cancel" as its one action.
pub cancel-permissions :
    (b : Broker) (t n : ℕ) (tokens : Tokens) (session request_id : String) (params : Fields) (g : ℕ)
    (p : Pending)
    → build_pending tokens session "item/permissions/requestApproval" params g ≡ some p
    → get session b.pending_by_session ≡ some p
    → (cancel b t n session request_id ≡ (b, err cannot_cancel))
      × (shown : Fields) × (public p ≡ mapping shown)
      × (get_field "actions" shown ≡ some (array (item (text "cancel") no_items)))
unfolding cancel public get_field
cancel-permissions b t n tokens session request_id params g p made held = (
  rw (held, cancel)
      (cancel_by-permissions p.response_kind b t n session request_id p
        (permission_request tokens session params g p made)),
  _,
  refl,
  refl,
)
