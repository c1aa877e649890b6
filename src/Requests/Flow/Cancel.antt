-- ===== src/Requests/Flow/Cancel.antt =====
-- appserver_requests.py: what `cancel` comes down to.
use faryo_codex_web_ui.Base.{
  ℕ, ◌≡◌, refl, Option, none, some, String, Option-cases, inl, inr, first,
}
use faryo_codex_web_ui.Base.Dict.{get}
use faryo_codex_web_ui.Requests.{
  RequestError, cannot_cancel, not_current, ResponseKind, choice, questions, Pending, Broker,
  Response, Result, err, InteractionChoice,
}
use faryo_codex_web_ui.Requests.Flow.{refuses, Answer, respond, cancel, cancel_by, cancel_choice}

-- A cancellation is refused, or it is an answer.
pub data CancelRuns (b : Broker) (t n : ℕ) (out : Broker × Result Response) : Type 0 where
  refused : (e : RequestError) → out ≡ (b, err e) → CancelRuns b t n out
  answered : (a : Answer) → out ≡ respond b t n a → CancelRuns b t n out

cancel_choice-runs :
    (b : Broker) (t n : ℕ) (session : String) (p : Pending) (request_id : String)
    (o : Option InteractionChoice)
    → CancelRuns b t n (cancel_choice b t n session p request_id o)
unfolding cancel_choice
cancel_choice-runs b t n session p request_id none = refused cannot_cancel refl
cancel_choice-runs b t n session p request_id (some c) = answered _ refl

cancel_by-runs :
    (k : ResponseKind) (b : Broker) (t n : ℕ) (session request_id : String) (p : Pending)
    → CancelRuns b t n (cancel_by k b t n session request_id p)
unfolding cancel_by
cancel_by-runs questions b t n session request_id p = answered _ refl
cancel_by-runs choice b t n session request_id p =
    cancel_choice-runs b t n session p request_id (first refuses p.choices)

pub cancel-runs :
    (b : Broker) (t n : ℕ) (session request_id : String)
    → CancelRuns b t n (cancel b t n session request_id)
unfolding cancel
cancel-runs b t n session request_id = elim (Option-cases (get session b.pending_by_session)) [
  | inl free ↦ rw (free, cancel) (refused not_current refl)
  | inr (p, busy) ↦ rw (busy, cancel) (cancel_by-runs p.response_kind b t n session request_id p)
]
