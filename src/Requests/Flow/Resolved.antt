-- ===== src/Requests/Flow/Resolved.antt =====
-- appserver_requests.py: a future that has its result keeps it.
use faryo_codex_web_ui.Base.{
  ℕ, ◌≡◌, ◌≢◌, refl, Option, none, some, String, eq_iff, arith, Option-cases, inl, inr,
}
use faryo_codex_web_ui.Base.Dict.{Dict, get, get-put}
use faryo_codex_web_ui.Base.Text.{strip}
use faryo_codex_web_ui.Json.{Fields}
use faryo_codex_web_ui.Requests.{
  Pending, Future, waiting, result, cancelled, Broker, Receipt, Result, ok, err,
}
use faryo_codex_web_ui.Requests.Build.{Tokens, build}
use faryo_codex_web_ui.Requests.Build.Names.{build-names, build-state}
use faryo_codex_web_ui.Requests.Flow.{
  chosen, settle, open_request, open_built, Ending, woken, task_cancelled, close_request, Answer,
  respond, prune_receipts, resolve, resolve_waiting, respond_pending, respond_receipt, put_future,
}

-- `settle woken` writes back what it read.
put_future-same :
    (k i : String) (o : Option Future) (d : Dict Future)
    → get k d ≡ o
    → get i (put_future k o d) ≡ get i d
put_future-same k i none d e = refl
put_future-same k i (some f) d e = ground (arith, get-put k i f d, eq_iff k i)

open_built-Resolved :
    (b : Broker) (o : Option Pending) (method : String) (params : Fields) (i : String) (r : Fields)
    → ((p : Pending) → o ≡ some p → p.id ≢ i)
    → get i b.futures ≡ some (result r)
    → get i (open_built (b, o) method params).0.futures ≡ some (result r)
unfolding open_built
open_built-Resolved b none method params i r new h = h
open_built-Resolved b (some p) method params i r new h =
    ground (arith, new p refl, get-put p.id i waiting b.futures, eq_iff p.id i)

put_future-cancel :
    (k i : String) (r : Fields) (o : Option Future) (d : Dict Future)
    → get k d ≡ o
    → get i d ≡ some (result r)
    → get i (put_future k (settle task_cancelled o) d) ≡ some (result r)
unfolding settle
put_future-cancel k i r none d e h = h
put_future-cancel k i r (some waiting) d e h = ground (arith, get-put k i cancelled d, eq_iff k i)
put_future-cancel k i r (some (result x)) d e h =
    ground (arith, get-put k i (result x) d, eq_iff k i)
put_future-cancel k i r (some cancelled) d e h = ground (arith, get-put k i cancelled d, eq_iff k i)

module _ (i : String) (r : Fields) where
  pub open_request-Resolved :
      (b : Broker) (tokens : Tokens) (session method : String) (params : Fields)
      → get tokens.interaction b.futures ≡ none
      → get i b.futures ≡ some (result r)
      → get i (open_request b tokens session method params).0.futures ≡ some (result r)
  unfolding open_request
  open_request-Resolved b tokens session method params fresh h =
      elim (Option-cases (get session b.pending_by_session)) [
        | inl free ↦
            let made = build b tokens session method params in
            let same = build-state b tokens session method params in
            let named = build-names b tokens session method params in
            rw (free, open_request)
              (open_built-Resolved made.0 made.1 method params i r
                (λ p e same_id. ground (arith, named p, fresh, h)) (rw same.2 h))
        | inr (q, busy) ↦ rw (busy, open_request) h
      ]

  pub close_request-Resolved :
      (b : Broker) (p : Pending) (ending : Ending)
      → get i b.futures ≡ some (result r)
      → get i (close_request b p ending).0.futures ≡ some (result r)
  unfolding close_request
  close_request-Resolved b p woken h =
      ground (arith, put_future-same p.id i (get p.id b.futures) b.futures refl)
  close_request-Resolved b p task_cancelled h =
      put_future-cancel p.id i r (get p.id b.futures) b.futures refl h

  resolve-Resolved :
      (b : Broker) (now : ℕ) (p : Pending) (a : Answer) (request_id : String) (out : Result Fields)
      → p.id ≢ i
      → get i b.futures ≡ some (result r)
      → get i (resolve b now p a request_id out).0.futures ≡ some (result r)
  unfolding resolve
  resolve-Resolved b now p a request_id (err e) other h = h
  resolve-Resolved b now p a request_id (ok fields) other h =
      ground (arith, get-put p.id i (result fields) b.futures, eq_iff p.id i)

  resolve_waiting-Resolved :
      (b : Broker) (now : ℕ) (p : Pending) (a : Answer) (request_id : String) (o : Option Future)
      → get p.id b.futures ≡ o
      → get i b.futures ≡ some (result r)
      → get i (resolve_waiting b now p a request_id o).0.futures ≡ some (result r)
  unfolding resolve_waiting
  resolve_waiting-Resolved b now p a request_id (some waiting) e h =
      resolve-Resolved b now p a request_id (chosen p a) (λ same. ground arith) h
  resolve_waiting-Resolved b now p a request_id _ e h = h

  respond_pending-Resolved :
      (b : Broker) (now : ℕ) (a : Answer) (request_id : String) (o : Option Pending)
      → get i b.futures ≡ some (result r)
      → get i (respond_pending b now a request_id o).0.futures ≡ some (result r)
  unfolding respond_pending
  respond_pending-Resolved b now a request_id none h = h
  respond_pending-Resolved b now a request_id (some p) h =
      ground (arith, resolve_waiting-Resolved b now p a request_id (get p.id b.futures) refl h)

  respond_receipt-Resolved :
      (b : Broker) (now : ℕ) (a : Answer) (request_id : String) (o : Option Receipt)
      → get i b.futures ≡ some (result r)
      → get i (respond_receipt b now a request_id o).0.futures ≡ some (result r)
  unfolding respond_receipt
  respond_receipt-Resolved b now a request_id none h =
      respond_pending-Resolved b now a request_id (get a.interaction_id b.pending_by_id) h
  respond_receipt-Resolved b now a request_id (some x) h = ground arith

  pub respond-Resolved :
      (b : Broker) (t n : ℕ) (a : Answer)
      → get i b.futures ≡ some (result r)
      → get i (respond b t n a).0.futures ≡ some (result r)
  unfolding respond
  respond-Resolved b t n a h =
      let pruned = prune_receipts b t in
      let request_id = strip a.client_request_id in
      ground
        (arith, respond_receipt-Resolved pruned n a request_id (get request_id pruned.receipts) h)
