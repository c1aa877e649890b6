-- ===== src/Requests/Flow/Tables.antt =====
-- appserver_requests.py: the two tables of pending requests agree.
use faryo_codex_web_ui.Base.{
  ℕ, ◌≡◌, refl, Option, none, some, String, eq_iff, arith, Option-cases, inl, inr,
}
use faryo_codex_web_ui.Base.Dict.{get, get-put, get-del}
use faryo_codex_web_ui.Json.{Fields}
use faryo_codex_web_ui.Requests.{init, Pending, Broker}
use faryo_codex_web_ui.Requests.Build.{Tokens, build}
use faryo_codex_web_ui.Requests.Build.Names.{build-names, build-state}
use faryo_codex_web_ui.Requests.Flow.{
  open_request, open_built, register, Ending, close_request, Answer, respond,
}

-- The two tables hold the same requests, each under its own id and its own session.
pub record IsSynced (b : Broker) : Type 0 where
  pub by_id :
      (i : String) (p : Pending)
      → get i b.pending_by_id ≡ some p
      → (p.id ≡ i) × (get p.session b.pending_by_session ≡ some p)
  pub by_session :
      (s : String) (p : Pending)
      → get s b.pending_by_session ≡ some p
      → (p.session ≡ s) × (get p.id b.pending_by_id ≡ some p)

register-IsSynced :
    (b : Broker) (p : Pending)
    → IsSynced b
    → get p.session b.pending_by_session ≡ none
    → get p.id b.pending_by_id ≡ none
    → IsSynced (register b p)
unfolding register
register-IsSynced b p v free fresh = record {
  by_id = λ i q h. ground (
    arith,
    get-put p.id i p b.pending_by_id,
    eq_iff p.id i,
    get-put p.session q.session p b.pending_by_session,
    eq_iff p.session q.session,
    v.by_id i q,
  );
  by_session = λ s q h. ground (
    arith,
    get-put p.session s p b.pending_by_session,
    eq_iff p.session s,
    get-put p.id q.id p b.pending_by_id,
    eq_iff p.id q.id,
    v.by_session s q,
  );
}

pub close_request-IsSynced :
    (b : Broker) (p : Pending) (ending : Ending)
    → IsSynced b
    → get p.id b.pending_by_id ≡ some p
    → IsSynced (close_request b p ending).0
unfolding close_request
close_request-IsSynced b p ending v held = record {
  by_id = λ i q h. ground (
    arith,
    get-del p.id i b.pending_by_id,
    eq_iff p.id i,
    get-del p.session q.session b.pending_by_session,
    eq_iff p.session q.session,
    v.by_id i q,
    v.by_session p.session q,
    v.by_id p.id p,
  );
  by_session = λ s q h. ground (
    arith,
    get-del p.session s b.pending_by_session,
    eq_iff p.session s,
    get-del p.id q.id b.pending_by_id,
    eq_iff p.id q.id,
    v.by_session s q,
    v.by_id p.id q,
    v.by_id p.id p,
  );
}

open_built-IsSynced :
    (b : Broker) (o : Option Pending) (method : String) (params : Fields)
    → IsSynced b
    → ((p : Pending)
        → o ≡ some p
        → (get p.session b.pending_by_session ≡ none) × (get p.id b.pending_by_id ≡ none))
    → IsSynced (open_built (b, o) method params).0
unfolding open_built
open_built-IsSynced b none method params v free = v
open_built-IsSynced b (some p) method params v free =
    let (session, fresh) = free p refl in register-IsSynced b p v session fresh

-- Answers move futures and receipts only.
pub record SameTables (b c : Broker) : Type 0 where
  pub by_id : c.pending_by_id ≡ b.pending_by_id
  pub by_session : c.pending_by_session ≡ b.pending_by_session

pub SameTables-IsSynced : {b c : Broker} → SameTables b c → IsSynced b → IsSynced c
SameTables-IsSynced {b} {c} same v = record {
  by_id = λ i p h. rw same.by_session (v.by_id i p (rw (← same.by_id) h));
  by_session = λ s p h. rw same.by_id (v.by_session s p (rw (← same.by_session) h));
}

pub open_request-IsSynced :
    (b : Broker) (tokens : Tokens) (session method : String) (params : Fields)
    → get tokens.interaction b.pending_by_id ≡ none
    → IsSynced b
    → IsSynced (open_request b tokens session method params).0
unfolding open_request
open_request-IsSynced b tokens session method params fresh v =
    elim (Option-cases (get session b.pending_by_session)) [
      | inl free ↦
          let made = build b tokens session method params in
          let same = build-state b tokens session method params in
          let named = build-names b tokens session method params in
          rw (free, open_request)
            (open_built-IsSynced made.0 made.1 method params
              (SameTables-IsSynced (record { by_id = same.0; by_session = same.1 }) v)
              (λ p h. ground (arith, named p, free, fresh)))
      | inr (q, busy) ↦ rw (busy, open_request) v
    ]

pub respond-SameTables : (b : Broker) (t n : ℕ) (a : Answer) → SameTables b (respond b t n a).0
unfolding respond
respond-SameTables b t n a = ground arith

pub init-IsSynced : (ttl : ℕ) → IsSynced (init ttl)
init-IsSynced ttl = record {
  by_id = λ i p h. unfold get in ground arith;
  by_session = λ s p h. unfold get in ground arith;
}
