-- ===== src/Requests/Build/Names.antt =====
-- appserver_requests.py: what `_build` puts into every request that it accepts.
use faryo_codex_web_ui.Base.{ℕ, suc, ◌≡◌, some, String, arith}
use faryo_codex_web_ui.Base.Dict.{get}
use faryo_codex_web_ui.Json.{Fields}
use faryo_codex_web_ui.Requests.{Pending, Broker}
use faryo_codex_web_ui.Requests.Build.{
  Tokens, generation_of, build, build_pending, question_pending,
}

-- What is built carries the new token and its session.
pub build_pending-names :
    (tokens : Tokens) (session method : String) (params : Fields) (g : ℕ) (p : Pending)
    → build_pending tokens session method params g ≡ some p
    → (p.id ≡ tokens.interaction) × (p.session ≡ session)
unfolding build_pending question_pending
build_pending-names tokens session method params g p h = ground arith

module _ (b : Broker) (tokens : Tokens) (session method : String) (params : Fields) where
  pub build-names :
      (p : Pending)
      → (build b tokens session method params).1 ≡ some p
      → (p.id ≡ tokens.interaction) × (p.session ≡ session)
  unfolding build
  build-names p h = ground (
    arith,
    build_pending-names tokens session method params
        (suc (generation_of (get session b.generations))) p,
  )

  -- Building a request changes at most the generation counters.
  pub build-state :
      let c = (build b tokens session method params).0 in
      (c.pending_by_id ≡ b.pending_by_id)
      × (c.pending_by_session ≡ b.pending_by_session)
      × (c.futures ≡ b.futures)
      × (c.receipts ≡ b.receipts)
  unfolding build
  build-state = ground arith
