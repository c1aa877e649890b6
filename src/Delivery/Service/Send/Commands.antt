-- ===== src/Delivery/Service/Send/Commands.antt =====
-- A line that invokes a command of the catalogue is not sent as a text.
use faryo_codex_web_ui.Base.{◌≡◌, ◌≢◌, ◌≤◌, refl, true, false, not, Option, String, arith, leb}
use faryo_codex_web_ui.Base.Text.{strip, is_empty}
use faryo_codex_web_ui.Json.{Fields}
use faryo_codex_web_ui.Program.{
  Outcome, returns, raises, ensure, ◌>>◌, next, Ends, Post, Post-bind, Post-skip,
}
use faryo_codex_web_ui.Delivery.Runtime.{
  Runtime, Service, ask, has_session, session_not_found, empty_text, text_too_long, invalid_id,
  slash_command, SendError, M,
}
use faryo_codex_web_ui.Delivery.Effects.{commands}
use faryo_codex_web_ui.Delivery.Service.{Message}
use faryo_codex_web_ui.Delivery.Service.Send.{
  validated, valid_id, id_or_new, clean_or_none, is_command_line, send, deliver,
}
use faryo_codex_web_ui.Delivery.Service.Send.Bounded.{validated-AtMost}
use Prim.Native.String.{count}

-- What never returns.
abbrev Never : {A : Type 0} → A → Service → Type 0
Never a s = ⊥

ensure_fails : {B : Type 0} (e : SendError) (rest : M B) → Post Never (ensure false e >> rest)
unfolding ensure
ensure_fails e rest = record { ends = λ s. tt }

module _ (r : Runtime) (session text : String) (client_id : Option String)
    (invoked : is_command_line r.catalog (strip text) ≡ true) where
  validated-Never : Post Never (validated r session text client_id)
  unfolding validated
  validated-Never = Post-bind (ask has_session r.has_session) (λ alive.
      Post-skip (ensure alive session_not_found) (
        Post-skip (ensure (not (is_empty (strip text))) empty_text) (
          Post-skip (ensure (leb (count text) r.max_send_chars) text_too_long) (
            Post-skip (ensure (valid_id client_id) invalid_id) (
              Post-bind (id_or_new r (clean_or_none client_id))
                (λ id. rw invoked (ensure_fails slash_command _)))))))

  next_state :
      (result : Outcome SendError Message × Service)
      → Ends Never result
      → (next result (deliver r)).1 ≡ result.1
  next_state (returns m, t) h = elim h [ ]
  next_state (raises e, t) h = refl

  next_raises :
      (result : Outcome SendError Message × Service) (given : Fields)
      → Ends Never result
      → (next result (deliver r)).0 ≡ returns given
      → ⊥
  next_raises (returns m, t) given h same = h
  next_raises (raises e, t) given h same = cc same

  -- A line that invokes a command of the catalogue ends in an error, and runs no tmux command.
  pub send_command :
      (s : Service)
      → ((given : Fields) → (send r session text client_id s).0 ≢ returns given)
        × ((name : String) → commands name (send r session text client_id s).1 ≤ commands name s)
  unfolding send
  send_command s = (
    λ given same.
        next_raises (validated r session text client_id s) given (validated-Never.ends s) same,
    λ name.
        rw (next_state (validated r session text client_id s) (validated-Never.ends s))
          (omega (arith, (validated-AtMost name r session text client_id).bound s)),
  )
