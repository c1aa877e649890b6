-- ===== src/Requests/Flow/Steps.antt =====
-- appserver_requests.py: all interleavings of the broker's calls, as a step relation.
use faryo_codex_web_ui.Base.{ℕ, ◌≡◌, refl, none, some, String}
use faryo_codex_web_ui.Base.Dict.{get}
use faryo_codex_web_ui.Json.{Fields}
use faryo_codex_web_ui.Requests.{Pending, result, Broker}
use faryo_codex_web_ui.Requests.Build.{Tokens}
use faryo_codex_web_ui.Requests.Flow.Cancel.{refused, answered, cancel-runs}
use faryo_codex_web_ui.Requests.Flow.Resolved.{
  open_request-Resolved, close_request-Resolved, respond-Resolved,
}
use faryo_codex_web_ui.Requests.Flow.Tables.{
  IsSynced, SameTables, SameTables-IsSynced, open_request-IsSynced, close_request-IsSynced,
  respond-SameTables,
}
use faryo_codex_web_ui.Requests.Flow.{open_request, Ending, close_request, Answer, respond, cancel}

cancel-SameTables :
    (b : Broker) (t n : ℕ) (session request_id : String)
    → SameTables b (cancel b t n session request_id).0
cancel-SameTables b t n session request_id = elim (cancel-runs b t n session request_id) [
  | refused e h ↦ rw h (record { by_id = refl; by_session = refl })
  | answered a h ↦ rw h (respond-SameTables b t n a)
]

-- One call of the broker, or the end of one await. Tokens are fresh: `secrets` does not repeat itself.
pub data Step : Broker → Broker → Type 0 where
  opens :
      (b : Broker) (tokens : Tokens) (session method : String) (params : Fields)
      → get tokens.interaction b.pending_by_id ≡ none
      → get tokens.interaction b.futures ≡ none
      → Step b (open_request b tokens session method params).0
  closes :
      (b : Broker) (p : Pending) (ending : Ending)
      → get p.id b.pending_by_id ≡ some p
      → Step b (close_request b p ending).0
  responds : (b : Broker) (t n : ℕ) (a : Answer) → Step b (respond b t n a).0
  cancels :
      (b : Broker) (t n : ℕ) (session request_id : String)
      → Step b (cancel b t n session request_id).0

pub data Reaches (b : Broker) : Broker → Type 0 where
  start : Reaches b b
  after : {c d : Broker} → Reaches b c → Step c d → Reaches b d

Step-IsSynced : {b c : Broker} → Step b c → IsSynced b → IsSynced c
Step-IsSynced (opens b tokens session method params fresh _) v =
    open_request-IsSynced b tokens session method params fresh v
Step-IsSynced (closes b p ending held) v = close_request-IsSynced b p ending v held
Step-IsSynced (responds b t n a) v = SameTables-IsSynced (respond-SameTables b t n a) v
Step-IsSynced (cancels b t n session request_id) v =
    SameTables-IsSynced (cancel-SameTables b t n session request_id) v

-- Through any interleaving of requests, awaits that end, answers and cancellations, from a broker whose
-- two tables of pending requests agree, they agree: each request stands under its own id in one and under
-- its own session in the other, so a session never has two requests waiting.
pub Reaches-IsSynced : {b c : Broker} → IsSynced b → Reaches b c → IsSynced c
Reaches-IsSynced v start = v
Reaches-IsSynced v (after r st) = Step-IsSynced st (Reaches-IsSynced v r)

Step-Resolved :
    {b c : Broker} (i : String) (r : Fields)
    → Step b c
    → get i b.futures ≡ some (result r)
    → get i c.futures ≡ some (result r)
Step-Resolved i r (opens b tokens session method params _ fresh) h =
    open_request-Resolved i r b tokens session method params fresh h
Step-Resolved i r (closes b p ending held) h = close_request-Resolved i r b p ending h
Step-Resolved i r (responds b t n a) h = respond-Resolved i r b t n a h
Step-Resolved i r (cancels b t n session request_id) h =
    elim (cancel-runs b t n session request_id) [
      | refused e same ↦ rw same h
      | answered a same ↦ rw same (respond-Resolved i r b t n a h)
    ]

-- A request is resolved at most once: when the future of an interaction has its result, no interleaving of
-- later requests, awaits that end, cancelled tasks, answers and cancellations changes it.
pub Reaches-keeps_result :
    {b c : Broker} (i : String) (r : Fields)
    → Reaches b c
    → get i b.futures ≡ some (result r)
    → get i c.futures ≡ some (result r)
Reaches-keeps_result i r start h = h
Reaches-keeps_result i r (after rs st) h = Step-Resolved i r st (Reaches-keeps_result i r rs h)
