-- ===== src/Gateway/Limiter.antt =====
-- gateway_security.py: `LoginRateLimiter`. The monotonic clock's times are counted in a unit of one's choice, and
-- each call is told the time that it reads.
pub mod Blocks
use faryo_codex_web_ui.Base.{
  ℕ, suc, ◌+◌, ◌≤◌, Bool, true, false, Option, none, some, List, [], ◌∷◌, ◌++◌, String, ltb, leb,
  if◌then◌else◌, length, keep, ◌≡◌, refl,
}
use faryo_codex_web_ui.Base.Dict.{Dict, get, put, del}

pub record Entry : Type 0 where
  pub failures : List ℕ
  pub blocked_until : ℕ

pub record LoginRateLimiter : Type 0 where
  pub window_seconds : ℕ
  pub block_seconds : ℕ
  pub max_failures : ℕ
  pub state : Dict Entry

is_blocked : ℕ → Option Entry → Bool
is_blocked now none = false
is_blocked now (some e) = ltb now e.blocked_until

-- `limited`
unfoldable pub limited : LoginRateLimiter → ℕ → String → Bool
unfolding is_blocked
limited l now key = is_blocked now (get key l.state)

-- `setdefault(key, {"failures": [], "blocked_until": 0.0})`
entry_or_new : Option Entry → Entry
entry_or_new none = record { failures = []; blocked_until = 0 }
entry_or_new (some e) = e

-- The failures that are not older than the window: `now - stamp < window`.
abbrev recent : ℕ → ℕ → List ℕ → List ℕ
recent window now = keep (λ stamp. ltb now (stamp + window))

fail : LoginRateLimiter → ℕ → Entry → Entry
fail l now e =
    let failures = recent l.window_seconds now e.failures ++ (now ∷ []) in
    record {
      failures = failures;
      blocked_until =
          if leb l.max_failures (length failures) then now + l.block_seconds else e.blocked_until;
    }

-- `record_failure`
unfoldable pub record_failure : LoginRateLimiter → ℕ → String → LoginRateLimiter
unfolding fail entry_or_new
record_failure l now key = record l {
  state = put key (fail l now (entry_or_new (get key l.state))) l.state;
}

-- `clear`
unfoldable pub clear : LoginRateLimiter → String → LoginRateLimiter
clear l key = record l { state = del key l.state }

-- Failures of one key at these times, in order.
unfoldable pub fail_at : LoginRateLimiter → String → List ℕ → LoginRateLimiter
fail_at l key [] = l
fail_at l key (now ∷ times) = fail_at (record_failure l now key) key times
