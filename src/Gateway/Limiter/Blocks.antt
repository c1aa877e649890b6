-- ===== src/Gateway/Limiter/Blocks.antt =====
-- gateway_security.py: when the limiter refuses a login.
use faryo_codex_web_ui.Base.{
  ℕ, suc, ◌+◌, ◌≤◌, ◌<◌, ◌≡◌, ◌≢◌, refl, ap, ◌∙◌, true, false, Option, none, some, List, [], ◌∷◌,
  ◌++◌, String, eq_iff, arith, ltb, length, length-append, length-keep-le, keep, keep-append, Every,
}
use faryo_codex_web_ui.Base.Dict.{get, get-put, get-del, get-put_self, get-del_self}
use faryo_codex_web_ui.Gateway.Limiter.{
  Entry, LoginRateLimiter, is_blocked, limited, entry_or_new, recent, fail, record_failure, clear,
  fail_at,
}

-- A later cut drops what an earlier one did.
recent-recent :
    (window now last : ℕ) (stamps : List ℕ)
    → now ≤ last
    → recent window last (recent window now stamps) ≡ recent window last stamps
unfolding keep
recent-recent window now last [] h = refl
recent-recent window now last (stamp ∷ stamps) h =
    ground (arith, recent-recent window now last stamps h)

-- The failures that an entry has within the window before `last`.
counted : LoginRateLimiter → ℕ → Option Entry → ℕ
counted l last o = length (recent l.window_seconds last (entry_or_new o).failures)

counted-fail :
    (l : LoginRateLimiter) (now last : ℕ) (o : Option Entry)
    → now ≤ last
    → last < now + l.window_seconds
    → counted l last (some (fail l now (entry_or_new o))) ≡ suc (counted l last o)
unfolding counted fail entry_or_new keep
counted-fail l now last o early within =
    let stamps = (entry_or_new o).failures in
    let in_window = λ (stamp : ℕ). ltb last (stamp + l.window_seconds) in
    let cut = recent l.window_seconds now stamps in
    rw (keep-append in_window cut (now ∷ []), recent-recent l.window_seconds now last stamps early)
      (ground
        (arith, length-append (recent l.window_seconds last stamps) (keep in_window (now ∷ []))))

-- The record of a key's failures depends on the key's own entry only.
entry-fail :
    (l : LoginRateLimiter) (now : ℕ) (key : String)
    → get key (record_failure l now key).state ≡ some (fail l now (entry_or_new (get key l.state)))
unfolding record_failure
entry-fail l now key = get-put_self key (fail l now (entry_or_new (get key l.state))) l.state

-- Failures change no limit.
fail_at-limits :
    (l : LoginRateLimiter) (key : String) (times : List ℕ)
    → ((fail_at l key times).window_seconds ≡ l.window_seconds)
      × ((fail_at l key times).block_seconds ≡ l.block_seconds)
      × ((fail_at l key times).max_failures ≡ l.max_failures)
unfolding fail_at record_failure
fail_at-limits l key [] = (refl, refl, refl)
fail_at-limits l key (now ∷ times) = fail_at-limits (record_failure l now key) key times

fail_at-append :
    (l : LoginRateLimiter) (key : String) (times : List ℕ) (last : ℕ)
    → fail_at l key (times ++ (last ∷ [])) ≡ record_failure (fail_at l key times) last key
unfolding fail_at
fail_at-append l key [] last = refl
fail_at-append l key (now ∷ times) last = fail_at-append (record_failure l now key) key times last

-- A time that lies in the window before `last`.
abbrev pub Within : ℕ → ℕ → ℕ → Type 0
Within window last t = (t ≤ last) × (last < t + window)

counted-fail_at :
    (l : LoginRateLimiter) (key : String) (last : ℕ) (times : List ℕ)
    → Every (Within l.window_seconds last) times
    → counted l last (get key l.state) + length times
      ≤ counted (fail_at l key times) last (get key (fail_at l key times).state)
unfolding fail_at
counted-fail_at l key last [] h = omega arith
counted-fail_at l key last (now ∷ times) h =
    let l' = record_failure l now key in
    let one = counted-fail l now last (get key l.state) h.0.0 h.0.1 in
    let same : counted l' last (get key l'.state)
        ≡ counted l last (some (fail l now (entry_or_new (get key l.state)))) =
      rw (entry-fail l now key) (unfold counted record_failure in refl) in
    let rest = counted-fail_at l' key last times (unfold record_failure in h.1) in
    omega (arith, one, same, rest)

blocked :
    (l : LoginRateLimiter) (now last : ℕ) (o : Option Entry)
    → l.max_failures ≤ suc (counted l last o)
    → now < last + l.block_seconds
    → is_blocked now (some (fail l last (entry_or_new o))) ≡ true
unfolding is_blocked fail counted
blocked l now last o enough soon =
    ground
      (arith, length-append (recent l.window_seconds last (entry_or_new o).failures) (last ∷ []))

-- Enough failures of a key within the window block it: after `max_failures` or more of them, whatever the
-- state before, no login is let through before the block has passed since the last one.
pub fail_at-limited :
    (l : LoginRateLimiter) (key : String) (times : List ℕ) (last now : ℕ)
    → Every (Within l.window_seconds last) times
    → l.max_failures ≤ suc (length times)
    → now < last + l.block_seconds
    → limited (fail_at l key (times ++ (last ∷ []))) now key ≡ true
unfolding limited
fail_at-limited l key times last now within enough soon =
    let l' = fail_at l key times in
    let (window, block, max) = fail_at-limits l key times in
    let count = counted-fail_at l key last times within in
    rw (fail_at-append l key times last, entry-fail l' last key)
      (blocked l' now last (get key l'.state) (omega (arith, count, max, enough))
        (omega (arith, block, soon)))

-- An entry that was never blocked, and has room for this many failures more.
record HasRoom (max more : ℕ) (e : Entry) : Type 0 where
  pub few : length e.failures + more < max
  pub open_yet : e.blocked_until ≡ 0

fail-HasRoom :
    (l : LoginRateLimiter) (now more : ℕ) (e : Entry)
    → HasRoom l.max_failures (suc more) e
    → HasRoom l.max_failures more (fail l now e)
unfolding fail
fail-HasRoom l now more e v =
    let few = v.few in
    let open_yet = v.open_yet in
    let in_window = λ (stamp : ℕ). ltb now (stamp + l.window_seconds) in
    let cut = length-keep-le in_window e.failures in
    let grown = length-append (recent l.window_seconds now e.failures) (now ∷ []) in
    record {
      few = omega (arith, few, cut, grown);
      open_yet = ground (arith, few, cut, grown, open_yet);
    }

fail_at-HasRoom :
    (l : LoginRateLimiter) (key : String) (times : List ℕ)
    → HasRoom l.max_failures (length times) (entry_or_new (get key l.state))
    → HasRoom l.max_failures 0 (entry_or_new (get key (fail_at l key times).state))
unfolding fail_at record_failure
fail_at-HasRoom l key [] v = v
fail_at-HasRoom l key (now ∷ times) v = fail_at-HasRoom (record_failure l now key) key times (
    rw (entry-fail l now key)
      (unfold entry_or_new in fail-HasRoom l now (length times) (entry_or_new (get key l.state)) v))

new-HasRoom : (max more : ℕ) → more < max → HasRoom max more (entry_or_new none)
unfolding entry_or_new
new-HasRoom max more few = record { few = omega arith; open_yet = refl }

unblocked :
    (now : ℕ) (o : Option Entry) → (entry_or_new o).blocked_until ≡ 0 → is_blocked now o ≡ false
unfolding is_blocked entry_or_new
unblocked now none h = refl
unblocked now (some e) h = ground arith

fail_at-other :
    (l : LoginRateLimiter) (key other : String) (times : List ℕ)
    → key ≢ other
    → get other (fail_at l key times).state ≡ get other l.state
unfolding fail_at record_failure
fail_at-other l key other [] apart = refl
fail_at-other l key other (now ∷ times) apart =
    fail_at-other (record_failure l now key) key other times apart
    ∙ ground (
      arith,
      get-put key other (fail l now (entry_or_new (get key l.state))) l.state,
      eq_iff key other,
    )

-- A cleared key is let through until it has failed `max_failures` times again, however fast the failures
-- come; and clearing a key and failing under it decides nothing for any other key.
pub fail_at-clear :
    (l : LoginRateLimiter) (key : String) (times : List ℕ) (now : ℕ)
    → length times < l.max_failures
    → (limited (fail_at (clear l key) key times) now key ≡ false)
      × ((other : String)
          → key ≢ other
          → limited (fail_at (clear l key) key times) now other ≡ limited l now other)
unfolding limited clear
fail_at-clear l key times now few =
    let l' = clear l key in
    let start : HasRoom l'.max_failures (length times) (entry_or_new (get key l'.state)) =
      rw (get-del_self key l.state) (new-HasRoom l.max_failures (length times) few) in
    let room = fail_at-HasRoom l' key times start in
    (
      unblocked now (get key (fail_at l' key times).state) room.open_yet,
      (λ other apart. ap (is_blocked now) (
          fail_at-other l' key other times apart
          ∙ ground (arith, get-del key other l.state, eq_iff key other))),
    )
