-- ===== src/Interaction/Clock.antt =====
-- Operations that end, where the clock goes on with every pause: no loop runs out of its rounds.
use faryo_codex_web_ui.Base.{
  ℕ, zero, suc, ◌∷◌, ◌+◌, ◌≤◌, ◌≡◌, ◌≢◌, refl, Bool, true, false, ltb, ltb→lt, if◌then◌else◌, arith,
  Bool-cases, inl, inr,
}
use faryo_codex_web_ui.Program.{
  Outcome, returns, raises, ◌>>=◌, ◌>>◌, pure, throw, ensure, next, caught, get_state, set_state,
}
use faryo_codex_web_ui.Interaction.Runtime.{
  Runtime, RuntimeCall, History, Interactions, InteractionError, out_of_rounds, M, ask, tell, Round,
  goes_on, stops, continue, rounds, monotonic, sleep,
}

-- No call turns the clock back, and a pause takes at least one unit.
pub record Ticks (r : Runtime) : Type 0 where
  pub goes : (call : RuntimeCall) (h : History) → r.monotonic h ≤ r.monotonic (call ∷ h)
  pub pauses : (h : History) → r.monotonic h + 1 ≤ r.monotonic (sleep ∷ h)

-- The clock has gone on by a cost that may depend on the result; an exception is one of the code's.
abbrev pub Ran :
    {A : Type 0}
    → Runtime
    → (A → ℕ)
    → Interactions
    → Outcome InteractionError A × Interactions
    → Type 0
Ran r cost s (returns a, t) = r.monotonic s.calls + cost a ≤ r.monotonic t.calls
Ran r cost s (raises e, t) = e ≢ out_of_rounds

-- The operation does so from a time on.
pub record Runs {A : Type 0} (r : Runtime) (from : ℕ) (cost : A → ℕ) (m : M A) : Type 0 where
  pub ran : (s : Interactions) → from ≤ r.monotonic s.calls → Ran r cost s (m s)

abbrev pub free : {A : Type 0} → A → ℕ
free a = 0

-- A round that goes on takes a unit of time.
abbrev pub per_round : {A B : Type 0} → Round A B → ℕ
per_round (goes_on a) = 1
per_round (stops b) = 0

pub per_round-le : {A B : Type 0} (round : Round A B) → per_round round ≤ 1
per_round-le (goes_on a) = omega arith
per_round-le (stops b) = omega arith

module _ (r : Runtime) where
  le-Ran :
      {A : Type 0} (cost dear : A → ℕ) (s : Interactions)
      (result : Outcome InteractionError A × Interactions)
      → ((a : A) → cost a ≤ dear a)
      → Ran r dear s result
      → Ran r cost s result
  le-Ran cost dear s (returns a, t) le h = omega (arith, le a, h)
  le-Ran cost dear s (raises e, t) le h = h

  -- What ran from a later state ran from an earlier one, with the time between them.
  later-Ran :
      {A : Type 0} (cost dear : A → ℕ) (s t : Interactions) (k : ℕ)
      (result : Outcome InteractionError A × Interactions)
      → r.monotonic s.calls + k ≤ r.monotonic t.calls
      → ((a : A) → cost a ≤ dear a + k)
      → Ran r dear t result
      → Ran r cost s result
  later-Ran cost dear s t k (returns a, u) le c h = omega (arith, le, c a, h)
  later-Ran cost dear s t k (raises e, u) le c h = h

module _ {r : Runtime} {from : ℕ} where
  next-Ran :
      {A B : Type 0} (cost : B → ℕ) (f : A → M B) (s : Interactions)
      (result : Outcome InteractionError A × Interactions)
      → from ≤ r.monotonic s.calls
      → Ran r free s result
      → ((a : A) → Runs r from cost (f a))
      → Ran r cost s (next result f)
  next-Ran cost f s (returns a, t) late h k =
      later-Ran r cost cost s t 0 (f a t) h (λ b. omega arith)
        ((k a).ran t (omega (arith, h, late)))
  next-Ran cost f s (raises e, t) late h k = h

  pub Runs-bind :
      {A B : Type 0} {cost : B → ℕ} {m : M A} {f : A → M B}
      → Runs r from free m
      → ((a : A) → Runs r from cost (f a))
      → Runs r from cost (m >>= f)
  Runs-bind {cost} {m} {f} h k = record {
    ran = λ s late. next-Ran cost f s (m s) late (h.ran s late) k;
  }

  pub Runs-skip :
      {A B : Type 0} {cost : B → ℕ} {m : M A} {rest : M B}
      → Runs r from free m
      → Runs r from cost rest
      → Runs r from cost (m >> rest)
  Runs-skip h k = Runs-bind h (λ _. k)

  pub Runs-pure : {A : Type 0} {cost : A → ℕ} (a : A) → cost a ≡ 0 → Runs r from cost (pure a)
  Runs-pure a same = record { ran = λ s late. omega (arith, same) }

  pub Runs-throw :
      {A : Type 0} {cost : A → ℕ} (e : InteractionError)
      → e ≢ out_of_rounds
      → Runs r from cost (throw e)
  Runs-throw e other = record { ran = λ s late. other }

  pub Runs-ensure :
      (b : Bool) (e : InteractionError) → e ≢ out_of_rounds → Runs r from free (ensure b e)
  unfolding ensure
  Runs-ensure true e other = Runs-pure tt refl
  Runs-ensure false e other = Runs-throw e other

  pub Runs-get_state : {A : Type 0} (f : Interactions → A) → Runs r from free (get_state f)
  Runs-get_state f = record { ran = λ s late. omega arith }

  pub Runs-set_state :
      (f : Interactions → Interactions)
      → ((s : Interactions) → (f s).calls ≡ s.calls)
      → Runs r from free (set_state f)
  Runs-set_state f same = record { ran = λ s late. rw (same s) (omega arith) }

  pub Runs-if :
      {A : Type 0} {cost : A → ℕ} (b : Bool) {m k : M A}
      → Runs r from cost m
      → Runs r from cost k
      → Runs r from cost (if b then m else k)
  Runs-if true h k = h
  Runs-if false h k = k

pub caught-Ran :
    {A : Type 0} (r : Runtime) (handler : InteractionError → M A) (s : Interactions)
    (result : Outcome InteractionError A × Interactions)
    → Ran r free s result
    → ((e : InteractionError) (t : Interactions) → e ≢ out_of_rounds → Ran r free s (handler e t))
    → Ran r free s (caught result handler)
caught-Ran r handler s (returns a, t) h k = h
caught-Ran r handler s (raises e, t) h k = k e t h

-- The state after the time was read.
read_clock : Interactions → Interactions
read_clock s = record s { calls = monotonic ∷ s.calls }

too_early : (now deadline : ℕ) → ltb now deadline ≡ true → deadline ≤ now + 0 → ⊥
too_early now deadline early bound = omega (arith, ltb→lt now deadline early, bound)

module _ {r : Runtime} (ticks : Ticks r) where
  pub Runs-ask :
      {A : Type 0} {from : ℕ} (call : RuntimeCall) (answer : History → A)
      → Runs r from free (ask call answer)
  unfolding ask
  Runs-ask call answer = record { ran = λ s late. omega (arith, ticks.goes call s.calls) }

  pub Runs-tell : {from : ℕ} (call : RuntimeCall) → Runs r from free (tell call)
  unfolding tell
  Runs-tell call = Runs-ask call _

  -- A pause, with what follows it.
  pub Runs-sleep :
      {A : Type 0} {from : ℕ} {cost : A → ℕ} {rest : M A}
      → ((a : A) → cost a ≤ 1)
      → Runs r from free rest
      → Runs r from cost (tell sleep >> rest)
  unfolding tell ask
  Runs-sleep {from} {cost} {rest} one h = record {
    ran = λ s late.
        let slept : Interactions = record s { calls = sleep ∷ s.calls } in
        later-Ran r cost free s slept 1 (rest slept) (ticks.pauses s.calls) one
          (h.ran slept (omega (arith, late, ticks.pauses s.calls)));
  }

  -- Reading the time: what follows runs from it on.
  pub Runs-now :
      {A : Type 0} {from : ℕ} {cost : A → ℕ} {f : ℕ → M A}
      → ((now : ℕ) → Runs r now cost (f now))
      → Runs r from cost (ask monotonic r.monotonic >>= f)
  unfolding ask
  Runs-now {from} {cost} {f} h = record {
    ran = λ s late.
        let asked : Interactions = record s { calls = monotonic ∷ s.calls } in
        later-Ran r cost cost s asked 0 (f (r.monotonic s.calls) asked)
          (omega (arith, ticks.goes monotonic s.calls)) (λ a. omega arith)
          ((h (r.monotonic s.calls)).ran asked (ticks.goes monotonic s.calls));
  }

  -- After a round: the rounds that are left have less time before them.
  continue-Ran :
      {A B : Type 0} (deadline k : ℕ) (s : Interactions) (again : A → M B)
      (result : Outcome InteractionError (Round A B) × Interactions)
      → deadline ≤ r.monotonic s.calls + suc k
      → ((a : A) (t : Interactions) → deadline ≤ r.monotonic t.calls + k → Ran r free t (again a t))
      → Ran r per_round s result
      → Ran r free s (next result (continue again))
  unfolding continue
  continue-Ran deadline k s again (returns (goes_on a), t) bound left h =
      later-Ran r free free s t 0 (again a t) (omega (arith, h)) (λ b. omega arith)
        (left a t (omega (arith, h, bound)))
  continue-Ran deadline k s again (returns (stops b), t) bound left h = omega (arith, h)
  continue-Ran deadline k s again (raises e, t) bound left h = h

  module _ {A B : Type 0} {body : A → M (Round A B)} {late : A → M B} (deadline : ℕ)
      (each : (a : A) → Runs r 0 per_round (body a)) (last : (a : A) → Runs r 0 free (late a)) where
    late-Ran : (s : Interactions) (a : A) → Ran r free s (late a (read_clock s))
    unfolding read_clock
    late-Ran s a =
        later-Ran r free free s (read_clock s) 0 (late a (read_clock s))
          (omega (arith, ticks.goes monotonic s.calls)) (λ b. omega arith)
          ((last a).ran (read_clock s) (omega arith))

    -- As many rounds as there are units before the deadline, and one, are enough.
    rounds-Ran :
        (n : ℕ) (s : Interactions) (a : A)
        → deadline ≤ r.monotonic s.calls + n
        → Ran r free s (rounds r (suc n) deadline body late a s)
    unfolding rounds ask read_clock
    rounds-Ran zero s a bound = elim (Bool-cases (ltb (r.monotonic s.calls) deadline)) [
      | inr after ↦ rw after (late-Ran s a)
      | inl early ↦ elim (too_early (r.monotonic s.calls) deadline early bound) [ ]
    ]
    rounds-Ran (suc k) s a bound = elim (Bool-cases (ltb (r.monotonic s.calls) deadline)) [
      | inr after ↦ rw after (late-Ran s a)
      | inl early ↦ rw early (
          later-Ran r free free s (read_clock s) 0 _ (omega (arith, ticks.goes monotonic s.calls))
            (λ b. omega arith)
            (continue-Ran deadline k (read_clock s) (rounds r (suc k) deadline body late)
              (body a (read_clock s)) (omega (arith, bound, ticks.goes monotonic s.calls))
              (λ b t left. rounds-Ran k t b left) ((each a).ran (read_clock s) (omega arith))))
    ]

  -- A loop to a deadline within the timeout of the time before it never runs out of its rounds.
  pub Runs-rounds :
      {A B : Type 0} {body : A → M (Round A B)} {late : A → M B} (from limit : ℕ)
      → limit ≤ r.transition_timeout
      → ((a : A) → Runs r 0 per_round (body a))
      → ((a : A) → Runs r 0 free (late a))
      → (a : A) → Runs r from free (rounds r (suc r.transition_timeout) (from + limit) body late a)
  Runs-rounds from limit le each last a = record {
    ran = λ s late.
        rounds-Ran (from + limit) each last r.transition_timeout s a (omega (arith, late, le));
  }
