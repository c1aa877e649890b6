-- ===== src/Interaction/Typings.antt =====
-- How often an operation sends a key, or a text, to the terminal.
use faryo_codex_web_ui.Base.{
  ℕ, zero, suc, ◌+◌, ◌≤◌, ◌≡◌, refl, Bool, false, not, [], ◌∷◌, if◌then◌else◌, arith, Bool-cases,
  inl, inr, ltb,
}
use faryo_codex_web_ui.Program.{
  Outcome, returns, raises, set_state, catch, caught, AtMost, AtMost-then, AtMost-pure,
  AtMost-throw, AtMost-if,
}
use faryo_codex_web_ui.Interaction.Runtime.{
  Runtime, RuntimeCall, History, Interactions, InteractionError, M, ask, tell, Round, goes_on,
  stops, continue, rounds, send_key, send_literal,
}

-- A key that is sent to the terminal, or a text.
abbrev pub typed : Bool → RuntimeCall → Bool
typed keys (send_key _) = keys
typed keys (send_literal _) = not keys
typed keys _ = false

unfoldable pub count_typed : Bool → History → ℕ
count_typed keys [] = 0
count_typed keys (call ∷ calls) =
    if typed keys call then count_typed keys calls + 1 else count_typed keys calls

-- How many keys, or texts, were sent.
unfoldable pub typings : Bool → Interactions → ℕ
unfolding count_typed
typings keys s = count_typed keys s.calls

abbrev pub weight : Bool → RuntimeCall → ℕ
weight keys call = if typed keys call then 1 else 0

module _ (keys : Bool) where
  pub AtMost-ask :
      {A : Type 0} (call : RuntimeCall) (answer : History → A)
      → typed keys call ≡ false
      → AtMost (typings keys) 0 (ask call answer)
  unfolding ask typings count_typed
  AtMost-ask call answer other = record { bound = λ s. rw other (omega arith) }

  pub AtMost-tell :
      (call : RuntimeCall) → typed keys call ≡ false → AtMost (typings keys) 0 (tell call)
  unfolding tell
  AtMost-tell call other = AtMost-ask _ _ other

  pub AtMost-typed : (call : RuntimeCall) → AtMost (typings keys) (weight keys call) (tell call)
  unfolding tell ask typings count_typed
  AtMost-typed call = elim (Bool-cases (typed keys call)) [
    | inl is_typed ↦ rw is_typed (record { bound = λ s. rw is_typed (omega arith) })
    | inr other ↦ rw other (record { bound = λ s. rw other (omega arith) })
  ]

  pub AtMost-change :
      (f : Interactions → Interactions)
      → ((s : Interactions) → (f s).calls ≡ s.calls)
      → AtMost (typings keys) 0 (set_state {E = InteractionError} f)
  unfolding typings
  AtMost-change f same = record { bound = λ s. rw (same s) (omega arith) }

  continue-AtMost :
      {A B : Type 0} (again : A → M B) (round : Round A B)
      → ((a : A) → AtMost (typings keys) 0 (again a))
      → AtMost (typings keys) 0 (continue again round)
  unfolding continue
  continue-AtMost again (goes_on a) h = h a
  continue-AtMost again (stops b) h = AtMost-pure b

  pub AtMost-rounds :
      {A B : Type 0} (r : Runtime) (n deadline : ℕ) {body : A → M (Round A B)} {late : A → M B}
      → ((a : A) → AtMost (typings keys) 0 (body a))
      → ((a : A) → AtMost (typings keys) 0 (late a))
      → (a : A) → AtMost (typings keys) 0 (rounds r n deadline body late a)
  unfolding rounds
  AtMost-rounds r zero deadline each last a = AtMost-throw _
  AtMost-rounds r (suc n) deadline {body} {late} each last a =
      AtMost-then (AtMost-ask _ _ refl) (λ now.
        AtMost-if (ltb now deadline)
          (AtMost-then (each a) (λ round.
            continue-AtMost (rounds r n deadline body late) round
              (AtMost-rounds r n deadline each last)))
          (last a))

  caught_bound :
      {A : Type 0} (c : ℕ) (handler : InteractionError → M A)
      (result : Outcome InteractionError A × Interactions)
      → typings keys result.1 ≤ c
      → ((e : InteractionError) → AtMost (typings keys) 0 (handler e))
      → typings keys (caught result handler).1 ≤ c
  caught_bound c handler (returns a, s) h k = h
  caught_bound c handler (raises e, s) h k = omega (arith, h, (k e).bound s)

  pub AtMost-catch :
      {A : Type 0} {n : ℕ} {m : M A} {handler : InteractionError → M A}
      → AtMost (typings keys) n m
      → ((e : InteractionError) → AtMost (typings keys) 0 (handler e))
      → AtMost (typings keys) n (catch m handler)
  AtMost-catch {n} {m} {handler} h k = record {
    bound = λ s. caught_bound (typings keys s + n) handler (m s) (h.bound s) k;
  }
