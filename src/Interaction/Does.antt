-- ===== src/Interaction/Does.antt =====
-- What an operation does to the terminal and to the time, both at once: how much it sends, and that it ends.
use faryo_codex_web_ui.Base.{ℕ, suc, ◌+◌, ◌≤◌, ◌≡◌, ◌≢◌, refl, Bool, true, false, if◌then◌else◌}
use faryo_codex_web_ui.Program.{
  ◌>>=◌, ◌>>◌, pure, throw, ensure, get_state, set_state, AtMost, AtMost-le, AtMost-bind,
  AtMost-then, AtMost-skip, AtMost-pure, AtMost-throw, AtMost-ensure, AtMost-get_state,
}
use faryo_codex_web_ui.Interaction.Runtime.{
  Runtime, RuntimeCall, History, Interactions, InteractionError, out_of_rounds, M, ask, tell, Round,
  rounds, monotonic, sleep,
}
use faryo_codex_web_ui.Interaction.Clock.{
  Ticks, Runs, free, per_round, Runs-bind, Runs-pure, Runs-throw, Runs-ensure, Runs-get_state,
  Runs-set_state, Runs-ask, Runs-tell, Runs-sleep, Runs-now, Runs-rounds,
}
use faryo_codex_web_ui.Interaction.Typings.{
  typed, typings, weight, AtMost-ask, AtMost-tell, AtMost-typed, AtMost-change, AtMost-rounds,
}

-- At most so many texts (false) and keys (true) are sent; and where the clock goes on, it ends as `Runs` says.
pub record Does {A : Type 0} (r : Runtime) (from : ℕ) (spent : Bool → ℕ) (cost : A → ℕ) (m : M A)
    : Type 0 where
  pub sends : (keys : Bool) → AtMost (typings keys) (spent keys) m
  pub runs : Ticks r → Runs r from cost m

abbrev pub nothing : Bool → ℕ
nothing keys = 0

-- A call that sends neither.
abbrev pub Silent : RuntimeCall → Type 0
Silent call = (keys : Bool) → typed keys call ≡ false

module _ {r : Runtime} {from : ℕ} where
  pub Does-bind :
      {A B : Type 0} {spent : Bool → ℕ} {cost : B → ℕ} {m : M A} {f : A → M B}
      → Does r from nothing free m
      → ((a : A) → Does r from spent cost (f a))
      → Does r from spent cost (m >>= f)
  Does-bind h g = record {
    sends = λ keys. AtMost-then (h.sends keys) (λ a. (g a).sends keys);
    runs = λ ticks. Runs-bind (h.runs ticks) (λ a. (g a).runs ticks);
  }

  pub Does-skip :
      {A B : Type 0} {spent : Bool → ℕ} {cost : B → ℕ} {m : M A} {rest : M B}
      → Does r from nothing free m
      → Does r from spent cost rest
      → Does r from spent cost (m >> rest)
  Does-skip h g = Does-bind h (λ _. g)

  -- The same, where the first operation sends something.
  pub Does-both :
      {A B : Type 0} {spent more : Bool → ℕ} {cost : B → ℕ} {m : M A} {rest : M B}
      → Does r from spent free m
      → Does r from more cost rest
      → Does r from (λ keys. spent keys + more keys) cost (m >> rest)
  Does-both h g = record {
    sends = λ keys. AtMost-bind (h.sends keys) (λ _. g.sends keys);
    runs = λ ticks. Runs-bind (h.runs ticks) (λ _. g.runs ticks);
  }

  pub Does-le :
      {A : Type 0} {spent more : Bool → ℕ} {cost : A → ℕ} {m : M A}
      → ((keys : Bool) → spent keys ≤ more keys)
      → Does r from spent cost m
      → Does r from more cost m
  Does-le le h = record { sends = λ keys. AtMost-le (le keys) (h.sends keys); runs = h.runs }

  pub Does-pure :
      {A : Type 0} {spent : Bool → ℕ} {cost : A → ℕ} (a : A)
      → cost a ≡ 0
      → Does r from spent cost (pure a)
  Does-pure a same = record { sends = λ keys. AtMost-pure a; runs = λ ticks. Runs-pure a same }

  pub Does-throw :
      {A : Type 0} {spent : Bool → ℕ} {cost : A → ℕ} (e : InteractionError)
      → e ≢ out_of_rounds
      → Does r from spent cost (throw e)
  Does-throw e other = record { sends = λ keys. AtMost-throw e; runs = λ ticks. Runs-throw e other }

  pub Does-ensure :
      (b : Bool) (e : InteractionError) → e ≢ out_of_rounds → Does r from nothing free (ensure b e)
  Does-ensure b e other = record {
    sends = λ keys. AtMost-ensure b e;
    runs = λ ticks. Runs-ensure b e other;
  }

  pub Does-get_state : {A : Type 0} (f : Interactions → A) → Does r from nothing free (get_state f)
  Does-get_state f = record { sends = λ keys. AtMost-get_state f; runs = λ ticks. Runs-get_state f }

  pub Does-set_state :
      (f : Interactions → Interactions)
      → ((s : Interactions) → (f s).calls ≡ s.calls)
      → Does r from nothing free (set_state f)
  Does-set_state f same = record {
    sends = λ keys. AtMost-change keys f same;
    runs = λ ticks. Runs-set_state f same;
  }

  pub Does-if :
      {A : Type 0} {spent : Bool → ℕ} {cost : A → ℕ} (b : Bool) {m k : M A}
      → Does r from spent cost m
      → Does r from spent cost k
      → Does r from spent cost (if b then m else k)
  Does-if true h g = h
  Does-if false h g = g

  pub Does-ask :
      {A : Type 0} (call : RuntimeCall) (answer : History → A)
      → Silent call
      → Does r from nothing free (ask call answer)
  Does-ask call answer silent = record {
    sends = λ keys. AtMost-ask keys call answer (silent keys);
    runs = λ ticks. Runs-ask ticks call answer;
  }

  pub Does-tell : (call : RuntimeCall) → Silent call → Does r from nothing free (tell call)
  Does-tell call silent = record {
    sends = λ keys. AtMost-tell keys call (silent keys);
    runs = λ ticks. Runs-tell ticks call;
  }

  pub Does-typed : (call : RuntimeCall) → Does r from (λ keys. weight keys call) free (tell call)
  Does-typed call = record {
    sends = λ keys. AtMost-typed keys call;
    runs = λ ticks. Runs-tell ticks call;
  }

  pub Does-sleep :
      {A : Type 0} {spent : Bool → ℕ} {cost : A → ℕ} {rest : M A}
      → ((a : A) → cost a ≤ 1)
      → Does r from spent free rest
      → Does r from spent cost (tell sleep >> rest)
  Does-sleep one h = record {
    sends = λ keys. AtMost-skip (AtMost-tell keys sleep refl) (h.sends keys);
    runs = λ ticks. Runs-sleep ticks one (h.runs ticks);
  }

  pub Does-now :
      {A : Type 0} {spent : Bool → ℕ} {cost : A → ℕ} {f : ℕ → M A}
      → ((now : ℕ) → Does r now spent cost (f now))
      → Does r from spent cost (ask monotonic r.monotonic >>= f)
  Does-now h = record {
    sends = λ keys.
        AtMost-then (AtMost-ask keys monotonic r.monotonic refl) (λ now. (h now).sends keys);
    runs = λ ticks. Runs-now ticks (λ now. (h now).runs ticks);
  }

pub Does-rounds :
    {A B : Type 0} {r : Runtime} {body : A → M (Round A B)} {late : A → M B} (from limit : ℕ)
    → limit ≤ r.transition_timeout
    → ((a : A) → Does r 0 nothing per_round (body a))
    → ((a : A) → Does r 0 nothing free (late a))
    → (a : A)
    → Does r from nothing free (rounds r (suc r.transition_timeout) (from + limit) body late a)
Does-rounds {r = r} from limit le each last a = record {
  sends = λ keys.
      AtMost-rounds keys r (suc r.transition_timeout) (from + limit) (λ x. (each x).sends keys)
        (λ x. (last x).sends keys) a;
  runs = λ ticks.
      Runs-rounds ticks from limit le (λ x. (each x).runs ticks) (λ x. (last x).runs ticks) a;
}
