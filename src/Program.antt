-- ===== src/Program.antt =====
-- Programs with a state and exceptions, as Python's methods are: what an operation gives may be an exception, and
-- the changes before it stay. `AtMost` bounds what an operation adds to a measure of the state.
use faryo_codex_web_ui.Base.{ℕ, ◌+◌, ◌≤◌, ◌≡◌, refl, ◌∙◌, Bool, true, false, if◌then◌else◌, arith}

pub data Outcome (E A : Type 0) : Type 0 where
  returns : A → Outcome E A
  raises : E → Outcome E A

abbrev pub Program : Type 0 → Type 0 → Type 0 → Type 0
Program S E A = S → Outcome E A × S

abbrev pub next : {S E A B : Type 0} → Outcome E A × S → (A → Program S E B) → Outcome E B × S
next (returns a, s) f = f a s
next (raises e, s) f = (raises e, s)

infixl 5 ◌>>=◌ ◌>>◌
abbrev pub ◌>>=◌ : {S E A B : Type 0} → Program S E A → (A → Program S E B) → Program S E B
◌>>=◌ m f s = next (m s) f

abbrev pub ◌>>◌ : {S E A B : Type 0} → Program S E A → Program S E B → Program S E B
m >> k = m >>= λ _. k

abbrev pub pure : {S E A : Type 0} → A → Program S E A
pure a s = (returns a, s)

abbrev pub throw : {S E A : Type 0} → E → Program S E A
throw e s = (raises e, s)

unfoldable pub ensure : {S E : Type 0} → Bool → E → Program S E (Unit {0})
ensure true e = pure tt
ensure false e = throw e

abbrev pub after : {S E A : Type 0} → Outcome E A → Outcome E (Unit {0}) × S → Outcome E A × S
after outcome (returns _, s) = (outcome, s)
after outcome (raises e, s) = (raises e, s)

abbrev pub cleaned : {S E A : Type 0} → Outcome E A × S → Program S E (Unit {0}) → Outcome E A × S
cleaned (outcome, s) cleanup = after outcome (cleanup s)

-- `try: m finally: cleanup`
abbrev pub finally : {S E A : Type 0} → Program S E A → Program S E (Unit {0}) → Program S E A
finally m cleanup s = cleaned (m s) cleanup

abbrev pub caught : {S E A : Type 0} → Outcome E A × S → (E → Program S E A) → Outcome E A × S
caught (returns a, s) handler = (returns a, s)
caught (raises e, s) handler = handler e s

-- `try: m except Exception as e: handler`
abbrev pub catch : {S E A : Type 0} → Program S E A → (E → Program S E A) → Program S E A
catch m handler s = caught (m s) handler

abbrev pub get_state : {S E A : Type 0} → (S → A) → Program S E A
get_state f s = (returns (f s), s)

abbrev pub set_state : {S E : Type 0} → (S → S) → Program S E (Unit {0})
set_state f s = (returns tt, f s)

module _ {S E : Type 0} (measure : S → ℕ) where
  -- Whatever it gives, the operation adds at most `n`.
  pub record AtMost {A : Type 0} (n : ℕ) (m : Program S E A) : Type 0 where
    pub bound : (s : S) → measure (m s).1 ≤ measure s + n

after_state :
    {S E A : Type 0} (outcome : Outcome E A) (result : Outcome E (Unit {0}) × S)
    → (after outcome result).1 ≡ result.1
after_state outcome (returns _, s) = refl
after_state outcome (raises e, s) = refl

module _ {S E : Type 0} {measure : S → ℕ} where
  pub AtMost-le :
      {A : Type 0} {m : Program S E A} {n k : ℕ} → n ≤ k → AtMost measure n m → AtMost measure k m
  AtMost-le le h = record { bound = λ s. omega (arith, h.bound s) }

  next_bound :
      {A B : Type 0} (c n : ℕ) (f : A → Program S E B) (result : Outcome E A × S)
      → measure result.1 ≤ c
      → ((a : A) → AtMost measure n (f a))
      → measure (next result f).1 ≤ c + n
  next_bound c n f (returns a, s) h k = omega (arith, h, (k a).bound s)
  next_bound c n f (raises e, s) h k = omega (arith, h)

  pub AtMost-bind :
      {A B : Type 0} {n k : ℕ} {m : Program S E A} {f : A → Program S E B}
      → AtMost measure n m
      → ((a : A) → AtMost measure k (f a))
      → AtMost measure (n + k) (m >>= f)
  AtMost-bind {n} {k} {m} {f} h g = record {
    bound = λ s. omega (arith, next_bound (measure s + n) k f (m s) (h.bound s) g);
  }

  -- The same, where no call of the first operation counts.
  pub AtMost-then :
      {A B : Type 0} {n : ℕ} {m : Program S E A} {f : A → Program S E B}
      → AtMost measure 0 m
      → ((a : A) → AtMost measure n (f a))
      → AtMost measure n (m >>= f)
  AtMost-then {n} h g = AtMost-le (omega arith) (AtMost-bind {n = 0} {k = n} h g)

  -- The same two for an operation whose answer is not used.
  pub AtMost-both :
      {A B : Type 0} {n k : ℕ} {m : Program S E A} {rest : Program S E B}
      → AtMost measure n m
      → AtMost measure k rest
      → AtMost measure (n + k) (m >> rest)
  AtMost-both h g = AtMost-bind h (λ _. g)

  pub AtMost-skip :
      {A B : Type 0} {n : ℕ} {m : Program S E A} {rest : Program S E B}
      → AtMost measure 0 m
      → AtMost measure n rest
      → AtMost measure n (m >> rest)
  AtMost-skip h g = AtMost-then h (λ _. g)

  pub AtMost-pure : {A : Type 0} {n : ℕ} (a : A) → AtMost measure n (pure {E = E} a)
  AtMost-pure a = record { bound = λ s. omega arith }

  pub AtMost-throw : {A : Type 0} {n : ℕ} (e : E) → AtMost measure n (throw {A = A} e)
  AtMost-throw e = record { bound = λ s. omega arith }

  pub AtMost-ensure : (b : Bool) (e : E) → AtMost measure 0 (ensure b e)
  unfolding ensure
  AtMost-ensure true e = record { bound = λ s. omega arith }
  AtMost-ensure false e = record { bound = λ s. omega arith }

  pub AtMost-get_state : {A : Type 0} (f : S → A) → AtMost measure 0 (get_state {E = E} f)
  AtMost-get_state f = record { bound = λ s. omega arith }

  cleaned_bound :
      {A : Type 0} (c k : ℕ) (result : Outcome E A × S) (cleanup : Program S E (Unit {0}))
      → measure result.1 ≤ c
      → AtMost measure k cleanup
      → measure (cleaned result cleanup).1 ≤ c + k
  cleaned_bound c k (outcome, s) cleanup h g =
      rw (after_state outcome (cleanup s)) (omega (arith, h, g.bound s))

  pub AtMost-finally :
      {A : Type 0} {n k : ℕ} {m : Program S E A} {cleanup : Program S E (Unit {0})}
      → AtMost measure n m
      → AtMost measure k cleanup
      → AtMost measure (n + k) (finally m cleanup)
  AtMost-finally {n} {k} {m} {cleanup} h g = record {
    bound = λ s. omega (arith, cleaned_bound (measure s + n) k (m s) cleanup (h.bound s) g);
  }

  pub AtMost-if :
      {A : Type 0} {n : ℕ} (b : Bool) {m k : Program S E A}
      → AtMost measure n m
      → AtMost measure n k
      → AtMost measure n (if b then m else k)
  AtMost-if true h g = h
  AtMost-if false h g = g

-- What holds where an operation returns; where it raises, nothing is said.
abbrev pub Ends : {S E A : Type 0} → (A → S → Type 0) → Outcome E A × S → Type 0
Ends q (returns a, s) = q a s
Ends q (raises e, s) = Unit

pub record Post {S E A : Type 0} (q : A → S → Type 0) (m : Program S E A) : Type 0 where
  pub ends : (s : S) → Ends q (m s)

next-Ends :
    {S E A B : Type 0} (q : B → S → Type 0) (f : A → Program S E B) (result : Outcome E A × S)
    → ((a : A) → Post q (f a))
    → Ends q (next result f)
next-Ends q f (returns a, s) h = (h a).ends s
next-Ends q f (raises e, s) h = tt

pub Post-bind :
    {S E A B : Type 0} {q : B → S → Type 0} (m : Program S E A) {f : A → Program S E B}
    → ((a : A) → Post q (f a))
    → Post q (m >>= f)
Post-bind {q} m {f} h = record { ends = λ s. next-Ends q f (m s) h }

use-Ends :
    {S E A B : Type 0} (p : A → S → Type 0) (q : B → S → Type 0) (f : A → Program S E B)
    (result : Outcome E A × S)
    → Ends p result
    → ((a : A) (s : S) → p a s → Ends q (f a s))
    → Ends q (next result f)
use-Ends p q f (returns a, s) h k = k a s h
use-Ends p q f (raises e, s) h k = tt

-- The same, where what holds of the first result is used.
pub Post-use :
    {S E A B : Type 0} {q : B → S → Type 0} (p : A → S → Type 0) {m : Program S E A}
    (f : A → Program S E B)
    → Post p m
    → ((a : A) (s : S) → p a s → Ends q (f a s))
    → Post q (m >>= f)
Post-use {q} p {m} f h k = record { ends = λ s. use-Ends p q f (m s) (h.ends s) k }

pub Post-skip :
    {S E A B : Type 0} {q : B → S → Type 0} (m : Program S E A) {rest : Program S E B}
    → Post q rest
    → Post q (m >> rest)
Post-skip m h = Post-bind m (λ _. h)

pub Post-throw : {S E A : Type 0} {q : A → S → Type 0} (e : E) → Post q (throw e)
Post-throw e = record { ends = λ s. tt }

pub Post-if :
    {S E A : Type 0} {q : A → S → Type 0} (b : Bool) {m k : Program S E A}
    → Post q m
    → Post q k
    → Post q (if b then m else k)
Post-if true h g = h
Post-if false h g = g

-- Whatever it gives, the operation leaves what is observed of the state as it is; what it returns has the property.
abbrev pub Given : {S E A X : Type 0} → (S → X) → (A → Type 0) → S → Outcome E A × S → Type 0
Given f P s (returns a, t) = (f t ≡ f s) × P a
Given f P s (raises e, t) = f t ≡ f s

module _ {S E X : Type 0} (f : S → X) where
  pub record Gives {A : Type 0} (P : A → Type 0) (m : Program S E A) : Type 0 where
    pub given : (s : S) → Given f P s (m s)

later-Given :
    {S E A X : Type 0} (f : S → X) (P : A → Type 0) (s t : S) (result : Outcome E A × S)
    → f t ≡ f s
    → Given f P t result
    → Given f P s result
later-Given f P s t (returns a, u) same h = (h.0 ∙ same, h.1)
later-Given f P s t (raises e, u) same h = h ∙ same

next-Given :
    {S E A B X : Type 0} (f : S → X) (P : A → Type 0) (Q : B → Type 0) (k : A → Program S E B)
    (s : S) (result : Outcome E A × S)
    → Given f P s result
    → ((a : A) → P a → Gives f Q (k a))
    → Given f Q s (next result k)
next-Given f P Q k s (returns a, t) h g = later-Given f Q s t (k a t) h.0 ((g a h.1).given t)
next-Given f P Q k s (raises e, t) h g = h

module _ {S E X : Type 0} {f : S → X} where
  pub Gives-bind :
      {A B : Type 0} {P : A → Type 0} {Q : B → Type 0} {m : Program S E A} {k : A → Program S E B}
      → Gives f P m
      → ((a : A) → P a → Gives f Q (k a))
      → Gives f Q (m >>= k)
  Gives-bind {P} {Q} {m} {k} h g = record { given = λ s. next-Given f P Q k s (m s) (h.given s) g }

  pub Gives-pure : {A : Type 0} {P : A → Type 0} (a : A) → P a → Gives f P (pure {E = E} a)
  Gives-pure a p = record { given = λ s. (refl, p) }

  pub Gives-throw : {A : Type 0} {P : A → Type 0} (e : E) → Gives f P (throw {A = A} e)
  Gives-throw e = record { given = λ s. refl }

  pub Gives-if :
      {A : Type 0} {P : A → Type 0} (b : Bool) {m k : Program S E A}
      → Gives f P m
      → Gives f P k
      → Gives f P (if b then m else k)
  Gives-if true h g = h
  Gives-if false h g = g

  pub Gives-ensure : (b : Bool) (e : E) → Gives f (λ u. b ≡ true) (ensure b e)
  unfolding ensure
  Gives-ensure true e = record { given = λ s. (refl, refl) }
  Gives-ensure false e = record { given = λ s. refl }
