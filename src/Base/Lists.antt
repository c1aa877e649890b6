-- ===== src/Base/Lists.antt =====
-- Lists measured by native numbers, and predicates on lists by recursion.
use Prim.Native.Nat.{ℕ, zero, suc, ◌+◌, ◌≤◌}
use mathlib.Core.Path.{◌≡◌, refl}
use mathlib.Core.Bool.{Bool, true, false, ◌||◌}
use mathlib.Core.List.{reverse, reverse-cons, List, [], ◌∷◌, ◌++◌}
use mathlib.Core.Option.{Option, none, some}
use native.Mathlib.Omega.{arith}
use mathlib.Core.Logic.{inl, inr}
use faryo_codex_web_ui.Base.Tests.{Bool-cases, if◌then◌else◌}

module _ {ℓ} {A : Type ℓ} where
  abbrev pub length : List A → ℕ
  length [] = 0
  length (x ∷ xs) = suc (length xs)

  pub length-append : (xs ys : List A) → length (xs ++ ys) ≡ length xs + length ys
  length-append [] ys = omega arith
  length-append (x ∷ xs) ys = omega (arith, length-append xs ys)

  -- The last `n` items: `items[-n:]`, for a positive `n`.
  abbrev pub drop : ℕ → List A → List A
  drop zero xs = xs
  drop (suc n) [] = []
  drop (suc n) (x ∷ xs) = drop n xs

  -- `[x for x in items if test(x)]`
  unfoldable pub keep : (A → Bool) → List A → List A
  keep p [] = []
  keep p (x ∷ xs) = if p x then x ∷ keep p xs else keep p xs

  pub length-keep-le : (p : A → Bool) (xs : List A) → length (keep p xs) ≤ length xs
  unfolding keep
  length-keep-le p [] = omega arith
  length-keep-le p (x ∷ xs) = ground (arith, length-keep-le p xs)

  pub keep-append : (p : A → Bool) (xs ys : List A) → keep p (xs ++ ys) ≡ keep p xs ++ keep p ys
  unfolding keep
  keep-append p [] ys = refl
  keep-append p (x ∷ xs) ys = ground (arith, keep-append p xs ys)

  -- `next((x for x in items if test(x)), None)`
  unfoldable pub first : (A → Bool) → List A → Option A
  first p [] = none
  first p (x ∷ xs) = if p x then some x else first p xs

  pub first_holds : (p : A → Bool) (xs : List A) (a : A) → first p xs ≡ some a → p a ≡ true
  unfolding first
  first_holds p [] a h = ground arith
  first_holds p (x ∷ xs) a h = ground (arith, first_holds p xs a)

  -- `any(test(x) for x in items)`
  unfoldable pub any : (A → Bool) → List A → Bool
  any p [] = false
  any p (x ∷ xs) = p x || any p xs

  abbrev pub Every {κ} : (A → Type κ) → List A → Type κ
  Every P [] = Unit
  Every P (x ∷ xs) = P x × Every P xs

module _ {ℓ κ} {A : Type ℓ} where
  pub Every-append :
      (P : A → Type κ) (xs ys : List A) → Every P xs → Every P ys → Every P (xs ++ ys)
  Every-append P [] ys hx hy = hy
  Every-append P (x ∷ xs) ys hx hy = (hx.0, Every-append P xs ys hx.1 hy)

  pub Every-keep : (P : A → Type κ) (p : A → Bool) (xs : List A) → Every P xs → Every P (keep p xs)
  unfolding keep
  Every-keep P p [] h = tt
  Every-keep P p (x ∷ xs) h = ground (arith, Every-keep P p xs h.1)

  pub Every-reverse : (P : A → Type κ) (xs : List A) → Every P xs → Every P (reverse xs)
  Every-reverse P [] h = tt
  Every-reverse P (x ∷ xs) h =
      rw (reverse-cons x xs)
        (Every-append P (reverse xs) (x ∷ []) (Every-reverse P xs h.1) (h.0, tt))

pub Every-map {ℓ κ μ} :
    {A : Type ℓ} (P : A → Type κ) (Q : A → Type μ) (xs : List A)
    → ((x : A) → P x → Q x)
    → Every P xs
    → Every Q xs
Every-map P Q [] f h = tt
Every-map P Q (x ∷ xs) f h = (f x h.0, Every-map P Q xs f h.1)

-- `x` is an item of the list.
pub data Among {ℓ} {A : Type ℓ} (x : A) : List A → Type ℓ where
  at_head : {y : A} {ys : List A} → x ≡ y → Among x (y ∷ ys)
  in_tail : {y : A} {ys : List A} → Among x ys → Among x (y ∷ ys)

module _ {ℓ} {A : Type ℓ} where
  pub first-Among : (p : A → Bool) (xs : List A) (a : A) → first p xs ≡ some a → Among a xs
  unfolding first
  first-Among p [] a h = cc
  first-Among p (x ∷ xs) a h = elim (Bool-cases (p x)) [
    | inl hit ↦ at_head (ground arith)
    | inr miss ↦ in_tail (first-Among p xs a (ground arith))
  ]

  pub length-reverse : (xs : List A) → length (reverse xs) ≡ length xs
  length-reverse [] = refl
  length-reverse (x ∷ xs) =
      rw (reverse-cons x xs) (omega (arith, length-append (reverse xs) (x ∷ []), length-reverse xs))

  pub length-keep-reverse :
      (p : A → Bool) (xs : List A) → length (keep p (reverse xs)) ≡ length (keep p xs)
  unfolding keep
  length-keep-reverse p [] = refl
  length-keep-reverse p (x ∷ xs) = rw (reverse-cons x xs) (
      rw (keep-append p (reverse xs) (x ∷ [])) (
        ground
          (arith, length-append (keep p (reverse xs)) (keep p (x ∷ [])), length-keep-reverse p xs)))
