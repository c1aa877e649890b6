-- ===== src/Sessions/Namespace/Free.antt =====
-- session_namespace.py: the name that `next_name` finds.
use text.Mathlib.TextLemmas.{append_cancel_left}
use faryo_codex_web_ui.Base.{
  ℕ, zero, suc, ◌≤◌, ◌<◌, ◌≡◌, ◌≢◌, refl, sym, ap, ◌∙◌, Bool, true, false, not, ◌||◌, some, List,
  [], ◌∷◌, ◌++◌ as append, String, str_eq, eq_iff, arith, Bool-cases, subst, ◌⊎◌, inl, inr, length,
  length-keep-le, any, keep,
}
use faryo_codex_web_ui.Base.Text.{all_chars, is_digit, decimal, int, pos}
use faryo_codex_web_ui.Base.Text.Decimal.{
  int-decimal, decimal-digits, decimal-leads, leads, after_text-append,
}
use faryo_codex_web_ui.Sessions.Namespace.{
  has_name, session_name, search, union, is_session_name, is_positive_decimal, normalized_names,
  next_number, next_name,
}

decimal_injective : (m n : ℕ) → decimal m ≡ decimal n → m ≡ n
decimal_injective m n h =
    let both : some (pos m) ≡ some (pos n) = sym (int-decimal m) ∙ ap int h ∙ int-decimal n in
    let same : m ≡ n = cc both in same

session_name_injective : (m n : ℕ) → session_name m ≡ session_name n → m ≡ n
session_name_injective m n h =
    decimal_injective m n (append_cancel_left "faryo" (decimal m) (decimal n) h)

without : String → List String → List String
without name = keep (λ other. not (str_eq other name))

length-without :
    (name : String) (names : List String)
    → has_name name names ≡ true
    → length (without name names) < length names
unfolding any keep without
length-without name [] h = ground arith
length-without name (other ∷ names) h =
    ground
      (arith, length-without name names, length-keep-le (λ (x : String). not (str_eq x name)) names)

has_name-without :
    (a b : String) (names : List String) → a ≢ b → has_name a (without b names) ≡ has_name a names
unfolding any keep without
has_name-without a b [] h = refl
has_name-without a b (other ∷ names) h =
    ground (arith, has_name-without a b names, eq_iff other a, eq_iff other b)

positive_decimal :
    (s : String)
    → leads s ≡ true
    → all_chars is_digit s ≡ true
    → is_positive_decimal (some s) ≡ true
unfolding is_positive_decimal leads all_chars
positive_decimal String.[] h digits = cc
positive_decimal (String.◌∷◌ c s) h digits = ground arith

number_apart : (m n : ℕ) → suc n ≤ m → m ≢ n
number_apart m n h e = absurd (omega arith)

below_itself : (n m : ℕ) → n ≤ m → m < n → ⊥
below_itself n m h k = absurd (omega arith)

Nat-cases : (n m : ℕ) → n ≤ m → (n ≡ m) ⊎ (suc n ≤ m)
Nat-cases n m h = ground arith

search-from : (fuel n : ℕ) (used : List String) → n ≤ search fuel n used
unfolding search
search-from zero n used = omega arith
search-from (suc fuel) n used = ground (arith, search-from fuel (suc n) used)

-- With a round for each name that may be in the way, the search ends at a free name.
search-free :
    (fuel n : ℕ) (used left : List String)
    → length left ≤ fuel
    → ((m : ℕ) → n ≤ m → has_name (session_name m) left ≡ has_name (session_name m) used)
    → has_name (session_name (search fuel n used)) used ≡ false
unfolding search
search-free zero n used [] few same = sym (same n (omega arith)) ∙ unfold any in refl
search-free zero n used (name ∷ left) few same = absurd (omega arith)
search-free (suc fuel) n used left few same =
    let name = session_name n in
    elim (Bool-cases (has_name name used)) [
      | inl taken ↦
          let fewer = length-without name left (same n (omega arith) ∙ taken) in
          rw taken (
            search-free fuel (suc n) used (without name left) (omega arith) (λ m h.
              has_name-without (session_name m) name left
                (λ e. absurd (number_apart m n h (session_name_injective m n e)))
              ∙ same m (omega arith)))
      | inr free ↦ rw free free
    ]

-- Every number that the search passes over is used.
search-taken :
    (fuel n m : ℕ) (used : List String)
    → n ≤ m
    → m < search fuel n used
    → has_name (session_name m) used ≡ true
unfolding search
search-taken zero n m used low high = absurd (omega arith)
search-taken (suc fuel) n m used low high =
    let name = session_name n in
    elim (Bool-cases (has_name name used)) [
      | inl taken ↦ elim (Nat-cases n m low) [
        | inl here ↦ subst (λ k. has_name (session_name k) used ≡ true) here taken
        | inr later ↦ search-taken fuel (suc n) m used later (rw taken at high)
      ]
      | inr free ↦ absurd (below_itself n m low (rw free at high))
    ]

session_name-IsName : (n : ℕ) → 1 ≤ n → is_session_name (session_name n) ≡ true
unfolding is_session_name
session_name-IsName n h =
    rw (after_text-append "faryo" (decimal n))
      (positive_decimal (decimal n) (decimal-leads n h) (decimal-digits n))

any-append :
    (test : String → Bool) (xs ys : List String)
    → any test (append xs ys) ≡ (any test xs || any test ys)
unfolding any
any-append test [] ys = refl
any-append test (x ∷ xs) ys = ground (arith, any-append test xs ys)

has_name-normalized :
    (name : String) (names : List String)
    → is_session_name name ≡ true
    → has_name name (normalized_names names) ≡ has_name name names
unfolding any normalized_names keep
has_name-normalized name [] h = refl
has_name-normalized name (other ∷ names) h =
    ground (arith, has_name-normalized name names, eq_iff other name)

-- `name` stands in one of the groups.
abbrev pub in_groups : String → List (List String) → Bool
in_groups name = any (has_name name)

has_name-union :
    (name : String) (groups : List (List String))
    → is_session_name name ≡ true
    → has_name name (union groups) ≡ in_groups name groups
unfolding union any
has_name-union name [] h = refl
has_name-union name (names ∷ groups) h =
    rw
      (
        any-append (λ other. str_eq other name) (normalized_names names) (union groups),
        has_name-normalized name names h,
        has_name-union name groups h,
      )
      refl

-- `next_name` ends, and gives the first of the session names faryo1, faryo2, … that stands in none of the
-- groups, whatever else the groups hold.
pub next_name_free :
    (groups : List (List String))
    → (n : ℕ) × (next_name groups ≡ session_name n)
      × (1 ≤ n)
      × (is_session_name (session_name n) ≡ true)
      × (in_groups (session_name n) groups ≡ false)
      × ((m : ℕ) → 1 ≤ m → m < n → in_groups (session_name m) groups ≡ true)
unfolding next_name next_number
next_name_free groups =
    let used = union groups in
    let n = search (length used) 1 used in
    let from = search-from (length used) 1 used in
    (
      n,
      refl,
      from,
      session_name-IsName n from,
      sym (has_name-union (session_name n) groups (session_name-IsName n from))
          ∙ search-free (length used) 1 used used (omega arith) (λ m h. refl),
      (λ m low high.
          sym (has_name-union (session_name m) groups (session_name-IsName m low))
          ∙ search-taken (length used) 1 m used low high),
    )
