-- ===== src/Base/Text/Decimal.antt =====
-- `int` reads back what `str` writes.
use Prim.Native.Char.{code}
use Prim.Native.String.{String, ◌++◌}
use Prim.Native.String.append
use Prim.Native.Nat.{ℕ, zero, suc, ◌+◌, ◌/◌, ◌%◌, ◌≤◌, ◌<◌}
use mathlib.Core.Path.{◌≡◌, refl, ◌∙◌}
use mathlib.Core.Bool.{Bool, true, false, ◌&&◌}
use mathlib.Core.Logic.{inl, inr}
use mathlib.Core.Option.{none, some}
use native.Mathlib.Omega.{arith}
use faryo_codex_web_ui.Base.Tests.{ltb, leb, Bool-cases}
use faryo_codex_web_ui.Base.Text.{
  is_digit, is_space, is_empty, all_chars, rsplit, lstrip, rstrip, int_digits, pos, signed, int,
  digit_char, emit, decimal, after_text,
}

code-digit_char : (d : ℕ) → d < 10 → code (digit_char d) ≡ 48 + d
unfolding digit_char
code-digit_char zero h = refl
code-digit_char (suc zero) h = refl
code-digit_char (suc (suc zero)) h = refl
code-digit_char (suc (suc (suc zero))) h = refl
code-digit_char (suc (suc (suc (suc zero)))) h = refl
code-digit_char (suc (suc (suc (suc (suc zero))))) h = refl
code-digit_char (suc (suc (suc (suc (suc (suc zero)))))) h = refl
code-digit_char (suc (suc (suc (suc (suc (suc (suc zero))))))) h = refl
code-digit_char (suc (suc (suc (suc (suc (suc (suc (suc zero)))))))) h = refl
code-digit_char (suc (suc (suc (suc (suc (suc (suc (suc (suc zero))))))))) h = refl
code-digit_char (suc (suc (suc (suc (suc (suc (suc (suc (suc (suc n)))))))))) h =
    absurd (omega arith)

int_digits-emit :
    (f n : ℕ) (rest : String) (seen : Bool)
    → n ≤ f
    → int_digits 0 seen (emit f n rest) ≡ int_digits n true rest
unfolding int_digits emit
int_digits-emit zero n rest seen h = ground (arith, code-digit_char n)
int_digits-emit (suc f) n rest seen h = elim (Bool-cases (ltb n 10)) [
  | inl small ↦ rw small (ground (arith, code-digit_char n))
  | inr large ↦ rw large (
      int_digits-emit f (n / 10) (String.◌∷◌ (digit_char (n % 10)) rest) seen (ground arith)
      ∙ ground (arith, code-digit_char (n % 10)))
]

all_digits-emit :
    (f n : ℕ) (rest : String)
    → n ≤ f
    → all_chars is_digit rest ≡ true
    → all_chars is_digit (emit f n rest) ≡ true
unfolding all_chars emit
all_digits-emit zero n rest h r = ground (arith, code-digit_char n)
all_digits-emit (suc f) n rest h r = elim (Bool-cases (ltb n 10)) [
  | inl small ↦ rw small (ground (arith, code-digit_char n))
  | inr large ↦ rw large (
      all_digits-emit f (n / 10) (String.◌∷◌ (digit_char (n % 10)) rest) (ground arith)
        (ground (arith, code-digit_char (n % 10))))
]

lstrip-digits : (s : String) → all_chars is_digit s ≡ true → lstrip is_space s ≡ s
unfolding lstrip all_chars
lstrip-digits String.[] h = refl
lstrip-digits (String.◌∷◌ c s) h = ground arith

rstrip-digits : (s : String) → all_chars is_digit s ≡ true → rstrip is_space s ≡ s
unfolding rstrip all_chars
rstrip-digits String.[] h = refl
rstrip-digits (String.◌∷◌ c String.[]) h = ground arith
rstrip-digits (String.◌∷◌ c (String.◌∷◌ d s)) h =
    rw (rstrip-digits (String.◌∷◌ d s) (ground arith), rstrip) refl

emit-cons : (f n : ℕ) (rest : String) → is_empty (emit f n rest) ≡ false
unfolding emit is_empty
emit-cons zero n rest = refl
emit-cons (suc f) n rest = elim (Bool-cases (ltb n 10)) [
  | inl small ↦ rw small
  | inr large ↦ rw large (emit-cons f (n / 10) (String.◌∷◌ (digit_char (n % 10)) rest))
]

signed-digits :
    (s : String) (n : ℕ)
    → is_empty s ≡ false
    → all_chars is_digit s ≡ true
    → int_digits 0 false s ≡ some n
    → signed s ≡ some (pos n)
unfolding signed all_chars is_empty
signed-digits String.[] n e h k = ground arith
signed-digits (String.◌∷◌ c s) n e h k = elim (Bool-cases (is_digit (code c))) [
  | inl digit ↦ ground arith
  | inr other ↦ ground arith
]

pub decimal-digits : (n : ℕ) → all_chars is_digit (decimal n) ≡ true
unfolding decimal all_chars
decimal-digits n = all_digits-emit n n "" (omega arith) refl

pub int-decimal : (n : ℕ) → int (decimal n) ≡ some (pos n)
int-decimal n =
    let digits = decimal-digits n in
    unfold int in
    rw (lstrip-digits (decimal n) digits, rstrip-digits (decimal n) digits)
      (signed-digits (decimal n) n (unfold decimal in emit-cons n n "") digits
        (unfold decimal in int_digits-emit n n "" false (omega arith)))

rsplit-digits : (s : String) → all_chars is_digit s ≡ true → rsplit b':' s ≡ none
unfolding rsplit all_chars
rsplit-digits String.[] h = refl
rsplit-digits (String.◌∷◌ c s) h = ground (arith, rsplit-digits s)

-- The last colon stands before the digits that follow it.
pub rsplit-append :
    (a d : String) → all_chars is_digit d ≡ true → rsplit b':' (a ++ (":" ++ d)) ≡ some (a, d)
unfolding rsplit
rsplit-append String.[] d h =
    rw (append.nil, append.cons, append.nil) (rw (rsplit-digits d h, rsplit) refl)
rsplit-append (String.◌∷◌ c a) d h = rw append.cons (rw (rsplit-append a d h, rsplit) refl)

-- The text begins with a digit that is not zero.
unfoldable pub leads : String → Bool
leads String.[] = false
leads (String.◌∷◌ c s) = leb b'1' (code c) && leb (code c) b'9'

leads-emit : (f n : ℕ) (rest : String) → 1 ≤ n → n ≤ f → leads (emit f n rest) ≡ true
unfolding leads emit
leads-emit zero n rest h k = absurd (omega arith)
leads-emit (suc f) n rest h k = elim (Bool-cases (ltb n 10)) [
  | inl small ↦ rw small (ground (arith, code-digit_char n))
  | inr large ↦
      rw large (
        leads-emit f (n / 10) (String.◌∷◌ (digit_char (n % 10)) rest) (ground arith) (ground arith))
]

pub decimal-leads : (n : ℕ) → 1 ≤ n → leads (decimal n) ≡ true
unfolding decimal
decimal-leads n h = leads-emit n n "" h (omega arith)

pub after_text-append : (p s : String) → after_text p (p ++ s) ≡ some s
unfolding after_text
after_text-append String.[] s = rw (append.nil, after_text) refl
after_text-append (String.◌∷◌ c p) s =
    rw (append.cons, after_text) (ground (arith, after_text-append p s))
