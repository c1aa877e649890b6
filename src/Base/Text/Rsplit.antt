-- ===== src/Base/Text/Rsplit.antt =====
-- Python's `rsplit` at the last dot of a text.
use Prim.Native.Char.{code}
use Prim.Native.String.{String, ◌++◌}
use Prim.Native.String.append
use text.Mathlib.TextEquality.{Char-path}
use Prim.Native.Nat.{ℕ}
use mathlib.Core.Path.{◌≡◌, refl, ap, sym, ◌∙◌}
use mathlib.Core.Bool.{true, false}
use mathlib.Core.Logic.{inl, inr}
use mathlib.Core.Option.{none, some}
use native.Mathlib.Omega.{arith}
use faryo_codex_web_ui.Base.Tests.{◌==◌, Bool-cases, Option-cases}
use faryo_codex_web_ui.Base.Text.{rsplit, has_char}

rsplit-none : (s : String) → has_char b'.' s ≡ false → rsplit b'.' s ≡ none
unfolding rsplit has_char
rsplit-none String.[] h = refl
rsplit-none (String.◌∷◌ c s) h = ground (arith, rsplit-none s)

pub rsplit-dot :
    (a s : String) → has_char b'.' s ≡ false → rsplit b'.' (a ++ ("." ++ s)) ≡ some (a, s)
unfolding rsplit
rsplit-dot String.[] s h =
    rw (append.nil, append.cons, append.nil) (rw (rsplit-none s h, rsplit) refl)
rsplit-dot (String.◌∷◌ c a) s h = rw append.cons (rw (rsplit-dot a s h, rsplit) refl)

is_code : (m n : ℕ) → (m == n) ≡ true → m ≡ n
is_code m n h = ground arith

-- What it splits is its two parts with the dot between them.
pub rsplit_joined : (s a b : String) → rsplit b'.' s ≡ some (a, b) → s ≡ a ++ ("." ++ b)
unfolding rsplit
rsplit_joined String.[] a b h = cc
rsplit_joined (String.◌∷◌ c s) a b h = elim (Option-cases (rsplit b'.' s)) [
  | inr ((x, y), found) ↦
      let both : some (String.◌∷◌ c x, y) ≡ some (a, b) = rw found at h in
      let first : String.◌∷◌ c x ≡ a = cc both in
      let second : y ≡ b = cc both in
      ap (String.◌∷◌ c) (rsplit_joined s x y found)
      ∙ sym (append.cons c x ("." ++ y))
      ∙ ap (λ z. z ++ ("." ++ y)) first
      ∙ ap (λ z. a ++ ("." ++ z)) second
  | inl nothing ↦ elim (Bool-cases (code c == b'.')) [
    | inl here ↦
        let both : some ("", s) ≡ some (a, b) = rw (nothing, here) at h in
        let first : "" ≡ a = cc both in
        let second : s ≡ b = cc both in
        let dot : c ≡ "." = Char-path c "." (is_code (code c) b'.' here) in
        ap (λ z. String.◌∷◌ z s) dot
        ∙ sym (append.cons "." "" s ∙ ap (String.◌∷◌ ".") (append.nil s))
        ∙ sym (append.nil ("." ++ s))
        ∙ ap (λ z. z ++ ("." ++ s)) first
        ∙ ap (λ z. a ++ ("." ++ z)) second
    | inr elsewhere ↦ cc (rw (nothing, elsewhere) at h)
  ]
]
