-- ===== src/Json/Read.antt =====
-- What Python makes of JSON that it reads: `int`, `or`, and iteration. The result of `int` on a float, given by
-- its repr, is the parameter `trunc`.
use faryo_codex_web_ui.Base.{
  ℕ, Bool, true, false, Option, none, some, String, if◌then◌else◌, ◌≡◌, refl,
}
use faryo_codex_web_ui.Base.Text.{is_empty, ℤ, pos, negsuc, int}
use faryo_codex_web_ui.Json.{Value, Elements, no_items, bool, int as int_value, float, text, array}
use faryo_codex_web_ui.Json.Str.{truthy}

-- What `int` makes of a float.
pub data Whole : Type 0 where
  whole : ℤ → Whole
  not_a_number infinite : Whole

-- `max(0, int(value))`, or the exceptions of `int`: TypeError and ValueError are caught, OverflowError is
-- not.
pub data Number : Type 0 where
  number : ℕ → Number
  refused overflows : Number

at_least_zero : ℤ → Number
at_least_zero (pos n) = number n
at_least_zero (negsuc n) = number 0

of_text : Option ℤ → Number
unfolding at_least_zero
of_text none = refused
of_text (some n) = at_least_zero n

of_float : Whole → Number
unfolding at_least_zero
of_float (whole n) = at_least_zero n
of_float not_a_number = refused
of_float infinite = overflows

bit : Bool → ℕ
bit true = 1
bit false = 0

unfoldable pub to_int : (String → Whole) → Value → Number
unfolding at_least_zero of_text of_float bit
to_int trunc (int_value n) = at_least_zero n
to_int trunc (bool b) = number (bit b)
to_int trunc (float shown) = of_float (trunc shown)
to_int trunc (text s) = of_text (int s)
to_int trunc _ = refused

-- `max(0, int(value or 0))`
unfoldable pub time_field : (String → Whole) → Option Value → Number
unfolding to_int
time_field trunc none = number 0
time_field trunc (some v) = if truthy v then to_int trunc v else number 0

-- What `value or []` iterates over: the characters of a text and the keys of an object are
-- no events; `none` is the TypeError for a number.
unfoldable pub iterated : Option Value → Option Elements
iterated none = some no_items
iterated (some (array xs)) = some xs
iterated (some (int_value n)) = if truthy (int_value n) then none else some no_items
iterated (some (bool b)) = if b then none else some no_items
iterated (some (float shown)) = if truthy (float shown) then none else some no_items
iterated (some _) = some no_items

-- `first or second`, for two values that may be missing
unfoldable pub or_value : Option Value → Option Value → Option Value
or_value none second = second
or_value (some v) second = if truthy v then some v else second

read_tests :
    (time_field (λ s. whole (pos 7)) (some (text " 12 ")) ≡ number 12)
    × (time_field (λ s. whole (pos 7)) (some (float "7.5")) ≡ number 7)
    × (time_field (λ s. infinite) (some (float "inf")) ≡ overflows)
    × (iterated (some (bool true)) ≡ none)
unfolding time_field iterated truthy int is_empty
read_tests = (refl, refl, refl, refl)
