-- ===== src/Base/Text.antt =====
-- Texts: slices, character classes, the last separator, and Python's `int` and `str` on them.
-- `count` is Python's `len` of a text, and `len` the number of bytes of its UTF-8.
pub mod Decimal
pub mod Rsplit
use Prim.Native.Char.{Char, code}
use Prim.Native.String
use Prim.Native.String.{String, ◌++◌, count}
use Prim.Native.Nat.{ℕ, zero, suc, ◌+◌, ◌-◌, ◌*◌, ◌/◌, ◌%◌}
use mathlib.Core.Path.{◌≡◌, refl}
use mathlib.Core.Bool.{Bool, true, false, ◌&&◌, ◌||◌}
use mathlib.Core.Option.{Option, none, some}
use mathlib.Core.List.{List, [], ◌∷◌}
use native.Mathlib.Omega.{arith}
use faryo_codex_web_ui.Base.Tests.{leb, ltb, ◌==◌, if◌then◌else◌}

-- `s[:n]`
unfoldable pub take : ℕ → String → String
take zero s = String.[]
take (suc n) String.[] = String.[]
take (suc n) (String.◌∷◌ c s) = String.◌∷◌ c (take n s)

-- `not s`
unfoldable pub is_empty : String → Bool
is_empty String.[] = true
is_empty (String.◌∷◌ c s) = false

-- `all(test(c) for c in s)`
unfoldable pub all_chars : (ℕ → Bool) → String → Bool
all_chars p String.[] = true
all_chars p (String.◌∷◌ c s) = p (code c) && all_chars p s

abbrev pub is_digit : ℕ → Bool
is_digit c = leb b'0' c && leb c b'9'

abbrev pub is_lower : ℕ → Bool
is_lower c = leb b'a' c && leb c b'z'

abbrev pub is_upper : ℕ → Bool
is_upper c = leb b'A' c && leb c b'Z'

abbrev pub is_alnum : ℕ → Bool
is_alnum c = is_digit c || (is_upper c || is_lower c)

-- `s.rsplit(sep, 1)` on a text that holds the separator.
unfoldable pub rsplit : ℕ → String → Option (String × String)
rsplit sep String.[] = none
rsplit sep (String.◌∷◌ c s) = elim (rsplit sep s) [
  | some (a, b) ↦ some (String.◌∷◌ c a, b)
  | none ↦ if code c == sep then some (String.[], s) else none
]

-- What `int` skips at both ends of an ASCII text.
abbrev pub is_space : ℕ → Bool
is_space c = c == 32 || (leb 9 c && leb c 13)

-- What `str.strip` and `str.split` take for white space.
abbrev pub is_whitespace : ℕ → Bool
is_whitespace c =
    is_space c
    || (leb 28 c && leb c 31)
    || c == 0x85
    || c == 0xa0
    || c == 0x1680
    || (leb 0x2000 c && leb c 0x200a)
    || c == 0x2028
    || c == 0x2029
    || c == 0x202f
    || c == 0x205f
    || c == 0x3000

unfoldable pub lstrip : (ℕ → Bool) → String → String
lstrip skip String.[] = String.[]
lstrip skip (String.◌∷◌ c s) =
    let rest = lstrip skip s in if skip (code c) then rest else String.◌∷◌ c s

unfoldable pub rstrip : (ℕ → Bool) → String → String
rstrip skip String.[] = String.[]
rstrip skip (String.◌∷◌ c s) = elim (rstrip skip s) [
  | String.[] ↦ if skip (code c) then String.[] else String.◌∷◌ c String.[]
  | String.◌∷◌ d r ↦ String.◌∷◌ c (String.◌∷◌ d r)
]

-- `s.strip()`
unfoldable pub strip : String → String
unfolding lstrip rstrip
strip s = rstrip is_whitespace (lstrip is_whitespace s)

-- `any(character == c for c in s)`
unfoldable pub has_char : ℕ → String → Bool
has_char sep String.[] = false
has_char sep (String.◌∷◌ c s) = code c == sep || has_char sep s

-- `s.replace(a, b)` for single characters.
unfoldable pub replace_char : ℕ → Char → String → String
replace_char old new String.[] = String.[]
replace_char old new (String.◌∷◌ c s) =
    String.◌∷◌ (if code c == old then new else c) (replace_char old new s)

-- What stands before and after the first character that passes the test; the second is empty without one.
unfoldable pub split_at : (ℕ → Bool) → String → String × String
split_at test String.[] = (String.[], String.[])
split_at test (String.◌∷◌ c s) =
    let (a, b) = split_at test s in if test (code c) then (String.[], s) else (String.◌∷◌ c a, b)

-- What follows the prefix, where the text has it.
unfoldable pub after_text : String → String → Option String
after_text String.[] s = some s
after_text (String.◌∷◌ c p) String.[] = none
after_text (String.◌∷◌ c p) (String.◌∷◌ d s) =
    let rest = after_text p s in if code c == code d then rest else none

abbrev is_request_char : ℕ → Bool
is_request_char c = is_alnum c || c == b'.' || c == b'_' || c == b':' || c == b'-'

-- `str.fullmatch` of `[A-Za-z0-9][A-Za-z0-9._:-]{7,127}`, the form of a client's request id.
unfoldable pub is_request_id : String → Bool
unfolding all_chars
is_request_id String.[] = false
is_request_id (String.◌∷◌ c s) =
    is_alnum (code c) && all_chars is_request_char s && leb 7 (count s) && leb (count s) 127

-- The digits of `int`: single underscores may stand between them. `seen` says that a digit came last.
unfoldable pub int_digits : ℕ → Bool → String → Option ℕ
int_digits acc seen String.[] = if seen then some acc else none
int_digits acc seen (String.◌∷◌ c s) =
    let more = int_digits (acc * 10 + (code c - b'0')) true s in
    let skip = int_digits acc false s in
    if is_digit (code c) then more else if code c == b'_' && seen then skip else none

-- A Python integer.
pub data ℤ : Type 0 where
  pos : ℕ → ℤ
  negsuc : ℕ → ℤ

abbrev pub negate : ℕ → ℤ
negate zero = pos zero
negate (suc n) = negsuc n

map_int : (ℕ → ℤ) → Option ℕ → Option ℤ
map_int f none = none
map_int f (some n) = some (f n)

unfoldable pub signed : String → Option ℤ
unfolding map_int int_digits
signed String.[] = none
signed (String.◌∷◌ c s) =
    if code c == b'-'
    then map_int negate (int_digits 0 false s)
    else if code c == b'+'
    then map_int pos (int_digits 0 false s)
    else map_int pos (int_digits 0 false (String.◌∷◌ c s))

-- `int(s)`, with `none` for ValueError.
unfoldable pub int : String → Option ℤ
unfolding signed lstrip rstrip
int s = signed (rstrip is_space (lstrip is_space s))

digit_char : ℕ → Char
digit_char zero = "0"
digit_char (suc zero) = "1"
digit_char (suc (suc zero)) = "2"
digit_char (suc (suc (suc zero))) = "3"
digit_char (suc (suc (suc (suc zero)))) = "4"
digit_char (suc (suc (suc (suc (suc zero))))) = "5"
digit_char (suc (suc (suc (suc (suc (suc zero)))))) = "6"
digit_char (suc (suc (suc (suc (suc (suc (suc zero))))))) = "7"
digit_char (suc (suc (suc (suc (suc (suc (suc (suc zero)))))))) = "8"
digit_char _ = "9"

-- The decimal digits of `n` before `rest`, with `n` or more rounds at hand.
emit : ℕ → ℕ → String → String
emit zero n rest = String.◌∷◌ (digit_char n) rest
emit (suc f) n rest =
    let more = emit f (n / 10) (String.◌∷◌ (digit_char (n % 10)) rest) in
    if ltb n 10 then String.◌∷◌ (digit_char n) rest else more

-- `str(n)`
unfoldable pub decimal : ℕ → String
unfolding emit digit_char
decimal n = emit n n ""

int_texts :
    (int " +1_0 " ≡ some (pos 10))
    × (int "1__0" ≡ none)
    × (int "-3" ≡ some (negsuc 2))
    × (int "" ≡ none)
    × (int "1_" ≡ none)
unfolding int
int_texts = (refl, refl, refl, refl, refl)

decimal_texts : (decimal 0 ≡ "0") × (decimal 2048 ≡ "2048")
unfolding decimal
decimal_texts = (refl, refl)

rsplit_texts : rsplit b':' "a:b:7" ≡ some ("a:b", "7")
unfolding rsplit
rsplit_texts = refl

-- `separator.join(parts)`
unfoldable pub join : String → List String → String
join separator [] = ""
join separator (p ∷ []) = p
join separator (p ∷ (q ∷ ps)) = p ++ (separator ++ join separator (q ∷ ps))
