-- ===== src/Base/Letters.antt =====
-- The case of letters: Python's `lower` and `title` on texts.
use Prim.Native.Char.{Char, code}
use Prim.Native.String.{String}
use mathlib.Core.Bool.{Bool, false, ◌||◌}
use faryo_codex_web_ui.Base.Tests.{◌==◌, if◌then◌else◌}
use faryo_codex_web_ui.Base.Text.{is_upper, is_lower}

-- `c.lower()`: the ASCII letters, and the Kelvin sign, the one other character whose lower case is ASCII.
lower_char : Char → Char
lower_char c =
    let n = code c in
    if n == b'A'
    then "a"
    else if n == b'B'
    then "b"
    else if n == b'C'
    then "c"
    else if n == b'D'
    then "d"
    else if n == b'E'
    then "e"
    else if n == b'F'
    then "f"
    else if n == b'G'
    then "g"
    else if n == b'H'
    then "h"
    else if n == b'I'
    then "i"
    else if n == b'J'
    then "j"
    else if n == b'K'
    then "k"
    else if n == b'L'
    then "l"
    else if n == b'M'
    then "m"
    else if n == b'N'
    then "n"
    else if n == b'O'
    then "o"
    else if n == b'P'
    then "p"
    else if n == b'Q'
    then "q"
    else if n == b'R'
    then "r"
    else if n == b'S'
    then "s"
    else if n == b'T'
    then "t"
    else if n == b'U'
    then "u"
    else if n == b'V'
    then "v"
    else if n == b'W'
    then "w"
    else if n == b'X'
    then "x"
    else if n == b'Y'
    then "y"
    else if n == b'Z'
    then "z"
    else if n == 0x212a
    then "k"
    else c

-- `c.upper()` of an ASCII character.
upper_char : Char → Char
upper_char c =
    let n = code c in
    if n == b'a'
    then "A"
    else if n == b'b'
    then "B"
    else if n == b'c'
    then "C"
    else if n == b'd'
    then "D"
    else if n == b'e'
    then "E"
    else if n == b'f'
    then "F"
    else if n == b'g'
    then "G"
    else if n == b'h'
    then "H"
    else if n == b'i'
    then "I"
    else if n == b'j'
    then "J"
    else if n == b'k'
    then "K"
    else if n == b'l'
    then "L"
    else if n == b'm'
    then "M"
    else if n == b'n'
    then "N"
    else if n == b'o'
    then "O"
    else if n == b'p'
    then "P"
    else if n == b'q'
    then "Q"
    else if n == b'r'
    then "R"
    else if n == b's'
    then "S"
    else if n == b't'
    then "T"
    else if n == b'u'
    then "U"
    else if n == b'v'
    then "V"
    else if n == b'w'
    then "W"
    else if n == b'x'
    then "X"
    else if n == b'y'
    then "Y"
    else if n == b'z'
    then "Z"
    else c

-- `s.lower()`, as far as it decides whether the result is an ASCII text.
unfoldable pub lower : String → String
unfolding lower_char
lower String.[] = String.[]
lower (String.◌∷◌ c s) = String.◌∷◌ (lower_char c) (lower s)

-- `s.title()` of an ASCII text: a letter after a letter is lowered, any other is raised.
title_after : Bool → String → String
title_after in_word String.[] = String.[]
title_after in_word (String.◌∷◌ c s) =
    let n = code c in
    String.◌∷◌ (if in_word then lower_char c else upper_char c)
      (title_after (is_upper n || is_lower n) s)

unfoldable pub title : String → String
unfolding title_after lower_char upper_char
title s = title_after false s
