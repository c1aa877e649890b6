-- ===== src/Json/Str.antt =====
-- Python's truth test and `str` on JSON values, for `str(value or "")` and the `isinstance` tests.
-- Inside a container every character from U+00A1 on, but U+00AD, is taken to be printable.
use Prim.Native.Char.{code}
use Prim.Native.String.{String, ◌++◌}
use faryo_codex_web_ui.Base.{
  ℕ, ◌/◌, ◌%◌, ◌≡◌, refl, Bool, true, false, not, ◌||◌, ◌&&◌, Option, none, some, str_eq, ltb, leb,
  ◌==◌, if◌then◌else◌,
}
use faryo_codex_web_ui.Base.Text.{pos, negsuc, is_empty, has_char}
use faryo_codex_web_ui.Json.{
  Value, Elements, Fields, null, bool, int, float, text, array, mapping, no_items, item, no_fields,
  field, int_text, hex_digit,
}

-- `bool(value)`
unfoldable pub truthy : Value → Bool
truthy null = false
truthy (bool b) = b
truthy (int (pos n)) = not (n == 0)
truthy (int (negsuc n)) = true
truthy (float repr) = not (str_eq repr "0.0" || str_eq repr "-0.0")
truthy (text s) = not (is_empty s)
truthy (array no_items) = false
truthy (array (item x xs)) = true
truthy (mapping no_fields) = false
truthy (mapping (field k v fs)) = true

repr_chars : ℕ → String → String
unfolding hex_digit
repr_chars quote String.[] = ""
repr_chars quote (String.◌∷◌ c s) =
    let n = code c in
    let shown =
      if n == 92
      then "\\\\"
      else if n == 10
      then "\\n"
      else if n == 13
      then "\\r"
      else if n == 9
      then "\\t"
      else if n == quote
      then "\\'"
      else if ltb n 32 || (leb 127 n && leb n 160) || n == 173
      then "\\x" ++ (hex_digit (n / 16) ++ hex_digit (n % 16))
      else String.◌∷◌ c "" in
    shown ++ repr_chars quote s

-- `repr(s)`: in double quotes if the text holds single quotes and no double ones.
repr_text : String → String
unfolding repr_chars
repr_text s =
    if has_char 39 s && not (has_char 34 s)
    then "\"" ++ (repr_chars 34 s ++ "\"")
    else "'" ++ (repr_chars 39 s ++ "'")

mutual
  unfolding repr_text int_text

  repr : Value → String
  repr null = "None"
  repr (bool true) = "True"
  repr (bool false) = "False"
  repr (int n) = int_text n
  repr (float shown) = shown
  repr (text s) = repr_text s
  repr (array xs) = "[" ++ (repr_items xs ++ "]")
  repr (mapping fs) = "{" ++ (repr_fields fs ++ "}")

  repr_items : Elements → String
  repr_items no_items = ""
  repr_items (item x no_items) = repr x
  repr_items (item x (item y xs)) = repr x ++ (", " ++ repr_items (item y xs))

  repr_fields : Fields → String
  repr_fields no_fields = ""
  repr_fields (field k v no_fields) = repr_text k ++ (": " ++ repr v)
  repr_fields (field k v (field j w fs)) =
      repr_text k ++ (": " ++ (repr v ++ (", " ++ repr_fields (field j w fs))))

-- `str(value)`
unfoldable pub to_text : Value → String
unfolding repr
to_text (text s) = s
to_text null = "None"
to_text (bool b) = repr (bool b)
to_text (int n) = repr (int n)
to_text (float s) = s
to_text (array xs) = repr (array xs)
to_text (mapping fs) = repr (mapping fs)

-- `str(mapping.get(key) or default)`
unfoldable pub text_or : String → Option Value → String
text_or fallback none = fallback
text_or fallback (some v) = if truthy v then to_text v else fallback

str_texts :
    (to_text (mapping (field "a" (array (item (text "it's") (item null no_items))) no_fields))
      ≡ "{'a': [\"it's\", None]}")
    × (text_or "d" (some (text "")) ≡ "d")
unfolding to_text text_or truthy is_empty has_char
str_texts = (refl, refl)
