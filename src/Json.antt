-- ===== src/Json.antt =====
-- JSON values as Python holds them, and `json.dumps(v, ensure_ascii=False, separators=(",", ":"))`.
-- A float carries the text of its repr.
pub mod Str
pub mod Read
use Prim.Native.Char.{Char, code}
use Prim.Native.String.{String, ◌++◌, len}
use faryo_codex_web_ui.Base.{
  ℕ, suc, ◌/◌, ◌%◌, ◌≡◌, refl, Bool, true, false, Option, none, some, str_eq, ltb, ◌==◌,
  if◌then◌else◌,
}
use faryo_codex_web_ui.Base.Text.{ℤ, pos, negsuc, decimal}

mutual
  pub data Value : Type 0 where
    null : Value
    bool : Bool → Value
    int : ℤ → Value
    float : String → Value
    text : String → Value
    array : Elements → Value
    mapping : Fields → Value

  pub data Elements : Type 0 where
    no_items : Elements
    item : Value → Elements → Elements

  pub data Fields : Type 0 where
    no_fields : Fields
    field : String → Value → Fields → Fields

hex_digit : ℕ → String
hex_digit d =
    if ltb d 10
    then decimal d
    else if d == 10
    then "a"
    else if d == 11
    then "b"
    else if d == 12
    then "c"
    else if d == 13
    then "d"
    else if d == 14
    then "e"
    else "f"

-- The escapes of `json.encoder.ESCAPE`: the quote, the backslash and the control characters.
escape_char : Char → String
unfolding hex_digit
escape_char c =
    let n = code c in
    if n == 34
    then "\\\""
    else if n == 92
    then "\\\\"
    else if n == 10
    then "\\n"
    else if n == 13
    then "\\r"
    else if n == 9
    then "\\t"
    else if n == 12
    then "\\f"
    else if n == 8
    then "\\b"
    else if ltb n 32
    then "\\u00" ++ (hex_digit (n / 16) ++ hex_digit (n % 16))
    else String.◌∷◌ c ""

escape : String → String
escape String.[] = ""
escape (String.◌∷◌ c s) = escape_char c ++ escape s

abbrev quote : String → String
quote s = "\"" ++ (escape s ++ "\"")

int_text : ℤ → String
int_text (pos n) = decimal n
int_text (negsuc n) = "-" ++ decimal (suc n)

bool_text : Bool → String
bool_text true = "true"
bool_text false = "false"

unfoldable mutual
  unfolding escape escape_char int_text bool_text

  pub dumps : Value → String
  dumps null = "null"
  dumps (bool b) = bool_text b
  dumps (int n) = int_text n
  dumps (float repr) = repr
  dumps (text s) = quote s
  dumps (array xs) = "[" ++ (dumps_items xs ++ "]")
  dumps (mapping fs) = "{" ++ (dumps_fields fs ++ "}")

  pub dumps_items : Elements → String
  dumps_items no_items = ""
  dumps_items (item x no_items) = dumps x
  dumps_items (item x (item y xs)) = dumps x ++ ("," ++ dumps_items (item y xs))

  pub dumps_fields : Fields → String
  dumps_fields no_fields = ""
  dumps_fields (field k v no_fields) = quote k ++ (":" ++ dumps v)
  dumps_fields (field k v (field j w fs)) =
      quote k ++ (":" ++ (dumps v ++ ("," ++ dumps_fields (field j w fs))))

-- `len(json.dumps(v).encode("utf-8"))`
unfoldable pub encoded_bytes : Value → ℕ
unfolding dumps
encoded_bytes v = len (dumps v)

-- `value.get(key)` of a mapping.
unfoldable pub get_field : String → Fields → Option Value
get_field k no_fields = none
get_field k (field j v fs) = if str_eq j k then some v else get_field k fs

abbrev pub optional_text : Option String → Value
optional_text none = null
optional_text (some s) = text s

dumps_text :
    dumps (mapping (field "a\n" (array (item (int (negsuc 0)) (item null no_items))) no_fields))
    ≡ "{\"a\\n\":[-1,null]}"
unfolding dumps decimal
dumps_text = refl

-- `mapping[key] = value`: a present key keeps its place.
unfoldable pub put_field : String → Value → Fields → Fields
put_field k v no_fields = field k v no_fields
put_field k v (field j w fs) = if str_eq j k then field j v fs else field j w (put_field k v fs)
