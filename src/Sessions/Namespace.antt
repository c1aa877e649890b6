-- ===== src/Sessions/Namespace.antt =====
-- session_namespace.py: the short names that the two session backends share. A set of names is a list of
-- which only membership matters.
pub mod Free
use Prim.Native.Char.{code}
use Prim.Native.String.{◌++◌, compare}
use Prim.Native.Nat.{Ordering, lt, eq, gt}
use faryo_codex_web_ui.Base.{
  ℕ, zero, suc, ◌+◌, Bool, true, false, not, ◌||◌, ◌&&◌, Option, none, some, List, [], ◌∷◌,
  ◌++◌ as append, String, str_eq, leb, ◌==◌, if◌then◌else◌, ◌≡◌, refl, length, any, keep,
}
use faryo_codex_web_ui.Base.Text.{after_text, all_chars, is_digit, decimal}

-- `[1-9][0-9]*`
is_positive_decimal : Option String → Bool
is_positive_decimal none = false
is_positive_decimal (some String.[]) = false
is_positive_decimal (some (String.◌∷◌ c s)) =
    leb b'1' (code c) && leb (code c) b'9' && all_chars is_digit s

-- `SESSION_NAME_RE.fullmatch(name)`
unfoldable pub is_session_name : String → Bool
unfolding is_positive_decimal
is_session_name s = is_positive_decimal (after_text "faryo" s)

-- `normalized_names`, of texts
unfoldable pub normalized_names : List String → List String
normalized_names = keep is_session_name

-- `name in names`
abbrev pub has_name : String → List String → Bool
has_name name = any (λ other. str_eq other name)

abbrev pub session_name : ℕ → String
session_name n = "faryo" ++ decimal n

-- The loop of `next_name`: the first number from `n` on whose name is not used, with `fuel` rounds at hand.
search : ℕ → ℕ → List String → ℕ
search zero n used = n
search (suc fuel) n used =
    let later = search fuel (suc n) used in if has_name (session_name n) used then later else n

union : List (List String) → List String
union [] = []
union (names ∷ groups) = append (normalized_names names) (union groups)

next_number : List String → ℕ
unfolding search
next_number used = search (length used) 1 used

-- `next_name`
unfoldable pub next_name : List (List String) → String
unfolding union next_number
next_name groups = session_name (next_number (union groups))

pub data Backend : Type 0 where
  app_server terminal : Backend

pub data Owned : Type 0 where
  owned : Option Backend → Owned
  conflict : Owned

-- `SessionNamespace.owner`, given what the two callbacks return.
unfoldable pub owner : List String → List String → String → Owned
owner terminal_names app_server_names name =
    let in_terminal = has_name name (normalized_names terminal_names) in
    let in_app_server = has_name name (normalized_names app_server_names) in
    if in_terminal && in_app_server
    then conflict
    else if in_app_server
    then owned (some app_server)
    else if in_terminal
    then owned (some terminal)
    else owned none

-- `SessionNamespace.collisions`
unfoldable pub collisions : List String → List String → List String
collisions terminal_names app_server_names =
    keep (λ name. has_name name (normalized_names app_server_names))
      (normalized_names terminal_names)

insert_name : String → List String → List String
insert_name name [] = name ∷ []
insert_name name (other ∷ names) =
    let rest = insert_name name names in
    elim (compare name other) [ lt ↦ name ∷ other ∷ names | eq ↦ other ∷ names | gt ↦ other ∷ rest ]

-- `sorted(set)`
unfoldable pub sorted_names : List String → List String
unfolding insert_name
sorted_names [] = []
sorted_names (name ∷ names) = insert_name name (sorted_names names)

-- `SessionNamespace.reserved_for_terminal` and `reserved_for_app_server`, of the other backend's names.
unfoldable pub reserved : List String → List String
reserved names = sorted_names (normalized_names names)

name_tests :
    (is_session_name "faryo10" ≡ true)
    × (is_session_name "faryo01" ≡ false)
    × (next_name (("faryo1" ∷ "faryo3" ∷ []) ∷ ("faryo2" ∷ "x" ∷ []) ∷ []) ≡ "faryo4")
    × (reserved ("faryo2" ∷ "faryo10" ∷ "faryo2" ∷ []) ≡ "faryo10" ∷ "faryo2" ∷ [])
    × (owner ("faryo1" ∷ []) [] "faryo1" ≡ owned (some terminal))
unfolding is_session_name next_name reserved owner after_text all_chars decimal any keep
    normalized_names sorted_names
name_tests = (refl, refl, refl, refl, refl)
