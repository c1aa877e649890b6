-- ===== src/Commands/Entries.antt =====
-- codex_command_policy.py: `_entries`, the entries that a payload lists.
use Prim.Native.Char.{code}
use Prim.Native.Nat.{Ordering}
use Prim.Native.String.{◌++◌, compare, count}
use faryo_codex_web_ui.Base.{
  ℕ, ◌*◌, Bool, true, false, not, ◌||◌, ◌&&◌, Option, none, some, List, [], ◌∷◌, map, String,
  str_eq, leb, ltb, ◌==◌, if◌then◌else◌, is_some, any, keep,
}
use faryo_codex_web_ui.Base.Dict.{Dict, get, put}
use faryo_codex_web_ui.Base.Letters.{lower}
use faryo_codex_web_ui.Base.Text.{
  is_lower, is_empty, all_chars, strip, take, has_char, split_at, pos,
}
use faryo_codex_web_ui.Json.{
  Value, Fields, Elements, null, bool, int, float, text, array, mapping, no_items, item, no_fields,
  field, get_field,
}
use faryo_codex_web_ui.Json.Str.{text_or, truthy}
use faryo_codex_web_ui.Commands.Catalog.{CommandEntry}
pub mod Collected
pub mod Names
pub mod Busy

-- `EXACT_COMMAND_RE.fullmatch`
unfoldable pub is_exact_command : String → Bool
unfolding all_chars
is_exact_command (String.◌∷◌ c (String.◌∷◌ d s)) =
    code c == b'/' && is_lower (code d) && all_chars (λ n. is_lower n || n == b'-') s
is_exact_command _ = false

-- `_clean_command`
unfoldable pub clean_command : Option Value → Option String
unfolding is_exact_command
clean_command value =
    let command = lower (strip (text_or "" value)) in
    if is_exact_command command then some command else none

keys : Fields → Elements
keys no_fields = no_items
keys (field k v fs) = item (text k) (keys fs)

-- What `value or []` iterates over: an object gives its keys, and the characters of a text are left out, as none
-- of them is a command. `none` is the TypeError for what cannot be iterated over.
unfoldable pub listed : Option Value → Option Elements
unfolding keys
listed none = some no_items
listed (some (array xs)) = some xs
listed (some (mapping fs)) = some (keys fs)
listed (some (text s)) = some no_items
listed (some null) = some no_items
listed (some v) = if truthy v then none else some no_items

keep_alias : String → Option String → List String → List String
keep_alias command none rest = rest
keep_alias command (some alias) rest = if str_eq alias command then rest else alias ∷ rest

-- The aliases that are commands other than the entry's own.
unfoldable pub clean_aliases : String → Elements → List String
unfolding keep_alias
clean_aliases command no_items = []
clean_aliases command (item value values) =
    keep_alias command (clean_command (some value)) (clean_aliases command values)

texts : List String → Elements
texts [] = no_items
texts (s ∷ ss) = item (text s) (texts ss)

known_aliases : Option CommandEntry → List String
known_aliases none = []
known_aliases (some e) = e.aliases

value_or_texts : Option Value → List String → Option Elements
unfolding texts
value_or_texts none otherwise = some (texts otherwise)
value_or_texts (some v) otherwise = if truthy v then listed (some v) else some (texts otherwise)

-- A field of the known entry, or what stands without one.
known_or : (CommandEntry → String) → String → Option CommandEntry → String
known_or part otherwise none = otherwise
known_or part otherwise (some e) = part e

known_available : Option CommandEntry → Bool
known_available none = false
known_available (some e) = e.available_during_task

-- A Boolean of the payload goes before the known entry's.
available : Option Value → Option CommandEntry → Bool
unfolding known_available
available (some (bool b)) known = b
available _ known = known_available known

-- The entry for a command that was cleaned, with its aliases.
unfoldable pub new_entry : Fields → String → Option CommandEntry → Bool → Elements → CommandEntry
unfolding known_or available
new_entry raw command known allow aliases = record {
  command = command;
  description = take 240 (
      text_or (known_or (λ e. e.description) "New Codex command" known)
        (get_field "description" raw));
  category =
      take 48
        (text_or (known_or (λ e. e.category) "Unclassified" known) (get_field "category" raw));
  behavior = text_or (known_or (λ e. e.behavior) "unclassified" known) (get_field "behavior" raw);
  argument_hint =
      take 80 (text_or (known_or (λ e. e.argument_hint) "" known) (get_field "argumentHint" raw));
  aliases = clean_aliases command aliases;
  available_during_task = allow && available (get_field "availableDuringTask" raw) known;
}

-- A text stands for an object with that command; all else that is no object is passed over.
raw_object : Value → Option Fields
raw_object (text s) = some (field "command" (text s) no_fields)
raw_object (mapping fs) = some fs
raw_object _ = none

cons_to : CommandEntry → Option (List CommandEntry) → Option (List CommandEntry)
cons_to e none = none
cons_to e (some es) = some (e ∷ es)

add_entry :
    Fields
    → String
    → Option CommandEntry
    → Bool
    → Option Elements
    → Option (List CommandEntry)
    → Option (List CommandEntry)
unfolding cons_to
add_entry raw command known allow none rest = none
add_entry raw command known allow (some aliases) rest =
    cons_to (new_entry raw command known allow aliases) rest

-- One item of the loop: `again` is the rest of the loop, for the commands seen.
add_command :
    Dict CommandEntry
    → Bool
    → List String
    → (List String → Option (List CommandEntry))
    → Fields
    → Option String
    → Option (List CommandEntry)
unfolding add_entry value_or_texts known_aliases
add_command known allow seen again raw none = again seen
add_command known allow seen again raw (some command) =
    if any (str_eq command) seen
    then again seen
    else let entry = get command known in
      add_entry raw command entry allow
        (value_or_texts (get_field "aliases" raw) (known_aliases entry)) (again (command ∷ seen))

add_raw :
    Dict CommandEntry
    → Bool
    → List String
    → (List String → Option (List CommandEntry))
    → Option Fields
    → Option (List CommandEntry)
unfolding add_command
add_raw known allow seen again none = again seen
add_raw known allow seen again (some raw) =
    add_command known allow seen again raw (clean_command (get_field "command" raw))

unfoldable pub collect :
    Dict CommandEntry → Bool → List String → Elements → Option (List CommandEntry)
unfolding add_raw raw_object
collect known allow seen no_items = some []
collect known allow seen (item value values) =
    add_raw known allow seen (λ seen'. collect known allow seen' values) (raw_object value)

collect_listed : Dict CommandEntry → Bool → Option Elements → Option (List CommandEntry)
unfolding collect
collect_listed known allow none = none
collect_listed known allow (some values) = collect known allow [] values

-- `_entries`; `none` is the TypeError for commands or aliases that cannot be iterated over.
unfoldable pub entries : Fields → Dict CommandEntry → Bool → Option (List CommandEntry)
unfolding collect_listed
entries payload known allow = collect_listed known allow (listed (get_field "commands" payload))
