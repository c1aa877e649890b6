-- ===== src/Timeline/Command.antt =====
-- command_timeline.py: reading an invocation, its safe metadata, its label and its summary.
use Prim.Native.Char.{code}
use Prim.Native.String.{◌++◌, count}
use faryo_codex_web_ui.Base.{
  ℕ, Bool, true, false, not, ◌||◌, ◌&&◌, Option, none, some, String, str_eq, leb, ltb, ◌==◌,
  if◌then◌else◌, ◌≡◌, refl,
}
use faryo_codex_web_ui.Base.Letters.{lower, title}
use faryo_codex_web_ui.Base.Text.{
  take, strip, replace_char, split_at, has_char, is_empty, all_chars, is_lower, is_whitespace,
}
use faryo_codex_web_ui.Json.{Value, text}
use faryo_codex_web_ui.Json.Str.{text_or, truthy, to_text}

pub data CommandStatus : Type 0 where
  running waiting completed failed : CommandStatus

abbrev pub max_summary_chars : ℕ
max_summary_chars = 360

abbrev pub max_title_chars : ℕ
max_title_chars = 240

-- `COMMAND_RE.fullmatch(name)`: a slash, a lower case letter, then such letters and dashes.
letters_match : String → Bool
unfolding all_chars
letters_match String.[] = false
letters_match (String.◌∷◌ c s) = is_lower (code c) && all_chars (λ n. is_lower n || n == b'-') s

unfoldable pub is_command : String → Bool
unfolding letters_match
is_command String.[] = false
is_command (String.◌∷◌ c s) = code c == b'/' && letters_match s

breaks_line : String → Bool
breaks_line s = has_char 10 s || has_char 13 s || has_char 0 s

-- `command_parts`: the lowered name and the stripped argument.
unfoldable pub command_parts : Option Value → Option (String × String)
unfolding breaks_line is_command
command_parts invocation =
    let line = strip (text_or "" invocation) in
    let (name, argument) = split_at (λ n. n == 32) line in
    if is_empty line || ltb 4096 (count line) || breaks_line line
    then none
    else if is_command (lower name)
    then some (lower name, strip argument)
    else none

abbrev is_not_durable : String → Bool
is_not_durable name =
    str_eq name "/diff"
    || str_eq name "/help"
    || str_eq name "/mcp"
    || str_eq name "/status"
    || str_eq name "/usage"

durable_parts : Option (String × String) → Bool
durable_parts none = false
durable_parts (some (name, argument)) =
    if str_eq name "/goal" then not (is_empty argument) else not (is_not_durable name)

unfoldable pub command_is_durable : Option Value → Bool
unfolding durable_parts
command_is_durable invocation = durable_parts (command_parts invocation)

durable_parts-some :
    (o : Option (String × String))
    → durable_parts o ≡ true
    → (parts : String × String) × (o ≡ some parts)
unfolding durable_parts
durable_parts-some none h = cc
durable_parts-some (some parts) h = (parts, refl)

-- A durable command parses.
pub command_parts-durable :
    (invocation : Option Value)
    → command_is_durable invocation ≡ true
    → (parts : String × String) × (command_parts invocation ≡ some parts)
unfolding command_is_durable
command_parts-durable invocation h = durable_parts-some (command_parts invocation) h

-- The keys that metadata may have; each is left out or has a value.
pub record Metadata : Type 0 where
  pub title : Option String
  pub selection : Option String
  pub action : Option String
  pub enabled : Option Bool

abbrev pub no_metadata : Metadata
no_metadata = record { title = none; selection = none; action = none; enabled = none }

unfoldable pub safe_selection : String → Bool
unfolding breaks_line
safe_selection value = not (is_empty value) && leb (count value) 160 && not (breaks_line value)

abbrev pub is_control_verb : String → Bool
is_control_verb verb = str_eq verb "clear" || str_eq verb "pause" || str_eq verb "resume"

-- `_safe_argument`: of a goal's objective nothing is kept but a control verb.
unfoldable pub safe_argument : String → String → Metadata
safe_argument name argument =
    let verb = lower (split_at is_whitespace argument).0 in
    if is_empty argument
    then no_metadata
    else if str_eq name "/rename"
    then record no_metadata { title = some (take max_title_chars argument) }
    else if (str_eq name "/model" || str_eq name "/permissions") && safe_selection argument
    then record no_metadata { selection = some argument }
    else if str_eq name "/goal" && is_control_verb verb
    then record no_metadata { action = some verb }
    else no_metadata

-- `name.removeprefix("/")`
without_slash : String → String
without_slash String.[] = ""
without_slash (String.◌∷◌ c s) = if code c == b'/' then s else String.◌∷◌ c s

abbrev or_else : String → String → String
or_else s fallback = if is_empty s then fallback else s

-- `command_label`
unfoldable pub command_label : String → String
unfolding without_slash
command_label name =
    if str_eq name "/compact"
    then "Compact context"
    else if str_eq name "/fast"
    then "Response speed"
    else if str_eq name "/goal"
    then "Goal"
    else if str_eq name "/model"
    then "Model"
    else if str_eq name "/permissions"
    then "Permissions"
    else if str_eq name "/rename"
    then "Conversation title"
    else or_else (title (replace_char b'-' " " (without_slash name))) "Codex command"

running_summary : String → String
running_summary name =
    if str_eq name "/compact"
    then "Compacting context…"
    else if str_eq name "/fast"
    then "Changing response speed…"
    else if str_eq name "/goal"
    then "Updating goal…"
    else if str_eq name "/model"
    then "Opening model selection…"
    else if str_eq name "/permissions"
    then "Opening permissions selection…"
    else if str_eq name "/rename"
    then "Renaming conversation…"
    else "Running " ++ (name ++ "…")

waiting_summary : String → String
waiting_summary name =
    if str_eq name "/model"
    then "Choose a model"
    else if str_eq name "/permissions"
    then "Choose a permissions profile"
    else command_label name ++ " is waiting for input"

-- `str(values.get(key) or "").strip()`
stripped : Option String → String
stripped none = ""
stripped (some s) = strip s

-- A sentence about a value, or one without it.
about : String → String → String → String → String
about before value behind without = if is_empty value then without else before ++ (value ++ behind)

abbrev text_of : Option String → String
text_of none = ""
text_of (some s) = s

abbrev fast_summary : Option Bool → String
fast_summary none = "Response speed updated"
fast_summary (some true) = "Fast responses enabled"
fast_summary (some false) = "Fast responses disabled"

completed_summary : String → Metadata → String
unfolding stripped about
completed_summary name values =
    if str_eq (text_of values.action) "cancel"
    then command_label name ++ " selection cancelled"
    else if str_eq name "/rename"
    then about "Renamed conversation to “" (stripped values.title) "”" "Renamed conversation"
    else if str_eq name "/model"
    then about "Switched model to " (stripped values.selection) "" "Model selection completed"
    else if str_eq name "/permissions"
    then about "Permissions set to " (stripped values.selection) ""
        "Permissions selection completed"
    else if str_eq name "/fast"
    then fast_summary values.enabled
    else if str_eq name "/compact"
    then "Context compaction requested"
    else if str_eq name "/goal"
    then about "Goal " (stripped values.action) " requested" "Goal updated"
    else "Completed " ++ name

-- `command_summary`: the error's own text is never shown.
unfoldable pub command_summary : String → CommandStatus → Metadata → String
unfolding running_summary waiting_summary completed_summary
command_summary name failed values = command_label name ++ " failed"
command_summary name running values = running_summary name
command_summary name waiting values = waiting_summary name
command_summary name completed values = completed_summary name values

parts_tests :
    (command_parts (some (text " /Goal  pause now ")) ≡ some ("/goal", "pause now"))
    × (command_parts (some (text "/9")) ≡ none)
    × (safe_argument "/goal" "Pause now" ≡ record no_metadata { action = some "pause" })
    × (safe_argument "/goal" "ship it" ≡ no_metadata)
    × (command_label "/ask-user" ≡ "Ask User")
unfolding command_parts safe_argument command_label text_or truthy to_text is_empty strip lower
    split_at has_char title replace_char take
parts_tests = (refl, refl, refl, refl, refl)
