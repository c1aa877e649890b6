-- ===== src/Commands/AppServer/Usage.antt =====
-- appserver_commands.py: `_usage_prompt`, and the prompt of a goal.
use Prim.Native.String.{◌++◌}
use faryo_codex_web_ui.Base.{
  ℕ, zero, suc, ◌/◌, ◌%◌, ◌≡◌, refl, Bool, true, false, Option, none, some, List, [], ◌∷◌,
  ◌++◌ as append, String, ltb, if◌then◌else◌,
}
use faryo_codex_web_ui.Base.Letters.{title}
use faryo_codex_web_ui.Base.Text.{join, is_empty, decimal, strip, ℤ, pos, negsuc}
use faryo_codex_web_ui.Json.{Value, Fields, bool, int, float, mapping, no_fields, field, get_field}
use faryo_codex_web_ui.Json.Str.{text_or}

three_digits : ℕ → String
three_digits n = decimal (n / 100) ++ (decimal (n / 10 % 10) ++ decimal (n % 10))

-- `f"{n:,}"`, with as many rounds at hand as `n`.
grouped : ℕ → ℕ → String
unfolding three_digits
grouped zero n = decimal n
grouped (suc rounds) n =
    let more = grouped rounds (n / 1000) in
    if ltb n 1000 then decimal n else more ++ ("," ++ three_digits (n % 1000))

grouped_int : ℤ → String
unfolding grouped
grouped_int (pos n) = grouped n n
grouped_int (negsuc n) = "-" ++ grouped (suc n) (suc n)

-- The text of a value that is an `int`, as a Boolean is.
grouped_value : Option Value → Option String
unfolding grouped_int
grouped_value (some (int n)) = some (grouped_int n)
grouped_value (some (bool b)) = some (if b then "1" else "0")
grouped_value _ = none

-- `isinstance(value, (int, float))`
is_number : Value → Bool
is_number (int n) = true
is_number (float shown) = true
is_number (bool b) = true
is_number _ = false

used_part : (Value → String) → String → Option Value → List String
unfolding is_number
used_part one_decimal label none = []
used_part one_decimal label (some v) =
    if is_number v then (label ++ (": " ++ (one_decimal v ++ "% used"))) ∷ [] else []

window_part : (Value → String) → String → Option Value → List String
unfolding used_part
window_part one_decimal label (some (mapping window)) =
    used_part one_decimal label (get_field "usedPercent" window)
window_part one_decimal label _ = []

snapshot_parts : (Value → String) → Option Value → List String
unfolding window_part
snapshot_parts one_decimal (some (mapping snapshot)) =
    append (window_part one_decimal "Current window" (get_field "primary" snapshot))
      (window_part one_decimal "Weekly window" (get_field "secondary" snapshot))
snapshot_parts one_decimal _ = []

-- The limits by their ids, or those of an older server.
snapshot_of : Fields → Option Value → Option Value
snapshot_of limits (some (mapping snapshots)) = get_field "codex" snapshots
snapshot_of limits _ = get_field "rateLimits" limits

limit_parts : (Value → String) → Value → List String
unfolding snapshot_parts snapshot_of
limit_parts one_decimal (mapping limits) =
    snapshot_parts one_decimal (snapshot_of limits (get_field "rateLimitsByLimitId" limits))
limit_parts one_decimal _ = []

lifetime_part : Option String → List String
lifetime_part none = []
lifetime_part (some tokens) = ("Lifetime tokens: " ++ tokens) ∷ []

summary_parts : Option Value → List String
unfolding lifetime_part grouped_value
summary_parts (some (mapping summary)) =
    lifetime_part (grouped_value (get_field "lifetimeTokens" summary))
summary_parts _ = []

usage_parts : Value → List String
unfolding summary_parts
usage_parts (mapping usage) = summary_parts (get_field "summary" usage)
usage_parts _ = []

-- `_usage_prompt`
unfoldable pub usage_prompt : (Value → String) → Value → Value → String
unfolding limit_parts usage_parts
usage_prompt one_decimal rate_limits usage =
    let prompt = join " · " (append (limit_parts one_decimal rate_limits) (usage_parts usage)) in
    if is_empty prompt then "Usage details are currently unavailable." else prompt

goal_text : Fields → String
goal_text goal =
    let status = title (text_or "active" (get_field "status" goal)) in
    let objective = strip (text_or "" (get_field "objective" goal)) in
    if is_empty objective then status else status ++ (": " ++ objective)

goal_of : Option Value → String
unfolding goal_text
goal_of (some (mapping goal)) = goal_text goal
goal_of _ = "No active goal."

-- The prompt of `/goal`.
unfoldable pub goal_prompt : Value → String
unfolding goal_of
goal_prompt (mapping result) = goal_of (get_field "goal" result)
goal_prompt _ = goal_of none

usage_test :
    usage_prompt
      (λ v. "12.5")
      (mapping (
        field "rateLimits"
          (mapping
            (field "primary" (mapping (field "usedPercent" (float "12.5") no_fields)) no_fields))
          no_fields))
      (mapping (
        field "summary" (mapping (field "lifetimeTokens" (int (pos 1234007)) no_fields)) no_fields))
    ≡ "Current window: 12.5% used · Lifetime tokens: 1,234,007"
unfolding join usage_prompt get_field decimal is_empty
usage_test = refl
