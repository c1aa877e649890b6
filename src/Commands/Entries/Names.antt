-- ===== src/Commands/Entries/Names.antt =====
-- The names of the entries that a payload lists.
use faryo_codex_web_ui.Base.{
  ◌≡◌, refl, Bool, true, false, Option, none, some, List, [], ◌∷◌, String, str_eq, any, Every,
  Bool-cases, inl, inr,
}
use faryo_codex_web_ui.Base.Dict.{Dict}
use faryo_codex_web_ui.Json.{Fields, Elements, no_items, item}
use faryo_codex_web_ui.Commands.Catalog.{CommandEntry}
use faryo_codex_web_ui.Commands.Entries.{
  is_exact_command, clean_command, keep_alias, clean_aliases, new_entry, entries,
}
use faryo_codex_web_ui.Commands.Entries.Collected.{entries_induction, clean_command-exact}

-- An alias is a command other than the entry's own.
abbrev pub IsAlias : String → String → Type 0
IsAlias command alias = (is_exact_command alias ≡ true) × (str_eq alias command ≡ false)

abbrev pub IsNamed : CommandEntry → Type 0
IsNamed e = (is_exact_command e.command ≡ true) × Every (IsAlias e.command) e.aliases

-- No command stands twice, or among those seen before.
abbrev pub Distinct : List String → List CommandEntry → Type 0
Distinct seen [] = Unit
Distinct seen (e ∷ es) = (any (str_eq e.command) seen ≡ false) × Distinct (e.command ∷ seen) es

keep_alias-Every :
    (command : String) (alias : Option String) (rest : List String)
    → ((a : String) → alias ≡ some a → is_exact_command a ≡ true)
    → Every (IsAlias command) rest
    → Every (IsAlias command) (keep_alias command alias rest)
unfolding keep_alias
keep_alias-Every command none rest exact h = h
keep_alias-Every command (some a) rest exact h = elim (Bool-cases (str_eq a command)) [
  | inl own ↦ rw own h
  | inr other ↦ rw other ((exact a refl, other), h)
]

clean_aliases-Every :
    (command : String) (values : Elements) → Every (IsAlias command) (clean_aliases command values)
unfolding clean_aliases
clean_aliases-Every command no_items = tt
clean_aliases-Every command (item value values) =
    keep_alias-Every command (clean_command (some value)) (clean_aliases command values)
      (clean_command-exact (some value)) (clean_aliases-Every command values)

-- The entries of any payload have commands and aliases of the exact form, and no two have the same command.
pub entries-Distinct :
    (payload : Fields) (known : Dict CommandEntry) (allow : Bool) (es : List CommandEntry)
    → entries payload known allow ≡ some es
    → Every IsNamed es × Distinct [] es
unfolding new_entry
entries-Distinct payload known allow es same =
    entries_induction known allow (λ seen ds. Every IsNamed ds × Distinct seen ds)
      (λ seen. (tt, tt))
      (λ seen raw command entry aliases ds exact new h.
        (((exact, clean_aliases-Every command aliases), h.0), (new, h.1)))
      payload es same
