-- ===== src/Commands/Catalog/Lookup.antt =====
-- What the index of a catalogue finds under a name.
use faryo_codex_web_ui.Base.{
  ◌≡◌, ◌∙◌, refl, Bool, ◌||◌, Option, none, some, List, [], ◌∷◌, String, str_eq, any, arith,
  if◌then◌else◌, Bool-cases, inl, inr,
}
use faryo_codex_web_ui.Base.Dict.{Dict, get, put, get-put}
use faryo_codex_web_ui.Commands.Catalog.{
  CommandEntry, CommandCatalog, put_aliases, put_entries, by_command,
}

-- An entry goes by its command and its aliases.
abbrev pub carries : String → CommandEntry → Bool
carries k e = str_eq e.command k || any (λ alias. str_eq alias k) e.aliases

abbrev either_entry : Option CommandEntry → Option CommandEntry → Option CommandEntry
either_entry none otherwise = otherwise
either_entry (some e) otherwise = some e

-- The last entry that goes by a name.
unfoldable pub last_named : String → List CommandEntry → Option CommandEntry
last_named k [] = none
last_named k (e ∷ es) = either_entry (last_named k es) (if carries k e then some e else none)

get-put_aliases :
    (k : String) (e : CommandEntry) (aliases : List String) (d : Dict CommandEntry)
    → get k (put_aliases e aliases d)
      ≡ (if any (λ alias. str_eq alias k) aliases then some e else get k d)
unfolding put_aliases any
get-put_aliases k e [] d = refl
get-put_aliases k e (a ∷ more) d =
    rw (get-put_aliases k e more (put a e d), get-put a k e d)
      (elim (Bool-cases (str_eq a k)) [
        | inl here ↦ rw here (ground arith)
        | inr there ↦ rw there refl
      ])

get-put_entries :
    (k : String) (es : List CommandEntry) (d : Dict CommandEntry)
    → get k (put_entries es d) ≡ either_entry (last_named k es) (get k d)
unfolding put_entries last_named
get-put_entries k [] d = refl
get-put_entries k (e ∷ es) d =
    rw
      (
        get-put_entries k es (put_aliases e e.aliases (put e.command e d)),
        get-put_aliases k e e.aliases (put e.command e d),
        get-put e.command k e d,
      )
      (ground arith)

either_entry-none : (o : Option CommandEntry) → either_entry o none ≡ o
either_entry-none none = refl
either_entry-none (some e) = refl

-- The index by command and alias agrees with a search of the entries from the end.
pub get-by_command :
    (k : String) (c : CommandCatalog) → get k (by_command c) ≡ last_named k c.entries
unfolding by_command get
get-by_command k c = get-put_entries k c.entries [] ∙ either_entry-none (last_named k c.entries)
