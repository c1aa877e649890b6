-- ===== src/Commands/Entries/Collected.antt =====
-- Induction on the loop that collects the entries of a payload.
use faryo_codex_web_ui.Base.{
  ◌≡◌, refl, Bool, true, false, Option, none, some, List, [], ◌∷◌, String, str_eq, any, subst,
  Bool-cases, inl, inr,
}
use faryo_codex_web_ui.Base.Dict.{Dict, get}
use faryo_codex_web_ui.Json.{Value, Fields, Elements, no_items, item, get_field}
use faryo_codex_web_ui.Json.Str.{text_or}
use faryo_codex_web_ui.Base.Letters.{lower}
use faryo_codex_web_ui.Base.Text.{strip}
use faryo_codex_web_ui.Commands.Catalog.{CommandEntry}
use faryo_codex_web_ui.Commands.Entries.{
  is_exact_command, clean_command, new_entry, cons_to, add_entry, add_command, add_raw, raw_object,
  collect, entries, collect_listed, listed,
}

-- A cleaned command has the form of one.
pub clean_command-exact :
    (value : Option Value) (command : String)
    → clean_command value ≡ some command
    → is_exact_command command ≡ true
unfolding clean_command
clean_command-exact value command same =
    elim (Bool-cases (is_exact_command (lower (strip (text_or "" value))))) [
      | inl exact ↦
          let equal : some (lower (strip (text_or "" value))) ≡ some command = rw exact at same in
          let s : lower (strip (text_or "" value)) ≡ command = cc equal in
          subst (λ c. is_exact_command c ≡ true) s exact
      | inr other ↦ let never : none ≡ some command = rw other at same in cc never
    ]

module _ (known : Dict CommandEntry) (allow : Bool)
    (Holds : List String → List CommandEntry → Type 0)
    (start : (seen : List String) → Holds seen [])
    (step : (seen : List String) (raw : Fields) (command : String) (entry : Option CommandEntry)
        (aliases : Elements) (es : List CommandEntry)
      → is_exact_command command ≡ true
      → any (str_eq command) seen ≡ false
      → Holds (command ∷ seen) es
      → Holds seen (new_entry raw command entry allow aliases ∷ es)) where
  Gives : List String → Option (List CommandEntry) → Type 0
  Gives seen result = (es : List CommandEntry) → result ≡ some es → Holds seen es

  add_entry-Gives :
      (seen : List String) (raw : Fields) (command : String) (entry : Option CommandEntry)
      (aliases : Option Elements) (rest : Option (List CommandEntry))
      → is_exact_command command ≡ true
      → any (str_eq command) seen ≡ false
      → Gives (command ∷ seen) rest
      → Gives seen (add_entry raw command entry allow aliases rest)
  unfolding Gives add_entry cons_to
  add_entry-Gives seen raw command entry none rest exact new h es same = cc same
  add_entry-Gives seen raw command entry (some aliases) none exact new h es same = cc same
  add_entry-Gives seen raw command entry (some aliases) (some ds) exact new h es same =
      let equal : new_entry raw command entry allow aliases ∷ ds ≡ es = cc same in
      subst (Holds seen) equal (step seen raw command entry aliases ds exact new (h ds refl))

  add_command-Gives :
      (seen : List String) (again : List String → Option (List CommandEntry)) (raw : Fields)
      (command : Option String)
      → ((c : String) → command ≡ some c → is_exact_command c ≡ true)
      → ((seen' : List String) → Gives seen' (again seen'))
      → Gives seen (add_command known allow seen again raw command)
  unfolding add_command
  add_command-Gives seen again raw none exact h = h seen
  add_command-Gives seen again raw (some c) exact h = elim (Bool-cases (any (str_eq c) seen)) [
    | inl old ↦ rw old (h seen)
    | inr new ↦
        rw new (add_entry-Gives seen raw c (get c known) _ _ (exact c refl) new (h (c ∷ seen)))
  ]

  add_raw-Gives :
      (seen : List String) (again : List String → Option (List CommandEntry)) (raw : Option Fields)
      → ((seen' : List String) → Gives seen' (again seen'))
      → Gives seen (add_raw known allow seen again raw)
  unfolding add_raw
  add_raw-Gives seen again none h = h seen
  add_raw-Gives seen again (some raw) h =
      add_command-Gives seen again raw _ (clean_command-exact (get_field "command" raw)) h

  collect-Gives :
      (seen : List String) (values : Elements) → Gives seen (collect known allow seen values)
  unfolding collect Gives
  collect-Gives seen no_items es same =
      let equal : [] ≡ es = cc same in subst (Holds seen) equal (start seen)
  collect-Gives seen (item value values) es same =
      add_raw-Gives seen (λ s. collect known allow s values) (raw_object value)
        (λ s. collect-Gives s values) es same

  collect_listed-Gives : (values : Option Elements) → Gives [] (collect_listed known allow values)
  unfolding collect_listed Gives
  collect_listed-Gives none es same = cc same
  collect_listed-Gives (some values) es same = collect-Gives [] values es same

  -- What holds at the end of the loop, and is kept by each entry added, holds of the entries of a payload.
  pub entries_induction :
      (payload : Fields) (es : List CommandEntry)
      → entries payload known allow ≡ some es
      → Holds [] es
  unfolding entries Gives
  entries_induction payload es same =
      collect_listed-Gives (listed (get_field "commands" payload)) es same
