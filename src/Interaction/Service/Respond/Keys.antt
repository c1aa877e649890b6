-- ===== src/Interaction/Service/Respond/Keys.antt =====
-- The keys of an answer, on a menu that has as many entries as the interaction has options.
use faryo_codex_web_ui.Base.{
  ℕ, zero, suc, ◌+◌, ◌-◌, ◌<◌, ◌≡◌, refl, Bool, true, false, Option, none, some, List, [], ◌∷◌,
  ◌++◌ as append, String, str_eq, ltb, if◌then◌else◌, arith, Bool-cases, inl, inr, ltb→lt, length,
  subst,
}
use faryo_codex_web_ui.Base.Text.{is_empty}
use faryo_codex_web_ui.Program.{Outcome, returns, raises}
use faryo_codex_web_ui.Interaction.Types.{
  DetectedInteraction, one_later, first_index, selected_index,
}
use faryo_codex_web_ui.Interaction.Runtime.{PublicOption, PublicInteraction, InteractionError}
use faryo_codex_web_ui.Interaction.Service.Respond.{
  repeat, keys_between, nth, keys_to, keys_at, keys_for_option, keys_for_response,
}

-- The entry that the keys take on a menu of `n` entries, from a cursor on; none where they leave the menu.
unfoldable pub taken : ℕ → ℕ → List String → Option ℕ
taken n cursor [] = none
taken n cursor (key ∷ keys) =
    let above = taken n (cursor - 1) keys in
    let below = taken n (suc cursor) keys in
    if str_eq key "Enter"
    then some cursor
    else if str_eq key "Up"
    then if ltb 0 cursor then above else none
    else if str_eq key "Down"
    then if ltb (suc cursor) n then below else none
    else none

below_last : (cursor k n : ℕ) → cursor + suc k < n → ltb (suc cursor) n ≡ true
below_last cursor k n inside = ground (arith, inside)

above_first : (cursor k : ℕ) → ltb 0 (cursor + suc k) ≡ true
above_first cursor k = ground arith

one_up : (cursor k : ℕ) → cursor + suc k - 1 ≡ cursor + k
one_up cursor k = omega arith

back : (selected wanted : ℕ) → ltb selected wanted ≡ false → wanted + (selected - wanted) ≡ selected
back selected wanted after = ground (arith, after)

here : (a b : ℕ) → a ≡ b → some a ≡ some b
here a b same = rw same refl

later : (a b : ℕ) (found : Option ℕ) → found ≡ some a → a ≡ b → found ≡ some b
later a b found same eq = rw (same, eq) refl

module _ (n : ℕ) where
  taken-downs :
      (k cursor : ℕ)
      → cursor + k < n
      → taken n cursor (append (repeat k "Down") ("Enter" ∷ [])) ≡ some (cursor + k)
  unfolding taken repeat
  taken-downs zero cursor inside = here cursor (cursor + 0) (omega arith)
  taken-downs (suc k) cursor inside = rw (below_last cursor k n inside) (
      later (suc cursor + k) (cursor + suc k) _ (taken-downs k (suc cursor) (omega (arith, inside)))
        (omega arith))

  taken-ups :
      (k cursor : ℕ) → taken n (cursor + k) (append (repeat k "Up") ("Enter" ∷ [])) ≡ some cursor
  unfolding taken repeat
  taken-ups zero cursor = here (cursor + 0) cursor (omega arith)
  taken-ups (suc k) cursor = rw (above_first cursor k, one_up cursor k) (taken-ups k cursor)

  -- The keys move the cursor to the wanted entry and take it, inside the menu all the way.
  taken-keys_between :
      (selected wanted : ℕ)
      → wanted < n
      → taken n selected (keys_between selected wanted) ≡ some wanted
  unfolding keys_between
  taken-keys_between selected wanted inside = elim (Bool-cases (ltb selected wanted)) [
    | inl before ↦ rw before (
        subst
          (λ i.
            taken n selected (append (repeat (wanted - selected) "Down") ("Enter" ∷ [])) ≡ some i)
          (omega (arith, ltb→lt selected wanted before))
          (taken-downs (wanted - selected) selected
            (omega (arith, ltb→lt selected wanted before, inside))))
    | inr after ↦ rw after (
        subst
          (λ i. taken n i (append (repeat (selected - wanted) "Up") ("Enter" ∷ [])) ≡ some wanted)
          (back selected wanted after) (taken-ups (selected - wanted) wanted))
  ]

module _ {A : Type 0} (p : A → Bool) where
  one_later-lt :
      (found : Option ℕ) (i n : ℕ)
      → ((j : ℕ) → found ≡ some j → j < n)
      → one_later found ≡ some i
      → i < suc n
  unfolding one_later
  one_later-lt none i n inside same = cc same
  one_later-lt (some j) i n inside same =
      let equal : suc j ≡ i = cc same in omega (arith, equal, inside j refl)

  first_index-lt : (xs : List A) (i : ℕ) → first_index p xs ≡ some i → i < length xs
  unfolding first_index
  first_index-lt [] i same = cc same
  first_index-lt (x ∷ xs) i same = elim (Bool-cases (p x)) [
    | inl first ↦
        let zeroth : some 0 ≡ some i = rw first at same in
        let at_0 : i ≡ 0 = cc zeroth in omega (arith, at_0)
    | inr other ↦
        one_later-lt (first_index p xs) i (length xs) (first_index-lt xs) (rw other at same)
  ]

-- What an option's answer does: the entry with the option's id is taken, and it is not disabled.
pub record Takes (payload : PublicInteraction) (d : DetectedInteraction) (option_id : String)
    (keys : List String) : Type 0 where
  pub selected : ℕ
  pub wanted : ℕ
  pub option : PublicOption
  pub is_selected : selected_index d ≡ some selected
  pub is_first : first_index (λ o. str_eq o.id option_id) payload.options ≡ some wanted
  pub stands : nth wanted payload.options ≡ some option
  pub enabled : option.disabled ≡ false
  pub entry_taken : taken (length payload.options) selected keys ≡ some wanted

abbrev Picked :
    PublicInteraction
    → DetectedInteraction
    → String
    → Outcome InteractionError (List String)
    → Type 0
Picked payload d option_id (returns keys) = Takes payload d option_id keys
Picked payload d option_id (raises e) = Unit

module _ (payload : PublicInteraction) (d : DetectedInteraction) (option_id : String) (wanted : ℕ)
    (is_first : first_index (λ o. str_eq o.id option_id) payload.options ≡ some wanted) where
  keys_to-Picked :
      (o : PublicOption) (selected : Option ℕ)
      → nth wanted payload.options ≡ some o
      → o.disabled ≡ false
      → selected_index d ≡ selected
      → Picked payload d option_id (keys_to wanted selected)
  unfolding keys_to
  keys_to-Picked o none stands enabled same = tt
  keys_to-Picked o (some selected) stands enabled same = record {
    selected = selected;
    wanted = wanted;
    option = o;
    is_selected = same;
    is_first = is_first;
    stands = stands;
    enabled = enabled;
    entry_taken =
        taken-keys_between (length payload.options) selected wanted
          (first_index-lt (λ o. str_eq o.id option_id) payload.options wanted is_first);
  }

  keys_at-Picked :
      (found : Option PublicOption)
      → nth wanted payload.options ≡ found
      → Picked payload d option_id (keys_at d wanted found)
  unfolding keys_at
  keys_at-Picked none stands = tt
  keys_at-Picked (some o) stands = elim (Bool-cases o.disabled) [
    | inl disabled ↦ rw disabled tt
    | inr enabled ↦ rw enabled (keys_to-Picked o (selected_index d) stands enabled refl)
  ]

keys_for_option-Picked :
    (payload : PublicInteraction) (d : DetectedInteraction) (option_id : String) (wanted : Option ℕ)
    → first_index (λ o. str_eq o.id option_id) payload.options ≡ wanted
    → Picked payload d option_id (keys_for_option payload d wanted)
unfolding keys_for_option
keys_for_option-Picked payload d option_id none same = tt
keys_for_option-Picked payload d option_id (some wanted) same =
    keys_at-Picked payload d option_id wanted same (nth wanted payload.options) refl

returned-Takes :
    (payload : PublicInteraction) (d : DetectedInteraction) (option_id : String)
    (keys : List String) (result : Outcome InteractionError (List String))
    → Picked payload d option_id result
    → result ≡ returns keys
    → Takes payload d option_id keys
returned-Takes payload d option_id keys (returns given) h same =
    let equal : given ≡ keys = cc same in subst (Takes payload d option_id) equal h
returned-Takes payload d option_id keys (raises e) h same = cc same

-- An answer that names an option: the keys that are sent move the cursor of a menu with as many entries, from the
-- selected one on, to the first entry with that id and take it, never leaving the menu; and that entry is enabled.
pub keys_for_response-Takes :
    (payload : PublicInteraction) (d : DetectedInteraction) (action option_id : String)
    (keys : List String)
    → is_empty option_id ≡ false
    → keys_for_response payload d action option_id ≡ returns keys
    → Takes payload d option_id keys
unfolding keys_for_response
keys_for_response-Takes payload d action option_id keys named sent =
    let option_keys : keys_for_option payload d
          (first_index (λ o. str_eq o.id option_id) payload.options)
        ≡ returns keys =
      rw named at sent in
    returned-Takes payload d option_id keys _
      (keys_for_option-Picked payload d option_id
        (first_index (λ o. str_eq o.id option_id) payload.options) refl)
      option_keys
