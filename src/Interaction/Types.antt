-- ===== src/Interaction/Types.antt =====
-- interaction_types.py: what the detector finds on the screen, and its fingerprint.
use faryo_codex_web_ui.Base.{ℕ, suc, Bool, Option, none, some, List, [], ◌∷◌, String, if◌then◌else◌}
use faryo_codex_web_ui.Base.Text.{pos}
use faryo_codex_web_ui.Json.{
  Value, Elements, null, bool, int, text, array, mapping, no_items, item, no_fields, field, dumps,
}

pub record InteractionOption : Type 0 where
  pub key : String
  pub label : String
  pub description : String
  pub selected : Bool
  pub current : Bool
  pub disabled : Bool
  pub ordinal : Option ℕ

pub record DetectedInteraction : Type 0 where
  pub kind : String
  pub title : String
  pub prompt : String
  pub options : List InteractionOption
  pub actions : List String
  pub source : String

unfoldable pub one_later : Option ℕ → Option ℕ
one_later none = none
one_later (some n) = some (suc n)

-- The index of the first option that passes a test.
unfoldable pub first_index {ℓ} : {A : Type ℓ} → (A → Bool) → List A → Option ℕ
unfolding one_later
first_index p [] = none
first_index p (x ∷ xs) = if p x then some 0 else one_later (first_index p xs)

-- `selected_index`
unfoldable pub selected_index : DetectedInteraction → Option ℕ
unfolding first_index
selected_index d = first_index (λ o. o.selected) d.options

optional_number : Option ℕ → Value
optional_number none = null
optional_number (some n) = int (pos n)

-- `signature_value`, with the keys in the order of `sort_keys`.
signature_value : InteractionOption → Value
unfolding optional_number
signature_value o = mapping (
    field "current" (bool o.current) (
      field "description" (text o.description) (
        field "disabled" (bool o.disabled) (
          field "key" (text o.key) (
            field "label" (text o.label) (
              field "ordinal" (optional_number o.ordinal)
                (field "selected" (bool o.selected) no_fields)))))))

signatures : List InteractionOption → Elements
unfolding signature_value
signatures [] = no_items
signatures (o ∷ os) = item (signature_value o) (signatures os)

action_items : List String → Elements
action_items [] = no_items
action_items (a ∷ more) = item (text a) (action_items more)

-- `fingerprint`
unfoldable pub fingerprint : (String → String) → DetectedInteraction → String
unfolding signatures action_items dumps
fingerprint sha256 d = sha256 (
    dumps (
      mapping (
        field "actions" (array (action_items d.actions)) (
          field "kind" (text d.kind) (
            field "options" (array (signatures d.options)) (
              field "prompt" (text d.prompt)
                (field "source" (text d.source) (field "title" (text d.title) no_fields))))))))
