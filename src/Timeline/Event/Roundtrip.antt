-- ===== src/Timeline/Event/Roundtrip.antt =====
-- command_timeline.py: an event that the store wrote is read back.
use Prim.Native.String.{count}
use faryo_codex_web_ui.Base.{
  ℕ, ◌≡◌, refl, ◌∙◌, eq_refl, Bool, true, false, ◌||◌, Option, none, some, String, str_eq, arith,
  leb, Bool-cases, inl, inr,
}
use faryo_codex_web_ui.Base.Text.{take, is_empty, is_request_id, pos}
use faryo_codex_web_ui.Json.{Value, Fields, int, text, no_fields, get_field}
use faryo_codex_web_ui.Json.Str.{text_or, truthy, to_text}
use faryo_codex_web_ui.Json.Read.{Whole, number, time_field, to_int}
use faryo_codex_web_ui.Timeline.Command.{
  CommandStatus, running, waiting, completed, failed, Metadata, is_command, is_control_verb,
  safe_selection, command_label, max_title_chars, max_summary_chars,
}
use faryo_codex_web_ui.Timeline.Event.{
  CommandEvent, status_text, parse_status, clean_title, clean_selection, clean_action,
  clean_enabled, clean_fields, clean_metadata, is_hashable, is_event_id, is_digest, taken, event_of,
  event_times, event_status, valid_event, optional_field, text_value, bool_value, metadata_value,
  event_value,
}

-- What the store lets into metadata.
pub record IsClean (m : Metadata) : Type 0 where
  pub title : (s : String) → m.title ≡ some s → take max_title_chars s ≡ s
  pub selection : (s : String) → m.selection ≡ some s → safe_selection s ≡ true
  pub action : (s : String) → m.action ≡ some s → (is_control_verb s || str_eq s "cancel") ≡ true

-- An event that the file may hold.
pub record IsStorable (e : CommandEvent) : Type 0 where
  pub id : is_event_id e.id ≡ true
  pub owned : is_empty e.owner_key ≡ false
  pub owner : leb (count e.owner_key) 320 ≡ true
  pub request : is_request_id e.request_id ≡ true
  pub digest : is_digest e.digest ≡ true
  pub name : is_command e.name ≡ true
  pub label : command_label e.name ≡ e.label
  pub summary : take max_summary_chars e.summary ≡ e.summary
  pub anchor : take 160 e.anchor_key ≡ e.anchor_key
  pub interaction : take 160 e.interaction_id ≡ e.interaction_id
  pub metadata : IsClean e.metadata

empty_text : (s : String) → is_empty s ≡ true → s ≡ ""
unfolding is_empty
empty_text String.[] h = refl
empty_text (String.◌∷◌ c s) h = cc

text_or-text : (s : String) → text_or "" (some (text s)) ≡ s
unfolding text_or truthy to_text is_empty
text_or-text s = elim (Bool-cases (is_empty s)) [
  | inl empty ↦ rw (empty, empty_text s empty) refl
  | inr some_text ↦ rw some_text refl
]

get_field-other :
    (k j : String) (o : Option Value) (fs : Fields)
    → str_eq j k ≡ false
    → get_field k (optional_field j o fs) ≡ get_field k fs
unfolding get_field optional_field
get_field-other k j none fs h = refl
get_field-other k j (some v) fs h = rw h refl

get_field-same :
    (k : String) (o : Option Value) (fs : Fields)
    → get_field k fs ≡ none
    → get_field k (optional_field k o fs) ≡ o
unfolding get_field optional_field
get_field-same k none fs h = h
get_field-same k (some v) fs h = rw (eq_refl k) refl

clean_title-text :
    (o : Option String)
    → ((s : String) → o ≡ some s → take max_title_chars s ≡ s)
    → clean_title (text_value o) ≡ o
unfolding clean_title text_value
clean_title-text none h = refl
clean_title-text (some s) h = rw (h s refl) refl

clean_selection-text :
    (o : Option String)
    → ((s : String) → o ≡ some s → safe_selection s ≡ true)
    → clean_selection (text_value o) ≡ o
unfolding clean_selection text_value
clean_selection-text none h = refl
clean_selection-text (some s) h = rw (h s refl) refl

clean_action-text :
    (o : Option String)
    → ((s : String) → o ≡ some s → (is_control_verb s || str_eq s "cancel") ≡ true)
    → (is_hashable (text_value o) ≡ true) × (clean_action (text_value o) ≡ o)
unfolding clean_action is_hashable text_value
clean_action-text none h = (refl, refl)
clean_action-text (some s) h = (refl, rw (h s refl) refl)

clean_enabled-bool : (o : Option Bool) → clean_enabled (bool_value o) ≡ o
unfolding clean_enabled bool_value
clean_enabled-bool none = refl
clean_enabled-bool (some b) = refl

metadata-clean : (m : Metadata) → IsClean m → clean_metadata (some (metadata_value m)) ≡ some m
unfolding clean_metadata metadata_value clean_fields get_field
metadata-clean m h =
    let action = text_value m.action in
    let enabled = bool_value m.enabled in
    let selection = text_value m.selection in
    let title = text_value m.title in
    let titles = optional_field "title" title no_fields in
    let selections = optional_field "selection" selection titles in
    let flags = optional_field "enabled" enabled selections in
    let fields = optional_field "action" action flags in
    let at_title : get_field "title" fields ≡ title =
      get_field-other "title" "action" action flags refl
      ∙ get_field-other "title" "enabled" enabled selections refl
      ∙ get_field-other "title" "selection" selection titles refl
      ∙ get_field-same "title" title no_fields refl in
    let at_selection : get_field "selection" fields ≡ selection =
      get_field-other "selection" "action" action flags refl
      ∙ get_field-other "selection" "enabled" enabled selections refl
      ∙ get_field-same "selection" selection titles
          (get_field-other "selection" "title" title no_fields refl) in
    let at_enabled : get_field "enabled" fields ≡ enabled =
      get_field-other "enabled" "action" action flags refl
      ∙ get_field-same "enabled" enabled selections (
          get_field-other "enabled" "selection" selection titles refl
          ∙ get_field-other "enabled" "title" title no_fields refl) in
    let at_action : get_field "action" fields ≡ action = get_field-same "action" action flags (
      get_field-other "action" "enabled" enabled selections refl
      ∙ get_field-other "action" "selection" selection titles refl
      ∙ get_field-other "action" "title" title no_fields refl) in
    rw
      (
        at_action,
        at_enabled,
        at_selection,
        at_title,
        (clean_action-text m.action h.action).0,
        (clean_action-text m.action h.action).1,
        clean_enabled-bool m.enabled,
        clean_selection-text m.selection h.selection,
        clean_title-text m.title h.title,
      )
      refl

parse-status_text : (s : CommandStatus) → parse_status (status_text s) ≡ some s
unfolding parse_status
parse-status_text running = refl
parse-status_text waiting = refl
parse-status_text completed = refl
parse-status_text failed = refl

time-number : (trunc : String → Whole) (n : ℕ) → time_field trunc (some (int (pos n))) ≡ number n
unfolding time_field truthy to_int
time-number trunc n = ground arith

-- An event that may stand in the file is read back from the JSON that the store writes for it.
pub valid_event-event_value :
    (trunc : String → Whole) (e : CommandEvent)
    → IsStorable e
    → valid_event trunc (event_value e) ≡ taken e
unfolding valid_event event_value event_status event_times event_of get_field
valid_event-event_value trunc e h =
    rw
      (
        text_or-text e.id,
        text_or-text e.owner_key,
        text_or-text e.request_id,
        text_or-text e.digest,
        text_or-text e.name,
        text_or-text (status_text e.status),
        h.id,
        h.owned,
        h.owner,
        h.request,
        h.digest,
        h.name,
        parse-status_text e.status,
        time-number trunc e.started_at,
        time-number trunc e.completed_at,
        metadata-clean e.metadata h.metadata,
      )
      (rw
        (
          text_or-text e.id,
          text_or-text e.owner_key,
          text_or-text e.request_id,
          text_or-text e.digest,
          text_or-text e.name,
          text_or-text e.summary,
          text_or-text e.anchor_key,
          text_or-text e.interaction_id,
          h.label,
          h.summary,
          h.anchor,
          h.interaction,
        )
        refl)
