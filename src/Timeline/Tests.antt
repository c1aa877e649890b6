-- ===== src/Timeline/Tests.antt =====
-- command_timeline.py: runs of the store on small inputs, and its theorems at such inputs.
use mathlib.Core.List.{Sublist}
use faryo_codex_web_ui.Base.{
  ◌≤◌, ◌≡◌, ◌≢◌, refl, true, false, none, some, [], ◌∷◌, String, str_eq, if◌then◌else◌, Bool-cases,
  inl, inr, arith, length, Every, keep,
}
use faryo_codex_web_ui.Base.Letters.{lower}
use faryo_codex_web_ui.Base.Text.{
  after_text, take, strip, is_empty, is_request_id, split_at, has_char, pos, decimal,
}
use faryo_codex_web_ui.Base.Dict.{get, put}
use faryo_codex_web_ui.Json.{text, get_field, encoded_bytes}
use faryo_codex_web_ui.Json.Str.{text_or, truthy, to_text}
use faryo_codex_web_ui.Json.Read.{Whole, whole, time_field, iterated}
use faryo_codex_web_ui.Timeline.Command.{
  running, completed, failed, no_metadata, command_parts, command_is_durable, command_label,
  command_summary, safe_argument, is_command,
}
use faryo_codex_web_ui.Timeline.Event.{
  CommandEvent, parse_status, clean_metadata, valid_event, event_value, is_event_id, is_digest,
}
use faryo_codex_web_ui.Timeline.Event.Roundtrip.{IsStorable, IsClean}
use faryo_codex_web_ui.Timeline.Store.{
  Timeline, returns, raises, id_reused, StoredFile, missing, content, save, fresh, trim, select,
  valid_owner_key, find_last, modify_last, has_id, body_bytes, body_value,
}
use faryo_codex_web_ui.Timeline.Store.Loading.{load}
use faryo_codex_web_ui.Timeline.Store.Adding.{Beginning, begin}
use faryo_codex_web_ui.Timeline.Store.Updating.{update, updated}
use faryo_codex_web_ui.Timeline.Store.Trim.{of_owner, trim_bounds}
use faryo_codex_web_ui.Timeline.Store.Adding.Once.{begin_again}
use faryo_codex_web_ui.Timeline.Store.Loading.Ended.{load-IsEnded}
use faryo_codex_web_ui.Timeline.Store.Loading.Survivors.{IsEnded, Survives}
use faryo_codex_web_ui.Timeline.Store.Loading.Restart.{Fits, load-save}
use faryo_codex_web_ui.Timeline.Store.Updating.Single.{Moved, update_one}

abbrev digest_of : String → String
digest_of line =
    if str_eq line "/compact"
    then "00000000000000000000000000000000000000000000000000000000000000aa"
    else "00000000000000000000000000000000000000000000000000000000000000bb"

abbrev trunc : String → Whole
trunc shown = whole (pos 1)

abbrev empty : Timeline
empty = fresh 3 2 missing

abbrev compact_now : Beginning
compact_now = record {
  owner_key = some (text " thread ");
  request_id = some (text "req-00001");
  invocation = some (text "/compact");
  anchor_key = none;
}

abbrev model_now : Beginning
model_now = record compact_now {
  owner_key = some (text "thread");
  invocation = some (text "/model");
}

abbrev compact : CommandEvent
compact = record {
  id = "cmd_0123456789abcdef";
  owner_key = "thread";
  request_id = "req-00001";
  digest = "00000000000000000000000000000000000000000000000000000000000000aa";
  name = "/compact";
  label = "Compact context";
  status = running;
  summary = "Compacting context…";
  anchor_key = "";
  interaction_id = "";
  metadata = no_metadata;
  started_at = 5;
  completed_at = 0;
}

abbrev begun : Timeline
begun = (begin digest_of true 5 "0123456789abcdef" empty compact_now).0

compact_begun :
    (begin digest_of true 5 "0123456789abcdef" empty compact_now).1 ≡ returns (some compact, false)
unfolding begin command_parts command_is_durable text_or truthy to_text is_empty strip lower
    split_at has_char is_command is_request_id valid_owner_key find_last fresh command_label
    command_summary safe_argument take
compact_begun = refl

-- The same command from another place in the conversation.
abbrev compact_retried : Beginning
compact_retried = record compact_now {
  invocation = some (text " /compact ");
  anchor_key = some (text "later");
}

begin_again_example :
    (digest_of "/compact" ≡ digest_of "/compact"
      → begin digest_of false 9 "t" begun compact_retried ≡ (begun, returns (some compact, true)))
    × (digest_of "/compact" ≢ digest_of "/compact"
        → begin digest_of false 9 "t" begun compact_retried ≡ (begun, raises id_reused))
unfolding command_parts command_is_durable text_or truthy to_text is_empty strip lower split_at
    has_char is_command valid_owner_key fresh
begin_again_example =
    begin_again digest_of true false 5 9 "0123456789abcdef" "t" empty compact_now compact_retried
      compact (omega arith) compact_begun refl refl refl

retry_test :
    (begin digest_of false 9 "t" begun compact_retried ≡ (begun, returns (some compact, true)))
    × (begin digest_of false 9 "t" begun model_now ≡ (begun, raises id_reused))
unfolding begin command_parts command_is_durable text_or truthy to_text is_empty strip lower
    split_at has_char is_command is_request_id valid_owner_key find_last fresh command_label
    command_summary safe_argument take save encoded_bytes body_value body_bytes trim select get put
    event_value decimal
retry_test = (refl, refl)

abbrev cut : CommandEvent
cut = record compact {
  status = failed;
  summary = "Compact context interrupted by service restart";
  completed_at = 8;
}

abbrev left_over : StoredFile
left_over = content 500 (body_value (compact ∷ []))

abbrev restarted : Timeline
restarted = record {
  max_events = 3;
  max_events_per_owner = 2;
  events = cut ∷ [];
  load_errors = 0;
  file = content (body_bytes (cut ∷ [])) (body_value (cut ∷ []));
}

compact_restarted : load trunc true 8 (fresh 3 2 left_over) ≡ returns restarted
unfolding load fresh save body_value body_bytes get_field valid_event event_value is_event_id
    is_digest is_request_id is_command parse_status text_or truthy to_text is_empty take
    clean_metadata command_label trim select encoded_bytes get decimal time_field iterated
    after_text
compact_restarted = refl

load-IsEnded_example :
    Every (Survives trunc 8 left_over) restarted.events
    × Every IsEnded restarted.events
    × (length restarted.events ≤ 3)
load-IsEnded_example = load-IsEnded trunc true 8 3 2 left_over restarted compact_restarted

trim_bounds_example :
    (length (trim 2 3 (compact ∷ cut ∷ compact ∷ [])) ≤ 3)
    × ((k : String) → length (of_owner k (trim 2 3 (compact ∷ cut ∷ compact ∷ []))) ≤ 2)
    × Sublist (trim 2 3 (compact ∷ cut ∷ compact ∷ [])) (compact ∷ cut ∷ compact ∷ [])
trim_bounds_example = trim_bounds 2 3 (compact ∷ cut ∷ compact ∷ []) (omega arith)

trimmed : trim 2 3 (compact ∷ cut ∷ compact ∷ []) ≡ cut ∷ compact ∷ []
unfolding trim select get put
trimmed = refl

no_metadata-IsClean : IsClean no_metadata
no_metadata-IsClean = record { title = λ s h. cc; selection = λ s h. cc; action = λ s h. cc }

cut-IsStorable : IsStorable cut
unfolding is_event_id is_digest is_request_id is_command is_empty take command_label after_text
cut-IsStorable = record {
  id = refl;
  owned = refl;
  owner = refl;
  request = refl;
  digest = refl;
  name = refl;
  label = refl;
  summary = refl;
  anchor = refl;
  interaction = refl;
  metadata = no_metadata-IsClean;
}

restarted-Fits : Fits restarted
unfolding body_bytes body_value encoded_bytes event_value decimal keep
restarted-Fits = record {
  owners = λ k. elim (Bool-cases (str_eq "thread" k)) [
    | inl same ↦ rw same (omega arith)
    | inr other ↦ rw other (omega arith)
  ];
  few = omega arith;
  positive = omega arith;
  owner_positive = omega arith;
  small = omega arith;
}

load-save_example :
    load trunc true 12 (fresh 3 2 (save true restarted).file)
    ≡ returns (record (save true restarted) { load_errors = 0 })
load-save_example = load-save trunc true 12 restarted (cut-IsStorable, tt) (refl, tt) restarted-Fits

abbrev one_begun : Timeline
one_begun = record empty { events = compact ∷ [] }

small_body :
    body_bytes (
      modify_last
        (has_id "cmd_0123456789abcdef")
        (updated 7 completed no_metadata none)
        (compact ∷ []))
    ≤ 786432
unfolding find_last modify_last body_bytes encoded_bytes body_value event_value decimal
    command_summary command_label take is_empty updated
small_body = omega arith

update_one_example :
    let after = update true 7 one_begun "cmd_0123456789abcdef" "completed" none none in
    (e' : CommandEvent) × (after.1 ≡ returns (some e'))
    × Moved 7 completed compact e'
    × (length after.0.events ≡ length one_begun.events)
    × (find_last (has_id "cmd_0123456789abcdef") after.0.events ≡ some e')
    × ((k : String)
        → k ≢ "cmd_0123456789abcdef"
        → find_last (has_id k) after.0.events ≡ find_last (has_id k) one_begun.events)
update_one_example =
    update_one 7 one_begun "cmd_0123456789abcdef" "completed" none none compact completed
      no_metadata (unfold find_last in refl) (unfold parse_status in refl)
      (unfold clean_metadata in refl) small_body
