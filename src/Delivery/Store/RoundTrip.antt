-- ===== src/Delivery/Store/RoundTrip.antt =====
-- What `load` reads of the record that `persist` wrote.
use faryo_codex_web_ui.Base.{
  ℕ, ◌≡◌, ◌+◌, refl, ◌∙◌, Bool, true, false, Option, none, some, String, ◌==◌, ltb, eq_refl,
}
use faryo_codex_web_ui.Base.Dict.{get-put_self}
use faryo_codex_web_ui.Base.Text.{pos, is_empty}
use faryo_codex_web_ui.Json.{
  Value, Fields, mapping, float, no_fields, field, get_field, encoded_bytes,
}
use faryo_codex_web_ui.Json.Str.{text_or, truthy, to_text}
use faryo_codex_web_ui.Delivery.Record.{
  Floats, Status, pasted, accepted, Delivery, clean_client_message_id, record_path, json_name,
  is_sha256, status_name, baseline_or_zero, status_fields, record_fields, nonnegative_int,
  number_field,
}
use faryo_codex_web_ui.Delivery.Store.{
  at_path, write_record, of_file, of_value, dated, time_of, written, DeliveryStore, reads, persist,
  load, checked, receipt_of, version_of, status_of, is_text, pasted_state, accepted_state,
  by_status, current, has_hash,
}

-- What a delivery is after a restart, read at the monotonic time `now`.
unfoldable pub restored : ℕ → Delivery → Status → Delivery
restored now d pasted = record d {
  updated_at = now;
  receipt = none;
  queued_baseline = some (baseline_or_zero d.queued_baseline);
}
restored now d accepted = record d {
  updated_at = now;
  paste_ready = false;
  queued_baseline = none;
  rollout_device = none;
  rollout_inode = none;
  rollout_offset = none;
}

-- An accepted delivery has a receipt for its own id.
unfoldable pub HasReceipt : String → Status → Option Fields → Type 0
HasReceipt id pasted receipt = Unit
HasReceipt id accepted none = ⊥
HasReceipt id accepted (some fs) = receipt_of id (some (mapping fs)) ≡ some fs

text_or-text : (s : String) → text_or "" (some (Value.text s)) ≡ s
unfolding text_or truthy is_empty to_text
text_or-text String.[] = refl
text_or-text (String.◌∷◌ c s) = refl

-- The keys of a pasted record, read back.
pasted_state-fields :
    (f : Floats) (t now epoch : ℕ) (id : String) (d : Delivery) (ready : Bool) (n : ℕ)
    (device inode offset : Option ℕ)
    → pasted_state f now epoch d.session d.digest (
        record_fields f t id d (
          field "pasteReady" (Value.bool ready) (
            field "queuedBaseline" (Value.int (pos n)) (
              number_field "rolloutDevice" device (
                number_field "rolloutInode" inode
                  (number_field "rolloutOffset" offset no_fields))))))
      ≡ reads (record d {
        status = pasted;
        updated_at = now;
        updated_epoch = epoch;
        receipt = none;
        paste_ready = ready;
        queued_baseline = some n;
        rollout_device = device;
        rollout_inode = inode;
        rollout_offset = offset;
      })
unfolding pasted_state record_fields number_field get_field nonnegative_int truthy
pasted_state-fields f t now epoch id d ready n none none none = refl
pasted_state-fields f t now epoch id d ready n none none (some c) = refl
pasted_state-fields f t now epoch id d ready n none (some b) none = refl
pasted_state-fields f t now epoch id d ready n none (some b) (some c) = refl
pasted_state-fields f t now epoch id d ready n (some a) none none = refl
pasted_state-fields f t now epoch id d ready n (some a) none (some c) = refl
pasted_state-fields f t now epoch id d ready n (some a) (some b) none = refl
pasted_state-fields f t now epoch id d ready n (some a) (some b) (some c) = refl

status_of-status_name : (status : Status) → status_of (status_name status) ≡ some status
unfolding status_of
status_of-status_name pasted = refl
status_of-status_name accepted = refl

-- A written record, with the keys of its status, is read by that status.
checked_written :
    (f : Floats) (t now epoch : ℕ) (id : String) (d : Delivery) (rest : Fields)
    → is_sha256 d.digest ≡ true
    → checked f now epoch id (record_fields f t id d rest)
      ≡ by_status f now epoch id d.session d.digest
          (record_fields f t id d rest)
          current
          (some d.status)
unfolding checked record_fields get_field version_of is_text has_hash
checked_written f t now epoch id d rest hex =
    simp (text_or-text, eq_refl, hex, status_of-status_name)

-- The keys of the status are there, and give the delivery back.
status_fields_written :
    (f : Floats) (t now : ℕ) (id : String) (d : Delivery) (status : Status)
    (receipt : Option Fields)
    → HasReceipt id status receipt
    → (rest : Fields) × (status_fields d status receipt ≡ some rest)
      × (by_status f now d.updated_epoch id d.session d.digest
            (record_fields f t id d rest)
            current
            (some status)
          ≡ reads (restored now (record d { status = status; receipt = receipt }) status))
unfolding by_status accepted_state restored status_fields record_fields get_field HasReceipt
status_fields_written f t now id d pasted receipt ok = (
  _,
  refl,
  pasted_state-fields f t now d.updated_epoch id d d.paste_ready
      (baseline_or_zero d.queued_baseline) d.rollout_device d.rollout_inode d.rollout_offset,
)
status_fields_written f t now id d accepted none ok = elim ok [ ]
status_fields_written f t now id d accepted (some fs) ok = (_, refl, rw ok refl)

updated_epoch_written :
    (f : Floats) (t : ℕ) (id : String) (d : Delivery) (rest : Fields)
    → (d.updated_epoch == 0) ≡ false
    → f.to_float (float (f.repr d.updated_epoch)) ≡ some d.updated_epoch
    → time_of f (get_field "updatedEpoch" (record_fields f t id d rest)) ≡ some d.updated_epoch
unfolding time_of record_fields get_field
updated_epoch_written f t id d rest nonzero exact = rw nonzero exact

-- What persist wrote, load gives back: with a clean id and digest, its receipt if accepted, in time, and
-- not too large.
pub load-persist :
    (f : Floats) (t now epoch : ℕ) (id : String) (d : Delivery) (s : DeliveryStore)
    → s.writable ≡ true
    → clean_client_message_id id ≡ some id
    → is_sha256 d.digest ≡ true
    → HasReceipt id d.status d.receipt
    → (d.updated_epoch == 0) ≡ false
    → f.to_float (float (f.repr d.updated_epoch)) ≡ some d.updated_epoch
    → ltb (d.updated_epoch + s.ttl_seconds) epoch ≡ false
    → ((rest : Fields)
        → status_fields d d.status d.receipt ≡ some rest
        → ltb s.max_record_bytes (encoded_bytes (mapping (record_fields f t id d rest)) + 1)
          ≡ false)
    → (load f now epoch id (persist f t id d s).1).0 ≡ reads (restored now d d.status)
unfolding load persist at_path write_record of_file of_value dated time_of record_path json_name
    written
load-persist f t now epoch id d s writes clean hex receipt nonzero exact fresh fits =
    let (rest, known, back) = status_fields_written f t now id d d.status d.receipt receipt in
    rw (clean, known, writes, get-put_self, fits rest known)
      (rw (updated_epoch_written f t id d rest nonzero exact, fresh)
        (checked_written f t now d.updated_epoch id d rest hex ∙ back))
