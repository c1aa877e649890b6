-- ===== src/Delivery/Store.antt =====
-- delivery_store.py: `DeliveryStore`. The directory under the root is part of the state, with whether it can be
-- written now; each call is told the times that it reads.
use Prim.Native.String.{◌++◌}
use faryo_codex_web_ui.Base.{
  ℕ, ◌+◌, Bool, true, false, not, ◌||◌, ◌&&◌, Option, none, some, List, [], ◌∷◌, String, ◌==◌,
  str_eq, ltb, if◌then◌else◌,
}
use faryo_codex_web_ui.Base.Dict.{Dict, get, put, del}
use faryo_codex_web_ui.Base.Text.{rsplit, pos}
use faryo_codex_web_ui.Json.{
  Value, Fields, null, bool, int, float, text, array, mapping, no_fields, get_field, encoded_bytes,
}
use faryo_codex_web_ui.Json.Str.{text_or, truthy}
use faryo_codex_web_ui.Json.Read.{Number, number, refused, overflows}
use faryo_codex_web_ui.Delivery.Record.{
  Floats, Status, pasted, accepted, Delivery, clean_client_message_id, record_path, is_sha256,
  nonnegative_int, status_fields, record_fields,
}
pub mod RoundTrip
pub mod Cleanup

-- `parsed` is `none` for a text that is no JSON.
pub record File : Type 0 where
  pub is_symlink : Bool
  pub bytes : ℕ
  pub modified : ℕ
  pub parsed : Option Value

pub record DeliveryStore : Type 0 where
  pub ttl_seconds : ℕ
  pub cleanup_interval_seconds : ℕ
  pub max_record_bytes : ℕ
  pub cleanup_at : ℕ
  pub files : Dict File
  pub writable : Bool

-- What a read gives; a value of a type that the code does not expect makes it raise.
pub data Loaded : Type 0 where
  absent raises_type_error raises_overflow : Loaded
  reads : Delivery → Loaded

written : Value → ℕ → File
written record_value now = record {
  is_symlink = false;
  bytes = encoded_bytes record_value + 1;
  modified = now;
  parsed = some record_value;
}

-- The file is replaced as a whole, or stays where the directory cannot be written.
write_record :
    Floats
    → ℕ
    → String
    → Delivery
    → Option String
    → Option Fields
    → DeliveryStore
    → Bool × DeliveryStore
unfolding written
write_record f now id d none _ s = (false, s)
write_record f now id d (some name) none s = (false, s)
write_record f now id d (some name) (some rest) s =
    if s.writable
    then (
      true,
      record s { files = put name (written (mapping (record_fields f now id d rest)) now) s.files },
    )
    else (false, s)

-- `persist`
unfoldable pub persist : Floats → ℕ → String → Delivery → DeliveryStore → Bool × DeliveryStore
unfolding write_record
persist f now id d s =
    write_record f now id d (record_path id) (status_fields d d.status d.receipt) s

-- `version not in {1, 2}`: a container has no hash.
pub data RecordVersion : Type 0 where
  old current unknown unhashable : RecordVersion

unfoldable pub version_of : Option Value → RecordVersion
version_of (some (int (pos n))) = if n == 1 then old else if n == 2 then current else unknown
version_of (some (bool b)) = if b then old else unknown
version_of (some (float shown)) =
    if str_eq shown "1.0" then old else if str_eq shown "2.0" then current else unknown
version_of (some (array xs)) = unhashable
version_of (some (mapping fs)) = unhashable
version_of _ = unknown

unfoldable pub status_of : String → Option Status
status_of s =
    if str_eq s "pasted" then some pasted else if str_eq s "accepted" then some accepted else none

-- `mapping.get(key) == wanted`
unfoldable pub is_text : String → Option Value → Bool
is_text wanted (some (text s)) = str_eq s wanted
is_text wanted _ = false

-- The receipt of an accepted record, if it is one for this delivery.
unfoldable pub receipt_of : String → Option Value → Option Fields
unfolding is_text
receipt_of id (some (mapping fs)) =
    if is_text id (get_field "deliveryId" fs) && is_text "accepted" (get_field "delivery" fs)
    then some fs
    else none
receipt_of id _ = none

accepted_state : ℕ → ℕ → String → String → Option Fields → Loaded
accepted_state now epoch session digest none = absent
accepted_state now epoch session digest (some receipt) = reads (record {
  session = session;
  digest = digest;
  status = accepted;
  updated_at = now;
  updated_epoch = epoch;
  receipt = some receipt;
  paste_ready = false;
  queued_baseline = none;
  rollout_device = none;
  rollout_inode = none;
  rollout_offset = none;
})

-- `_nonnegative_int(value, None)` under a key that is set only where it gives a number.
optional_number : Number → Option ℕ
optional_number (number n) = some n
optional_number _ = none

overflowed : Number → Bool
overflowed overflows = true
overflowed _ = false

-- `_nonnegative_int(value, 0)`
number_or_zero : Number → ℕ
number_or_zero (number n) = n
number_or_zero _ = 0

truthy_field : Option Value → Bool
truthy_field none = false
truthy_field (some v) = truthy v

pasted_state : Floats → ℕ → ℕ → String → String → Fields → Loaded
unfolding optional_number overflowed number_or_zero truthy_field
pasted_state f now epoch session digest fs =
    let read : String → Number = λ key. nonnegative_int f.trunc (get_field key fs) in
    let baseline = read "queuedBaseline" in
    let device = read "rolloutDevice" in
    let inode = read "rolloutInode" in
    let offset = read "rolloutOffset" in
    if overflowed baseline || overflowed device || overflowed inode || overflowed offset
    then raises_overflow
    else reads (record {
      session = session;
      digest = digest;
      status = pasted;
      updated_at = now;
      updated_epoch = epoch;
      receipt = none;
      paste_ready = truthy_field (get_field "pasteReady" fs);
      queued_baseline = some (number_or_zero baseline);
      rollout_device = optional_number device;
      rollout_inode = optional_number inode;
      rollout_offset = optional_number offset;
    })

-- A version-1 record is no pasted checkpoint.
by_status :
    Floats → ℕ → ℕ → String → String → String → Fields → RecordVersion → Option Status → Loaded
unfolding accepted_state pasted_state
by_status f now epoch id session digest fs unhashable _ = raises_type_error
by_status f now epoch id session digest fs unknown _ = absent
by_status f now epoch id session digest fs _ none = absent
by_status f now epoch id session digest fs _ (some accepted) =
    accepted_state now epoch session digest (receipt_of id (get_field "receipt" fs))
by_status f now epoch id session digest fs old (some pasted) = absent
by_status f now epoch id session digest fs current (some pasted) =
    pasted_state f now epoch session digest fs

has_hash : RecordVersion → Bool
has_hash unhashable = false
has_hash _ = true

-- The tests of a record that is not expired.
unfoldable pub checked : Floats → ℕ → ℕ → String → Fields → Loaded
unfolding by_status has_hash version_of status_of is_text receipt_of
checked f now epoch id fs =
    let version = version_of (get_field "version" fs) in
    let digest = text_or "" (get_field "digest" fs) in
    if has_hash version && not (is_text id (get_field "deliveryId" fs) && is_sha256 digest)
    then absent
    else by_status f now epoch id (text_or "" (get_field "session" fs)) digest fs version
        (status_of (text_or "" (get_field "status" fs)))

-- An expired record is removed, where the directory can be written.
dated :
    Floats → ℕ → ℕ → String → String → Fields → Option ℕ → DeliveryStore → Loaded × DeliveryStore
unfolding checked
dated f now epoch id name fs none s = (absent, s)
dated f now epoch id name fs (some updated) s =
    if ltb (updated + s.ttl_seconds) epoch
    then (absent, if s.writable then record s { files = del name s.files } else s)
    else (checked f now updated id fs, s)

time_of : Floats → Option Value → Option ℕ
time_of f none = none
time_of f (some v) = f.to_float v

of_value : Floats → ℕ → ℕ → String → String → Option Value → DeliveryStore → Loaded × DeliveryStore
unfolding dated time_of
of_value f now epoch id name (some (mapping fs)) s =
    dated f now epoch id name fs (time_of f (get_field "updatedEpoch" fs)) s
of_value f now epoch id name _ s = (absent, s)

of_file : Floats → ℕ → ℕ → String → String → Option File → DeliveryStore → Loaded × DeliveryStore
unfolding of_value
of_file f now epoch id name none s = (absent, s)
of_file f now epoch id name (some file) s =
    if file.is_symlink || ltb s.max_record_bytes file.bytes
    then (absent, s)
    else of_value f now epoch id name file.parsed s

at_path : Floats → ℕ → ℕ → String → Option String → DeliveryStore → Loaded × DeliveryStore
unfolding of_file
at_path f now epoch id none s = (absent, s)
at_path f now epoch id (some name) s = of_file f now epoch id name (get name s.files) s

-- `load`, at the monotonic time `now` and the epoch time `epoch`.
unfoldable pub load : Floats → ℕ → ℕ → String → DeliveryStore → Loaded × DeliveryStore
unfolding at_path
load f now epoch id s = at_path f now epoch id (record_path id) s

same_id : String → Option String → Bool
same_id stem none = false
same_id stem (some id) = str_eq id stem

is_record_split : Option (String × String) → Bool
unfolding same_id
is_record_split none = false
is_record_split (some (stem, suffix)) =
    str_eq suffix "json" && same_id stem (clean_client_message_id stem)

-- `path.suffix == ".json"` and the stem is a clean id.
unfoldable pub is_record_name : String → Bool
unfolding is_record_split
is_record_name name = is_record_split (rsplit b'.' name)

-- What `cleanup` removes: a record's file that is a link, or older than the time to live.
unfoldable pub is_stale : ℕ → ℕ → String → File → Bool
is_stale ttl now name file =
    is_record_name name && (file.is_symlink || ltb (file.modified + ttl) now)

unfoldable pub sweep : ℕ → ℕ → Dict File → Dict File
sweep ttl now [] = []
sweep ttl now ((name, file) ∷ files) =
    let rest = sweep ttl now files in
    if is_stale ttl now name file then rest else (name, file) ∷ rest

-- `cleanup`, at the monotonic time `now` and the epoch time `epoch`.
unfoldable pub cleanup : ℕ → ℕ → Bool → DeliveryStore → DeliveryStore
unfolding sweep is_stale
cleanup now epoch force s =
    if not force && ltb now (s.cleanup_at + s.cleanup_interval_seconds) then s else record s {
      cleanup_at = now;
      files = if s.writable then sweep s.ttl_seconds epoch s.files else s.files;
    }
