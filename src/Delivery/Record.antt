-- ===== src/Delivery/Record.antt =====
-- delivery_store.py: a delivery's state, the record that stands for it on disk, and the tests of a record that is read.
-- Times count in a unit of one's choice; what Python makes of a float is the parameter `Floats`.
use Prim.Native.String.{◌++◌, count}
use faryo_codex_web_ui.Base.{
  ℕ, Bool, ◌||◌, ◌&&◌, Option, none, some, String, leb, ◌==◌, if◌then◌else◌,
}
use faryo_codex_web_ui.Base.Text.{
  is_alnum, is_digit, all_chars, strip, ℤ, pos, negsuc, int as int_of_text,
}
use faryo_codex_web_ui.Json.{Value, Fields, bool, int, float, text, mapping, no_fields, field}
use faryo_codex_web_ui.Json.Read.{
  Whole, whole, not_a_number, infinite, Number, number, refused, overflows,
}

-- `repr` of a float that is a time, `float(value)` of a value that is one, and `int` of a float by its repr.
pub record Floats : Type 0 where
  pub repr : ℕ → String
  pub to_float : Value → Option ℕ
  pub trunc : String → Whole

pub data Status : Type 0 where
  pasted accepted : Status

-- A delivery's dictionary: the keys that may be absent are options.
pub record Delivery : Type 0 where
  pub session : String
  pub digest : String
  pub status : Status
  pub updated_at : ℕ
  pub updated_epoch : ℕ
  pub receipt : Option Fields
  pub paste_ready : Bool
  pub queued_baseline : Option ℕ
  pub rollout_device : Option ℕ
  pub rollout_inode : Option ℕ
  pub rollout_offset : Option ℕ

abbrev is_client_char : ℕ → Bool
is_client_char c = is_alnum c || c == b'_' || c == b'.' || c == b':' || c == b'-'

-- `clean_client_message_id`
unfoldable pub clean_client_message_id : String → Option String
unfolding all_chars
clean_client_message_id value =
    let cleaned = strip value in
    if all_chars is_client_char cleaned && leb 8 (count cleaned) && leb (count cleaned) 128
    then some cleaned
    else none

unfoldable pub json_name : Option String → Option String
json_name none = none
json_name (some id) = some (id ++ ".json")

-- `record_path`: the file's name under the root.
unfoldable pub record_path : String → Option String
unfolding clean_client_message_id json_name
record_path id = json_name (clean_client_message_id id)

-- `re.fullmatch(r"[0-9a-f]{64}", digest)`
unfoldable pub is_sha256 : String → Bool
unfolding all_chars
is_sha256 s = all_chars (λ c. is_digit c || (leb b'a' c && leb c b'f')) s && count s == 64

not_negative : ℤ → Number
not_negative (pos n) = number n
not_negative (negsuc n) = refused

of_whole : Whole → Number
unfolding not_negative
of_whole (whole n) = not_negative n
of_whole not_a_number = refused
of_whole infinite = overflows

of_parsed : Option ℤ → Number
unfolding not_negative
of_parsed none = refused
of_parsed (some n) = not_negative n

-- `_nonnegative_int`: `refused` is the fallback; `int` of an infinite float raises.
unfoldable pub nonnegative_int : (String → Whole) → Option Value → Number
unfolding not_negative of_whole of_parsed
nonnegative_int trunc (some (int n)) = not_negative n
nonnegative_int trunc (some (bool b)) = number (if b then 1 else 0)
nonnegative_int trunc (some (float shown)) = of_whole (trunc shown)
nonnegative_int trunc (some (text s)) = of_parsed (int_of_text s)
nonnegative_int trunc _ = refused

abbrev pub status_name : Status → String
status_name pasted = "pasted"
status_name accepted = "accepted"

-- A key that is written only where its value is there.
unfoldable pub number_field : String → Option ℕ → Fields → Fields
number_field key none rest = rest
number_field key (some n) rest = field key (int (pos n)) rest

unfoldable pub baseline_or_zero : Option ℕ → ℕ
baseline_or_zero none = 0
baseline_or_zero (some n) = n

-- The keys of the record that depend on the status; an accepted delivery without a receipt is not written.
unfoldable pub status_fields : Delivery → Status → Option Fields → Option Fields
unfolding number_field baseline_or_zero
status_fields d accepted none = none
status_fields d accepted (some receipt) = some (field "receipt" (mapping receipt) no_fields)
status_fields d pasted _ = some (
    field "pasteReady" (bool d.paste_ready) (
      field "queuedBaseline" (int (pos (baseline_or_zero d.queued_baseline))) (
        number_field "rolloutDevice" d.rollout_device (
          number_field "rolloutInode" d.rollout_inode
            (number_field "rolloutOffset" d.rollout_offset no_fields)))))

-- The record that `persist` writes, at the epoch time `now`.
unfoldable pub record_fields : Floats → ℕ → String → Delivery → Fields → Fields
record_fields f now id d rest = field "version" (int (pos 2)) (
    field "deliveryId" (text id) (
      field "session" (text d.session) (
        field "digest" (text d.digest) (
          field "status" (text (status_name d.status)) (
            field "updatedEpoch"
              (float (f.repr (if d.updated_epoch == 0 then now else d.updated_epoch))) rest)))))
