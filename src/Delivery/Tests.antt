-- ===== src/Delivery/Tests.antt =====
-- Runs of the delivery service and its store, and the theorems at concrete inputs.
use faryo_codex_web_ui.Base.{
  ◌+◌, ◌≡◌, ◌≢◌, ◌≤◌, refl, true, false, Option, none, some, [], ◌∷◌, String, max, Every, length,
  eq_iff, inr, str_eq, ◌==◌, if◌then◌else◌, ltb, subst, map, ap, arith,
}
use faryo_codex_web_ui.Base.Dict.{Dict, get, put, retain, del}
use faryo_codex_web_ui.Json.{Fields, mapping, encoded_bytes, dumps, no_fields}
use faryo_codex_web_ui.Json.Read.{not_a_number}
use faryo_codex_web_ui.Commands.Catalog.{
  CommandCatalog, fallback, by_command, put_entries, put_aliases,
}
use faryo_codex_web_ui.Commands.Invocation.{command_invocation, exact_command}
use faryo_codex_web_ui.Commands.Entries.{clean_command, is_exact_command}
use faryo_codex_web_ui.Program.{returns, raises, ensure}
use faryo_codex_web_ui.Delivery.Record.{
  Floats, Delivery, pasted, clean_client_message_id, record_path, status_fields, record_fields,
  json_name, number_field, baseline_or_zero, is_sha256, nonnegative_int,
}
use faryo_codex_web_ui.Delivery.Store.{
  DeliveryStore, File, reads, persist, load, cleanup, is_stale, sweep, is_record_name, checked,
}
use faryo_codex_web_ui.Delivery.Store.RoundTrip.{load-persist, HasReceipt, restored}
use faryo_codex_web_ui.Delivery.Store.Cleanup.{StaleRecord, cleanup_lem}
use faryo_codex_web_ui.Delivery.Runtime.{Runtime, Service, id_reused, ask, ask_if, tell}
use faryo_codex_web_ui.Base.Letters.{lower}
use faryo_codex_web_ui.Base.Text.{
  has_char, decimal, is_empty, strip, split_at, all_chars, rsplit, lstrip, rstrip, int,
}
use faryo_codex_web_ui.Json.Str.{text_or, truthy, to_text}
use faryo_codex_web_ui.Delivery.Effects.{commands, runs, count_calls}
use faryo_codex_web_ui.Delivery.Service.{
  Message, receipt, prune, find, adopt, read_disk, in_memory_or, accept_message, accepted_delivery,
  remember, keep_on_disk, run_tmux, send_keys, paste, paste_text, pasted_delivery, clear_buffer,
  failure, duplicate,
}
use faryo_codex_web_ui.Delivery.Service.Send.{
  is_command_line, deliver, send, new_or, paste_and_submit, validated, deliver_known, submit,
  submit_keys, present, is_shell_prep, last_part,
}
use faryo_codex_web_ui.Delivery.Service.Send.Commands.{send_command}
use faryo_codex_web_ui.Delivery.Service.Send.Bounded.{send_bounded}
use faryo_codex_web_ui.Delivery.Service.Send.Receipts.{as_duplicate, Recorded}
use faryo_codex_web_ui.Delivery.Service.Send.Repeated.{deliver-deliver, deliver-deliver_reused}

abbrev floats : Floats
floats = record { repr = λ t. "9.0"; to_float = λ v. some 9; trunc = λ s. not_a_number }

abbrev zeros : String
zeros = "0000000000000000000000000000000000000000000000000000000000000000"

abbrev catalog : CommandCatalog
catalog = record {
  tested_codex_version = "1";
  observed_codex_version = "";
  entries =
      record {
        command = "/status";
        description = "";
        category = "";
        behavior = "";
        argument_hint = "";
        aliases = "/st" ∷ [];
        available_during_task = false;
      }
      ∷ [];
  source = fallback;
  added = [];
  removed = [];
}

abbrev store : DeliveryStore
store = record {
  ttl_seconds = 100;
  cleanup_interval_seconds = 10;
  max_record_bytes = 16384;
  cleanup_at = 0;
  files = [];
  writable = true;
}

-- A Codex pane that takes the second submit key.
abbrev runtime : Runtime
runtime = record {
  max_send_chars = 100;
  send_key_max_attempts = 3;
  delivery_ttl_seconds = 100;
  floats = floats;
  sha256 = λ s. zeros;
  is_agent_launch_command = λ s. str_eq s "codex";
  shell_prep_matches = λ s. str_eq s "pwd";
  catalog = catalog;
  tmux_target = "%1";
  has_session = λ h. true;
  new_id = λ h. "0123456789abcdef";
  monotonic = λ h. length h;
  epoch = λ h. 9;
  agent_in_pane = λ h. true;
  codex_in_pane = λ h. true;
  composer_has_draft = λ h. false;
  submission_probe = λ h. none;
  probe_from_state = λ d h. none;
  probe_state = λ p h. record { device = none; inode = some 5; offset = some 7 };
  queued_count = λ s h. 1;
  token = λ h. "beef";
  temporary_name = λ h. "/tmp/message";
  tmux = λ args h. record { success = true; stderr = "" };
  wait_for_paste = λ s h. true;
  composer_contains = λ s h. true;
  wait_for_submission = λ s w h. if count_calls "send-keys" h == 2 then some "submitted" else none;
  submission_key = λ h. "Enter";
}

abbrev service : Service
service = record { deliveries = []; store = store; calls = [] }

abbrev message : Message
message = record {
  session = "dev";
  text = "hello";
  id = "message-1";
  digest = zeros;
  shell_prep = false;
}

send_test :
    (send runtime "dev" "hello" (some "message-1") service).0
    ≡ returns (receipt message "submitted" 2)
unfolding send is_command_line command_invocation exact_command clean_command is_exact_command
    has_char text_or truthy to_text by_command put_entries put_aliases deliver count_calls runs get
    put retain del is_empty strip lower split_at all_chars rsplit lstrip rstrip int
    clean_client_message_id record_path status_fields record_fields json_name number_field
    baseline_or_zero is_sha256 nonnegative_int load cleanup sweep is_stale persist is_record_name
    checked ask ask_if ensure tell prune find adopt read_disk in_memory_or receipt accept_message
    accepted_delivery remember keep_on_disk run_tmux send_keys paste paste_text pasted_delivery
    clear_buffer failure duplicate new_or paste_and_submit validated deliver_known submit
    submit_keys present is_shell_prep last_part
send_test = refl

delivered : (deliver runtime message service).0 ≡ returns (receipt message "submitted" 2)
unfolding deliver count_calls runs get put retain del is_empty strip lower split_at all_chars rsplit
    lstrip rstrip int clean_client_message_id record_path status_fields record_fields json_name
    number_field baseline_or_zero is_sha256 nonnegative_int load cleanup sweep is_stale persist
    is_record_name checked ask ask_if ensure tell prune find adopt read_disk in_memory_or receipt
    accept_message accepted_delivery remember keep_on_disk run_tmux send_keys paste paste_text
    pasted_delivery clear_buffer failure duplicate new_or paste_and_submit deliver_known submit
    submit_keys present is_shell_prep last_part
delivered = refl

abbrev later : Runtime
later = record runtime { monotonic = λ h. 0 }

other_digest : ◌≢◌ {A = String} "other" message.digest
other_digest = ground (arith, eq_iff "other" message.digest)

deliver-deliver_example :
    ((deliver later message (deliver runtime message service).1).0
      ≡ returns (as_duplicate (receipt message "submitted" 2)))
    × ((name : String)
        → commands name (deliver later message (deliver runtime message service).1).1
          ≡ commands name (deliver runtime message service).1)
deliver-deliver_example =
    deliver-deliver runtime later message service (receipt message "submitted" 2) delivered
      (λ d known. ground arith)

send_bounded_example :
    (commands "paste-buffer" (send runtime "dev" "hello" none service).1
      ≤ commands "paste-buffer" service + 1)
    × (commands "send-keys" (send runtime "dev" "hello" none service).1
        ≤ commands "send-keys" service + max 2 3)
send_bounded_example = send_bounded runtime "dev" "hello" none service

abbrev checkpoint : Delivery
checkpoint = record {
  session = "dev";
  digest = zeros;
  status = pasted;
  updated_at = 0;
  updated_epoch = 9;
  receipt = none;
  paste_ready = true;
  queued_baseline = some 1;
  rollout_device = none;
  rollout_inode = some 5;
  rollout_offset = some 7;
}

deliver-deliver_reused_example :
    let done =
      deliver later (record message { digest = "other" }) (deliver runtime message service).1 in
    (done.0 ≡ raises id_reused)
    × Recorded message (receipt message "submitted" 2) done.1
    × ((name : String) → commands name done.1 ≡ commands name (deliver runtime message service).1)
deliver-deliver_reused_example =
    deliver-deliver_reused runtime later message (record message { digest = "other" }) service
      (receipt message "submitted" 2) delivered refl (inr other_digest) (λ d known. ground arith)

abbrev or_empty : Option Fields → Fields
or_empty none = no_fields
or_empty (some fs) = fs

fits :
    (rest : Fields)
    → status_fields checkpoint pasted none ≡ some rest
    → ltb 16384 (encoded_bytes (mapping (record_fields floats 9 "message-1" checkpoint rest)) + 1)
      ≡ false
unfolding status_fields record_fields number_field baseline_or_zero encoded_bytes dumps decimal
fits rest known =
    subst
      (λ x.
        ltb 16384 (encoded_bytes (mapping (record_fields floats 9 "message-1" checkpoint x)) + 1)
        ≡ false)
      (ap or_empty known) refl

load-persist_example :
    (load floats 4 50 "message-1" (persist floats 9 "message-1" checkpoint store).1).0
    ≡ reads (restored 4 checkpoint pasted)
unfolding clean_client_message_id strip lstrip rstrip all_chars is_sha256 HasReceipt
load-persist_example =
    load-persist floats 9 4 50 "message-1" checkpoint store refl refl refl tt refl refl refl fits

abbrev old_files : Dict File
old_files =
    ("message-1.json", record { is_symlink = false; bytes = 9; modified = 3; parsed = none })
    ∷ ("notes.txt", record { is_symlink = false; bytes = 9; modified = 3; parsed = none })
    ∷ []

cleanup_lem_example :
    ((name : String) (file : File)
      → ¬ StaleRecord 100 500 name file
      → get name old_files ≡ some file
      → get name (cleanup 20 500 false (record store { files = old_files })).files ≡ some file)
    × Every
        (λ entry. ¬ StaleRecord 100 500 entry.0 entry.1)
        (cleanup 20 500 false (record store { files = old_files })).files
cleanup_lem_example = cleanup_lem 20 500 false (record store { files = old_files }) refl refl

cleanup_test :
    map (λ entry. entry.0) (cleanup 20 500 false (record store { files = old_files })).files
    ≡ "notes.txt" ∷ []
unfolding cleanup sweep is_stale is_record_name rsplit clean_client_message_id strip lstrip rstrip
    all_chars
cleanup_test = refl

send_command_example :
    ((given : Fields) → (send runtime "dev" " /st now" none service).0 ≢ returns given)
    × ((name : String)
        → commands name (send runtime "dev" " /st now" none service).1 ≤ commands name service)
unfolding is_command_line command_invocation exact_command clean_command is_exact_command has_char
    text_or truthy to_text by_command put_entries put_aliases strip lstrip rstrip is_empty split_at
    lower all_chars get put
send_command_example = send_command runtime "dev" " /st now" none refl service
