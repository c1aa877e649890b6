-- ===== src/Delivery/Service.antt =====
-- delivery_service.py: `DeliveryService`, the steps that `send` is made of. The session and the message locks are held
-- from the look up on, so one message's steps stand alone.
use Prim.Native.Char.{Char, code}
use Prim.Native.String.{◌++◌, count}
use faryo_codex_web_ui.Base.{
  ℕ, zero, suc, ◌+◌, Bool, true, false, not, ◌||◌, ◌&&◌, Option, none, some, List, [], ◌∷◌, String,
  str_eq, leb, ltb, ◌==◌, if◌then◌else◌, is_some,
}
use faryo_codex_web_ui.Base.Dict.{get, put, retain}
use faryo_codex_web_ui.Base.Letters.{lower}
use faryo_codex_web_ui.Base.Text.{strip, is_empty, split_at, is_whitespace, pos}
use faryo_codex_web_ui.Json.{Fields, bool, int, text, no_fields, field, put_field}
use faryo_codex_web_ui.Program.{◌>>=◌, ◌>>◌, pure, throw, ensure, finally, get_state, set_state}
use faryo_codex_web_ui.Delivery.Record.{
  Delivery, Status, pasted, accepted, clean_client_message_id, baseline_or_zero,
}
use faryo_codex_web_ui.Delivery.Store.{
  DeliveryStore, Loaded, absent, raises_type_error, raises_overflow, reads, persist, load, cleanup,
}
use faryo_codex_web_ui.Delivery.Runtime.{
  Runtime, Service, RuntimeCall, Completed, Wait, Probe, ProbeState, SendError, M, ask, ask_if,
  tell, has_session, new_id, monotonic, epoch, agent_in_pane, agent_profile, composer_has_draft,
  submission_probe, probe_from_state, probe_state, capture, cursor, queued_count, token,
  wait_for_paste, sleep, composer_contains, wait_for_submission, submission_key, write_temporary,
  unlink, tmux, session_not_found, empty_text, text_too_long, invalid_id, slash_command, id_reused,
  unsent_draft, paste_unconfirmed, ambiguous, not_accepted, missing_key, type_error, overflow_error,
  tmux_failed,
}
pub mod Steps
pub mod Send

-- A message after its checks.
pub record Message : Type 0 where
  pub session : String
  pub text : String
  pub id : String
  pub digest : String
  pub shell_prep : Bool

-- `receipt`
unfoldable pub receipt : Message → String → ℕ → Fields
receipt m state enter_attempts = field "deliveryId" (text m.id) (
    field "delivery" (text "accepted") (
      field "deliveryState" (text state) (
        field "session" (text m.session) (
          field "enterAttempts" (int (pos enter_attempts))
            (field "duplicate" (bool false) no_fields)))))

-- `persist` of the store, through the service.
unfoldable pub keep_on_disk : Runtime → String → Delivery → M (Unit {0})
keep_on_disk r id d = do
  now ← ask epoch r.epoch
  set_state (λ s. record s { store = (persist r.floats now id d s.store).1 })

-- `remember_accepted` and `remember_pasted`
unfoldable pub remember : Runtime → String → Delivery → M (Unit {0})
unfolding keep_on_disk
remember r id d = do
  now ← ask monotonic r.monotonic
  wall ← ask epoch r.epoch
  let kept = record d { updated_at = now; updated_epoch = wall }
  set_state (λ s. record s { deliveries = put id kept s.deliveries })
  keep_on_disk r id kept

-- A delivery in memory that the time to live has not passed.
abbrev pub in_time : Runtime → ℕ → Delivery → Bool
in_time r now d = not (ltb (d.updated_at + r.delivery_ttl_seconds) now)

-- `prune`, with `cleanup_persisted`
unfoldable pub prune : Runtime → ℕ → M (Unit {0})
prune r now = do
  set_state (λ s. record s { deliveries = retain (in_time r now) s.deliveries })
  at ← ask monotonic r.monotonic
  wall ← ask epoch r.epoch
  set_state (λ s. record s { store = cleanup at wall false s.store })

-- A delivery that was read becomes one in memory.
unfoldable pub adopt : String → Loaded → M (Option Delivery)
adopt id absent = pure none
adopt id raises_type_error = throw type_error
adopt id raises_overflow = throw overflow_error
adopt id (reads d) = do
  set_state (λ s. record s { deliveries = put id d s.deliveries })
  pure (some d)

unfoldable pub read_disk : Runtime → String → M (Option Delivery)
unfolding adopt
read_disk r id = do
  wall ← ask epoch r.epoch
  now ← ask monotonic r.monotonic
  read ← get_state (λ s. load r.floats now wall id s.store)
  set_state (λ s. record s { store = read.1 })
  adopt id read.0

unfoldable pub in_memory_or : M (Option Delivery) → Option Delivery → M (Option Delivery)
in_memory_or disk (some d) = pure (some d)
in_memory_or disk none = disk

-- `self.deliveries.get(delivery_id) or self.load(delivery_id)`
unfoldable pub find : Runtime → String → M (Option Delivery)
unfolding read_disk in_memory_or
find r id = do known ← get_state (λ s. get id s.deliveries); in_memory_or (read_disk r id) known

-- The receipt of a delivery that was accepted before; its time is refreshed.
unfoldable pub duplicate : Runtime → String → ℕ → Delivery → Option Fields → M Fields
unfolding keep_on_disk
duplicate r id now d none = throw missing_key
duplicate r id now d (some receipt) = do
  wall ← ask epoch r.epoch
  let kept = record d { updated_at = now; updated_epoch = wall }
  set_state (λ s. record s { deliveries = put id kept s.deliveries })
  keep_on_disk r id kept
  pure (put_field "duplicate" (bool true) receipt)

-- The message that tmux gives, or the code's own.
unfoldable pub failure : String → Completed → SendError
failure otherwise done =
    let message = strip done.stderr in tmux_failed (if is_empty message then otherwise else message)

-- A tmux command whose failure ends the delivery.
unfoldable pub run_tmux : Runtime → List String → String → M (Unit {0})
unfolding failure
run_tmux r args otherwise = do
  done ← ask (tmux args) (r.tmux args)
  ensure done.success (failure otherwise done)

unfoldable pub accepted_delivery : Message → Fields → Delivery
accepted_delivery m receipt = record {
  session = m.session;
  digest = m.digest;
  status = accepted;
  updated_at = 0;
  updated_epoch = 0;
  receipt = some receipt;
  paste_ready = false;
  queued_baseline = none;
  rollout_device = none;
  rollout_inode = none;
  rollout_offset = none;
}

-- The delivery is accepted, and its receipt returned.
unfoldable pub accept_message : Runtime → Message → String → ℕ → M Fields
unfolding accepted_delivery remember receipt
accept_message r m state enter_attempts = do
  let given = receipt m state enter_attempts
  remember r m.id (accepted_delivery m given)
  pure given

unfoldable pub send_keys : Runtime → List String → List String
send_keys r keys = "send-keys" ∷ "-t" ∷ r.tmux_target ∷ keys

-- A line for the shell: its text and Enter.
unfoldable pub send_shell : Runtime → Message → M Fields
unfolding run_tmux send_keys accept_message
send_shell r m = do
  run_tmux r (send_keys r ("-l" ∷ strip m.text ∷ [])) "tmux send shell prep failed"
  run_tmux r (send_keys r ("Enter" ∷ [])) "tmux send shell prep failed"
  accept_message r m "shell" 1

unfoldable pub pasted_delivery : Message → ℕ → ProbeState → Delivery
pasted_delivery m baseline probe = record {
  session = m.session;
  digest = m.digest;
  status = pasted;
  updated_at = 0;
  updated_epoch = 0;
  receipt = none;
  paste_ready = true;
  queued_baseline = some baseline;
  rollout_device = probe.device;
  rollout_inode = probe.inode;
  rollout_offset = probe.offset;
}

-- The body of the `try`: the text goes to the pane through a tmux buffer.
unfoldable pub paste_text : Runtime → Message → Bool → Option Probe → String → String → M ℕ
unfolding run_tmux remember pasted_delivery
paste_text r m codex probe buffer path = do
  tell capture
  tell cursor
  baseline ← ask_if codex 0 queued_count (r.queued_count m.text)
  tell (write_temporary path)
  run_tmux r ("load-buffer" ∷ "-b" ∷ buffer ∷ path ∷ []) "tmux load-buffer failed"
  run_tmux r ("paste-buffer" ∷ "-d" ∷ "-p" ∷ "-r" ∷ "-b" ∷ buffer ∷ "-t" ∷ r.tmux_target ∷ [])
      "tmux paste-buffer failed"
  ready ← ask wait_for_paste (r.wait_for_paste m.text)
  ensure ready paste_unconfirmed
  state ← ask probe_state (r.probe_state probe)
  remember r m.id (pasted_delivery m baseline state)
  pure baseline

-- The `finally`: the temporary file and the buffer go.
unfoldable pub clear_buffer : Runtime → String → String → M (Unit {0})
clear_buffer r buffer path = do
  tell (unlink path)
  tell (tmux ("delete-buffer" ∷ "-b" ∷ buffer ∷ []))

-- A first paste; it gives the number of queued follow-ups before it.
unfoldable pub paste : Runtime → Message → Bool → Option Probe → M ℕ
unfolding paste_text clear_buffer
paste r m codex probe = do
  name ← ask token r.token
  path ← get_state (λ s. r.temporary_name s.calls)
  let buffer = "local-tmux-owner-" ++ name
  baseline ← finally (paste_text r m codex probe buffer path) (clear_buffer r buffer path)
  tell sleep
  pure baseline
