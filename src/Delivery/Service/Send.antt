-- ===== src/Delivery/Service/Send.antt =====
-- delivery_service.py: `DeliveryService.send`, from the checks of the text to the receipt.
use Prim.Native.Char.{code}
use Prim.Native.String.{◌++◌, count}
use faryo_codex_web_ui.Base.{
  ℕ, zero, suc, Bool, true, false, not, ◌||◌, ◌&&◌, Option, none, some, [], ◌∷◌, String, str_eq,
  leb, ◌==◌, if◌then◌else◌, is_some,
}
use faryo_codex_web_ui.Base.Dict.{get}
use faryo_codex_web_ui.Base.Letters.{lower}
use faryo_codex_web_ui.Base.Text.{strip, is_empty, split_at, is_whitespace}
use faryo_codex_web_ui.Json.{Fields, Value}
use faryo_codex_web_ui.Commands.Catalog.{CommandCatalog}
use faryo_codex_web_ui.Commands.Invocation.{command_invocation}
use faryo_codex_web_ui.Program.{◌>>=◌, ◌>>◌, pure, throw, ensure, get_state}
use faryo_codex_web_ui.Delivery.Record.{
  Delivery, Status, pasted, accepted, clean_client_message_id, baseline_or_zero,
}
use faryo_codex_web_ui.Delivery.Runtime.{
  Runtime, Probe, M, ask, ask_if, tell, has_session, new_id, monotonic, agent_in_pane,
  agent_profile, composer_has_draft, submission_probe, probe_from_state, sleep, composer_contains,
  wait_for_submission, submission_key, session_not_found, empty_text, text_too_long, invalid_id,
  slash_command, id_reused, unsent_draft, ambiguous, not_accepted, missing_key,
}
use faryo_codex_web_ui.Delivery.Service.{
  Message, receipt, remember, prune, find, duplicate, run_tmux, accept_message, send_keys,
  send_shell, paste,
}
pub mod Bounded
pub mod Receipts
pub mod Repeated
pub mod Commands

-- `if state:` on an optional text.
unfoldable pub present : Option String → Option String
present none = none
present (some s) = if is_empty s then none else some s

wait : Runtime → Message → Option Probe → ℕ → Bool → M (Option String)
unfolding present
wait r m probe baseline allow = do
  state ← ask wait_for_submission (
      r.wait_for_submission m.text (record {
        probe = probe;
        queued_baseline = baseline;
        allow_composer_disappearance = allow;
      }))
  pure (present state)

-- What an attempt gives: the evidence, if there is any, and the number of keys sent.
abbrev pub Attempt : Type 0
Attempt = Option String × ℕ

-- After the wait: the evidence ends the loop, else a pause and the attempts that are left.
settled : ℕ → M Attempt → Option String → M Attempt
settled made again (some state) = pure (some state, made)
settled made again none = do tell sleep; again

observed : Runtime → Message → Bool → Option Probe → ℕ → ℕ → String → M Attempt → M Attempt
unfolding wait settled
observed r m true probe baseline made key again = do
  state ← wait r m probe baseline (not (str_eq key "Tab"))
  settled made again state
observed r m false probe baseline made key again = pure (some "sent", made)

-- The loop of submit keys: the attempts left, and the number made.
unfoldable pub submit_keys : Runtime → Message → Bool → Option Probe → ℕ → ℕ → ℕ → M Attempt
unfolding send_keys observed
submit_keys r m codex probe baseline zero made = pure (none, made)
submit_keys r m codex probe baseline (suc left) made =
    let again = submit_keys r m codex probe baseline left (suc made) in
    do
      key ← ask_if codex "C-m" submission_key r.submission_key
      run_tmux r (send_keys r (key ∷ [])) ("tmux send " ++ (key ++ " failed"))
      observed r m codex probe baseline (suc made) key again

-- Without evidence the delivery stays pasted, with a new time.
refresh : Runtime → String → Option Delivery → M (Unit {0})
refresh r id none = throw missing_key
refresh r id (some d) = remember r id d

unaccepted : Runtime → Message → M Fields
unfolding refresh
unaccepted r m = do d ← get_state (λ s. get m.id s.deliveries); refresh r m.id d; throw not_accepted

concluded : Runtime → Message → Attempt → M Fields
unfolding unaccepted
concluded r m (none, made) = unaccepted r m
concluded r m (some state, made) = accept_message r m state made

-- The submit keys and their conclusion: one attempt where the pane runs no Codex.
unfoldable pub submit : Runtime → Message → Bool → Option Probe → ℕ → M Fields
unfolding concluded
submit r m codex probe baseline = do
  attempt ← submit_keys r m codex probe baseline (if codex then r.send_key_max_attempts else 1) 0
  concluded r m attempt

-- A message that is not in the pane yet: a Codex composer with a draft is left alone.
unfoldable pub paste_and_submit : Runtime → Message → M Fields
paste_and_submit r m = do
  codex ← ask agent_profile r.codex_in_pane
  draft ← ask_if codex false composer_has_draft r.composer_has_draft
  ensure (not draft) unsent_draft
  probe ← ask_if codex none submission_probe r.submission_probe
  baseline ← paste r m codex probe
  submit r m codex probe baseline

either_probe : Option Probe → Option Probe → Option Probe
either_probe (some p) _ = some p
either_probe none fresh = fresh

-- A pasted text that is no longer in the composer: evidence, or an error, and no key.
recovered : Runtime → Message → Delivery → Option String → M Fields
recovered r m d none = do remember r m.id d; throw ambiguous
recovered r m d (some state) = do
  let given = receipt m state 0
  remember r m.id (record d { status = accepted; receipt = some given })
  pure given

recover : Runtime → Message → Delivery → Option Probe → ℕ → M Fields
unfolding recovered wait
recover r m d probe baseline = do state ← wait r m probe baseline false; recovered r m d state

-- A message that an earlier request pasted.
unfoldable pub resume : Runtime → Message → Delivery → M Fields
unfolding recover either_probe
resume r m d = do
  codex ← ask agent_profile r.codex_in_pane
  fresh ← ask_if codex none submission_probe r.submission_probe
  stored ← ask_if codex none probe_from_state (r.probe_from_state d)
  there ← ask_if codex true composer_contains (r.composer_contains m.text)
  let probe = either_probe stored fresh
  let baseline = baseline_or_zero d.queued_baseline
  if there then submit r m codex probe baseline else recover r m d probe baseline

-- A shell command in a pane without an agent is typed; all else goes through the paste.
unfoldable pub new_or : Runtime → Message → M Fields → M Fields
new_or r m otherwise = do
  agent ← ask_if m.shell_prep true agent_in_pane r.agent_in_pane
  if agent then otherwise else send_shell r m

by_status : Runtime → Message → ℕ → Delivery → Status → M Fields
by_status r m now d accepted = duplicate r m.id now d d.receipt
by_status r m now d pasted = new_or r m (resume r m d)

unfoldable pub deliver_known : Runtime → Message → ℕ → Option Delivery → M Fields
unfolding by_status
deliver_known r m now none = new_or r m (paste_and_submit r m)
deliver_known r m now (some d) =
    if str_eq d.session m.session && str_eq d.digest m.digest
    then by_status r m now d d.status
    else throw id_reused

-- What is done under the locks of the session and the message.
unfoldable pub deliver : Runtime → Message → M Fields
unfolding deliver_known
deliver r m = do
  now ← ask monotonic r.monotonic
  prune r now
  existing ← find r m.id
  deliver_known r m now existing

-- `Path(word).name`: the last part between slashes that is neither empty nor a dot.
unfoldable pub last_part : String → String → String → String
last_part found part String.[] = if is_empty part || str_eq part "." then found else part
last_part found part (String.◌∷◌ c s) =
    if code c == b'/'
    then last_part (if is_empty part || str_eq part "." then found else part) "" s
    else last_part found (part ++ String.◌∷◌ c "") s

-- A line that a shell in the pane may take: an agent's launch or a harmless command.
unfoldable pub is_shell_prep : Runtime → String → Bool
unfolding last_part
is_shell_prep r line =
    r.is_agent_launch_command (lower (last_part "" "" (split_at is_whitespace line).0))
    || r.shell_prep_matches line

-- `client_message_id and not clean_client_message_id(client_message_id)`
valid_id : Option String → Bool
valid_id none = true
valid_id (some s) = is_empty s || is_some (clean_client_message_id s)

clean_or_none : Option String → Option String
clean_or_none none = none
clean_or_none (some s) = clean_client_message_id s

id_or_new : Runtime → Option String → M String
id_or_new r (some id) = pure id
id_or_new r none = ask new_id r.new_id

-- `if codex_command_policy.command_invocation(line)`: an invocation is never empty.
unfoldable pub is_command_line : CommandCatalog → String → Bool
is_command_line catalog line = is_some (command_invocation (some (Value.text line)) catalog)

-- The checks of `send` before its locks, and the message that they let through.
unfoldable pub validated : Runtime → String → String → Option String → M Message
unfolding valid_id clean_or_none id_or_new is_shell_prep
validated r session text client_id = do
  alive ← ask has_session r.has_session
  ensure alive session_not_found
  ensure (not (is_empty (strip text))) empty_text
  ensure (leb (count text) r.max_send_chars) text_too_long
  ensure (valid_id client_id) invalid_id
  id ← id_or_new r (clean_or_none client_id)
  ensure (not (is_command_line r.catalog (strip text))) slash_command
  pure (record {
    session = session;
    text = text;
    id = id;
    digest = r.sha256 text;
    shell_prep = is_shell_prep r (strip text);
  })

-- `send`
unfoldable pub send : Runtime → String → String → Option String → M Fields
unfolding validated deliver
send r session text client_id = do m ← validated r session text client_id; deliver r m
