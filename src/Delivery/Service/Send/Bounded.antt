-- ===== src/Delivery/Service/Send/Bounded.antt =====
-- How many tmux commands one `send` runs.
use faryo_codex_web_ui.Base.{
  ℕ, zero, suc, ◌+◌, ◌*◌, ◌≤◌, max, refl, Bool, true, false, Option, none, some, String,
  if◌then◌else◌, arith,
}
use native.Mathlib.Nat.{mul-le-mul_right}
use faryo_codex_web_ui.Base.Text.{strip}
use faryo_codex_web_ui.Base.Dict.{get}
use faryo_codex_web_ui.Json.{Fields}
use faryo_codex_web_ui.Program.{
  AtMost, AtMost-bind, AtMost-then, AtMost-both, AtMost-skip, AtMost-get_state, AtMost-ensure,
  AtMost-le, AtMost-pure, AtMost-throw, AtMost-if,
}
use faryo_codex_web_ui.Delivery.Runtime.{Runtime, M, Probe, Service, not_accepted, ambiguous}
use faryo_codex_web_ui.Delivery.Record.{Delivery, Status, pasted, accepted, baseline_or_zero}
use faryo_codex_web_ui.Delivery.Effects.{
  commands, runs, spent, AtMost-ask_other, AtMost-ask_if, AtMost-tell,
}
use faryo_codex_web_ui.Delivery.Service.{Message, receipt}
use faryo_codex_web_ui.Delivery.Service.Steps.{
  pasting, remember-AtMost, prune-AtMost, find-AtMost, duplicate-AtMost, run_tmux-AtMost,
  accept_message-AtMost, send_shell-AtMost, paste-AtMost,
}
use faryo_codex_web_ui.Delivery.Service.Send.{
  Attempt, wait, settled, observed, submit_keys, refresh, unaccepted, concluded, submit,
  paste_and_submit, recovered, recover, resume, new_or, by_status, deliver_known, deliver,
  id_or_new, clean_or_none, validated, send, is_shell_prep, either_probe,
}

module _ (name : String) (r : Runtime) where
  wait-AtMost :
      (m : Message) (probe : Option Probe) (baseline : ℕ) (allow : Bool)
      → AtMost (commands name) 0 (wait r m probe baseline allow)
  unfolding wait runs
  wait-AtMost m probe baseline allow =
      AtMost-then (AtMost-ask_other name _ _ refl) (λ state. AtMost-pure _)

  settled-AtMost :
      (n made : ℕ) (again : M Attempt) (state : Option String)
      → AtMost (commands name) n again
      → AtMost (commands name) n (settled made again state)
  unfolding settled runs
  settled-AtMost n made again (some state) h = AtMost-pure _
  settled-AtMost n made again none h = AtMost-skip (AtMost-tell name _ refl) h

  observed-AtMost :
      (n : ℕ) (m : Message) (codex : Bool) (probe : Option Probe) (baseline made : ℕ) (key : String)
      (again : M Attempt)
      → AtMost (commands name) n again
      → AtMost (commands name) n (observed r m codex probe baseline made key again)
  unfolding observed
  observed-AtMost n m true probe baseline made key again h =
      AtMost-then (wait-AtMost m probe baseline _) (λ state. settled-AtMost n made again state h)
  observed-AtMost n m false probe baseline made key again h = AtMost-pure _

  -- One key for each attempt.
  submit_keys-AtMost :
      (m : Message) (codex : Bool) (probe : Option Probe) (baseline left made : ℕ)
      → AtMost
          (commands name)
          (left * spent name "send-keys")
          (submit_keys r m codex probe baseline left made)
  unfolding submit_keys runs
  submit_keys-AtMost m codex probe baseline zero made = AtMost-pure _
  submit_keys-AtMost m codex probe baseline (suc left) made =
      AtMost-then (AtMost-ask_if name _ _ _ _ refl) (λ key. AtMost-le (omega arith) (
        AtMost-both (run_tmux-AtMost name r "send-keys" _ _) (
          observed-AtMost (left * spent name "send-keys") m codex probe baseline (suc made) key _
            (submit_keys-AtMost m codex probe baseline left (suc made)))))

  refresh-AtMost : (id : String) (d : Option Delivery) → AtMost (commands name) 0 (refresh r id d)
  unfolding refresh
  refresh-AtMost id none = AtMost-throw _
  refresh-AtMost id (some d) = remember-AtMost name r id d

  concluded-AtMost :
      (m : Message) (attempt : Attempt) → AtMost (commands name) 0 (concluded r m attempt)
  unfolding concluded unaccepted
  concluded-AtMost m (none, made) =
      AtMost-then (AtMost-get_state (λ s. get m.id s.deliveries))
        (λ d. AtMost-skip (refresh-AtMost m.id d) (AtMost-throw not_accepted))
  concluded-AtMost m (some state, made) = accept_message-AtMost name r m state made

  attempts-le :
      (codex : Bool) (cost : ℕ)
      → (if codex then r.send_key_max_attempts else 1) * cost ≤ max 2 r.send_key_max_attempts * cost
  attempts-le codex cost = mul-le-mul_right cost (ground arith)

  submit-AtMost :
      (m : Message) (codex : Bool) (probe : Option Probe) (baseline : ℕ)
      → AtMost
          (commands name)
          (max 2 r.send_key_max_attempts * spent name "send-keys")
          (submit r m codex probe baseline)
  unfolding submit
  submit-AtMost m codex probe baseline =
      AtMost-le (omega (arith, attempts-le codex (spent name "send-keys"))) (
        AtMost-bind (submit_keys-AtMost m codex probe baseline _ 0)
          (λ attempt. concluded-AtMost m attempt))

  -- What one message may cost.
  budget : ℕ
  budget = max 2 r.send_key_max_attempts * spent name "send-keys" + pasting name

  paste_and_submit-AtMost : (m : Message) → AtMost (commands name) budget (paste_and_submit r m)
  unfolding paste_and_submit runs budget
  paste_and_submit-AtMost m = AtMost-then (AtMost-ask_other name _ _ refl) (λ codex.
      AtMost-then (AtMost-ask_if name _ _ _ _ refl) (λ draft. AtMost-skip (AtMost-ensure _ _) (
        AtMost-then (AtMost-ask_if name _ _ _ _ refl) (λ probe. AtMost-le (omega arith) (
          AtMost-bind (paste-AtMost name r m codex probe)
            (λ baseline. submit-AtMost m codex probe baseline))))))

  recovered-AtMost :
      (m : Message) (d : Delivery) (state : Option String)
      → AtMost (commands name) 0 (recovered r m d state)
  unfolding recovered
  recovered-AtMost m d none = AtMost-skip (remember-AtMost name r m.id d) (AtMost-throw ambiguous)
  recovered-AtMost m d (some state) =
      AtMost-skip
        (remember-AtMost name r m.id
          (record d { status = accepted; receipt = some (receipt m state 0) }))
        (AtMost-pure (receipt m state 0))

  recover-AtMost :
      (m : Message) (d : Delivery) (probe : Option Probe) (baseline : ℕ)
      → AtMost (commands name) 0 (recover r m d probe baseline)
  unfolding recover
  recover-AtMost m d probe baseline =
      AtMost-then (wait-AtMost m probe baseline false) (λ state. recovered-AtMost m d state)

  -- A resumed delivery only sends keys: it pastes nothing.
  resume-AtMost :
      (m : Message) (d : Delivery)
      → AtMost
          (commands name)
          (max 2 r.send_key_max_attempts * spent name "send-keys")
          (resume r m d)
  unfolding resume runs
  resume-AtMost m d = AtMost-then (AtMost-ask_other name _ _ refl) (λ codex.
      AtMost-then (AtMost-ask_if name _ _ _ _ refl) (λ fresh.
        AtMost-then (AtMost-ask_if name _ _ _ _ refl) (λ stored.
          AtMost-then (AtMost-ask_if name _ _ _ _ refl) (λ there.
            AtMost-if there (submit-AtMost m codex _ _) (
              AtMost-le (omega arith) (
                recover-AtMost m d (either_probe stored fresh)
                  (baseline_or_zero d.queued_baseline)))))))

  new_or-AtMost :
      (n : ℕ) (m : Message) (otherwise : M Fields)
      → 2 * spent name "send-keys" ≤ n
      → AtMost (commands name) n otherwise
      → AtMost (commands name) n (new_or r m otherwise)
  unfolding new_or runs
  new_or-AtMost n m otherwise two h =
      AtMost-then (AtMost-ask_if name _ _ _ _ refl)
        (λ agent. AtMost-if agent h (AtMost-le (omega (arith, two)) (send_shell-AtMost name r m)))

  two-le : 2 * spent name "send-keys" ≤ max 2 r.send_key_max_attempts * spent name "send-keys"
  two-le = mul-le-mul_right (spent name "send-keys") (omega arith)

  pasted-AtMost :
      (m : Message) (d : Delivery)
      → AtMost
          (commands name)
          (max 2 r.send_key_max_attempts * spent name "send-keys")
          (new_or r m (resume r m d))
  pasted-AtMost m d = new_or-AtMost _ m (resume r m d) two-le (resume-AtMost m d)

  by_status-AtMost :
      (m : Message) (now : ℕ) (d : Delivery) (status : Status)
      → AtMost
          (commands name)
          (max 2 r.send_key_max_attempts * spent name "send-keys")
          (by_status r m now d status)
  unfolding by_status
  by_status-AtMost m now d accepted =
      AtMost-le (omega arith) (duplicate-AtMost name r m.id now d d.receipt)
  by_status-AtMost m now d pasted = pasted-AtMost m d

  -- A delivery that is known pastes nothing.
  pub known-AtMost :
      (m : Message) (now : ℕ) (d : Delivery)
      → AtMost
          (commands name)
          (max 2 r.send_key_max_attempts * spent name "send-keys")
          (deliver_known r m now (some d))
  unfolding deliver_known
  known-AtMost m now d = AtMost-if _ (by_status-AtMost m now d d.status) (AtMost-throw _)

  deliver_known-AtMost :
      (m : Message) (now : ℕ) (existing : Option Delivery)
      → AtMost (commands name) budget (deliver_known r m now existing)
  unfolding deliver_known budget
  deliver_known-AtMost m now none =
      new_or-AtMost budget m (paste_and_submit r m) (omega (arith, two-le))
        (paste_and_submit-AtMost m)
  deliver_known-AtMost m now (some d) = AtMost-le (omega arith) (known-AtMost m now d)

  deliver-AtMost : (m : Message) → AtMost (commands name) budget (deliver r m)
  unfolding deliver runs
  deliver-AtMost m = AtMost-then (AtMost-ask_other name _ _ refl) (λ now.
      AtMost-skip (prune-AtMost name r now)
        (AtMost-then (find-AtMost name r m.id) (λ existing. deliver_known-AtMost m now existing)))

  id_or_new-AtMost : (id : Option String) → AtMost (commands name) 0 (id_or_new r id)
  unfolding id_or_new runs
  id_or_new-AtMost none = AtMost-ask_other name _ _ refl
  id_or_new-AtMost (some id) = AtMost-pure _

  pub validated-AtMost :
      (session text : String) (client_id : Option String)
      → AtMost (commands name) 0 (validated r session text client_id)
  unfolding validated runs
  validated-AtMost session text client_id = AtMost-then (AtMost-ask_other name _ _ refl) (λ alive.
      AtMost-skip (AtMost-ensure _ _) (
        AtMost-skip (AtMost-ensure _ _) (
          AtMost-skip (AtMost-ensure _ _) (
            AtMost-skip (AtMost-ensure _ _) (
              AtMost-then (id_or_new-AtMost (clean_or_none client_id)) (λ id.
                AtMost-skip (AtMost-ensure _ _) (
                  AtMost-pure {n = 0} (record {
                    session = session;
                    text = text;
                    id = id;
                    digest = r.sha256 text;
                    shell_prep = is_shell_prep r (strip text);
                  }))))))))

  send-AtMost :
      (session text : String) (client_id : Option String)
      → AtMost (commands name) budget (send r session text client_id)
  unfolding send
  send-AtMost session text client_id =
      AtMost-then (validated-AtMost session text client_id) (λ m. deliver-AtMost m)

-- One send, whatever the pane and the clocks answer and however it ends, pastes at most once and runs at most
-- the configured number of send-keys, or two.
pub send_bounded :
    (r : Runtime) (session text : String) (client_id : Option String) (s : Service)
    → (commands "paste-buffer" (send r session text client_id s).1 ≤ commands "paste-buffer" s + 1)
      × (commands "send-keys" (send r session text client_id s).1
          ≤ commands "send-keys" s + max 2 r.send_key_max_attempts)
unfolding budget
send_bounded r session text client_id s = (
  omega (arith, (send-AtMost "paste-buffer" r session text client_id).bound s),
  omega (arith, (send-AtMost "send-keys" r session text client_id).bound s),
)
