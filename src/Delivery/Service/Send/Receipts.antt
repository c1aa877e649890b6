-- ===== src/Delivery/Service/Send/Receipts.antt =====
-- What a delivery that returns a receipt has recorded.
use faryo_codex_web_ui.Base.{
  ℕ, ◌≡◌, refl, sym, Bool, true, false, not, Option, none, some, [], ◌∷◌, String, str_eq, arith,
  Bool-cases, inl, inr, ◌&&◌, eq_iff, eq_refl,
}
use faryo_codex_web_ui.Base.Text.{strip}
use faryo_codex_web_ui.Base.Dict.{get, get-put_self}
use faryo_codex_web_ui.Json.{Fields, Value, bool, no_fields, field, put_field}
use faryo_codex_web_ui.Program.{
  ensure, get_state, Ends, Post, Post-bind, Post-skip, Post-throw, Post-if,
}
use faryo_codex_web_ui.Delivery.Record.{Delivery, Status, pasted, accepted, baseline_or_zero}
use faryo_codex_web_ui.Delivery.Runtime.{
  Runtime, Service, M, Probe, ask, ask_if, agent_profile, composer_has_draft, unsent_draft,
  submission_probe, probe_from_state, composer_contains, monotonic, id_reused, not_accepted,
}
use faryo_codex_web_ui.Delivery.Service.{
  Message, keep_on_disk, remember, duplicate, accepted_delivery, accept_message, paste, prune, find,
  send_shell, send_keys, run_tmux,
}
use faryo_codex_web_ui.Delivery.Service.Send.{
  Attempt, concluded, refresh, unaccepted, submit, paste_and_submit, recovered, recover,
  either_probe, resume, new_or, by_status, deliver_known, deliver,
}

-- A receipt, marked as that of a repeated request.
unfoldable pub as_duplicate : Fields → Fields
as_duplicate fs = put_field "duplicate" (bool true) fs

-- The message is recorded as accepted, under its id and with its content, and a repeated request would be
-- given this receipt.
pub record Recorded (m : Message) (given : Fields) (s : Service) : Type 0 where
  pub delivery : Delivery
  pub kept : Fields
  pub known : get m.id s.deliveries ≡ some delivery
  pub same_session : delivery.session ≡ m.session
  pub same_digest : delivery.digest ≡ m.digest
  pub is_accepted : delivery.status ≡ accepted
  pub has_receipt : delivery.receipt ≡ some kept
  pub same_receipt : as_duplicate kept ≡ as_duplicate given

put_field_twice :
    (k : String) (v : Value) (fs : Fields) → put_field k v (put_field k v fs) ≡ put_field k v fs
unfolding put_field
put_field_twice k v no_fields = ground (arith, eq_refl k)
put_field_twice k v (field j w fs) = elim (Bool-cases (str_eq j k)) [
  | inl here ↦ rw (here, here) refl
  | inr there ↦ rw (there, there, put_field_twice k v fs) refl
]

module _ (r : Runtime) where
  accept_message-Post :
      (m : Message) (state : String) (made : ℕ) → Post (Recorded m) (accept_message r m state made)
  unfolding accept_message remember keep_on_disk ask accepted_delivery
  accept_message-Post m state made = record {
    ends = λ s. record {
      delivery = _;
      kept = _;
      known = get-put_self m.id _ s.deliveries;
      same_session = refl;
      same_digest = refl;
      is_accepted = refl;
      has_receipt = refl;
      same_receipt = refl;
    };
  }

  duplicate-Post :
      (m : Message) (now : ℕ) (d : Delivery) (kept : Option Fields)
      → d.session ≡ m.session
      → d.digest ≡ m.digest
      → d.status ≡ accepted
      → d.receipt ≡ kept
      → Post (Recorded m) (duplicate r m.id now d kept)
  unfolding duplicate keep_on_disk ask as_duplicate
  duplicate-Post m now d none hs hd ha hk = Post-throw _
  duplicate-Post m now d (some kept) hs hd ha hk = record {
    ends = λ s. record {
      delivery = _;
      kept = _;
      known = get-put_self m.id _ s.deliveries;
      same_session = hs;
      same_digest = hd;
      is_accepted = ha;
      has_receipt = hk;
      same_receipt = sym (put_field_twice _ _ kept);
    };
  }

  concluded-Post : (m : Message) (attempt : Attempt) → Post (Recorded m) (concluded r m attempt)
  unfolding concluded unaccepted
  concluded-Post m (none, made) =
      Post-bind (get_state (λ s. get m.id s.deliveries))
        (λ d. Post-skip (refresh r m.id d) (Post-throw not_accepted))
  concluded-Post m (some state, made) = accept_message-Post m state made

  submit-Post :
      (m : Message) (codex : Bool) (probe : Option Probe) (baseline : ℕ)
      → Post (Recorded m) (submit r m codex probe baseline)
  unfolding submit
  submit-Post m codex probe baseline = Post-bind _ (λ attempt. concluded-Post m attempt)

  paste_and_submit-Post : (m : Message) → Post (Recorded m) (paste_and_submit r m)
  unfolding paste_and_submit
  paste_and_submit-Post m = Post-bind (ask agent_profile r.codex_in_pane) (λ codex.
      Post-bind (ask_if codex false composer_has_draft r.composer_has_draft) (λ draft.
        Post-skip (ensure (not draft) unsent_draft) (
          Post-bind (ask_if codex none submission_probe r.submission_probe) (λ probe.
            Post-bind (paste r m codex probe) (λ baseline. submit-Post m codex probe baseline)))))

  recovered-Post :
      (m : Message) (d : Delivery) (state : Option String)
      → d.session ≡ m.session
      → d.digest ≡ m.digest
      → Post (Recorded m) (recovered r m d state)
  unfolding recovered remember keep_on_disk ask
  recovered-Post m d none hs hd = record { ends = λ s. tt }
  recovered-Post m d (some state) hs hd = record {
    ends = λ s. record {
      delivery = _;
      kept = _;
      known = get-put_self m.id _ s.deliveries;
      same_session = hs;
      same_digest = hd;
      is_accepted = refl;
      has_receipt = refl;
      same_receipt = refl;
    };
  }

  recover-Post :
      (m : Message) (d : Delivery) (probe : Option Probe) (baseline : ℕ)
      → d.session ≡ m.session
      → d.digest ≡ m.digest
      → Post (Recorded m) (recover r m d probe baseline)
  unfolding recover
  recover-Post m d probe baseline hs hd = Post-bind _ (λ state. recovered-Post m d state hs hd)

  resume-Post :
      (m : Message) (d : Delivery)
      → d.session ≡ m.session
      → d.digest ≡ m.digest
      → Post (Recorded m) (resume r m d)
  unfolding resume
  resume-Post m d hs hd = Post-bind (ask agent_profile r.codex_in_pane) (λ codex.
      Post-bind (ask_if codex none submission_probe r.submission_probe) (λ fresh.
        Post-bind (ask_if codex none probe_from_state (r.probe_from_state d)) (λ stored.
          Post-bind (ask_if codex true composer_contains (r.composer_contains m.text)) (λ there.
            Post-if there
              (submit-Post m codex (either_probe stored fresh) (baseline_or_zero d.queued_baseline))
              (recover-Post m d (either_probe stored fresh) (baseline_or_zero d.queued_baseline) hs
                hd)))))

  send_shell-Post : (m : Message) → Post (Recorded m) (send_shell r m)
  unfolding send_shell
  send_shell-Post m =
      Post-skip (run_tmux r (send_keys r ("-l" ∷ strip m.text ∷ [])) "tmux send shell prep failed")
        (Post-skip (run_tmux r (send_keys r ("Enter" ∷ [])) "tmux send shell prep failed")
          (accept_message-Post m "shell" 1))

  new_or-Post :
      (m : Message) (otherwise : M Fields)
      → Post (Recorded m) otherwise
      → Post (Recorded m) (new_or r m otherwise)
  unfolding new_or
  new_or-Post m otherwise h = Post-bind _ (λ agent. Post-if agent h (send_shell-Post m))

  by_status-Post :
      (m : Message) (now : ℕ) (d : Delivery) (status : Status)
      → d.session ≡ m.session
      → d.digest ≡ m.digest
      → d.status ≡ status
      → Post (Recorded m) (by_status r m now d status)
  unfolding by_status
  by_status-Post m now d accepted hs hd ha = duplicate-Post m now d d.receipt hs hd ha refl
  by_status-Post m now d pasted hs hd ha = new_or-Post m _ (resume-Post m d hs hd)

  deliver_known-Post :
      (m : Message) (now : ℕ) (existing : Option Delivery)
      → Post (Recorded m) (deliver_known r m now existing)
  unfolding deliver_known
  deliver_known-Post m now none = new_or-Post m _ (paste_and_submit-Post m)
  deliver_known-Post m now (some d) =
      elim (Bool-cases (str_eq d.session m.session && str_eq d.digest m.digest)) [
        | inl same ↦ rw same (
            by_status-Post m now d d.status (ground (arith, same, eq_iff d.session m.session))
              (ground (arith, same, eq_iff d.digest m.digest)) refl)
        | inr other ↦ rw other (Post-throw id_reused)
      ]

  deliver-Post : (m : Message) → Post (Recorded m) (deliver r m)
  unfolding deliver
  deliver-Post m = Post-bind (ask monotonic r.monotonic) (λ now.
      Post-skip (prune r now)
        (Post-bind (find r m.id) (λ existing. deliver_known-Post m now existing)))

  -- A delivery that returns a receipt is recorded as accepted with it: a shell line, a first paste, a resumed or
  -- recovered one and a repeated request alike.
  pub deliver-Recorded : (m : Message) (s : Service) → Ends (Recorded m) (deliver r m s)
  unfolding deliver
  deliver-Recorded m s = (deliver-Post m).ends s
