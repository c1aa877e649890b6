-- ===== src/Delivery/Service/Send/Repeated.antt =====
-- A message that comes again under the same id.
use faryo_codex_web_ui.Base.{
  ◌≡◌, ◌∙◌, ap, sym, ◌≢◌, ◌⊎◌, inl, inr, ◌≤◌, refl, subst, true, false, some, String, str_eq, arith,
  eq_iff, eq_refl, ◌&&◌,
}
use faryo_codex_web_ui.Base.Dict.{get, get-retain}
use faryo_codex_web_ui.Json.{Fields}
use faryo_codex_web_ui.Program.{Outcome, returns, raises, Ends}
use faryo_codex_web_ui.Delivery.Record.{Delivery, accepted}
use faryo_codex_web_ui.Delivery.Runtime.{SendError, Runtime, Service, id_reused, ask, monotonic}
use faryo_codex_web_ui.Delivery.Effects.{commands, runs, count_calls}
use faryo_codex_web_ui.Delivery.Service.{
  Message, in_time, prune, find, in_memory_or, duplicate, keep_on_disk,
}
use faryo_codex_web_ui.Delivery.Service.Send.{by_status, deliver_known, deliver}
use faryo_codex_web_ui.Delivery.Service.Send.Bounded.{known-AtMost}
use faryo_codex_web_ui.Delivery.Service.Send.Receipts.{as_duplicate, Recorded, deliver-Recorded}

module _ (r : Runtime) (m : Message) (s : Service) where
  -- The state after the look up of a delivery in memory.
  looked : Service
  unfolding ask prune
  looked = (prune r (r.monotonic s.calls) (ask monotonic r.monotonic s).1).1

  looked_calls : (name : String) → commands name looked ≡ commands name s
  unfolding looked ask prune commands count_calls runs
  looked_calls name = refl

  module _ (d : Delivery) (known : get m.id s.deliveries ≡ some d)
      (current : in_time r (r.monotonic s.calls) d ≡ true) where
    looked_known : get m.id looked.deliveries ≡ some d
    unfolding looked ask prune
    looked_known = get-retain (in_time r (r.monotonic s.calls)) m.id d s.deliveries current known

    -- A delivery in memory is found there, and no tmux command is run to find it.
    deliver-current : deliver r m s ≡ deliver_known r m (r.monotonic s.calls) (some d) looked
    unfolding deliver prune find in_memory_or ask looked
    deliver-current = rw looked_known refl

    -- A delivery in memory with other content: an error, it stays as it was, and no tmux command is run.
    deliver_reused :
        (str_eq d.session m.session && str_eq d.digest m.digest) ≡ false
        → ((deliver r m s).0 ≡ raises id_reused)
          × (get m.id (deliver r m s).1.deliveries ≡ some d)
          × ((name : String) → commands name (deliver r m s).1 ≡ commands name s)
    unfolding deliver_known
    deliver_reused other = rw (deliver-current, other) (refl, looked_known, looked_calls)

    -- A delivery that was pasted or accepted before pastes nothing, however it ends.
    pub deliver_known_pastes : commands "paste-buffer" (deliver r m s).1 ≤ commands "paste-buffer" s
    deliver_known_pastes = rw deliver-current (
        omega (
          arith,
          looked_calls "paste-buffer",
          (known-AtMost "paste-buffer" r m (r.monotonic s.calls) d).bound looked,
        ))

    -- An accepted one gives its receipt, marked, and runs no tmux command.
    pub deliver_accepted :
        (kept : Fields)
        → d.session ≡ m.session
        → d.digest ≡ m.digest
        → d.status ≡ accepted
        → d.receipt ≡ some kept
        → ((deliver r m s).0 ≡ returns (as_duplicate kept))
          × ((name : String) → commands name (deliver r m s).1 ≡ commands name s)
    unfolding deliver_known by_status duplicate keep_on_disk ask as_duplicate commands count_calls
        runs
    deliver_accepted kept same_session same_digest is_accepted has_receipt =
        rw
          (
            deliver-current,
            same_session,
            same_digest,
            eq_refl m.session,
            eq_refl m.digest,
            is_accepted,
            has_receipt,
          )
          (refl, looked_calls)

returned-Recorded :
    (m : Message) (given : Fields) (result : Outcome SendError Fields × Service)
    → Ends (Recorded m) result
    → result.0 ≡ returns given
    → Recorded m given result.1
returned-Recorded m given (returns g, s) rec same =
    let equal : g ≡ given = cc same in subst (λ x. Recorded m x s) equal rec
returned-Recorded m given (raises e, s) rec same = cc same

-- A delivery that returned a receipt, sent again while it is in memory, whatever the pane has become: the same
-- receipt, marked as a duplicate, and no tmux command.
pub deliver-deliver :
    (r again : Runtime) (m : Message) (s : Service) (given : Fields)
    → (deliver r m s).0 ≡ returns given
    → ((d : Delivery)
        → get m.id (deliver r m s).1.deliveries ≡ some d
        → in_time again (again.monotonic (deliver r m s).1.calls) d ≡ true)
    → ((deliver again m (deliver r m s).1).0 ≡ returns (as_duplicate given))
      × ((name : String)
          → commands name (deliver again m (deliver r m s).1).1 ≡ commands name (deliver r m s).1)
deliver-deliver r again m s given returned current =
    let rec = returned-Recorded m given (deliver r m s) (deliver-Recorded r m s) returned in
    rw rec.same_receipt at (
      deliver_accepted again m (deliver r m s).1 rec.delivery rec.known
        (current rec.delivery rec.known) rec.kept rec.same_session rec.same_digest rec.is_accepted
        rec.has_receipt)

other_content :
    (d : Delivery) (session digest other_session other_digest : String)
    → d.session ≡ session
    → d.digest ≡ digest
    → (other_session ≢ session) ⊎ (other_digest ≢ digest)
    → (str_eq d.session other_session && str_eq d.digest other_digest) ≡ false
other_content d session digest other_session other_digest same_session same_digest (inl apart) =
    ground (arith, eq_iff d.session other_session)
other_content d session digest other_session other_digest same_session same_digest (inr apart) =
    ground (arith, eq_iff d.digest other_digest)

-- After a delivery that returned a receipt, and while it is in memory and not expired, whatever the pane has become:
-- a message under its id for another session, or with another digest, raises the error for a reused id and runs no
-- tmux command, and the first message is still recorded as accepted, with its receipt.
pub deliver-deliver_reused :
    (r again : Runtime) (m other : Message) (s : Service) (given : Fields)
    → (deliver r m s).0 ≡ returns given
    → other.id ≡ m.id
    → (other.session ≢ m.session) ⊎ (other.digest ≢ m.digest)
    → ((d : Delivery)
        → get m.id (deliver r m s).1.deliveries ≡ some d
        → in_time again (again.monotonic (deliver r m s).1.calls) d ≡ true)
    → let done = deliver again other (deliver r m s).1 in
      (done.0 ≡ raises id_reused)
      × Recorded m given done.1
      × ((name : String) → commands name done.1 ≡ commands name (deliver r m s).1)
deliver-deliver_reused r again m other s given returned same_id apart current =
    let sent = (deliver r m s).1 in
    let rec = returned-Recorded m given (deliver r m s) (deliver-Recorded r m s) returned in
    let here : get other.id sent.deliveries ≡ some rec.delivery = rw same_id rec.known in
    let (refused, stays, quiet) =
      deliver_reused again other sent rec.delivery here (current rec.delivery rec.known) (
        other_content rec.delivery m.session m.digest other.session other.digest rec.same_session
          rec.same_digest apart) in
    (
      refused,
      record {
        delivery = rec.delivery;
        kept = rec.kept;
        known = ap (λ k. get k (deliver again other sent).1.deliveries) (sym same_id) ∙ stays;
        same_session = rec.same_session;
        same_digest = rec.same_digest;
        is_accepted = rec.is_accepted;
        has_receipt = rec.has_receipt;
        same_receipt = rec.same_receipt;
      },
      quiet,
    )
