-- ===== src/Delivery/Service/Steps.antt =====
-- The tmux commands that the steps of a delivery run, by the command's name.
use Prim.Native.String.{◌++◌}
use faryo_codex_web_ui.Base.{
  ℕ, ◌+◌, ◌*◌, refl, Bool, true, Option, none, some, List, [], ◌∷◌, String, arith,
}
use faryo_codex_web_ui.Json.{Fields, bool, put_field}
use faryo_codex_web_ui.Program.{
  AtMost, AtMost-bind, AtMost-then, AtMost-both, AtMost-skip, AtMost-get_state, AtMost-ensure,
  AtMost-le, AtMost-pure, AtMost-throw, AtMost-finally,
}
use faryo_codex_web_ui.Delivery.Runtime.{Runtime, Probe, tell, unlink, sleep}
use faryo_codex_web_ui.Delivery.Effects.{
  commands, spent, runs, AtMost-ask_tmux, AtMost-change, AtMost-ask_other, AtMost-ask_if,
  AtMost-tell,
}
use faryo_codex_web_ui.Delivery.Record.{Delivery}
use faryo_codex_web_ui.Delivery.Store.{
  Loaded, absent, raises_type_error, raises_overflow, reads, load,
}
use faryo_codex_web_ui.Delivery.Service.{
  Message, keep_on_disk, remember, run_tmux, prune, adopt, read_disk, in_memory_or, find, duplicate,
  accept_message, send_keys, send_shell, paste_text, clear_buffer, paste, accepted_delivery,
  pasted_delivery, receipt,
}

abbrev pub pasting : String → ℕ
pasting name = spent name "load-buffer" + (spent name "paste-buffer" + spent name "delete-buffer")

module _ (name : String) (r : Runtime) where
  keep_on_disk-AtMost :
      (id : String) (d : Delivery) → AtMost (commands name) 0 (keep_on_disk r id d)
  unfolding keep_on_disk runs
  keep_on_disk-AtMost id d =
      AtMost-then (AtMost-ask_other name _ _ refl) (λ now. AtMost-change name _ (λ s. refl))

  pub remember-AtMost : (id : String) (d : Delivery) → AtMost (commands name) 0 (remember r id d)
  unfolding remember runs
  remember-AtMost id d = AtMost-then (AtMost-ask_other name _ _ refl) (λ now.
      AtMost-then (AtMost-ask_other name _ _ refl)
        (λ wall. AtMost-skip (AtMost-change name _ (λ s. refl)) (keep_on_disk-AtMost id _)))

  pub prune-AtMost : (now : ℕ) → AtMost (commands name) 0 (prune r now)
  unfolding prune runs
  prune-AtMost now = AtMost-skip (AtMost-change name _ (λ s. refl)) (
      AtMost-then (AtMost-ask_other name _ _ refl) (λ at.
        AtMost-then (AtMost-ask_other name _ _ refl) (λ wall. AtMost-change name _ (λ s. refl))))

  adopt-AtMost : (id : String) (read : Loaded) → AtMost (commands name) 0 (adopt id read)
  unfolding adopt
  adopt-AtMost id absent = AtMost-pure _
  adopt-AtMost id raises_type_error = AtMost-throw _
  adopt-AtMost id raises_overflow = AtMost-throw _
  adopt-AtMost id (reads d) = AtMost-skip (AtMost-change name _ (λ s. refl)) (AtMost-pure _)

  read_disk-AtMost : (id : String) → AtMost (commands name) 0 (read_disk r id)
  unfolding read_disk runs
  read_disk-AtMost id = AtMost-then (AtMost-ask_other name _ _ refl) (λ wall.
      AtMost-then (AtMost-ask_other name _ _ refl) (λ now.
        AtMost-then (AtMost-get_state (λ s. load r.floats now wall id s.store)) (λ read.
          AtMost-skip (AtMost-change name (λ s. record s { store = read.1 }) (λ s. refl))
            (adopt-AtMost id read.0))))

  in_memory_or-AtMost :
      (id : String) (known : Option Delivery)
      → AtMost (commands name) 0 (in_memory_or (read_disk r id) known)
  unfolding in_memory_or
  in_memory_or-AtMost id none = read_disk-AtMost id
  in_memory_or-AtMost id (some d) = AtMost-pure _

  pub find-AtMost : (id : String) → AtMost (commands name) 0 (find r id)
  unfolding find
  find-AtMost id = AtMost-then (AtMost-get_state _) (λ known. in_memory_or-AtMost id known)

  pub duplicate-AtMost :
      (id : String) (now : ℕ) (d : Delivery) (receipt : Option Fields)
      → AtMost (commands name) 0 (duplicate r id now d receipt)
  unfolding duplicate runs
  duplicate-AtMost id now d none = AtMost-throw _
  duplicate-AtMost id now d (some receipt) = AtMost-then (AtMost-ask_other name _ _ refl) (λ wall.
      AtMost-then (AtMost-change name _ (λ s. refl)) (λ _.
        AtMost-skip (keep_on_disk-AtMost id (record d { updated_at = now; updated_epoch = wall }))
          (AtMost-pure (put_field "duplicate" (bool true) receipt))))

  pub run_tmux-AtMost :
      (first : String) (rest : List String) (otherwise : String)
      → AtMost (commands name) (spent name first) (run_tmux r (first ∷ rest) otherwise)
  unfolding run_tmux
  run_tmux-AtMost first rest otherwise =
      AtMost-le (omega arith)
        (AtMost-bind (AtMost-ask_tmux name first rest _) (λ done. AtMost-ensure _ _))

  pub accept_message-AtMost :
      (m : Message) (state : String) (made : ℕ)
      → AtMost (commands name) 0 (accept_message r m state made)
  unfolding accept_message
  accept_message-AtMost m state made =
      AtMost-skip (remember-AtMost m.id (accepted_delivery m (receipt m state made)))
        (AtMost-pure _)

  pub send_shell-AtMost :
      (m : Message) → AtMost (commands name) (2 * spent name "send-keys") (send_shell r m)
  unfolding send_shell send_keys
  send_shell-AtMost m = AtMost-le (omega arith) (
      AtMost-both (run_tmux-AtMost _ _ _)
        (AtMost-both (run_tmux-AtMost _ _ _) (accept_message-AtMost m _ _)))

  paste_text-AtMost :
      (m : Message) (codex : Bool) (probe : Option Probe) (buffer path : String)
      → AtMost
          (commands name)
          (spent name "load-buffer" + spent name "paste-buffer")
          (paste_text r m codex probe buffer path)
  unfolding paste_text runs
  paste_text-AtMost m codex probe buffer path = AtMost-skip (AtMost-tell name _ refl) (
      AtMost-then (AtMost-tell name _ refl) (λ _.
        AtMost-then (AtMost-ask_if name _ _ _ _ refl) (λ baseline.
          AtMost-then (AtMost-tell name _ refl) (λ _. AtMost-both (run_tmux-AtMost _ _ _) (
            AtMost-le (omega arith) (
              AtMost-bind (run_tmux-AtMost _ _ _) (λ _.
                AtMost-then (AtMost-ask_other name _ _ refl) (λ ready.
                  AtMost-then (AtMost-ensure _ _) (λ _.
                    AtMost-then (AtMost-ask_other name _ _ refl) (λ state.
                      AtMost-skip (remember-AtMost m.id (pasted_delivery m baseline state))
                        (AtMost-pure {n = 0} _)))))))))))

  clear_buffer-AtMost :
      (buffer path : String)
      → AtMost (commands name) (spent name "delete-buffer") (clear_buffer r buffer path)
  unfolding clear_buffer runs tell
  clear_buffer-AtMost buffer path =
      AtMost-skip (AtMost-ask_other name (unlink path) (λ _. tt) refl)
        (AtMost-ask_tmux name "delete-buffer" ("-b" ∷ buffer ∷ []) (λ _. tt))

  pub paste-AtMost :
      (m : Message) (codex : Bool) (probe : Option Probe)
      → AtMost (commands name) (pasting name) (paste r m codex probe)
  unfolding paste runs
  paste-AtMost m codex probe = AtMost-then (AtMost-ask_other name _ _ refl) (λ buffer.
      AtMost-then (AtMost-get_state (λ s. r.temporary_name s.calls)) (λ path.
        AtMost-le (omega arith) (
          AtMost-bind
            (AtMost-finally (paste_text-AtMost m codex probe ("local-tmux-owner-" ++ buffer) path)
              (clear_buffer-AtMost ("local-tmux-owner-" ++ buffer) path))
            (λ baseline.
              AtMost-skip (AtMost-tell name sleep refl) (AtMost-pure {n = 0} baseline)))))
