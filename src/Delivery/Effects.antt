-- ===== src/Delivery/Effects.antt =====
-- How often an operation runs a tmux command, by the command's name.
use faryo_codex_web_ui.Base.{
  ℕ, ◌+◌, ◌≡◌, Bool, true, false, List, [], ◌∷◌, String, str_eq, if◌then◌else◌, arith, Bool-cases,
  inl, inr,
}
use faryo_codex_web_ui.Program.{AtMost, AtMost-pure, set_state}
use faryo_codex_web_ui.Delivery.Runtime.{
  RuntimeCall, History, Service, SendError, tmux, ask, ask_if, tell,
}

-- A tmux command, by its name.
unfoldable pub runs : String → RuntimeCall → Bool
runs name (tmux (first ∷ _)) = str_eq first name
runs name _ = false

unfoldable pub count_calls : String → History → ℕ
unfolding runs
count_calls name [] = 0
count_calls name (call ∷ calls) =
    if runs name call then count_calls name calls + 1 else count_calls name calls

-- The number of commands of a name that were run.
unfoldable pub commands : String → Service → ℕ
unfolding count_calls
commands name s = count_calls name s.calls

-- What one command counts.
abbrev pub spent : String → String → ℕ
spent name first = if str_eq first name then 1 else 0

module _ (name : String) where
  pub AtMost-ask_other :
      {A : Type 0} (call : RuntimeCall) (answer : History → A)
      → runs name call ≡ false
      → AtMost (commands name) 0 (ask call answer)
  unfolding ask commands count_calls
  AtMost-ask_other call answer other = record { bound = λ s. rw other (omega arith) }

  pub AtMost-change :
      (f : Service → Service)
      → ((s : Service) → (f s).calls ≡ s.calls)
      → AtMost (commands name) 0 (set_state {E = SendError} f)
  unfolding commands
  AtMost-change f same = record { bound = λ s. rw (same s) (omega arith) }

  ask_tmux :
      {A : Type 0} (call : RuntimeCall) (answer : History → A)
      → AtMost (commands name) 1 (ask call answer)
  unfolding ask commands count_calls
  ask_tmux call answer = record { bound = λ s. ground arith }

  pub AtMost-ask_tmux :
      {A : Type 0} (first : String) (rest : List String) (answer : History → A)
      → AtMost (commands name) (spent name first) (ask (tmux (first ∷ rest)) answer)
  unfolding runs
  AtMost-ask_tmux first rest answer = elim (Bool-cases (str_eq first name)) [
    | inl same ↦ rw same (ask_tmux _ answer)
    | inr other ↦ rw other (AtMost-ask_other _ answer other)
  ]

  pub AtMost-tell :
      (call : RuntimeCall) → runs name call ≡ false → AtMost (commands name) 0 (tell call)
  unfolding tell
  AtMost-tell call other = AtMost-ask_other _ _ other

  pub AtMost-ask_if :
      {A : Type 0} (b : Bool) (a : A) (call : RuntimeCall) (answer : History → A)
      → runs name call ≡ false
      → AtMost (commands name) 0 (ask_if b a call answer)
  unfolding ask_if
  AtMost-ask_if true a call answer other = AtMost-ask_other _ _ other
  AtMost-ask_if false a call answer other = AtMost-pure _
