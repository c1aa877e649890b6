-- ===== src/Delivery/Locks/Tests.antt =====
-- A thread that enters a block of the same session twice, beside one that waits.
use faryo_codex_web_ui.Base.{
  ℕ, ◌≡◌, refl, Bool, true, false, [], ◌∷◌, inl, inr, ap, ◌∙◌, sym, subst,
}
use faryo_codex_web_ui.Base.Dict.{get, put}
use faryo_codex_web_ui.Delivery.Locks.{
  User, Locks, enter, set_default, counted_in, Among, Takes, here, there, IsFree, enters, acquires,
  Reaches, start, after, idle,
}
use faryo_codex_web_ui.Delivery.Locks.Exclusive.{holders_agree}

abbrev user : ℕ → Bool → User
user thread holding = record { thread = thread; key = "dev"; entry = 0; holding = holding }

abbrev waiting : Locks
waiting = enter 1 "dev" (enter 1 "dev" (enter 2 "dev" idle))

abbrev first_held : Locks
first_held = record waiting { users = user 1 true ∷ user 1 false ∷ user 2 false ∷ [] }

abbrev both_held : Locks
both_held = record waiting { users = user 1 true ∷ user 1 true ∷ user 2 false ∷ [] }

waiting_users : waiting.users ≡ user 1 false ∷ user 1 false ∷ user 2 false ∷ []
unfolding enter set_default counted_in get put
waiting_users = refl

only_first :
    (b : Bool) (v : User)
    → Among v (user 1 b ∷ user 1 false ∷ user 2 false ∷ [])
    → v.holding ≡ true
    → v.thread ≡ 1
only_first b v m held = elim m [
  | inl e ↦ ap (λ x. x.thread) e
  | inr (inl e) ↦ ap (λ x. x.thread) e
  | inr (inr (inl e)) ↦ let bad : true ≡ false = sym held ∙ ap (λ x. x.holding) e in cc bad
  | inr (inr (inr none)) ↦ elim none [ ]
]

waiting-Takes : Takes (user 1 false) waiting.users (user 1 false ∷ user 2 false ∷ [])
waiting-Takes =
    subst (λ us. Takes (user 1 false) us (user 1 false ∷ user 2 false ∷ [])) (sym waiting_users)
      (here (user 1 false ∷ user 2 false ∷ []))

waiting-IsFree : IsFree waiting (user 1 false)
waiting-IsFree v m held same = only_first false v (subst (Among v) waiting_users m) held

both_held-Reaches : Reaches idle both_held
both_held-Reaches =
    after
      (after
        (after (after (after start (enters idle 2 "dev")) (enters _ 1 "dev")) (enters _ 1 "dev"))
        (acquires waiting (user 1 false) (user 1 false ∷ user 2 false ∷ []) waiting-Takes
          waiting-IsFree))
      (acquires first_held (user 1 false) (user 1 true ∷ user 2 false ∷ [])
        (there (user 1 true) (here (user 2 false ∷ [])))
        (λ v m held same. only_first true v m held))

holders_agree_example : (user 1 true).thread ≡ (user 1 true).thread
holders_agree_example =
    holders_agree both_held (user 1 true) (user 1 true) both_held-Reaches (inl refl)
      (inr (inl refl)) refl refl refl
