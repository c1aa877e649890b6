-- ===== src/Delivery/Locks/Exclusive.antt =====
-- A session, and a message, has one thread at work at a time.
use faryo_codex_web_ui.Base.{◌≡◌, ◌≤◌, ℕ, sym, ap, ◌∙◌, true, false, some, String}
use faryo_codex_web_ui.Base.Dict.{get}
use faryo_codex_web_ui.Delivery.Locks.{
  User, Locks, Among, Step, enters, acquires, releases, leaves, Reaches, start, after, idle,
}
use faryo_codex_web_ui.Delivery.Locks.Kept.{IsKept, idle-IsKept, rest-Among, switched-IsKept, uses}
use faryo_codex_web_ui.Delivery.Locks.Entered.{enter-IsKept, leave-IsKept}

Step-IsKept : {s t : Locks} → Step s t → IsKept s → IsKept t
Step-IsKept (enters s thread key) kept = enter-IsKept s kept thread key
Step-IsKept (acquires s u rest taken free) kept =
    switched-IsKept s kept u rest taken true
      (λ v m held also same. free v (rest-Among u v s.users rest taken m) also same)
Step-IsKept (releases s u rest taken) kept =
    switched-IsKept s kept u rest taken false (λ v m held. cc held)
Step-IsKept (leaves s u rest taken waiting) kept = leave-IsKept s kept u rest taken

Reaches-IsKept : {s t : Locks} → IsKept s → Reaches s t → IsKept t
Reaches-IsKept kept start = kept
Reaches-IsKept kept (after run step) = Step-IsKept step (Reaches-IsKept kept run)

-- Through any interleaving of threads that enter and leave blocks, two blocks under the same key that have their
-- lock at the same time are of the same thread, although entries leave the registry and are made anew.
pub holders_agree :
    (s : Locks) (u v : User)
    → Reaches idle s
    → Among u s.users
    → Among v s.users
    → u.holding ≡ true
    → v.holding ≡ true
    → u.key ≡ v.key
    → u.thread ≡ v.thread
holders_agree s u v run m n held also same =
    let kept : IsKept s = Reaches-IsKept idle-IsKept run in
    let both : some u.entry ≡ some v.entry =
      sym (kept.known u m) ∙ (ap (λ k. get k s.registry) same ∙ kept.known v n) in
    kept.exclusive u v m n held also (cc both)

-- A key of the registry is in use: no entry stays behind.
pub registry_used :
    (s : Locks) (key : String) (entry : ℕ)
    → Reaches idle s
    → get key s.registry ≡ some entry
    → 1 ≤ uses entry s.users
registry_used s key entry run found = (Reaches-IsKept idle-IsKept run).used key entry found
