-- ===== src/Delivery/Locks.antt =====
-- delivery_service.py: `scoped_lock`, which keeps a lock per session and per message while it is in use. Every
-- interleaving of the threads' steps is a step relation.
use faryo_codex_web_ui.Base.{
  ◌⊎◌, ℕ, suc, ◌+◌, ◌-◌, ◌≤◌, ◌<◌, ◌≡◌, refl, Bool, true, false, Option, none, some, List, [], ◌∷◌,
  String, ◌==◌, if◌then◌else◌,
}
use faryo_codex_web_ui.Base.Dict.{Dict, get, put, del}
pub mod Kept
pub mod Entered
pub mod Exclusive
pub mod Tests

-- A `with` block that was entered: its thread, its key, the entry that it took, and whether it has the entry's lock.
pub record User : Type 0 where
  pub thread : ℕ
  pub key : String
  pub entry : ℕ
  pub holding : Bool

-- An entry is an object: it has a number, and `references` is the field of each.
pub record Locks : Type 0 where
  pub registry : Dict ℕ
  pub references : ℕ → ℕ
  pub next_entry : ℕ
  pub users : List User

-- `entry["references"] = n`
unfoldable pub assign : ℕ → ℕ → (ℕ → ℕ) → ℕ → ℕ
assign entry n references i = if i == entry then n else references i

-- `registry.setdefault(key, {"lock": threading.RLock(), "references": 0})`
unfoldable pub set_default : String → Locks → Option ℕ → ℕ × Locks
unfolding assign
set_default key s (some entry) = (entry, s)
set_default key s none = (
  s.next_entry,
  record s {
    registry = put key s.next_entry s.registry;
    references = assign s.next_entry 0 s.references;
    next_entry = suc s.next_entry;
  },
)

counted_in : ℕ → String → ℕ × Locks → Locks
unfolding assign
counted_in thread key (entry, s) = record s {
  references = assign entry (s.references entry + 1) s.references;
  users = record { thread = thread; key = key; entry = entry; holding = false } ∷ s.users;
}

-- The first `with self.lock`: the entry is found or made, and counted.
unfoldable pub enter : ℕ → String → Locks → Locks
unfolding set_default counted_in
enter thread key s = counted_in thread key (set_default key s (get key s.registry))

is_entry : ℕ → Option ℕ → Bool
is_entry entry none = false
is_entry entry (some found) = found == entry

-- The `finally`: the entry is discounted, and leaves the registry with its last user.
unfoldable pub leave : User → List User → Locks → Locks
unfolding assign is_entry
leave u rest s =
    let left = s.references u.entry - 1 in
    record s {
      registry =
          if left == 0
          then if is_entry u.entry (get u.key s.registry) then del u.key s.registry else s.registry
          else s.registry;
      references = assign u.entry left s.references;
      users = rest;
    }

-- A user among others, and the others.
pub data Takes (u : User) : List User → List User → Type 0 where
  here : (us : List User) → Takes u (u ∷ us) us
  there : (v : User) {us rest : List User} → Takes u us rest → Takes u (v ∷ us) (v ∷ rest)

abbrev pub Among : User → List User → Type 0
Among u [] = ⊥
Among u (v ∷ us) = (u ≡ v) ⊎ Among u us

-- A lock is free for a thread while no other thread has it: it is reentrant.
abbrev pub IsFree : Locks → User → Type 0
IsFree s u =
    (v : User) → Among v s.users → v.holding ≡ true → v.entry ≡ u.entry → v.thread ≡ u.thread

pub data Step : Locks → Locks → Type 0 where
  enters : (s : Locks) (thread : ℕ) (key : String) → Step s (enter thread key s)
  acquires :
      (s : Locks) (u : User) (rest : List User)
      → Takes u s.users rest
      → IsFree s u
      → Step s (record s { users = record u { holding = true } ∷ rest })
  releases :
      (s : Locks) (u : User) (rest : List User)
      → Takes u s.users rest
      → Step s (record s { users = record u { holding = false } ∷ rest })
  leaves :
      (s : Locks) (u : User) (rest : List User)
      → Takes u s.users rest
      → u.holding ≡ false
      → Step s (leave u rest s)

pub data Reaches (s : Locks) : Locks → Type 0 where
  start : Reaches s s
  after : {t v : Locks} → Reaches s t → Step t v → Reaches s v

-- No key is in use.
abbrev pub idle : Locks
idle = record { registry = []; references = λ entry. 0; next_entry = 0; users = [] }
