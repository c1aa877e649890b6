-- ===== src/Sessions/Registry/Reached.antt =====
-- appserver_registry.py: sequences of changes of the registry.
use faryo_codex_web_ui.Base.{ℕ, Bool, Option, List, String}
use faryo_codex_web_ui.Sessions.Registry.{
  Registry, Addition, add, touch, update_metadata, update_worker_state, remove,
}
use faryo_codex_web_ui.Sessions.Registry.Invariant.{IsRegistry}
use faryo_codex_web_ui.Sessions.Registry.Adding.{add-IsRegistry}
use faryo_codex_web_ui.Sessions.Registry.Changes.{
  touch-IsRegistry, update_metadata-IsRegistry, update_worker_state-IsRegistry, remove-IsRegistry,
}
use faryo_codex_web_ui.Sessions.Registry.Reassign.{reassign_conflicts}
use faryo_codex_web_ui.Sessions.Registry.Reassign.Cleared.{reassign_conflicts-Clear}

-- One call that changes the registry, whatever it returns or raises.
pub data Change (s : Registry) : Registry → Type 0 where
  adds :
      (draws : List String) (writes : Bool) (now : ℕ) (a : Addition)
      → Change s (add draws writes now s a).0
  touches : (writes : Bool) (now : ℕ) (name : String) → Change s (touch writes now s name).0
  describes :
      (writes : Bool) (now : ℕ) (name : String) (title model : Option String)
      → Change s (update_metadata writes now s name title model).0
  moves :
      (writes : Bool) (now : ℕ) (name state : String) (increment : Bool)
      → Change s (update_worker_state writes now s name state increment).0
  reassigns :
      (writes : Bool) (reserved : List String) → Change s (reassign_conflicts writes s reserved).0
  removes : (writes : Bool) (name : String) → Change s (remove writes s name).0

pub data Changes (s : Registry) : Registry → Type 0 where
  unchanged : Changes s s
  then_change : {t u : Registry} → Changes s t → Change t u → Changes s u

Change-IsRegistry : {s t : Registry} → Change s t → IsRegistry s.records → IsRegistry t.records
Change-IsRegistry {s} (adds draws writes now a) v = add-IsRegistry draws writes now s a v
Change-IsRegistry {s} (touches writes now name) v = touch-IsRegistry writes now s name v
Change-IsRegistry {s} (describes writes now name title model) v =
    update_metadata-IsRegistry writes now s name title model v
Change-IsRegistry {s} (moves writes now name state increment) v =
    update_worker_state-IsRegistry writes now s name state increment v
Change-IsRegistry {s} (reassigns writes reserved) v =
    (reassign_conflicts-Clear writes s reserved v).0
Change-IsRegistry {s} (removes writes name) v = remove-IsRegistry writes s name v

-- Through any sequence of additions, touches, changes of title and model, moves of a worker's state,
-- reassignments and removals, failed writes and refused calls included, each record stands under its own session name, and
-- no two share a worker.
pub Changes-IsRegistry :
    {s t : Registry} → Changes s t → IsRegistry s.records → IsRegistry t.records
Changes-IsRegistry unchanged v = v
Changes-IsRegistry (then_change before last) v =
    Change-IsRegistry last (Changes-IsRegistry before v)
