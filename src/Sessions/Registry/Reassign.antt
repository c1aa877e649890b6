-- ===== src/Sessions/Registry/Reassign.antt =====
-- appserver_registry.py: `reassign_conflicts`.
pub mod Conflicts
pub mod Cleared
pub mod Kept
use Prim.Native.String.{compare}
use Prim.Native.Nat.{lt}
use faryo_codex_web_ui.Base.{
  Bool, true, false, ◌||◌, ◌&&◌, List, [], ◌∷◌, ◌++◌ as append, String, ltb, ◌==◌, if◌then◌else◌,
  keep,
}
use faryo_codex_web_ui.Base.Dict.{Dict, put, del}
use faryo_codex_web_ui.Sessions.Namespace.{has_name, next_name}
use faryo_codex_web_ui.Sessions.Record.{WebSessionRecord}
use faryo_codex_web_ui.Sessions.Registry.{Registry, Outcome, returns, values, names, save, saved}

-- The order of the conflicts: by the time of creation, and then by name.
is_before : WebSessionRecord → WebSessionRecord → Bool
is_before q r =
    ltb q.created_at r.created_at
    || (q.created_at == r.created_at && elim (compare q.name r.name) [ lt ↦ true | _ ↦ false ])

insert_conflict : WebSessionRecord → List WebSessionRecord → List WebSessionRecord
unfolding is_before
insert_conflict r [] = r ∷ []
insert_conflict r (q ∷ rs) =
    let rest = insert_conflict r rs in if is_before q r then q ∷ rest else r ∷ q ∷ rs

pub sorted_conflicts : List WebSessionRecord → List WebSessionRecord
unfolding insert_conflict
sorted_conflicts [] = []
sorted_conflicts (r ∷ rs) = insert_conflict r (sorted_conflicts rs)

-- What the loop of `reassign_conflicts` changes: the records, the used names, and the old and new names.
pub record Renaming : Type 0 where
  records : Dict WebSessionRecord
  used : List String
  renamed : Dict String

pub rename : WebSessionRecord → Renaming → Renaming
rename r n =
    let name = next_name (n.used ∷ []) in
    record {
      records = put name (record r { name = name }) (del r.name n.records);
      used = name ∷ n.used;
      renamed = put r.name name n.renamed;
    }

rename_each : List WebSessionRecord → Renaming → Renaming
unfolding rename
rename_each [] n = n
rename_each (r ∷ rs) n = rename_each rs (rename r n)

reassign : Bool → Registry → List String → List WebSessionRecord → Registry × Outcome (Dict String)
unfolding rename_each saved
reassign writes s external [] = (s, returns [])
reassign writes s external (r ∷ rs) =
    let n =
      rename_each (r ∷ rs)
        (record { records = s.records; used = append (names s.records) external; renamed = [] }) in
    (save writes (record s { records = n.records }), saved writes n.renamed)

-- `reassign_conflicts`
unfoldable pub reassign_conflicts : Bool → Registry → List String → Registry × Outcome (Dict String)
unfolding reassign sorted_conflicts
reassign_conflicts writes s reserved =
    reassign writes s reserved
      (sorted_conflicts (keep (λ r. has_name r.name reserved) (values s.records)))
