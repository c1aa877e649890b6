-- ===== src/Sessions/Registry/Reassign/Cleared.antt =====
-- appserver_registry.py: `reassign_conflicts` leaves the reserved names.
use faryo_codex_web_ui.Base.{
  ◌≡◌, ◌≢◌, refl, sym, ap, ◌∙◌, Bool, true, false, false≢true, none, some, List, [], ◌∷◌,
  ◌++◌ as append, String, str_eq, eq_iff, arith, Bool-cases, Option-cases, inl, inr, any, keep, map,
  Every,
}
use faryo_codex_web_ui.Base.Dict.{Dict, get, put, del, get-put, get-del}
use faryo_codex_web_ui.Sessions.Namespace.{is_session_name, has_name, next_name, session_name}
use faryo_codex_web_ui.Sessions.Namespace.Free.{next_name_free}
use faryo_codex_web_ui.Sessions.Record.{WebSessionRecord}
use faryo_codex_web_ui.Sessions.Registry.{Registry, values, names}
use faryo_codex_web_ui.Sessions.Registry.Invariant.{
  IsRegistry, put-IsRegistry, del-IsRegistry, put-found, del-found, save-records,
}
use faryo_codex_web_ui.Sessions.Registry.Reassign.{
  sorted_conflicts, Renaming, rename, rename_each, reassign, reassign_conflicts,
}
use faryo_codex_web_ui.Sessions.Registry.Reassign.Conflicts.{
  names_of, Distinct, Held, conflicts-start,
}

-- The loop's state, with the conflicts that are still to be renamed.
pub record IsRenaming (external : List String) (n : Renaming) (rest : List WebSessionRecord)
    : Type 0 where
  pub ordered : IsRegistry n.records
  pub held : Held n.records rest
  pub distinct : Distinct rest
  pub covers :
      (k : String) (q : WebSessionRecord) → get k n.records ≡ some q → has_name k n.used ≡ true
  pub reserved : (k : String) → has_name k external ≡ true → has_name k n.used ≡ true
  pub left :
      (k : String) (q : WebSessionRecord)
      → get k n.records ≡ some q
      → has_name k external ≡ true
      → has_name k (names_of rest) ≡ true

-- The next name is a session name, and not used.
pub next_unused :
    (used : List String)
    → let name = next_name (used ∷ []) in
      (is_session_name name ≡ true) × (has_name name used ≡ false)
unfolding any
next_unused used =
    let (m, found, positive, named, free, least) = next_name_free (used ∷ []) in
    let unused : has_name (session_name m) used ≡ false = ground arith in rw found (named, unused)

pub apart_by_use :
    (a b : String) (used : List String) → has_name a used ≡ false → has_name b used ≡ true → a ≢ b
apart_by_use a b used free taken e =
    absurd (false≢true (sym free ∙ ap (λ (k : String). has_name k used) e ∙ taken))

has_name-later :
    (k a : String) (names : List String) → has_name k names ≡ true → has_name k (a ∷ names) ≡ true
unfolding any
has_name-later k a names h = ground arith

has_name-here : (a k : String) (names : List String) → a ≡ k → has_name k (a ∷ names) ≡ true
unfolding any
has_name-here a k names e = ground (arith, eq_iff a k)

pub has_name-rest :
    (k a : String) (names : List String)
    → a ≢ k
    → has_name k (a ∷ names) ≡ true
    → has_name k names ≡ true
unfolding any
has_name-rest k a names other h = ground (arith, eq_iff a k)

pub get-elsewhere :
    (new old k : String) (r : WebSessionRecord) (d : Dict WebSessionRecord)
    → new ≢ k
    → old ≢ k
    → get k (put new r (del old d)) ≡ get k d
get-elsewhere new old k r d fresh other =
    ground (arith, get-put new k r (del old d), get-del old k d, eq_iff new k, eq_iff old k)

Held-elsewhere :
    (new old : String) (r : WebSessionRecord) (d : Dict WebSessionRecord)
    (rs : List WebSessionRecord)
    → Held d rs
    → Every (λ (q : WebSessionRecord). old ≢ q.name) rs
    → ((q : WebSessionRecord) → get q.name d ≡ some q → new ≢ q.name)
    → Held (put new r (del old d)) rs
Held-elsewhere new old r d [] held apart fresh = tt
Held-elsewhere new old r d (q ∷ rs) held apart fresh = (
  get-elsewhere new old q.name r d (fresh q held.0) apart.0 ∙ held.0,
  Held-elsewhere new old r d rs held.1 apart.1 fresh,
)

pub rename-IsRenaming :
    (external : List String) (r : WebSessionRecord) (rs : List WebSessionRecord) (n : Renaming)
    → IsRenaming external n (r ∷ rs)
    → IsRenaming external (rename r n) rs
unfolding rename
rename-IsRenaming external r rs n v =
    let new = next_name (n.used ∷ []) in
    let (session, unused) = next_unused n.used in
    let (own, named, worker) = v.ordered.named r.name r v.held.0 in
    let moved = record r { name = new } in
    let without = del r.name n.records in
    record {
      ordered =
          put-IsRegistry new moved without (del-IsRegistry r.name n.records v.ordered) refl session
            worker
            (λ k q other found e.
              let (elsewhere, before) = del-found r.name k q n.records found in
              elsewhere (v.ordered.apart r.name k r q v.held.0 before e));
      held =
          Held-elsewhere new r.name moved n.records rs v.held.1 v.distinct.0
            (λ q found. apart_by_use new q.name n.used unused (v.covers q.name q found));
      distinct = v.distinct.1;
      covers = λ k q found. elim (put-found new k moved q without found) [
        | inl (here, same) ↦ has_name-here new k n.used here
        | inr (there, before) ↦
            has_name-later k new n.used (v.covers k q (del-found r.name k q n.records before).1)
      ];
      reserved = λ k h. has_name-later k new n.used (v.reserved k h);
      left = λ k q found h. elim (put-found new k moved q without found) [
        | inl (here, same) ↦ absurd (apart_by_use new k n.used unused (v.reserved k h) here)
        | inr (there, before) ↦
            let (elsewhere, old) = del-found r.name k q n.records before in
            has_name-rest k r.name (names_of rs) elsewhere (v.left k q old h)
      ];
    }

rename_each-IsRenaming :
    (external : List String) (rs : List WebSessionRecord) (n : Renaming)
    → IsRenaming external n rs
    → IsRenaming external (rename_each rs n) []
unfolding rename_each
rename_each-IsRenaming external [] n v = v
rename_each-IsRenaming external (r ∷ rs) n v =
    rename_each-IsRenaming external rs (rename r n) (rename-IsRenaming external r rs n v)

-- No record stands under a reserved name.
abbrev pub Clear : List String → Dict WebSessionRecord → Type 0
Clear reserved d = (k : String) → has_name k reserved ≡ true → get k d ≡ none

renamed-Clear :
    (external : List String) (n : Renaming) → IsRenaming external n [] → Clear external n.records
unfolding any
renamed-Clear external n v k h = elim (Option-cases (get k n.records)) [
  | inl nothing ↦ nothing
  | inr (q, found) ↦ cc (v.left k q found h)
]

in_first :
    (k : String) (xs ys : List String) → has_name k xs ≡ true → has_name k (append xs ys) ≡ true
unfolding any
in_first k [] ys h = cc
in_first k (x ∷ xs) ys h = ground (arith, in_first k xs ys)

in_second :
    (k : String) (xs ys : List String) → has_name k ys ≡ true → has_name k (append xs ys) ≡ true
unfolding any
in_second k [] ys h = h
in_second k (x ∷ xs) ys h = ground (arith, in_second k xs ys h)

key-listed :
    (k : String) (q : WebSessionRecord) (d : Dict WebSessionRecord)
    → get k d ≡ some q
    → has_name k (names d) ≡ true
unfolding get any
key-listed k q [] h = cc
key-listed k q ((j, w) ∷ d) h = elim (Bool-cases (str_eq j k)) [
  | inl here ↦ rw here refl
  | inr there ↦ ground (arith, key-listed k q d (rw there at h))
]

-- The loop starts in order.
pub start-IsRenaming :
    (d : Dict WebSessionRecord) (external : List String)
    → IsRegistry d
    → IsRenaming external
        (record { records = d; used = append (map (λ entry. entry.0) d) external; renamed = [] })
        (sorted_conflicts (keep (λ r. has_name r.name external) (values d)))
start-IsRenaming d external v =
    let (held, distinct, left) =
      conflicts-start (λ name. has_name name external) d v.once
        (λ k r found. (v.named k r found).0) in
    record {
      ordered = v;
      held = held;
      distinct = distinct;
      covers = λ k q found. in_first k (names d) external (key-listed k q d found);
      reserved = λ k h. in_second k (names d) external h;
      left = left;
    }

reassign-IsRegistry :
    (writes : Bool) (s : Registry) (external : List String) (rs : List WebSessionRecord)
    → IsRenaming external
        (record { records = s.records; used = append (names s.records) external; renamed = [] })
        rs
    → IsRegistry (reassign writes s external rs).0.records
      × Clear external (reassign writes s external rs).0.records
unfolding reassign
reassign-IsRegistry writes s external [] v = (v.ordered, renamed-Clear external _ v)
reassign-IsRegistry writes s external (r ∷ rs) v =
    let done = rename_each-IsRenaming external (r ∷ rs) _ v in
    rw save-records (done.ordered, renamed-Clear external _ done)

-- Moving the sessions away from reserved names ends with no record under a reserved name, and with every
-- record again under its own session name, no two with one worker; a failed write changes nothing of this.
pub reassign_conflicts-Clear :
    (writes : Bool) (s : Registry) (reserved : List String)
    → IsRegistry s.records
    → let s' = (reassign_conflicts writes s reserved).0 in
      IsRegistry s'.records × Clear reserved s'.records
unfolding reassign_conflicts
reassign_conflicts-Clear writes s reserved v =
    reassign-IsRegistry writes s reserved _ (start-IsRenaming s.records reserved v)
