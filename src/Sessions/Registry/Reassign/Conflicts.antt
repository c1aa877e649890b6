-- ===== src/Sessions/Registry/Reassign/Conflicts.antt =====
-- appserver_registry.py: the conflicts that `reassign_conflicts` starts from.
use faryo_codex_web_ui.Base.{
  ◌≡◌, ◌≢◌, refl, sym, ap, ◌∙◌, Bool, true, none, some, List, [], ◌∷◌, String, str_eq, eq_iff,
  eq_refl, arith, Bool-cases, inl, inr, any, keep, map, Every, Every-map, Every-keep,
}
use faryo_codex_web_ui.Base.Dict.{Dict, get, Once}
use faryo_codex_web_ui.Sessions.Namespace.{has_name}
use faryo_codex_web_ui.Sessions.Record.{WebSessionRecord}
use faryo_codex_web_ui.Sessions.Registry.{values}
use faryo_codex_web_ui.Sessions.Registry.Invariant.{some-eq}
use faryo_codex_web_ui.Sessions.Registry.Reassign.{is_before, insert_conflict, sorted_conflicts}

abbrev pub names_of : List WebSessionRecord → List String
names_of = map (λ (r : WebSessionRecord). r.name)

-- No two records of the list have the same name.
abbrev pub Distinct : List WebSessionRecord → Type 0
Distinct [] = Unit
Distinct (r ∷ rs) = Every (λ (q : WebSessionRecord). r.name ≢ q.name) rs × Distinct rs

-- Each record of the list is the one that stands under its name.
abbrev pub Held : Dict WebSessionRecord → List WebSessionRecord → Type 0
Held d = Every (λ (r : WebSessionRecord). get r.name d ≡ some r)

Every-insert :
    (P : WebSessionRecord → Type 0) (r : WebSessionRecord) (rs : List WebSessionRecord)
    → P r
    → Every P rs
    → Every P (insert_conflict r rs)
unfolding insert_conflict
Every-insert P r [] h hs = (h, tt)
Every-insert P r (q ∷ rs) h hs =
    let rest = Every-insert P r rs h hs.1 in
    elim (Bool-cases (is_before q r)) [
      | inl later ↦ rw later (hs.0, rest)
      | inr sooner ↦ rw sooner (h, hs)
    ]

Every-sorted :
    (P : WebSessionRecord → Type 0) (rs : List WebSessionRecord)
    → Every P rs
    → Every P (sorted_conflicts rs)
unfolding sorted_conflicts
Every-sorted P [] h = tt
Every-sorted P (r ∷ rs) h = Every-insert P r (sorted_conflicts rs) h.0 (Every-sorted P rs h.1)

Distinct-insert :
    (r : WebSessionRecord) (rs : List WebSessionRecord)
    → Every (λ (q : WebSessionRecord). r.name ≢ q.name) rs
    → Distinct rs
    → Distinct (insert_conflict r rs)
unfolding insert_conflict
Distinct-insert r [] h v = (tt, tt)
Distinct-insert r (q ∷ rs) h v = elim (Bool-cases (is_before q r)) [
  | inl later ↦ rw later (
    Every-insert (λ (x : WebSessionRecord). q.name ≢ x.name) r rs (λ e. h.0 (sym e)) v.0,
    Distinct-insert r rs h.1 v.1,
  )
  | inr sooner ↦ rw sooner (h, v)
]

Distinct-sorted : (rs : List WebSessionRecord) → Distinct rs → Distinct (sorted_conflicts rs)
unfolding sorted_conflicts
Distinct-sorted [] v = tt
Distinct-sorted (r ∷ rs) v =
    Distinct-insert r (sorted_conflicts rs)
      (Every-sorted (λ (q : WebSessionRecord). r.name ≢ q.name) rs v.0) (Distinct-sorted rs v.1)

Distinct-keep :
    (test : WebSessionRecord → Bool) (rs : List WebSessionRecord)
    → Distinct rs
    → Distinct (keep test rs)
unfolding keep
Distinct-keep test [] v = tt
Distinct-keep test (r ∷ rs) v = elim (Bool-cases (test r)) [
  | inl kept ↦ rw kept (
    Every-keep (λ (q : WebSessionRecord). r.name ≢ q.name) test rs v.0,
    Distinct-keep test rs v.1,
  )
  | inr dropped ↦ rw dropped (Distinct-keep test rs v.1)
]

has_name-insert :
    (k : String) (r : WebSessionRecord) (rs : List WebSessionRecord)
    → has_name k (names_of (insert_conflict r rs)) ≡ has_name k (names_of (r ∷ rs))
unfolding insert_conflict any
has_name-insert k r [] = refl
has_name-insert k r (q ∷ rs) = elim (Bool-cases (is_before q r)) [
  | inl later ↦ rw later (ground (arith, has_name-insert k r rs))
  | inr sooner ↦ rw sooner refl
]

has_name-sorted :
    (k : String) (rs : List WebSessionRecord)
    → has_name k (names_of (sorted_conflicts rs)) ≡ has_name k (names_of rs)
unfolding sorted_conflicts any
has_name-sorted k [] = refl
has_name-sorted k (r ∷ rs) =
    has_name-insert k r (sorted_conflicts rs) ∙ ground (arith, has_name-sorted k rs)

skips :
    (j : String) (w : WebSessionRecord) (d : Dict WebSessionRecord) (k : String)
    (r : WebSessionRecord)
    → get j d ≡ none
    → get k d ≡ some r
    → get k ((j, w) ∷ d) ≡ some r
unfolding get
skips j w d k r absent found = elim (Bool-cases (str_eq j k)) [
  | inl here ↦ cc (sym absent ∙ ap (λ (n : String). get n d) ((eq_iff j k).0 here) ∙ found)
  | inr there ↦ rw there found
]

elsewhere :
    (j : String) (d : Dict WebSessionRecord) (r : WebSessionRecord)
    → get j d ≡ none
    → j ≡ r.name
    → get r.name d ≡ some r
    → ⊥
elsewhere j d r absent e found = cc (sym absent ∙ ap (λ (n : String). get n d) e ∙ found)

-- The values of a dictionary stand under their names, each once.
values-Held :
    (d : Dict WebSessionRecord)
    → Once d
    → ((k : String) (r : WebSessionRecord) → get k d ≡ some r → r.name ≡ k)
    → Held d (values d) × Distinct (values d)
unfolding get
values-Held [] once named = (tt, tt)
values-Held ((j, w) ∷ d) once named =
    let own = named j w (rw (eq_refl j) refl) in
    let (held, distinct) =
      values-Held d once.1 (λ k r found. named k r (skips j w d k r once.0 found)) in
    (
      (
        rw (own, eq_refl j) refl,
        Every-map (λ (r : WebSessionRecord). get r.name d ≡ some r)
            (λ (r : WebSessionRecord). get r.name ((j, w) ∷ d) ≡ some r) (values d)
            (λ r found. skips j w d r.name r once.0 found) held,
      ),
      (
        Every-map (λ (r : WebSessionRecord). get r.name d ≡ some r)
            (λ (r : WebSessionRecord). w.name ≢ r.name) (values d)
            (λ r found e. absurd (elsewhere j d r once.0 (sym own ∙ e) found)) held,
        distinct,
      ),
    )

-- The names in conflict are those of the records that the test finds.
values-listed :
    (test : String → Bool) (k : String) (q : WebSessionRecord) (d : Dict WebSessionRecord)
    → get k d ≡ some q
    → q.name ≡ k
    → test k ≡ true
    → has_name k (names_of (keep (λ (r : WebSessionRecord). test r.name) (values d))) ≡ true
unfolding get keep any
values-listed test k q [] found own hit = cc
values-listed test k q ((j, w) ∷ d) found own hit = elim (Bool-cases (str_eq j k)) [
  | inl here ↦
      let same : w ≡ q = some-eq w q (rw here at found) in
      rw (ap (λ (r : WebSessionRecord). r.name) same, own, hit, eq_refl k) refl
  | inr there ↦ ground (arith, values-listed test k q d (rw there at found) own hit)
]

keep-Every :
    (test : WebSessionRecord → Bool) (rs : List WebSessionRecord)
    → Every (λ (r : WebSessionRecord). test r ≡ true) (keep test rs)
unfolding keep
keep-Every test [] = tt
keep-Every test (r ∷ rs) = elim (Bool-cases (test r)) [
  | inl kept ↦ rw kept (kept, keep-Every test rs)
  | inr dropped ↦ rw dropped (keep-Every test rs)
]

-- The conflicts are among the records that the test finds.
pub sorted_conflicts-Every :
    (test : WebSessionRecord → Bool) (rs : List WebSessionRecord)
    → Every (λ (r : WebSessionRecord). test r ≡ true) (sorted_conflicts (keep test rs))
sorted_conflicts-Every test rs =
    Every-sorted (λ (r : WebSessionRecord). test r ≡ true) (keep test rs) (keep-Every test rs)

-- What the loop starts from.
pub conflicts-start :
    (test : String → Bool) (d : Dict WebSessionRecord)
    → Once d
    → ((k : String) (r : WebSessionRecord) → get k d ≡ some r → r.name ≡ k)
    → let rs = sorted_conflicts (keep (λ (r : WebSessionRecord). test r.name) (values d)) in
      Held d rs
      × Distinct rs
      × ((k : String) (q : WebSessionRecord)
          → get k d ≡ some q
          → test k ≡ true
          → has_name k (names_of rs) ≡ true)
conflicts-start test d once named =
    let (held, distinct) = values-Held d once named in
    let found_by = λ (r : WebSessionRecord). test r.name in
    (
      Every-sorted (λ (r : WebSessionRecord). get r.name d ≡ some r) (keep found_by (values d))
          (Every-keep (λ (r : WebSessionRecord). get r.name d ≡ some r) found_by (values d) held),
      Distinct-sorted (keep found_by (values d)) (Distinct-keep found_by (values d) distinct),
      (λ k q found hit.
          has_name-sorted k (keep found_by (values d))
          ∙ values-listed test k q d found (named k q found) hit),
    )
