-- ===== src/Sessions/Registry/Invariant.antt =====
-- appserver_registry.py: what holds of the records, and of a write to them.
use faryo_codex_web_ui.Base.{
  ◌≡◌, ◌≢◌, refl, sym, ap, subst, ◌∙◌, ◌⊎◌, inl, inr, Bool, true, false, false≢true, some, [], ◌∷◌,
  String, str_eq, eq_iff, eq_refl, arith, Bool-cases, any,
}
use faryo_codex_web_ui.Base.Dict.{Once, put-Once, del-Once, Dict, get, put, del, get-put, get-del}
use faryo_codex_web_ui.Sessions.Namespace.{is_session_name, has_name}
use faryo_codex_web_ui.Sessions.Record.{WebSessionRecord, is_worker_id}
use faryo_codex_web_ui.Sessions.Registry.{Registry, save, worker_ids}

-- Each record stands under its own name, which is a session name, has a well-formed worker id, and shares its
-- worker with no other.
pub record IsRegistry (d : Dict WebSessionRecord) : Type 0 where
  pub named :
      (k : String) (r : WebSessionRecord)
      → get k d ≡ some r
      → (r.name ≡ k) × (is_session_name k ≡ true) × (is_worker_id r.worker_id ≡ true)
  pub apart :
      (k j : String) (r q : WebSessionRecord)
      → get k d ≡ some r
      → get j d ≡ some q
      → r.worker_id ≡ q.worker_id
      → k ≡ j
  pub once : Once d

pub some-eq : (a b : WebSessionRecord) → some a ≡ some b → a ≡ b
some-eq a b h = cc

apart_tests : (a b : String) → a ≡ b → str_eq a b ≡ false → ⊥
apart_tests a b e h = ground (arith, eq_iff a b)

pub put-found :
    (name k : String) (r x : WebSessionRecord) (d : Dict WebSessionRecord)
    → get k (put name r d) ≡ some x
    → ((name ≡ k) × (r ≡ x)) ⊎ ((name ≢ k) × (get k d ≡ some x))
put-found name k r x d h =
    let found = sym (get-put name k r d) ∙ h in
    elim (Bool-cases (str_eq name k)) [
      | inl same ↦ inl ((eq_iff name k).0 same, some-eq r x (rw same at found))
      | inr other ↦ inr ((λ e. absurd (apart_tests name k e other)), rw other at found)
    ]

pub del-found :
    (name k : String) (x : WebSessionRecord) (d : Dict WebSessionRecord)
    → get k (del name d) ≡ some x
    → (name ≢ k) × (get k d ≡ some x)
del-found name k x d h =
    let found = sym (get-del name k d) ∙ h in
    elim (Bool-cases (str_eq name k)) [
      | inl same ↦ cc (rw same at found)
      | inr other ↦ ((λ e. absurd (apart_tests name k e other)), rw other at found)
    ]

-- A record may be put under its name where no other record has its worker.
pub put-IsRegistry :
    (name : String) (r : WebSessionRecord) (d : Dict WebSessionRecord)
    → IsRegistry d
    → r.name ≡ name
    → is_session_name name ≡ true
    → is_worker_id r.worker_id ≡ true
    → ((k : String) (q : WebSessionRecord)
        → name ≢ k
        → get k d ≡ some q
        → r.worker_id ≢ q.worker_id)
    → IsRegistry (put name r d)
put-IsRegistry name r d v own valid worker alone = record {
  named = λ k x h. elim (put-found name k r x d h) [
    | inl (here, same) ↦
        subst
          (λ (z : WebSessionRecord).
            (z.name ≡ k) × (is_session_name k ≡ true) × (is_worker_id z.worker_id ≡ true))
          same (own ∙ here, subst (λ (n : String). is_session_name n ≡ true) here valid, worker)
    | inr (there, found) ↦ v.named k x found
  ];
  apart = λ k j x y h i e. elim (put-found name k r x d h) [
    | inl (here, same) ↦ elim (put-found name j r y d i) [
      | inl (here', same') ↦ sym here ∙ here'
      | inr (there', found') ↦
          absurd (alone j y there' found' (ap (λ (z : WebSessionRecord). z.worker_id) same ∙ e))
    ]
    | inr (there, found) ↦ elim (put-found name j r y d i) [
      | inl (here', same') ↦
          absurd (alone k x there found (ap (λ (z : WebSessionRecord). z.worker_id) same' ∙ sym e))
      | inr (there', found') ↦ v.apart k j x y found found' e
    ]
  ];
  once = put-Once name r d v.once;
}

pub del-IsRegistry :
    (name : String) (d : Dict WebSessionRecord) → IsRegistry d → IsRegistry (del name d)
del-IsRegistry name d v = record {
  named = λ k x h. v.named k x (del-found name k x d h).1;
  apart = λ k j x y h i e. v.apart k j x y (del-found name k x d h).1 (del-found name j y d i).1 e;
  once = del-Once name d v.once;
}

pub worker-listed :
    (k : String) (q : WebSessionRecord) (d : Dict WebSessionRecord)
    → get k d ≡ some q
    → has_name q.worker_id (worker_ids d) ≡ true
unfolding get any
worker-listed k q [] h = cc
worker-listed k q ((j, r) ∷ d) h = elim (Bool-cases (str_eq j k)) [
  | inl here ↦
      let same = some-eq r q (rw here at h) in
      rw (ap (λ (z : WebSessionRecord). z.worker_id) same, eq_refl q.worker_id) refl
  | inr there ↦ ground (arith, worker-listed k q d (rw there at h))
]

pub free-apart :
    (w : String) (d : Dict WebSessionRecord) (k : String) (q : WebSessionRecord)
    → has_name w (worker_ids d) ≡ false
    → get k d ≡ some q
    → w ≢ q.worker_id
free-apart w d k q free found e = absurd (
    false≢true
      (sym free ∙ ap (λ (x : String). has_name x (worker_ids d)) e ∙ worker-listed k q d found))

pub save-records : (writes : Bool) (s : Registry) → (save writes s).records ≡ s.records
unfolding save
save-records true s = refl
save-records false s = refl
