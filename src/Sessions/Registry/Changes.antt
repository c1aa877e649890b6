-- ===== src/Sessions/Registry/Changes.antt =====
-- appserver_registry.py: the changes of one record, and its removal.
use faryo_codex_web_ui.Base.{
  ℕ, ◌≡◌, refl, sym, ap, ◌∙◌, inl, inr, Bool, Option, none, some, String, Bool-cases, Option-cases,
}
use faryo_codex_web_ui.Base.Dict.{get}
use faryo_codex_web_ui.Sessions.Record.{
  WorkerState, WebSessionRecord, is_worker_id, parse_worker_state,
}
use faryo_codex_web_ui.Sessions.Registry.{
  Registry, is_known, change_found, change_record, touch, given, update_metadata,
  update_known_state, update_worker_state, remove,
}
use faryo_codex_web_ui.Sessions.Registry.Invariant.{
  IsRegistry, put-IsRegistry, del-IsRegistry, save-records,
}

-- A change that keeps the name and the worker of a record keeps the invariant.
change_record-IsRegistry :
    (writes : Bool) (s : Registry) (name : String) (change : WebSessionRecord → WebSessionRecord)
    → ((r : WebSessionRecord) → ((change r).name ≡ r.name) × ((change r).worker_id ≡ r.worker_id))
    → IsRegistry s.records
    → IsRegistry (change_record writes s name change).0.records
unfolding change_record change_found
change_record-IsRegistry writes s name change same v = elim (Option-cases (get name s.records)) [
  | inl nothing ↦ rw nothing v
  | inr (r, found) ↦
      let (own, valid, worker) = v.named name r found in
      rw (found, save-records)
        (put-IsRegistry name (change r) s.records v ((same r).0 ∙ own) valid
          (ap is_worker_id (same r).1 ∙ worker)
          (λ k q other there e. other (v.apart name k r q found there (sym (same r).1 ∙ e))))
]

pub touch-IsRegistry :
    (writes : Bool) (now : ℕ) (s : Registry) (name : String)
    → IsRegistry s.records
    → IsRegistry (touch writes now s name).0.records
unfolding touch
touch-IsRegistry writes now s name v =
    change_record-IsRegistry writes s name (λ r. record r { updated_at = now }) (λ r. (refl, refl))
      v

pub update_metadata-IsRegistry :
    (writes : Bool) (now : ℕ) (s : Registry) (name : String) (title model : Option String)
    → IsRegistry s.records
    → IsRegistry (update_metadata writes now s name title model).0.records
unfolding update_metadata
update_metadata-IsRegistry writes now s name title model v =
    change_record-IsRegistry writes s name
      (λ r. record r {
        title = given 240 title r.title;
        model = given 160 model r.model;
        updated_at = now;
      })
      (λ r. (refl, refl)) v

update_known_state-IsRegistry :
    (writes : Bool) (now : ℕ) (s : Registry) (name : String) (increment : Bool)
    (o : Option WorkerState)
    → IsRegistry s.records
    → IsRegistry (update_known_state writes now s name increment o).0.records
unfolding update_known_state
update_known_state-IsRegistry writes now s name increment none v = v
update_known_state-IsRegistry writes now s name increment (some state) v =
    change_record-IsRegistry writes s name _ (λ r. (refl, refl)) v

pub update_worker_state-IsRegistry :
    (writes : Bool) (now : ℕ) (s : Registry) (name state : String) (increment : Bool)
    → IsRegistry s.records
    → IsRegistry (update_worker_state writes now s name state increment).0.records
unfolding update_worker_state
update_worker_state-IsRegistry writes now s name state increment v =
    update_known_state-IsRegistry writes now s name increment (parse_worker_state state) v

pub remove-IsRegistry :
    (writes : Bool) (s : Registry) (name : String)
    → IsRegistry s.records
    → IsRegistry (remove writes s name).0.records
unfolding remove
remove-IsRegistry writes s name v = elim (Bool-cases (is_known s.records name)) [
  | inl known ↦ rw (known, save-records) (del-IsRegistry name s.records v)
  | inr nothing ↦ rw nothing v
]
