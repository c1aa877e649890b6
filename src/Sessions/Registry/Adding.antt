-- ===== src/Sessions/Registry/Adding.antt =====
-- appserver_registry.py: what `add` does.
use faryo_codex_web_ui.Base.{
  ℕ, ◌≡◌, refl, sym, subst, ◌∙◌, ◌⊎◌, inl, inr, Bool, true, false, false≢true, not, Option, none,
  some, List, [], ◌∷◌, String, str_eq, arith, if◌then◌else◌, Bool-cases, Option-cases, any,
  first_holds,
}
use faryo_codex_web_ui.Base.Dict.{Dict, get, put, get-put}
use faryo_codex_web_ui.Base.Text.{is_empty}
use faryo_codex_web_ui.Sessions.Namespace.{is_session_name, has_name, next_name, session_name}
use faryo_codex_web_ui.Sessions.Namespace.Free.{next_name_free}
use faryo_codex_web_ui.Sessions.Record.{WebSessionRecord, is_worker_id, new_worker_id}
use faryo_codex_web_ui.Sessions.Registry.{
  Registry, returns, names, save, saved, is_known, Addition, new_record, worker_ids, add_worker,
  selected_worker, selected_name, add,
}
use faryo_codex_web_ui.Sessions.Registry.Invariant.{
  IsRegistry, put-IsRegistry, free-apart, save-records,
}

saved-eq : (writes : Bool) (a b : WebSessionRecord) → saved writes a ≡ returns b → a ≡ b
unfolding saved
saved-eq true a b h = cc
saved-eq false a b h = cc

-- What an addition that returns has done.
pub record Added (a : Addition) (s s' : Registry) (r : WebSessionRecord) : Type 0 where
  pub named : is_session_name r.name ≡ true
  pub asked : (is_empty a.name ≡ true) ⊎ (a.name ≡ r.name)
  pub unused : get r.name s.records ≡ none
  pub worker : is_worker_id r.worker_id ≡ true
  pub alone : has_name r.worker_id (worker_ids s.records) ≡ false
  pub thread : r.thread_id ≡ a.thread_id
  pub held : (k : String) → get k s'.records ≡ (if str_eq r.name k then some r else get k s.records)

add_worker-Added :
    (writes : Bool) (now : ℕ) (s : Registry) (a : Addition) (name : String) (o : Option String)
    (r : WebSessionRecord)
    → is_session_name name ≡ true
    → (is_empty a.name ≡ true) ⊎ (a.name ≡ name)
    → get name s.records ≡ none
    → (add_worker writes now s a name o).1 ≡ returns r
    → Added a s (add_worker writes now s a name o).0 r
unfolding add_worker
add_worker-Added writes now s a name none r named asked unused h = cc
add_worker-Added writes now s a name (some w) r named asked unused h =
    elim (Bool-cases (is_worker_id w)) [
      | inl valid ↦ elim (Bool-cases (has_name w (worker_ids s.records))) [
        | inl taken ↦ cc (rw (valid, taken) at h)
        | inr free ↦
            let x = new_record a name w now in
            let same = saved-eq writes x r (rw (valid, free) at h) in
            rw (valid, free)
              (subst (Added a s (save writes (record s { records = put name x s.records }))) same
                (record {
                  named = named;
                  asked = asked;
                  unused = unused;
                  worker = valid;
                  alone = free;
                  thread = refl;
                  held = λ k. rw save-records (get-put name k x s.records);
                }))
      ]
      | inr bad ↦ cc (rw bad at h)
    ]

unknown_none :
    (d : Dict WebSessionRecord) (name : String) → is_known d name ≡ false → get name d ≡ none
unfolding is_known
unknown_none d name h = elim (Option-cases (get name d)) [
  | inl nothing ↦ nothing
  | inr (r, found) ↦ absurd (false≢true (sym h ∙ rw found refl))
]

selected_name-asked :
    (s : Registry) (a : Addition) → (is_empty a.name ≡ true) ⊎ (a.name ≡ selected_name s a)
unfolding selected_name
selected_name-asked s a = elim (Bool-cases (is_empty a.name)) [
  | inl empty ↦ inl empty
  | inr given_one ↦ inr (rw given_one refl)
]

-- An addition that returns adds one record, under a session name that no record had: the one that was asked
-- for, or a free one. Its worker id is well-formed and was no other record's; every other record stays.
pub add-Added :
    (draws : List String) (writes : Bool) (now : ℕ) (s : Registry) (a : Addition)
    (r : WebSessionRecord)
    → (add draws writes now s a).1 ≡ returns r
    → Added a s (add draws writes now s a).0 r
unfolding add
add-Added draws writes now s a r h =
    let name = selected_name s a in
    elim (Bool-cases (is_session_name name)) [
      | inl valid ↦ elim (Bool-cases (is_known s.records name)) [
        | inl known ↦ cc (rw (valid, known) at h)
        | inr unknown_name ↦
            rw (valid, unknown_name)
              (add_worker-Added writes now s a name (selected_worker draws s a) r valid
                (selected_name-asked s a) (unknown_none s.records name unknown_name)
                (rw (valid, unknown_name) at h))
      ]
      | inr bad ↦ cc (rw bad at h)
    ]

add_worker-IsRegistry :
    (writes : Bool) (now : ℕ) (s : Registry) (a : Addition) (name : String) (o : Option String)
    → is_session_name name ≡ true
    → IsRegistry s.records
    → IsRegistry (add_worker writes now s a name o).0.records
unfolding add_worker
add_worker-IsRegistry writes now s a name none named v = v
add_worker-IsRegistry writes now s a name (some w) named v = elim (Bool-cases (is_worker_id w)) [
  | inl valid ↦ elim (Bool-cases (has_name w (worker_ids s.records))) [
    | inl taken ↦ rw (valid, taken) v
    | inr free ↦
        rw (valid, free, save-records)
          (put-IsRegistry name (new_record a name w now) s.records v refl named valid
            (λ k q other found. free-apart w s.records k q free found))
  ]
  | inr bad ↦ rw bad v
]

pub add-IsRegistry :
    (draws : List String) (writes : Bool) (now : ℕ) (s : Registry) (a : Addition)
    → IsRegistry s.records
    → IsRegistry (add draws writes now s a).0.records
unfolding add
add-IsRegistry draws writes now s a v =
    let name = selected_name s a in
    elim (Bool-cases (is_session_name name)) [
      | inl valid ↦ elim (Bool-cases (is_known s.records name)) [
        | inl known ↦ rw (valid, known) v
        | inr unknown_name ↦
            rw (valid, unknown_name)
              (add_worker-IsRegistry writes now s a name (selected_worker draws s a) valid v)
      ]
      | inr bad ↦ rw bad v
    ]

new_worker :
    (draws existing : List String) (w : String)
    → new_worker_id draws existing ≡ some w
    → has_name w existing ≡ false
unfolding new_worker_id
new_worker draws existing w h =
    ground (arith, first_holds (λ (x : String). not (has_name x existing)) draws w h)

unlisted_none :
    (d : Dict WebSessionRecord) (name : String)
    → has_name name (names d) ≡ false
    → is_known d name ≡ false
unfolding is_known get any
unlisted_none [] name h = refl
unlisted_none ((j, r) ∷ d) name h = ground (arith, unlisted_none d name)

-- A worker id that is drawn is no other record's.
drawn-free :
    (draws : List String) (s : Registry) (w : String)
    → new_worker_id draws (worker_ids s.records) ≡ some w
    → has_name w (worker_ids s.records) ≡ false
drawn-free draws s w h = new_worker draws (worker_ids s.records) w h

-- An addition that asks for no name and no worker cannot be refused: with a well-formed token among those that
-- are drawn, unused and before it none, and a file that can be written, it returns its record, under the
-- first session name that neither the registry has nor the caller reserves.
pub add_returns :
    (draws : List String) (now : ℕ) (s : Registry) (a : Addition) (w : String)
    → is_empty a.name ≡ true
    → is_empty a.worker_id ≡ true
    → new_worker_id draws (worker_ids s.records) ≡ some w
    → is_worker_id w ≡ true
    → let name = next_name (names s.records ∷ a.reserved ∷ []) in
      ((add draws true now s a).1 ≡ returns (new_record a name w now))
      × (has_name name a.reserved ≡ false)
unfolding add add_worker selected_name selected_worker saved any
add_returns draws now s a w nameless workerless drawn valid =
    let groups = names s.records ∷ a.reserved ∷ [] in
    let (n, found, positive, named, free, least) = next_name_free groups in
    let unlisted : has_name (session_name n) (names s.records) ≡ false = ground arith in
    let unreserved : has_name (session_name n) a.reserved ≡ false = ground arith in
    rw
      (
        nameless,
        workerless,
        found,
        named,
        unlisted_none s.records (session_name n) unlisted,
        drawn,
        valid,
        drawn-free draws s w drawn,
      )
      (refl, unreserved)
