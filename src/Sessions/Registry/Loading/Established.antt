-- ===== src/Sessions/Registry/Loading/Established.antt =====
-- appserver_registry.py: what `load` leaves in the registry.
use faryo_codex_web_ui.Base.{
  ◌≡◌, refl, sym, ap, subst, ◌∙◌, Bool, true, false, false≢true, ◌||◌, Option, none, some, List, [],
  ◌∷◌, String, eq_refl, arith, Bool-cases, inl, inr, any,
}
use faryo_codex_web_ui.Base.Dict.{get}
use faryo_codex_web_ui.Json.{Value, Elements, no_items, item, mapping, get_field}
use faryo_codex_web_ui.Json.Read.{Whole, iterated}
use faryo_codex_web_ui.Sessions.Namespace.{has_name}
use faryo_codex_web_ui.Sessions.Record.{
  WebSessionRecord, Entry, taken, skipped, raised, drawing, from_value,
}
use faryo_codex_web_ui.Sessions.Record.Valid.{IsValid, from_value-IsValid}
use faryo_codex_web_ui.Sessions.Registry.{
  Registry, RegistryFile, missing, unreadable, content, Outcome, returns, raises, is_known, save,
  saved,
}
use faryo_codex_web_ui.Sessions.Registry.Invariant.{
  IsRegistry, put-IsRegistry, put-found, save-records,
}
use faryo_codex_web_ui.Sessions.Registry.Loading.{
  Loading, accept, load_entry, load_items, Version, legacy, current, other, unhashable, version_of,
  failed_load, loaded, load_iterated, load_version, load_value, load_file, load,
}

-- The records met so far are in order, and their workers are noted.
record IsLoading (l : Loading) : Type 0 where
  pub ordered : IsRegistry l.records
  pub noted :
      (k : String) (q : WebSessionRecord)
      → get k l.records ≡ some q
      → has_name q.worker_id l.workers ≡ true

or_right : (a b : Bool) → (a || b) ≡ false → b ≡ false
or_right true b h = cc
or_right false b h = h

noted_before :
    (w v : String) (workers : List String)
    → has_name w workers ≡ true
    → has_name w (v ∷ workers) ≡ true
unfolding any
noted_before w v workers h = ground arith

noted_now :
    (r q : WebSessionRecord) (workers : List String)
    → r ≡ q
    → has_name q.worker_id (r.worker_id ∷ workers) ≡ true
unfolding any
noted_now r q workers e =
    rw (ap (λ (z : WebSessionRecord). z.worker_id) e, eq_refl q.worker_id) refl

accept-IsLoading :
    (r : WebSessionRecord) (l : Loading) → IsValid r → IsLoading l → IsLoading (accept r l)
unfolding accept
accept-IsLoading r l valid v =
    elim (Bool-cases (is_known l.records r.name || has_name r.worker_id l.workers)) [
      | inl known ↦ rw known v
      | inr fresh ↦ rw fresh (record {
        ordered =
            put-IsRegistry r.name r l.records v.ordered refl valid.name valid.worker
              (λ k q apart found e. false≢true (
                sym (or_right (is_known l.records r.name) (has_name r.worker_id l.workers) fresh)
                ∙ ap (λ (w : String). has_name w l.workers) e
                ∙ v.noted k q found));
        noted = λ k q found. elim (put-found r.name k r q l.records found) [
          | inl (here, same) ↦ noted_now r q l.workers same
          | inr (there, before) ↦
              noted_before q.worker_id r.worker_id l.workers (v.noted k q before)
        ];
      })
    ]

load_entry-IsLoading :
    (e : Entry) (skip : Outcome Loading) (use_it : WebSessionRecord → Outcome Loading) (l : Loading)
    → (skip ≡ returns l → IsLoading l)
    → ((r : WebSessionRecord) → e ≡ taken r → use_it r ≡ returns l → IsLoading l)
    → load_entry e skip use_it ≡ returns l
    → IsLoading l
unfolding load_entry
load_entry-IsLoading skipped skip use_it l on_skip on_use h = on_skip h
load_entry-IsLoading raised skip use_it l on_skip on_use h = cc
load_entry-IsLoading drawing skip use_it l on_skip on_use h = cc
load_entry-IsLoading (taken r) skip use_it l on_skip on_use h = on_use r refl h

load_items-IsLoading :
    (trunc : String → Whole) (is_legacy : Bool) (draws : List (List String)) (xs : Elements)
    (l l' : Loading)
    → IsLoading l
    → load_items trunc is_legacy draws xs l ≡ returns l'
    → IsLoading l'
unfolding load_items
load_items-IsLoading trunc is_legacy draws no_items l l' v h =
    let both : returns l ≡ returns l' = h in let same : l ≡ l' = cc both in subst IsLoading same v
load_items-IsLoading trunc is_legacy [] (item x rest) l l' v h =
    load_entry-IsLoading (from_value trunc [] is_legacy l.workers x) _ _ l'
      (λ k. load_items-IsLoading trunc is_legacy [] rest l l' v k)
      (λ r e k.
        load_items-IsLoading trunc is_legacy [] rest (accept r l) l'
          (accept-IsLoading r l (from_value-IsValid trunc [] is_legacy l.workers x r e) v) k)
      h
load_items-IsLoading trunc is_legacy (tokens ∷ draws) (item x rest) l l' v h =
    load_entry-IsLoading (from_value trunc tokens is_legacy l.workers x) _ _ l'
      (λ k. load_items-IsLoading trunc is_legacy draws rest l l' v k)
      (λ r e k.
        load_items-IsLoading trunc is_legacy draws rest (accept r l) l'
          (accept-IsLoading r l (from_value-IsValid trunc tokens is_legacy l.workers x r e) v) k)
      h

empty-IsLoading : IsLoading (record { records = []; workers = [] })
unfolding get
empty-IsLoading = record {
  ordered = record { named = λ k r h. cc; apart = λ k j r q h i e. cc; once = tt };
  noted = λ k q h. cc;
}

returned : (a b : Registry) → returns a ≡ returns b → a ≡ b
returned a b h = cc

loaded-IsRegistry :
    (is_legacy writes : Bool) (s s' : Registry) (o : Outcome Loading)
    → ((l : Loading) → o ≡ returns l → IsLoading l)
    → loaded is_legacy writes s o ≡ returns s'
    → IsRegistry s'.records
unfolding loaded
loaded-IsRegistry is_legacy writes s s' (raises e) good h = cc
loaded-IsRegistry true true s s' (returns l) good h =
    let t = record s { records = l.records } in
    subst (λ (z : Registry). IsRegistry z.records) (returned (save true t) s' (unfold saved in h))
      (rw save-records (good l refl).ordered)
loaded-IsRegistry true false s s' (returns l) good h = unfold saved in cc h
loaded-IsRegistry false writes s s' (returns l) good h =
    subst (λ (z : Registry). IsRegistry z.records)
      (returned (record s { records = l.records }) s' h) (good l refl).ordered

load_iterated-IsRegistry :
    (trunc : String → Whole) (is_legacy writes : Bool) (draws : List (List String))
    (s s' : Registry) (o : Option Elements)
    → load_iterated trunc is_legacy writes draws s o ≡ returns s'
    → IsRegistry s'.records
unfolding load_iterated
load_iterated-IsRegistry trunc is_legacy writes draws s s' none h = cc
load_iterated-IsRegistry trunc is_legacy writes draws s s' (some xs) h =
    loaded-IsRegistry is_legacy writes s s' _
      (λ l e. load_items-IsLoading trunc is_legacy draws xs _ l empty-IsLoading e) h

failed-IsRegistry : (s s' : Registry) → returns (failed_load s) ≡ returns s' → IsRegistry s'.records
unfolding failed_load
failed-IsRegistry s s' h =
    subst (λ (z : Registry). IsRegistry z.records) (returned (failed_load s) s' h)
      empty-IsLoading.ordered

load_version-IsRegistry :
    (trunc : String → Whole) (writes : Bool) (draws : List (List String)) (s s' : Registry)
    (o : Option Elements) (v : Version)
    → load_version trunc writes draws s o v ≡ returns s'
    → IsRegistry s'.records
unfolding load_version
load_version-IsRegistry trunc writes draws s s' o legacy h =
    load_iterated-IsRegistry trunc true writes draws s s' o h
load_version-IsRegistry trunc writes draws s s' o current h =
    load_iterated-IsRegistry trunc false writes draws s s' o h
load_version-IsRegistry trunc writes draws s s' o other h = failed-IsRegistry s s' h
load_version-IsRegistry trunc writes draws s s' o unhashable h = cc

load_value-IsRegistry :
    (trunc : String → Whole) (writes : Bool) (draws : List (List String)) (s s' : Registry)
    (v : Value)
    → load_value trunc writes draws s v ≡ returns s'
    → IsRegistry s'.records
unfolding load_value
load_value-IsRegistry trunc writes draws s s' (mapping fs) h =
    load_version-IsRegistry trunc writes draws s s' (iterated (get_field "sessions" fs))
      (version_of (get_field "schemaVersion" fs)) h
load_value-IsRegistry trunc writes draws s s' _ h = failed-IsRegistry s s' h

load_file-IsRegistry :
    (trunc : String → Whole) (writes : Bool) (draws : List (List String)) (s s' : Registry)
    (f : RegistryFile)
    → load_file trunc writes draws s f ≡ returns s'
    → IsRegistry s'.records
unfolding load_file
load_file-IsRegistry trunc writes draws s s' missing h =
    subst (λ (z : Registry). IsRegistry z.records) (returned (record s { records = [] }) s' h)
      empty-IsLoading.ordered
load_file-IsRegistry trunc writes draws s s' unreadable h = failed-IsRegistry s s' h
load_file-IsRegistry trunc writes draws s s' (content v) h =
    load_value-IsRegistry trunc writes draws s s' v h

-- Whatever stands in the file, a load that returns leaves records that each stand under their own session
-- name, with well-formed worker ids of which no two are the same.
pub load-IsRegistry :
    (trunc : String → Whole) (writes : Bool) (draws : List (List String)) (s s' : Registry)
    → load trunc writes draws s ≡ returns s'
    → IsRegistry s'.records
unfolding load
load-IsRegistry trunc writes draws s s' h = load_file-IsRegistry trunc writes draws s s' s.file h
