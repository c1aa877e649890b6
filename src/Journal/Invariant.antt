-- ===== src/Journal/Invariant.antt =====
-- What publication and trimming keep true of the journal, and of the events that it recorded.
use faryo_codex_web_ui.Base.{
  ℕ, suc, ◌+◌, ◌-◌, ◌≤◌, ◌<◌, ◌≡◌, refl, ap, sym, ◌∙◌, ◌||◌, Option, some, List, [], ◌∷◌, ◌++◌,
  String, length, Every, Every-append, arith, ltb, if◌then◌else◌, Bool-cases, inl, inr,
  append_assoc,
}
use faryo_codex_web_ui.Journal.{
  create, JournalEvent, EventJournal, Publication, trim, publish, next_event, event_at, is_kept,
  run, record_event,
}

abbrev pub bytes_of : List JournalEvent → ℕ
bytes_of [] = 0
bytes_of (e ∷ es) = e.encoded_bytes + bytes_of es

-- The sequence numbers rise strictly, from above `n`.
abbrev pub Ascending : ℕ → List JournalEvent → Type 0
Ascending n [] = Unit
Ascending n (e ∷ es) = (n < e.cursor.sequence) × Ascending e.cursor.sequence es

abbrev pub UpTo : ℕ → List JournalEvent → Type 0
UpTo n = Every (λ e. e.cursor.sequence ≤ n)

-- `j` holds the latest of the events `past` that were recorded, within its limits.
pub record IsJournalOf (past : List JournalEvent) (j : EventJournal) : Type 0 where
  pub dropped : List JournalEvent
  pub split : past ≡ dropped ++ j.events
  pub ascending : Ascending 0 past
  pub bounded : UpTo j.sequence past
  pub epochs : Every (λ e. e.cursor.epoch ≡ j.epoch) past
  pub counted : j.total_bytes ≡ bytes_of j.events
  pub fits_events : length j.events ≤ j.max_events
  pub fits_bytes : j.total_bytes ≤ j.max_bytes

record Trimmed (max_events max_bytes : ℕ) (before : List JournalEvent)
    (after : List JournalEvent × ℕ) : Type 0 where
  pub dropped : List JournalEvent
  pub split : before ≡ dropped ++ after.0
  pub counted : after.1 ≡ bytes_of after.0
  pub fits_events : length after.0 ≤ max_events
  pub fits_bytes : after.1 ≤ max_bytes

trim-Trimmed :
    (max_events max_bytes : ℕ) (es : List JournalEvent) (total : ℕ)
    → total ≡ bytes_of es
    → Trimmed max_events max_bytes es (trim max_events max_bytes es total)
unfolding trim
trim-Trimmed m b [] total h = record {
  dropped = [];
  split = refl;
  counted = h;
  fits_events = omega arith;
  fits_bytes = omega arith;
}
trim-Trimmed m b (e ∷ es) total h =
    let rest = trim-Trimmed m b es (total - e.encoded_bytes) (omega arith) in
    elim (Bool-cases (ltb m (length (e ∷ es)) || ltb b total)) [
      | inl over ↦ rw over (record {
        dropped = e ∷ rest.dropped;
        split = ap (λ l. e ∷ l) rest.split;
        counted = rest.counted;
        fits_events = rest.fits_events;
        fits_bytes = rest.fits_bytes;
      })
      | inr fits ↦ rw fits (record {
        dropped = [];
        split = refl;
        counted = h;
        fits_events = ground arith;
        fits_bytes = ground arith;
      })
    ]

pub UpTo-mono : (m n : ℕ) (es : List JournalEvent) → m ≤ n → UpTo m es → UpTo n es
UpTo-mono m n [] h b = tt
UpTo-mono m n (e ∷ es) h b = (omega arith, UpTo-mono m n es h b.1)

Ascending-append :
    (lo n : ℕ) (es : List JournalEvent) (e : JournalEvent)
    → lo ≤ n
    → UpTo n es
    → Ascending lo es
    → n < e.cursor.sequence
    → Ascending lo (es ++ (e ∷ []))
Ascending-append lo n [] e l b a h = (omega arith, tt)
Ascending-append lo n (x ∷ xs) e l b a h =
    (a.0, Ascending-append x.cursor.sequence n xs e b.0 b.1 a.1 h)

pub bytes_of-append :
    (xs : List JournalEvent) (e : JournalEvent)
    → bytes_of (xs ++ (e ∷ [])) ≡ bytes_of xs + e.encoded_bytes
bytes_of-append [] e = omega arith
bytes_of-append (x ∷ xs) e = omega (arith, bytes_of-append xs e)

-- What one `publish` adds to the events that were recorded.
abbrev pub extend : EventJournal → Publication → List JournalEvent → List JournalEvent
extend j p past = if is_kept j p then past ++ (next_event j p ∷ []) else past

pub record_event-IsJournalOf :
    {past : List JournalEvent} {j : EventJournal} (e : JournalEvent)
    → e.cursor.epoch ≡ j.epoch
    → e.cursor.sequence ≡ suc j.sequence
    → IsJournalOf past j
    → IsJournalOf (past ++ (e ∷ [])) (record_event j e)
unfolding record_event
record_event-IsJournalOf {past} {j} e same next v =
    let t =
      trim-Trimmed j.max_events j.max_bytes (j.events ++ (e ∷ [])) (j.total_bytes + e.encoded_bytes)
        (omega (arith, bytes_of-append j.events e, v.counted)) in
    record {
      dropped = v.dropped ++ t.dropped;
      split =
          ap (λ l. l ++ (e ∷ [])) v.split
          ∙ append_assoc v.dropped j.events (e ∷ [])
          ∙ ap (λ l. v.dropped ++ l) t.split
          ∙ sym (append_assoc v.dropped t.dropped (record_event j e).events);
      ascending =
          Ascending-append 0 j.sequence past e (omega arith) v.bounded v.ascending
            (omega (arith, next));
      bounded =
          Every-append _ past (e ∷ [])
            (UpTo-mono j.sequence (suc j.sequence) past (omega arith) v.bounded)
            (omega (arith, next), tt);
      epochs = Every-append _ past (e ∷ []) v.epochs (same, tt);
      counted = t.counted;
      fits_events = t.fits_events;
      fits_bytes = t.fits_bytes;
    }

pub publish-IsJournalOf :
    {past : List JournalEvent} {j : EventJournal} (p : Publication)
    → IsJournalOf past j
    → IsJournalOf (extend j p past) (publish j p).0
unfolding publish event_at
publish-IsJournalOf {past} {j} p v = elim (Bool-cases (is_kept j p)) [
  | inl kept ↦ rw kept (record_event-IsJournalOf (next_event j p) refl refl v)
  | inr skipped ↦ rw skipped (record {
    dropped = v.dropped;
    split = v.split;
    ascending = v.ascending;
    bounded = UpTo-mono j.sequence (suc j.sequence) past (omega arith) v.bounded;
    epochs = v.epochs;
    counted = v.counted;
    fits_events = v.fits_events;
    fits_bytes = v.fits_bytes;
  })
]

-- The events that a run of publications records, in order.
unfoldable pub recorded : EventJournal → List JournalEvent → List Publication → List JournalEvent
recorded j past [] = past
recorded j past (p ∷ ps) = recorded (publish j p).0 (extend j p past) ps

-- Any run of publications keeps the journal within its event and byte limits, its byte count exact, and
-- its events the latest part of all that were recorded, which rise strictly in sequence, none above the
-- journal's own, under the journal's epoch.
pub run-IsJournalOf :
    (past : List JournalEvent) (j : EventJournal) (ps : List Publication)
    → IsJournalOf past j
    → IsJournalOf (recorded j past ps) (run j ps)
unfolding run recorded
run-IsJournalOf past j [] v = v
run-IsJournalOf past j (p ∷ ps) v =
    run-IsJournalOf (extend j p past) (publish j p).0 ps (publish-IsJournalOf p v)

pub create-IsJournalOf :
    (max_events max_bytes : ℕ) (epoch : Option String) (generated : String) (j : EventJournal)
    → create max_events max_bytes epoch generated ≡ some j
    → IsJournalOf [] j
unfolding create
create-IsJournalOf m b epoch generated j h = record {
  dropped = [];
  split = ground arith;
  ascending = tt;
  bounded = tt;
  epochs = tt;
  counted = ground arith;
  fits_events = ground arith;
  fits_bytes = ground arith;
}
