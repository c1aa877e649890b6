-- ===== src/Journal/Replay.antt =====
-- What `replay` gives a client that comes back with a cursor.
use faryo_codex_web_ui.Base.{
  ℕ, suc, ◌+◌, ◌-◌, ◌≤◌, ◌<◌, ◌≡◌, refl, ap, sym, subst, ◌∙◌, Bool, true, false, Option, some, none,
  List, [], ◌∷◌, ◌++◌, String, Every-append, keep, keep-append, arith, ltb, eq_refl,
}
use faryo_codex_web_ui.Base.Text.{is_empty}
use faryo_codex_web_ui.Journal.{
  create, trim, record_event, EventCursor, JournalEvent, EventJournal, replay, Publication, publish,
  next_event, is_kept, event_at, run, render, parse, latest, replay_from, replay_after,
  replay_parsed, has_gap,
}
use faryo_codex_web_ui.Journal.Cursor.{parse-render}
use faryo_codex_web_ui.Journal.Invariant.{
  UpTo-mono, bytes_of-append, record_event-IsJournalOf, Ascending, UpTo, IsJournalOf, recorded,
  bytes_of, create-IsJournalOf, run-IsJournalOf,
}

abbrev pub is_after : ℕ → JournalEvent → Bool
is_after n e = ltb n e.cursor.sequence

keep_none : (n m : ℕ) (es : List JournalEvent) → UpTo m es → m ≤ n → keep (is_after n) es ≡ []
unfolding keep
keep_none n m [] h l = refl
keep_none n m (e ∷ es) h l = ground (arith, keep_none n m es h.1)

lt-head :
    (lo : ℕ) (ds : List JournalEvent) (e : JournalEvent) (es : List JournalEvent)
    → Ascending lo (ds ++ (e ∷ es))
    → lo < e.cursor.sequence
lt-head lo [] e es a = a.0
lt-head lo (d ∷ ds) e es a = omega (arith, lt-head d.cursor.sequence ds e es a.1, a.0)

-- What stands before an event of a rising list has smaller numbers.
UpTo-before :
    (lo : ℕ) (ds : List JournalEvent) (e : JournalEvent) (es : List JournalEvent) (n : ℕ)
    → Ascending lo (ds ++ (e ∷ es))
    → e.cursor.sequence ≤ n + 1
    → UpTo n ds
UpTo-before lo [] e es n a h = tt
UpTo-before lo (d ∷ ds) e es n a h = (
  omega (arith, lt-head d.cursor.sequence ds e es a.1),
  UpTo-before d.cursor.sequence ds e es n a.1 h,
)

no_gap :
    (lo : ℕ) (ds es : List JournalEvent) (n : ℕ)
    → Ascending lo (ds ++ es)
    → has_gap es n ≡ false
    → UpTo n ds
unfolding has_gap
no_gap lo ds [] n a h = ground arith
no_gap lo ds (e ∷ es) n a h = UpTo-before lo ds e es n a (ground arith)

keep-suffix :
    (past ds es : List JournalEvent) (n : ℕ)
    → past ≡ ds ++ es
    → UpTo n ds
    → keep (is_after n) es ≡ keep (is_after n) past
keep-suffix past ds es n split b = sym (
    ap (keep (is_after n)) split
    ∙ keep-append (is_after n) ds es
    ∙ ap (λ l. l ++ keep (is_after n) es) (keep_none n n ds b (omega arith)))

keep-events :
    (past : List JournalEvent) (j : EventJournal) (n : ℕ)
    → IsJournalOf past j
    → has_gap j.events n ≡ false
    → keep (is_after n) j.events ≡ keep (is_after n) past
keep-events past j n v h =
    keep-suffix past v.dropped j.events n v.split
      (no_gap 0 v.dropped j.events n (subst (Ascending 0) v.split v.ascending) h)

replay_after_complete :
    (past : List JournalEvent) (j : EventJournal) (c : EventCursor)
    → IsJournalOf past j
    → (replay_after j c).status ≡ replay
    → (replay_after j c).events ≡ keep (is_after c.sequence) past
unfolding replay_after
replay_after_complete past j c v h =
    ground (arith, keep_none c.sequence j.sequence past v.bounded, keep-events past j c.sequence v)

replay_parsed_complete :
    (past : List JournalEvent) (j : EventJournal) (o : Option EventCursor)
    → IsJournalOf past j
    → (replay_parsed j o).status ≡ replay
    → (c : EventCursor) × (o ≡ some c)
      × ((replay_parsed j o).events ≡ keep (is_after c.sequence) past)
unfolding replay_parsed
replay_parsed_complete past j none v h = cc
replay_parsed_complete past j (some c) v h = (c, refl, replay_after_complete past j c v h)

-- A replay loses nothing: in a journal that was created and took any publications, when `replay` answers
-- "replay" the cursor parses, and the events are exactly those recorded since the journal's start whose
-- sequence is above the cursor's, trimmed or not.
pub replay_complete :
    (max_events max_bytes : ℕ) (epoch : Option String) (generated : String) (j : EventJournal)
    (ps : List Publication) (raw : Option String)
    → create max_events max_bytes epoch generated ≡ some j
    → (replay_from (run j ps) raw).status ≡ replay
    → (c : EventCursor) × (parse raw ≡ some c)
      × ((replay_from (run j ps) raw).events ≡ keep (is_after c.sequence) (recorded j [] ps))
unfolding replay_from
replay_complete m b epoch generated j ps raw made h =
    replay_parsed_complete (recorded j [] ps) (run j ps) (parse raw)
      (run-IsJournalOf [] j ps (create-IsJournalOf m b epoch generated j made)) h

has_gap-trim :
    (m b n : ℕ) (es : List JournalEvent) (e : JournalEvent) (total : ℕ)
    → 1 ≤ m
    → e.encoded_bytes ≤ b
    → total ≡ bytes_of (es ++ (e ∷ []))
    → UpTo (n + 1) (es ++ (e ∷ []))
    → has_gap (trim m b (es ++ (e ∷ [])) total).0 n ≡ false
unfolding trim has_gap
has_gap-trim m b n [] e total one fits count upto = ground arith
has_gap-trim m b n (x ∷ xs) e total one fits count upto =
    ground (arith, has_gap-trim m b n xs e (total - x.encoded_bytes) one fits)

UpTo-suffix : (n : ℕ) (ds es : List JournalEvent) → UpTo n (ds ++ es) → UpTo n es
UpTo-suffix n [] es h = h
UpTo-suffix n (d ∷ ds) es h = UpTo-suffix n ds es h.1

epoch-record_event : (j : EventJournal) (e : JournalEvent) → (record_event j e).epoch ≡ j.epoch
unfolding record_event
epoch-record_event j e = refl

sequence-record_event :
    (j : EventJournal) (e : JournalEvent) → (record_event j e).sequence ≡ suc j.sequence
unfolding record_event
sequence-record_event j e = refl

module _ {past : List JournalEvent} {j : EventJournal} (e : JournalEvent) (v : IsJournalOf past j)
    (same : e.cursor.epoch ≡ j.epoch) (next : e.cursor.sequence ≡ suc j.sequence) where
  no_gap-record_event :
      1 ≤ j.max_events
      → e.encoded_bytes ≤ j.max_bytes
      → has_gap (record_event j e).events j.sequence ≡ false
  unfolding record_event
  no_gap-record_event one fits =
      has_gap-trim j.max_events j.max_bytes j.sequence j.events e (j.total_bytes + e.encoded_bytes)
        one fits (omega (arith, bytes_of-append j.events e, v.counted))
        (Every-append _ j.events (e ∷ [])
          (UpTo-mono j.sequence (j.sequence + 1) j.events (omega arith)
            (UpTo-suffix j.sequence v.dropped j.events (subst (UpTo j.sequence) v.split v.bounded)))
          (omega (arith, next), tt))

  keep-record_event :
      has_gap (record_event j e).events j.sequence ≡ false
      → keep (is_after j.sequence) (record_event j e).events ≡ e ∷ []
  keep-record_event h =
      keep-events (past ++ (e ∷ [])) (record_event j e) j.sequence
        (record_event-IsJournalOf e same next v) h
      ∙ keep-append (is_after j.sequence) past (e ∷ [])
      ∙ ap (λ l. l ++ keep (is_after j.sequence) (e ∷ []))
          (keep_none j.sequence j.sequence past v.bounded (omega arith))
      ∙ unfold keep in ground arith

  replay_after-record_event :
      1 ≤ j.max_events
      → e.encoded_bytes ≤ j.max_bytes
      → replay_after (record_event j e) (latest j)
        ≡ record { status = replay; events = e ∷ []; latest = latest (record_event j e) }
  unfolding replay_after
  replay_after-record_event one fits = ground (
    arith,
    eq_refl j.epoch,
    epoch-record_event j e,
    sequence-record_event j e,
    no_gap-record_event one fits,
    keep-record_event (no_gap-record_event one fits),
  )

-- After one publication that is kept, the cursor that was the latest before it replays exactly the new
-- event: no gap is reported to a client that was up to date, whatever trimming the publication made.
pub replay-publish :
    (past : List JournalEvent) (j : EventJournal) (p : Publication)
    → IsJournalOf past j
    → is_empty j.epoch ≡ false
    → 1 ≤ j.max_events
    → is_kept j p ≡ true
    → let j' = (publish j p).0 in
      replay_from j' (some (render (latest j)))
      ≡ record { status = replay; events = next_event j p ∷ []; latest = latest j' }
unfolding replay_from publish event_at
replay-publish past j p v epoch one kept =
    rw (parse-render (latest j) epoch, kept)
      (replay_after-record_event (next_event j p) v refl refl one (ground arith))
