-- ===== src/Journal.antt =====
-- The browser-event journal of apps/owner/local-tmux-owner/appserver_events.py: cursors, events,
-- publication with trimming, and replay after a cursor.
pub mod Cursor
pub mod Invariant
pub mod Replay
pub mod Tests
use Prim.Native.String.{◌++◌}
use faryo_codex_web_ui.Base.{
  ℕ, suc, ◌+◌, ◌-◌, ◌≡◌, refl, Bool, true, false, ◌||◌, ◌&&◌, not, Option, none, some, List, [],
  ◌∷◌, ◌++◌ as append, String, str_eq, length, keep, ltb, leb, ◌==◌, if◌then◌else◌,
}
use faryo_codex_web_ui.Base.Text.{ℤ, pos, negsuc, rsplit, int, decimal, is_empty}
use faryo_codex_web_ui.Json.{
  Value, Fields, int as int_value, text, mapping, no_fields, field, optional_text, encoded_bytes,
}

pub record EventCursor : Type 0 where
  pub epoch : String
  pub sequence : ℕ

-- A negative sequence or an empty epoch is no cursor.
cursor_of : String → Option ℤ → Option EventCursor
cursor_of epoch none = none
cursor_of epoch (some (negsuc n)) = none
cursor_of epoch (some (pos n)) =
    if is_empty epoch then none else some (record { epoch = epoch; sequence = n })

cursor_parts : Option (String × String) → Option EventCursor
cursor_parts none = none
cursor_parts (some (epoch, raw_sequence)) = cursor_of epoch (int raw_sequence)

unfoldable pub parse : Option String → Option EventCursor
unfolding cursor_parts cursor_of
parse none = none
parse (some value) = cursor_parts (rsplit b':' value)

unfoldable pub render : EventCursor → String
render c = c.epoch ++ (":" ++ decimal c.sequence)

pub record JournalEvent : Type 0 where
  pub cursor : EventCursor
  pub session_id : String
  pub thread_id : String
  pub turn_id : Option String
  pub item_id : Option String
  pub kind : String
  pub revision : ℤ
  pub payload : Fields
  pub encoded_bytes : ℕ

unfoldable pub public : JournalEvent → Value
unfolding render
public e = mapping (
    field "id" (text (render e.cursor)) (
      field "epoch" (text e.cursor.epoch) (
        field "sequence" (int_value (pos e.cursor.sequence)) (
          field "sessionId" (text e.session_id) (
            field "threadId" (text e.thread_id) (
              field "turnId" (optional_text e.turn_id) (
                field "itemId" (optional_text e.item_id) (
                  field "kind" (text e.kind) (
                    field "revision" (int_value e.revision)
                      (field "payload" (mapping e.payload) no_fields))))))))))

pub data ReplayStatus : Type 0 where
  snapshot reset replay gap : ReplayStatus

pub record ReplayResult : Type 0 where
  pub status : ReplayStatus
  pub events : List JournalEvent
  pub latest : EventCursor

pub record EventJournal : Type 0 where
  pub max_events : ℕ
  pub max_bytes : ℕ
  pub epoch : String
  pub sequence : ℕ
  pub total_bytes : ℕ
  pub events : List JournalEvent

-- `EventJournal.__init__`: `none` is the ValueError; `generated` is the `uuid4().hex` of this call.
unfoldable pub create : ℕ → ℕ → Option String → String → Option EventJournal
create max_events max_bytes epoch generated =
    if ltb max_events 1 || ltb max_bytes 1
    then none
    else some (record {
      max_events = max_events;
      max_bytes = max_bytes;
      epoch = elim epoch [ none ↦ generated | some e ↦ if is_empty e then generated else e ];
      sequence = 0;
      total_bytes = 0;
      events = [];
    })

abbrev pub latest : EventJournal → EventCursor
latest j = record { epoch = j.epoch; sequence = j.sequence }

-- The keyword arguments of `publish`.
pub record Publication : Type 0 where
  pub session_id : String
  pub thread_id : String
  pub kind : String
  pub payload : Option Fields
  pub turn_id : Option String
  pub item_id : Option String
  pub revision : ℤ
  pub replayable : Bool

abbrev body_of : Option Fields → Fields
body_of none = no_fields
body_of (some payload) = payload

provisional : EventCursor → Publication → Value
provisional c p = mapping (
    field "epoch" (text c.epoch) (
      field "sequence" (int_value (pos c.sequence)) (
        field "sessionId" (text p.session_id) (
          field "threadId" (text p.thread_id) (
            field "turnId" (optional_text p.turn_id) (
              field "itemId" (optional_text p.item_id) (
                field "kind" (text p.kind) (
                  field "revision" (int_value p.revision)
                    (field "payload" (mapping (body_of p.payload)) no_fields)))))))))

pub event_at : EventCursor → Publication → JournalEvent
unfolding provisional
event_at c p = record {
  cursor = c;
  session_id = p.session_id;
  thread_id = p.thread_id;
  turn_id = p.turn_id;
  item_id = p.item_id;
  kind = p.kind;
  revision = p.revision;
  payload = body_of p.payload;
  encoded_bytes = encoded_bytes (provisional c p);
}

-- `_trim` over `self.events` and `self.total_bytes`: the oldest events go while a limit is passed.
unfoldable pub trim : ℕ → ℕ → List JournalEvent → ℕ → List JournalEvent × ℕ
trim max_events max_bytes [] total = ([], total)
trim max_events max_bytes (removed ∷ rest) total =
    let trimmed = trim max_events max_bytes rest (total - removed.encoded_bytes) in
    if ltb max_events (length (removed ∷ rest)) || ltb max_bytes total
    then trimmed
    else (removed ∷ rest, total)

-- The event that the next `publish` returns.
abbrev pub next_event : EventJournal → Publication → JournalEvent
next_event j p = event_at (record { epoch = j.epoch; sequence = suc j.sequence }) p

abbrev pub is_kept : EventJournal → Publication → Bool
is_kept j p = p.replayable && leb (next_event j p).encoded_bytes j.max_bytes

-- `append`, `total_bytes += size` and `_trim`.
pub record_event : EventJournal → JournalEvent → EventJournal
unfolding trim
record_event j e =
    let (events, total) =
      trim j.max_events j.max_bytes (append j.events (e ∷ [])) (j.total_bytes + e.encoded_bytes) in
    record j { sequence = suc j.sequence; events = events; total_bytes = total }

unfoldable pub publish : EventJournal → Publication → EventJournal × JournalEvent
unfolding record_event
publish j p =
    let e = next_event j p in
    (if is_kept j p then record_event j e else record j { sequence = suc j.sequence }, e)

-- `not self.events or cursor.sequence < self.events[0].cursor.sequence - 1`
has_gap : List JournalEvent → ℕ → Bool
has_gap [] sequence = true
has_gap (e ∷ _) sequence = ltb (sequence + 1) e.cursor.sequence

replay_after : EventJournal → EventCursor → ReplayResult
unfolding has_gap
replay_after j c =
    if not (str_eq c.epoch j.epoch) || ltb j.sequence c.sequence
    then record { status = reset; events = []; latest = latest j }
    else if c.sequence == j.sequence
    then record { status = replay; events = []; latest = latest j }
    else if has_gap j.events c.sequence
    then record { status = gap; events = []; latest = latest j }
    else record {
      status = replay;
      events = keep (λ e. ltb c.sequence e.cursor.sequence) j.events;
      latest = latest j;
    }

replay_parsed : EventJournal → Option EventCursor → ReplayResult
unfolding replay_after
replay_parsed j none = record { status = snapshot; events = []; latest = latest j }
replay_parsed j (some c) = replay_after j c

unfoldable pub replay_from : EventJournal → Option String → ReplayResult
unfolding replay_parsed
replay_from j raw_cursor = replay_parsed j (parse raw_cursor)

-- The journal after a sequence of publications.
unfoldable pub run : EventJournal → List Publication → EventJournal
run j [] = j
run j (p ∷ ps) = run (publish j p).0 ps
