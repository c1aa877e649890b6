-- ===== src/Journal/Tests.antt =====
-- appserver_events.py: runs of the journal on small inputs, and its theorems at such inputs.
use faryo_codex_web_ui.Base.{◌≡◌, refl, Bool, true, false, some, none, List, [], ◌∷◌, keep, arith}
use faryo_codex_web_ui.Base.Text.{pos, rsplit, int, decimal, is_empty}
use faryo_codex_web_ui.Json.{field, no_fields, text, encoded_bytes}
use faryo_codex_web_ui.Journal.{
  EventCursor, EventJournal, Publication, snapshot, reset, replay, gap, create, publish, run,
  replay_from, parse, render, next_event, event_at, latest,
}
use faryo_codex_web_ui.Journal.Cursor.{parse-render}
use faryo_codex_web_ui.Journal.Invariant.{
  IsJournalOf, recorded, create-IsJournalOf, run-IsJournalOf,
}
use faryo_codex_web_ui.Journal.Replay.{is_after, replay_complete, replay-publish}

abbrev fresh : EventJournal
fresh = record {
  max_events = 2;
  max_bytes = 1000;
  epoch = "e1";
  sequence = 0;
  total_bytes = 0;
  events = [];
}

fresh_created : create 2 1000 (some "e1") "generated" ≡ some fresh
unfolding create is_empty
fresh_created = refl

fresh_refused : create 0 1000 none "generated" ≡ none
unfolding create
fresh_refused = refl

abbrev delta : Bool → Publication
delta replayable = record {
  session_id = "faryo1";
  thread_id = "t1";
  kind = "delta";
  payload = some (field "text" (text "hi") no_fields);
  turn_id = some "turn";
  item_id = none;
  revision = pos 0;
  replayable = replayable;
}

abbrev three : List Publication
three = delta true ∷ delta false ∷ delta true ∷ delta true ∷ []

abbrev after_three : EventJournal
after_three = run fresh three

statuses :
    ((replay_from after_three none).status ≡ snapshot)
    × ((replay_from after_three (some "e2:1")).status ≡ reset)
    × ((replay_from after_three (some "e1:0")).status ≡ gap)
    × ((replay_from after_three (some "e1:2")).status ≡ replay)
    × ((replay_from after_three (some "e1:-2")).status ≡ snapshot)
unfolding replay_from run publish parse rsplit int is_empty encoded_bytes event_at decimal keep
statuses = (refl, refl, refl, refl, refl)

two_replayed : (replay_from after_three (some "e1:2")).status ≡ replay
unfolding replay_from run publish parse rsplit int is_empty encoded_bytes event_at decimal keep
two_replayed = refl

parse-render_example :
    parse (some (render (record { epoch = "a:b"; sequence = 7 })))
    ≡ some (record { epoch = "a:b"; sequence = 7 })
unfolding is_empty
parse-render_example = parse-render (record { epoch = "a:b"; sequence = 7 }) refl

run-IsJournalOf_example : IsJournalOf (recorded fresh [] three) after_three
run-IsJournalOf_example =
    run-IsJournalOf [] fresh three
      (create-IsJournalOf 2 1000 (some "e1") "generated" fresh fresh_created)

replay_complete_example :
    (c : EventCursor) × (parse (some "e1:2") ≡ some c)
    × ((replay_from after_three (some "e1:2")).events
        ≡ keep (is_after c.sequence) (recorded fresh [] three))
replay_complete_example =
    replay_complete 2 1000 (some "e1") "generated" fresh three (some "e1:2") fresh_created
      two_replayed

replay-publish_example :
    replay_from (publish fresh (delta true)).0 (some (render (latest fresh))) ≡ record {
      status = replay;
      events = next_event fresh (delta true) ∷ [];
      latest = latest (publish fresh (delta true)).0;
    }
unfolding is_empty encoded_bytes event_at decimal
replay-publish_example =
    replay-publish [] fresh (delta true)
      (create-IsJournalOf 2 1000 (some "e1") "generated" fresh fresh_created) refl (omega arith)
      refl
