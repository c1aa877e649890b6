-- ===== src/Journal/Cursor.antt =====
-- The text form of a cursor: `EventCursor.render` against `EventCursor.parse`.
use faryo_codex_web_ui.Base.{◌≡◌, false, some}
use faryo_codex_web_ui.Base.Text.{is_empty, decimal, pos}
use faryo_codex_web_ui.Base.Text.Decimal.{int-decimal, decimal-digits, rsplit-append}
use faryo_codex_web_ui.Journal.{EventCursor, parse, render, cursor_of}

cursor_of-pos :
    (c : EventCursor)
    → is_empty c.epoch ≡ false
    → cursor_of c.epoch (some (pos c.sequence)) ≡ some c
unfolding cursor_of
cursor_of-pos c h = rw h

-- A cursor with a nonempty epoch is read back from its text, whatever colons the epoch holds.
pub parse-render : (c : EventCursor) → is_empty c.epoch ≡ false → parse (some (render c)) ≡ some c
unfolding render
parse-render c h =
    unfold parse in
    rw
      (
        rsplit-append c.epoch (decimal c.sequence) (decimal-digits c.sequence),
        int-decimal c.sequence,
      )
      (cursor_of-pos c h)
