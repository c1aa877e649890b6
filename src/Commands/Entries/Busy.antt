-- ===== src/Commands/Entries/Busy.antt =====
-- When an entry says that its command is available during a task.
use faryo_codex_web_ui.Base.{◌≡◌, refl, false, some, List, Every}
use faryo_codex_web_ui.Base.Dict.{Dict}
use faryo_codex_web_ui.Json.{Fields}
use faryo_codex_web_ui.Commands.Catalog.{CommandEntry}
use faryo_codex_web_ui.Commands.Entries.{new_entry, entries}
use faryo_codex_web_ui.Commands.Entries.Collected.{entries_induction}

-- Without the capability no entry has it, whatever the payload says.
pub entries-Every_idle :
    (payload : Fields) (known : Dict CommandEntry) (es : List CommandEntry)
    → entries payload known false ≡ some es
    → Every (λ e. e.available_during_task ≡ false) es
unfolding new_entry
entries-Every_idle payload known es same =
    entries_induction known false (λ seen ds. Every (λ e. e.available_during_task ≡ false) ds)
      (λ seen. tt) (λ seen raw command entry aliases ds exact new h. (refl, h)) payload es same
