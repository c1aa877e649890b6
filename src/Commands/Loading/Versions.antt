-- ===== src/Commands/Loading/Versions.antt =====
-- What the two files decide of a catalogue that is loaded.
use faryo_codex_web_ui.Base.{◌≡◌, ◌≢◌, ◌⊎◌, true, false, Option, some, List, [], Every}
use faryo_codex_web_ui.Json.{Fields, get_field}
use faryo_codex_web_ui.Json.Str.{text_or}
use faryo_codex_web_ui.Commands.Catalog.{CommandEntry, CommandCatalog, Source, fallback, runtime}
use faryo_codex_web_ui.Commands.Entries.{entries}
use faryo_codex_web_ui.Commands.Entries.Names.{IsNamed, Distinct}
use faryo_codex_web_ui.Commands.Loading.{CatalogLoad, loads}

-- The installed Codex states a version, and it is the tested one.
abbrev pub IsTested : CommandCatalog → Type 0
IsTested c = (c.observed_codex_version ≢ "") × (c.observed_codex_version ≡ c.tested_codex_version)

-- Which commands may be used during a task: in the release's own catalogue those that its file says, in one of the
-- installed Codex none, unless its version is the tested one.
abbrev pub Capability : Fields → CommandCatalog → Source → Type 0
Capability payload c fallback =
    (c.observed_codex_version ≡ "") × (entries payload [] true ≡ some c.entries)
Capability payload c runtime =
    IsTested c ⊎ Every (λ (e : CommandEntry). e.available_during_task ≡ false) c.entries

-- Names of the exact form, no command twice, the tested version of the release's file, and the capability as above.
pub record IsCatalog (release : Option Fields) (c : CommandCatalog) : Type 0 where
  pub named : Every IsNamed c.entries
  pub distinct : Distinct [] c.entries
  pub payload : Fields
  pub released : release ≡ some payload
  pub tested : c.tested_codex_version ≡ text_or "" (get_field "testedCodexVersion" payload)
  pub capability : Capability payload c c.source

Gives : Option Fields → CatalogLoad → Type 0
Gives release result = (c : CommandCatalog) → result ≡ loads c → IsCatalog release c

Names : List CommandEntry → Type 0
Names es = Every IsNamed es × Distinct [] es
