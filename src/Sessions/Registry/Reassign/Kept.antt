-- ===== src/Sessions/Registry/Reassign/Kept.antt =====
-- appserver_registry.py: `reassign_conflicts` keeps every session.
use faryo_codex_web_ui.Base.{◌≡◌, ◌⊎◌, Bool, true, false, some, List, ◌++◌ as append, String, Every}
use faryo_codex_web_ui.Base.Dict.{Dict, get}
use faryo_codex_web_ui.Sessions.Namespace.{has_name}
use faryo_codex_web_ui.Sessions.Record.{WebSessionRecord}
use faryo_codex_web_ui.Sessions.Registry.{Registry, Outcome, returns, raises, os_error}
use faryo_codex_web_ui.Sessions.Registry.Reassign.{Renaming}
use faryo_codex_web_ui.Sessions.Registry.Reassign.Conflicts.{names_of}

-- The record stands under the name that it got in place of `k`, which is not reserved.
record Moves (external : List String) (n : Renaming) (rest : List WebSessionRecord) (k : String)
    (q : WebSessionRecord) : Type 0 where
  pub conflict : has_name k external ≡ true
  pub done : has_name k (names_of rest) ≡ false
  pub name : String
  pub renamed : get k n.renamed ≡ some name
  pub free : has_name name external ≡ false
  pub found : get name n.records ≡ some (record q { name = name })

abbrev Reserved : List String → List WebSessionRecord → Type 0
Reserved external = Every (λ (r : WebSessionRecord). has_name r.name external ≡ true)

-- Every record of `d` stands where it stood, or has moved.
abbrev Traced : List String → Dict WebSessionRecord → Renaming → List WebSessionRecord → Type 0
Traced external d n rest =
    (k : String) (q : WebSessionRecord)
    → get k d ≡ some q
    → (get k n.records ≡ some q) ⊎ Moves external n rest k q

-- A session under a name that is not reserved is as it was; another is the same under a free name, which the given
-- dictionary tells for its old one.
abbrev pub Kept :
    List String → Dict String → Dict WebSessionRecord → String → WebSessionRecord → Type 0
Kept reserved renamed new k q =
    ((has_name k reserved ≡ false) × (get k new ≡ some q))
    ⊎ ((has_name k reserved ≡ true)
        × (name : String) × (get k renamed ≡ some name)
        × (has_name name reserved ≡ false)
        × (get name new ≡ some (record q { name = name })))

-- What a reassignment answers: the new names by the old ones, or OSError where the file cannot be written.
abbrev pub Answers : Bool → Outcome (Dict String) → Dict String → Type 0
Answers writes result renamed =
    (result ≡ returns renamed) ⊎ ((writes ≡ false) × (result ≡ raises os_error))
