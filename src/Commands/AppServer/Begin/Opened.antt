-- ===== src/Commands/AppServer/Begin/Opened.antt =====
-- What a command of an App Server session does to the service.
use faryo_codex_web_ui.Base.{
  ℕ, suc, ◌≡◌, ◌⊎◌, inl, refl, Bool, true, false, Option, none, some, List, ◌∷◌, String, Every,
  if◌then◌else◌,
}
use faryo_codex_web_ui.Base.Dict.{get}
use faryo_codex_web_ui.Json.{Fields, text, field}
use faryo_codex_web_ui.Program.{
  Outcome, returns, raises, ◌>>=◌, ◌>>◌, pure, throw, next, Gives, Given,
}
use faryo_codex_web_ui.Commands.AppServer.{
  CommandChoice, PendingCommand, Tables, Runtime, Notice, opens, Task, CommandError, History, M,
  opened_result, public_command, number_or_zero, any_choice, resolved,
}
use faryo_codex_web_ui.Commands.AppServer.Begin.{Invocation}

-- While a command of the session waits for the App Server, no other task opens or closes a command of it.
pub record Undisturbed (r : Runtime) (session : String) : Type 0 where
  pub same_pending :
      (h : History) (t : Tables) → get session (r.others h t).pending ≡ get session t.pending
  pub same_generation :
      (h : History) (t : Tables)
      → get session (r.others h t).generations ≡ get session t.generations

-- What a session sees of the service.
pub record View : Type 0 where
  pub pending : Option PendingCommand
  pub generation : Option ℕ
  pub notices : List Notice

unfoldable pub view : String → Task → View
view session s = record {
  pending = get session s.tables.pending;
  generation = get session s.tables.generations;
  notices = s.notices;
}

-- A choice that does nothing, or that updates the settings of the thread.
abbrev pub Bound : String → CommandChoice → Type 0
Bound thread_id c =
    ((c.method ≡ "") × (c.params ≡ none))
    ⊎ ((c.method ≡ "thread/settings/update")
        × ((fs : Fields) × (c.params ≡ some (field "threadId" (text thread_id) fs))))

-- A command was opened, with the next generation of its session.
pub record Opens (q : Invocation) (before : View) (result : Fields) (t : Task) : Type 0 where
  pub command : PendingCommand
  pub known : get q.session t.tables.pending ≡ some command
  pub in_session : command.session ≡ q.session
  pub generation : command.generation ≡ suc (number_or_zero before.generation)
  pub kept_generation : get q.session t.tables.generations ≡ some command.generation
  pub notified : t.notices ≡ opens q.session (public_command command) ∷ before.notices
  pub same_result : result ≡ opened_result command
  pub not_empty : any_choice command.choices ≡ true
  pub bound : Every (Bound q.thread_id) command.choices

-- A command raised, or was resolved, and the session sees no change; or it was opened.
abbrev pub Began : Invocation → View → Outcome CommandError Fields × Task → Type 0
Began q before (returns v, t) =
    ((v ≡ resolved q.session 0) × (view q.session t ≡ before)) ⊎ Opens q before v t
Began q before (raises e, t) = view q.session t ≡ before

pub record Begins (q : Invocation) (m : M Fields) : Type 0 where
  pub began : (s : Task) → Began q (view q.session s) (m s)

next-Began :
    {A : Type 0} (q : Invocation) (P : A → Type 0) (k : A → M Fields) (s : Task)
    (result : Outcome CommandError A × Task)
    → Given (view q.session) P s result
    → ((a : A) → P a → Begins q (k a))
    → Began q (view q.session s) (next result k)
next-Began q P k s (returns a, t) h g = rw h.0 at ((g a h.1).began t)
next-Began q P k s (raises e, t) h g = h

module _ {q : Invocation} where
  pub Begins-bind :
      {A : Type 0} {P : A → Type 0} {m : M A} {k : A → M Fields}
      → Gives (view q.session) P m
      → ((a : A) → P a → Begins q (k a))
      → Begins q (m >>= k)
  Begins-bind {P} {m} {k} h g = record { began = λ s. next-Began q P k s (m s) (h.given s) g }

  pub Begins-skip :
      {A : Type 0} {P : A → Type 0} {m : M A} {rest : M Fields}
      → Gives (view q.session) P m
      → Begins q rest
      → Begins q (m >> rest)
  Begins-skip h g = Begins-bind h (λ _ _. g)

  pub Begins-throw : (e : CommandError) → Begins q (throw e)
  Begins-throw e = record { began = λ s. refl }

  pub Begins-resolved : Begins q (pure (resolved q.session 0))
  Begins-resolved = record { began = λ s. inl (refl, refl) }

  pub Begins-if :
      (b : Bool) {m k : M Fields} → Begins q m → Begins q k → Begins q (if b then m else k)
  Begins-if true h g = h
  Begins-if false h g = g
