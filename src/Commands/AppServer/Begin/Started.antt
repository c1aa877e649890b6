-- ===== src/Commands/AppServer/Begin/Started.antt =====
-- Every command of an App Server session, from its first call on.
use Prim.Native.String.{◌++◌}
use faryo_codex_web_ui.Base.{
  suc, ◌≡◌, inl, inr, refl, false, not, ◌&&◌, Option, none, some, List, [], ◌∷◌, String, str_eq,
  first, Every, Bool-cases, Option-cases,
}
use faryo_codex_web_ui.Base.Dict.{get, get-put_self}
use faryo_codex_web_ui.Base.Text.{is_empty}
use faryo_codex_web_ui.Json.{Fields, text, field, get_field, no_fields}
use faryo_codex_web_ui.Json.Str.{text_or}
use faryo_codex_web_ui.Program.{
  Outcome, raises, ensure, Gives, Gives-bind, Gives-pure, Gives-if, Gives-ensure,
}
use faryo_codex_web_ui.Commands.AppServer.{
  CommandChoice, PendingCommand, Runtime, Task, CommandError, draw, opened, number_or_zero,
  any_choice, open_command, already_pending, not_available,
}
use faryo_codex_web_ui.Commands.AppServer.Begin.{
  Invocation, fast, rename, compact, select_model, model_choices, model_name, model_label, text_at,
  is_model, model_command, select_profile, profile_choices, profile_id, is_allowed,
  permissions_command, shown, usage, goal, model, permissions, run, begin, invocation_of, on_thread,
  current_profile, current_profile,
}
use faryo_codex_web_ui.Commands.AppServer.Begin.Opened.{
  Undisturbed, view, Bound, Began, Begins, Begins-bind, Begins-skip, Begins-throw, Begins-resolved,
  Begins-if,
}
use faryo_codex_web_ui.Commands.AppServer.Begin.Calls.{ask-Gives, choice-Gives, paged-Gives}

module _ (r : Runtime) (q : Invocation) (rely : Undisturbed r q.session) where
  model_choices-Gives :
      (current : String) (models : List Fields)
      → Gives (view q.session) (Every (Bound q.thread_id)) (model_choices r q current models)
  unfolding model_choices on_thread
  model_choices-Gives current [] = Gives-pure [] tt
  model_choices-Gives current (m ∷ ms) =
      Gives-if (is_empty (model_name m)) (model_choices-Gives current ms) (
        Gives-bind
          (choice-Gives r q rely (model_label m) (text_at "description" m) "thread/settings/update"
            (some (on_thread q (field "model" (text (model_name m)) no_fields)))
            (is_model current m)
            (λ id. inr (refl, (field "model" (text (model_name m)) no_fields, refl))))
          (λ c bound.
            Gives-bind (model_choices-Gives current ms)
              (λ cs all. Gives-pure (c ∷ cs) (bound, all))))

  profile_choices-Gives :
      (current : String) (profiles : List Fields)
      → Gives (view q.session) (Every (Bound q.thread_id)) (profile_choices r q current profiles)
  unfolding profile_choices on_thread
  profile_choices-Gives current [] = Gives-pure [] tt
  profile_choices-Gives current (p ∷ ps) =
      Gives-if (not (is_allowed (get_field "allowed" p) && not (is_empty (profile_id p))))
        (profile_choices-Gives current ps)
        (Gives-bind
          (choice-Gives r q rely (text_or "Permissions" (get_field "id" p))
            (text_at "description" p) "thread/settings/update"
            (some (on_thread q (field "permissions" (text (profile_id p)) no_fields)))
            (str_eq current (profile_id p))
            (λ id. inr (refl, (field "permissions" (text (profile_id p)) no_fields, refl))))
          (λ c bound.
            Gives-bind (profile_choices-Gives current ps)
              (λ cs all. Gives-pure (c ∷ cs) (bound, all))))

  opened-Begins :
      (kind title prompt : String) (choices : List CommandChoice)
      → Every (Bound q.thread_id) choices
      → Begins q (opened r q.session kind title prompt choices)
  unfolding opened ensure draw open_command view
  opened-Begins kind title prompt choices bound = record {
    began = λ s. elim (Bool-cases (any_choice choices)) [
      | inr none_left ↦ rw none_left refl
      | inl some_left ↦ rw some_left (
          inr (record {
            command = record {
              id = "ascmd_" ++ r.token s.drawn;
              session = q.session;
              generation = suc (number_or_zero (get q.session s.tables.generations));
              kind = kind;
              title = title;
              prompt = prompt;
              choices = choices;
              details = no_fields;
            };
            known = get-put_self q.session _ s.tables.pending;
            in_session = refl;
            generation = refl;
            kept_generation = get-put_self q.session _ s.tables.generations;
            notified = refl;
            same_result = refl;
            not_empty = some_left;
            bound = bound;
          }))
    ];
  }

  fast-Begins : Begins q (fast r q)
  unfolding fast
  fast-Begins = Begins-skip (ask-Gives r q rely _ _) Begins-resolved

  rename-Begins : Begins q (rename r q)
  unfolding rename
  rename-Begins =
      Begins-skip (Gives-ensure (not (is_empty q.argument)) _)
        (Begins-skip (ask-Gives r q rely _ _) Begins-resolved)

  compact-Begins : Begins q (compact r q)
  unfolding compact
  compact-Begins = Begins-skip (ask-Gives r q rely _ _) Begins-resolved

  select_model-Begins : (found : Option Fields) → Begins q (select_model r q found)
  unfolding select_model
  select_model-Begins none = Begins-throw _
  select_model-Begins (some m) = Begins-skip (ask-Gives r q rely _ _) Begins-resolved

  model_command-Begins : (models : List Fields) → Begins q (model_command r q models)
  unfolding model_command
  model_command-Begins models =
      Begins-if (not (is_empty q.argument))
        (select_model-Begins (first (is_model q.argument) models))
        (Begins-bind (model_choices-Gives (text_at "model" q.thread) models)
          (λ choices bound. opened-Begins _ _ _ choices bound))

  select_profile-Begins : (found : Option Fields) → Begins q (select_profile r q found)
  unfolding select_profile
  select_profile-Begins none = Begins-throw _
  select_profile-Begins (some p) =
      Begins-skip (Gives-ensure (is_allowed (get_field "allowed" p)) _)
        (Begins-skip (ask-Gives r q rely _ _) Begins-resolved)

  permissions_command-Begins :
      (profiles : List Fields) → Begins q (permissions_command r q profiles)
  unfolding permissions_command
  permissions_command-Begins profiles =
      Begins-if (not (is_empty q.argument))
        (select_profile-Begins (first (λ profile. str_eq (profile_id profile) q.argument) profiles))
        (Begins-bind
          (profile_choices-Gives (current_profile (get_field "activePermissionProfile" q.thread))
            profiles)
          (λ choices bound. opened-Begins _ _ _ choices bound))

  shown-Begins : (kind title prompt : String) → Begins q (shown r q kind title prompt)
  unfolding shown
  shown-Begins kind title prompt =
      Begins-bind
        (choice-Gives r q rely "Close" "Return to the conversation." "" none false
          (λ id. inl (refl, refl)))
        (λ c bound. opened-Begins kind title prompt (c ∷ []) (bound, tt))

  usage-Begins : Begins q (usage r q)
  unfolding usage
  usage-Begins =
      Begins-bind (ask-Gives r q rely "account/rateLimits/read" no_fields) (λ rate_limits _.
        Begins-bind (ask-Gives r q rely "account/usage/read" no_fields)
          (λ used _. shown-Begins _ _ _))

  goal-Begins : Begins q (goal r q)
  unfolding goal
  goal-Begins =
      Begins-bind (ask-Gives r q rely "thread/goal/get" (on_thread q no_fields))
        (λ result _. shown-Begins _ _ _)

  model-Begins : Begins q (model r q)
  unfolding model
  model-Begins = Begins-bind (paged-Gives r q rely _ _) (λ models _. model_command-Begins models)

  permissions-Begins : Begins q (permissions r q)
  unfolding permissions
  permissions-Begins =
      Begins-bind (paged-Gives r q rely _ _) (λ profiles _. permissions_command-Begins profiles)

  run-Begins : Begins q (run r q)
  unfolding run
  run-Begins = Begins-if (str_eq q.name "/fast") fast-Begins (
      Begins-if (str_eq q.name "/rename") rename-Begins (
        Begins-if (str_eq q.name "/compact") compact-Begins (
          Begins-if (str_eq q.name "/model") model-Begins (
            Begins-if (str_eq q.name "/permissions") permissions-Begins (
              Begins-if (str_eq q.name "/usage") usage-Begins
                (Begins-if (str_eq q.name "/goal") goal-Begins (Begins-throw not_available)))))))

-- What is expected of a command, by what is pending in its session.
abbrev pub Expected :
    Invocation → Task → Option PendingCommand → Outcome CommandError Fields × Task → Type 0
Expected q s none result = Began q (view q.session s) result
Expected q s (some p) result = result ≡ (raises already_pending, s)

-- A command in a session where one is pending is refused and changes nothing. Otherwise, where no other task opens
-- or closes a command of the session meanwhile: it raises or is resolved and leaves the session as it was, or it opens
-- one command with the next generation, whose choices do nothing or update the settings of this thread, and
-- announces exactly that command once.
pub begin-Expected :
    (r : Runtime) (session thread_id cwd command : String) (thread : Fields) (s : Task)
    → Undisturbed r session
    → Expected
        (invocation_of session thread_id cwd thread command)
        s
        (get session s.tables.pending)
        (begin r session thread_id cwd thread command s)
unfolding begin ensure
begin-Expected r session thread_id cwd command thread s rely =
    elim (Option-cases (get session s.tables.pending)) [
      | inl absent ↦
          rw absent
            ((run-Begins r (invocation_of session thread_id cwd thread command) rely).began s)
      | inr present ↦ rw present.1 refl
    ]
