-- ===== src/Commands/AppServer/Tests.antt =====
-- A session whose model is chosen, and the theorems at it.
use faryo_codex_web_ui.Base.{refl, inr, true, false, some, [], ◌∷◌, str_eq, if◌then◌else◌}
use faryo_codex_web_ui.Base.Dict.{get}
use faryo_codex_web_ui.Base.Text.{pos}
use faryo_codex_web_ui.Json.{
  Value, Fields, bool, int, text, array, mapping, no_items, item, no_fields, field,
}
use faryo_codex_web_ui.Program.{Outcome}
use faryo_codex_web_ui.Commands.AppServer.{
  CommandChoice, PendingCommand, Runtime, Task, CommandError, opens, any_choice, number_or_zero,
  public_command, opened_result,
}
use faryo_codex_web_ui.Commands.AppServer.Begin.{Invocation, begin, invocation_of}
use faryo_codex_web_ui.Commands.AppServer.Begin.Opened.{Undisturbed, view, Opens}
use faryo_codex_web_ui.Commands.AppServer.Begin.Started.{Expected, begin-Expected}
use faryo_codex_web_ui.Commands.AppServer.Respond.Taken.{Taken}

abbrev models : Value
models = mapping (
    field "data" (array (item (mapping (field "model" (text "gpt-a") no_fields)) no_items))
      no_fields)

abbrev server : Runtime
server = record {
  rpc = λ call h. if str_eq call.method "model/list" then some models else some (mapping no_fields);
  others = λ h t. t;
  token = λ n. "token";
  one_decimal = λ v. "0.0";
}

server-Undisturbed : Undisturbed server "dev"
server-Undisturbed = record { same_pending = λ h t. refl; same_generation = λ h t. refl }

abbrev idle : Task
idle = record {
  tables = record { pending = []; generations = [] };
  drawn = 0;
  rpcs = [];
  notices = [];
}

abbrev model_choice : CommandChoice
model_choice = record {
  id = "ascopt_token";
  label = "gpt-a";
  description = "";
  method = "thread/settings/update";
  params = some (field "threadId" (text "thread-1") (field "model" (text "gpt-a") no_fields));
  selected = true;
}

abbrev select_model : PendingCommand
select_model = record {
  id = "ascmd_token";
  session = "dev";
  generation = 1;
  kind = "model_select";
  title = "Select model";
  prompt = "Choose the model for subsequent turns.";
  choices = model_choice ∷ [];
  details = no_fields;
}

abbrev opened_task : Task
opened_task = record {
  tables = record { pending = ("dev", select_model) ∷ []; generations = ("dev", 1) ∷ [] };
  drawn = 2;
  rpcs =
      record {
        method = "model/list";
        params = field "includeHidden" (bool false) (field "limit" (int (pos 100)) no_fields);
      }
      ∷ [];
  notices = opens "dev" (public_command select_model) ∷ [];
}

abbrev begun : Outcome CommandError Fields × Task
begun = begin server "dev" "thread-1" "/work" no_fields " /model" idle

begin-Expected_example :
    Expected
      (invocation_of "dev" "thread-1" "/work" no_fields " /model")
      idle
      (get "dev" idle.tables.pending)
      begun
begin-Expected_example =
    begin-Expected server "dev" "thread-1" "/work" " /model" no_fields idle server-Undisturbed

abbrev invocation : Invocation
invocation = record {
  session = "dev";
  thread_id = "thread-1";
  cwd = "/work";
  thread = no_fields;
  name = "/model";
  argument = "";
}

started : Opens invocation (view "dev" idle) (opened_result select_model) opened_task
unfolding view get any_choice number_or_zero
started = record {
  command = select_model;
  known = refl;
  in_session = refl;
  generation = refl;
  kept_generation = refl;
  notified = refl;
  same_result = refl;
  not_empty = refl;
  bound = (inr (refl, (field "model" (text "gpt-a") no_fields, refl)), tt);
}
