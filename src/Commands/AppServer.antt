-- ===== src/Commands/AppServer.antt =====
-- appserver_commands.py: `AppServerCommandService`, the slash commands of a session of the App Server. A call of the
-- App Server is an await: it may raise, and other tasks may change the service before it comes back.
use Prim.Native.String.{◌++◌}
use faryo_codex_web_ui.Base.{
  ℕ, zero, suc, ◌+◌, Bool, true, false, not, Option, none, some, List, [], ◌∷◌, ◌++◌ as append,
  String, if◌then◌else◌,
}
use faryo_codex_web_ui.Base.Dict.{Dict, get, put, del}
use faryo_codex_web_ui.Base.Text.{is_empty, decimal}
use faryo_codex_web_ui.Json.{
  Value, Elements, Fields, null, bool, text, array, mapping, no_items, item, no_fields, field,
  get_field, put_field, int,
}
use faryo_codex_web_ui.Base.Text.{pos}
use faryo_codex_web_ui.Json.Str.{text_or}
use faryo_codex_web_ui.Json.Read.{iterated}
use faryo_codex_web_ui.Program.{
  Outcome, returns, raises, Program, ◌>>=◌, ◌>>◌, pure, throw, ensure, get_state, set_state,
}
pub mod Usage
pub mod Begin
pub mod Respond
pub mod Tests

pub record CommandChoice : Type 0 where
  pub id : String
  pub label : String
  pub description : String
  pub method : String
  pub params : Option Fields
  pub selected : Bool

-- `CommandChoice.public`
unfoldable pub public_choice : CommandChoice → Value
public_choice c = mapping (
    field "id" (text c.id) (
      field "label" (text c.label) (
        field "description" (text c.description) (
          field "selected" (bool c.selected)
            (field "current" (bool c.selected) (field "disabled" (bool false) no_fields))))))

public_choices : List CommandChoice → Elements
unfolding public_choice
public_choices [] = no_items
public_choices (c ∷ cs) = item (public_choice c) (public_choices cs)

pub record PendingCommand : Type 0 where
  pub id : String
  pub session : String
  pub generation : ℕ
  pub kind : String
  pub title : String
  pub prompt : String
  pub choices : List CommandChoice
  pub details : Fields

-- `PendingCommand.public`
unfoldable pub public_command : PendingCommand → Fields
unfolding public_choices
public_command p = field "id" (text p.id) (
    field "generation" (int (pos p.generation)) (
      field "kind" (text p.kind) (
        field "title" (text p.title) (
          field "prompt" (text p.prompt) (
            field "options" (array (public_choices p.choices)) (
              field "questions" (array no_items) (
                field "details" (mapping p.details) (
                  field "responseKind" (text "choice") (
                    field "actions" (array (item (text "cancel") no_items)) (
                      field "source" (text "codex-app-server")
                        (field "status" (text "pending") no_fields)))))))))))

-- A call of the App Server, and all of them, the latest first.
pub record RpcCall : Type 0 where
  pub method : String
  pub params : Fields

abbrev pub History : Type 0
History = List RpcCall

-- The attributes of the service.
pub record Tables : Type 0 where
  pub pending : Dict PendingCommand
  pub generations : Dict ℕ

-- The answers of the App Server, none where the call raises, what the other tasks do to the service during a call,
-- the random tokens, and how a float is shown with one decimal.
pub record Runtime : Type 0 where
  pub rpc : RpcCall → History → Option Value
  pub others : History → Tables → Tables
  pub token : ℕ → String
  pub one_decimal : Value → String

-- A call of `on_open` or of `on_close`.
pub data Notice : Type 0 where
  opens : String → Fields → Notice
  closes : String → String → Notice

-- The service, and what one task has done: the tokens that it drew, its calls and its notices.
pub record Task : Type 0 where
  pub tables : Tables
  pub drawn : ℕ
  pub rpcs : History
  pub notices : List Notice

pub data CommandError : Type 0 where
  already_pending requires_title unknown_model unknown_profile not_available no_choices
        unknown_option rpc_failed type_error :
      CommandError

abbrev pub M : Type 0 → Type 0
M A = Program Task CommandError A

pub answered : Option Value → M Value
answered none = throw rpc_failed
answered (some v) = pure v

-- `await rpc(method, params)`
unfoldable pub ask : Runtime → String → Fields → M Value
unfolding answered
ask r method params s =
    let call : RpcCall = record { method = method; params = params } in
    answered (r.rpc call s.rpcs)
      (record s { tables = r.others (call ∷ s.rpcs) s.tables; rpcs = call ∷ s.rpcs })

unfoldable pub draw : Runtime → M String
draw r s = (returns (r.token s.drawn), record s { drawn = suc s.drawn })

-- `_choice`
unfoldable pub choice : Runtime → String → String → String → Option Fields → Bool → M CommandChoice
unfolding draw
choice r label description method params selected = do
  token ← draw r
  pure (record {
    id = "ascopt_" ++ token;
    label = label;
    description = description;
    method = method;
    params = params;
    selected = selected;
  })

revision : ℕ → Value
revision generation = text ("appserver:" ++ decimal generation)

-- What `_opened` returns.
unfoldable pub opened_result : PendingCommand → Fields
unfolding public_command revision
opened_result p = field "ok" (bool true) (
    field "interaction" (mapping (public_command p)) (
      field "interactionRevision" (revision p.generation) (
        field "changed" (bool true)
          (field "resolved" (bool false) (field "duplicate" (bool false) no_fields)))))

-- `_resolved`
unfoldable pub resolved : String → ℕ → Fields
unfolding revision
resolved session generation = field "ok" (bool true) (
    field "session" (text session) (
      field "interaction" null (
        field "interactionRevision" (revision (suc generation)) (
          field "changed" (bool true)
            (field "resolved" (bool true) (field "duplicate" (bool false) no_fields))))))

unfoldable pub number_or_zero : Option ℕ → ℕ
number_or_zero none = 0
number_or_zero (some n) = n

unfoldable pub any_choice : List CommandChoice → Bool
any_choice [] = false
any_choice (c ∷ cs) = true

open_command : PendingCommand → Task → Task
unfolding public_command
open_command p s = record s {
  tables = record {
    pending = put p.session p s.tables.pending;
    generations = put p.session p.generation s.tables.generations;
  };
  notices = opens p.session (public_command p) ∷ s.notices;
}

-- `_opened`
unfoldable pub opened : Runtime → String → String → String → String → List CommandChoice → M Fields
unfolding number_or_zero any_choice draw open_command opened_result
opened r session kind title prompt choices = do
  ensure (any_choice choices) no_choices
  known ← get_state (λ s. get session s.tables.generations)
  token ← draw r
  let p : PendingCommand = record {
    id = "ascmd_" ++ token;
    session = session;
    generation = suc (number_or_zero known);
    kind = kind;
    title = title;
    prompt = prompt;
    choices = choices;
    details = no_fields;
  }
  set_state (open_command p)
  pure (opened_result p)

-- `_close`
unfoldable pub close : PendingCommand → M (Unit {0})
close p = set_state (λ s. record s {
  tables = record s.tables { pending = del p.session s.tables.pending };
  notices = closes p.session p.id ∷ s.notices;
})

-- `[item for item in data if isinstance(item, dict)]`
unfoldable pub objects : Elements → List Fields
objects no_items = []
objects (item (mapping fs) xs) = fs ∷ objects xs
objects (item _ xs) = objects xs

with_cursor : Fields → String → Fields
with_cursor params cursor =
    if is_empty cursor then params else put_field "cursor" (text cursor) params

objects_in : Option Elements → M (List Fields)
unfolding objects
objects_in none = throw type_error
objects_in (some xs) = pure (objects xs)

next_cursor : Fields → String
next_cursor fs = text_or "" (get_field "nextCursor" fs)

-- What a page gives, and where the next one begins; none where there is none.
read_page : Value → M (List Fields × String)
unfolding objects_in next_cursor
read_page (mapping fs) = do
  found ← objects_in (iterated (get_field "data" fs))
  pure (found, next_cursor fs)
read_page _ = pure ([], "")

-- The loop of `_paged`, with the rounds that are left.
unfoldable pub pages : Runtime → String → Fields → ℕ → List Fields → String → M (List Fields)
unfolding with_cursor read_page
pages r method params zero values cursor = pure values
pages r method params (suc n) values cursor = do
  result ← ask r method (with_cursor params cursor)
  page ← read_page result
  if is_empty page.1
      then pure (append values page.0)
      else pages r method params n (append values page.0) page.1

-- `_paged`
unfoldable pub paged : Runtime → String → Fields → M (List Fields)
unfolding pages
paged r method params = pages r method params 8 [] ""
