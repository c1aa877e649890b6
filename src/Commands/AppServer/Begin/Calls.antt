-- ===== src/Commands/AppServer/Begin/Calls.antt =====
-- The calls of a command, and the making of a choice, leave its session as it is.
use Prim.Native.String.{◌++◌}
use faryo_codex_web_ui.Base.{
  ℕ, zero, suc, ◌≡◌, refl, Bool, Option, none, some, List, [], ◌∷◌, ◌++◌ as append, String,
}
use faryo_codex_web_ui.Base.Text.{is_empty}
use faryo_codex_web_ui.Json.{
  Value, Elements, Fields, null, int, float, array, text, get_field, bool, mapping,
}
use faryo_codex_web_ui.Json.Read.{iterated}
use faryo_codex_web_ui.Program.{Gives, Gives-bind, Gives-pure, Gives-throw, Gives-if, Given}
use faryo_codex_web_ui.Commands.AppServer.{
  Runtime, Task, RpcCall, answered, ask, draw, choice, with_cursor, objects_in, read_page, pages,
  paged,
}
use faryo_codex_web_ui.Commands.AppServer.Begin.{Invocation, shown}
use faryo_codex_web_ui.Commands.AppServer.Begin.Opened.{Undisturbed, view, Bound}

abbrev pub Any : {A : Type 0} → A → Type 0
Any a = Unit {0}

module _ (r : Runtime) (q : Invocation) (rely : Undisturbed r q.session) where
  answered-Given :
      (s t : Task) (answer : Option Value)
      → view q.session t ≡ view q.session s
      → Given (view q.session) Any s (answered answer t)
  unfolding answered
  answered-Given s t none same = same
  answered-Given s t (some v) same = (same, tt)

  pub ask-Gives :
      (method : String) (params : Fields) → Gives (view q.session) Any (ask r method params)
  unfolding ask view
  ask-Gives method params = record {
    given = λ s.
        let call : RpcCall = record { method = method; params = params } in
        answered-Given s
          (record s { tables = r.others (call ∷ s.rpcs) s.tables; rpcs = call ∷ s.rpcs })
          (r.rpc call s.rpcs)
          (rw
            (
              rely.same_pending (call ∷ s.rpcs) s.tables,
              rely.same_generation (call ∷ s.rpcs) s.tables,
            )
            refl);
  }

  draw-Gives : Gives (view q.session) Any (draw r)
  unfolding draw view
  draw-Gives = record { given = λ s. (refl, tt) }

  pub choice-Gives :
      (label description method : String) (params : Option Fields) (selected : Bool)
      → ((id : String)
          → Bound q.thread_id (record {
            id = id;
            label = label;
            description = description;
            method = method;
            params = params;
            selected = selected;
          }))
      → Gives
          (view q.session)
          (Bound q.thread_id)
          (choice r label description method params selected)
  unfolding choice
  choice-Gives label description method params selected bound = Gives-bind draw-Gives (λ token _.
      Gives-pure
        (record {
          id = "ascopt_" ++ token;
          label = label;
          description = description;
          method = method;
          params = params;
          selected = selected;
        })
        (bound ("ascopt_" ++ token)))

  objects_in-Gives : (found : Option Elements) → Gives (view q.session) Any (objects_in found)
  unfolding objects_in
  objects_in-Gives none = Gives-throw _
  objects_in-Gives (some xs) = Gives-pure _ tt

  read_page-Gives : (result : Value) → Gives (view q.session) Any (read_page result)
  unfolding read_page
  read_page-Gives (mapping fs) =
      Gives-bind (objects_in-Gives (iterated (get_field "data" fs))) (λ found _. Gives-pure _ tt)
  read_page-Gives (array xs) = Gives-pure _ tt
  read_page-Gives (text s) = Gives-pure _ tt
  read_page-Gives null = Gives-pure _ tt
  read_page-Gives (bool b) = Gives-pure _ tt
  read_page-Gives (int n) = Gives-pure _ tt
  read_page-Gives (float shown) = Gives-pure _ tt

  pages-Gives :
      (method : String) (params : Fields) (n : ℕ) (values : List Fields) (cursor : String)
      → Gives (view q.session) Any (pages r method params n values cursor)
  unfolding pages
  pages-Gives method params zero values cursor = Gives-pure values tt
  pages-Gives method params (suc n) values cursor =
      Gives-bind (ask-Gives method (with_cursor params cursor)) (λ result _.
        Gives-bind (read_page-Gives result) (λ page _.
          Gives-if (is_empty page.1) (Gives-pure (append values page.0) tt)
            (pages-Gives method params n (append values page.0) page.1)))

  pub paged-Gives :
      (method : String) (params : Fields) → Gives (view q.session) Any (paged r method params)
  unfolding paged
  paged-Gives method params = pages-Gives method params 8 [] ""
