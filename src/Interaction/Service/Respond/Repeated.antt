-- ===== src/Interaction/Service/Respond/Repeated.antt =====
-- An answer that comes again under the same id.
use faryo_codex_web_ui.Base.{
  ◌≡◌, ◌+◌, refl, Bool, true, false, not, ◌&&◌, Option, none, some, String, str_eq, eq_refl, eq_iff,
  arith, ltb, Bool-cases, inl, inr, subst,
}
use faryo_codex_web_ui.Base.Dict.{get, get-put_self, get-retain}
use faryo_codex_web_ui.Base.Text.{is_empty}
use faryo_codex_web_ui.Json.{Value}
use faryo_codex_web_ui.Program.{
  Outcome, returns, raises, ◌>>◌, ensure, get_state, Ends, Post, Post-bind, Post-use, Post-skip,
}
use faryo_codex_web_ui.Interaction.Runtime.{
  Config, Runtime, Receipt, Result, Interactions, InteractionError, not_applied, missing_response,
  M, ask, monotonic,
}
use faryo_codex_web_ui.Interaction.Typings.{typings, count_typed}
use faryo_codex_web_ui.Interaction.Service.{
  prune_receipts, answered, existing_receipt, remember_receipt, current_or_stale, clean_request_id,
}
use faryo_codex_web_ui.Interaction.Service.Respond.{
  Answer, applied, answer, answer_result, answer_unless, identity_of, keys_for_response, lift,
  event_in, send_each, wait_for_transition, with_event, respond_to, answer_of, respond_clean,
  respond,
}

abbrev pub as_duplicate : Result → Result
as_duplicate result = record result { duplicate = true }

-- The service has the receipt of what a request gave.
pub record Recorded (request_id session id : String) (given : Result) (s : Interactions)
    : Type 0 where
  pub kept : Receipt
  pub known : get request_id s.receipts ≡ some kept
  pub same_session : kept.session ≡ session
  pub same_identity : kept.identity ≡ id
  pub same_result : as_duplicate kept.payload ≡ as_duplicate given

-- A receipt that answers the request is there, where there is an answer.
abbrev Found : String → String → String → Option Result → Interactions → Type 0
Found request_id session id none s = Unit
Found request_id session id (some given) s = Recorded request_id session id given s

text_same : (a b : String) (also : Bool) → (str_eq a b && also) ≡ true → a ≡ b
text_same a b also same = ground (arith, eq_iff a b)

module _ (r : Runtime) (request_id session id : String) where
  remember_receipt-Recorded :
      (payload : Result)
      → Post (Recorded request_id session id) (remember_receipt r request_id session id payload)
  unfolding remember_receipt
  remember_receipt-Recorded payload = Post-bind (ask monotonic r.monotonic) (λ now. record {
    ends = λ s. record {
      kept = record { session = session; identity = id; payload = payload; updated_at = now };
      known = get-put_self request_id _ s.receipts;
      same_session = refl;
      same_identity = refl;
      same_result = refl;
    };
  })

  answered-Found :
      (known : Option Receipt)
      → Post (Found request_id session id) (answered r request_id session id known)
  unfolding answered
  answered-Found none = record { ends = λ s. tt }
  answered-Found (some kept) =
      elim (Bool-cases (str_eq kept.session session && str_eq kept.identity id)) [
        | inr other ↦ rw other (record { ends = λ s. tt })
        | inl same ↦ rw same (
            Post-bind (ask monotonic r.monotonic) (λ now. record {
              ends = λ s. record {
                kept = record kept { updated_at = now };
                known = get-put_self request_id _ s.receipts;
                same_session = text_same kept.session session (str_eq kept.identity id) same;
                same_identity =
                    text_same kept.identity id (str_eq kept.session session) (ground (arith, same));
                same_result = refl;
              };
            }))
      ]

module _ (r : Runtime) (c : Config) (a : Answer) where
  answer-Recorded : (id : String) → Post (Recorded a.request_id c.session id) (answer r c a id)
  unfolding answer
  answer-Recorded id = Post-bind (current_or_stale r c a.interaction_id) (λ pending.
      Post-bind (get_state (λ s. s.timeline)) (λ timeline.
        Post-bind (event_in r c a.interaction_id timeline) (λ event.
          Post-bind (lift (keys_for_response pending.0 pending.1 a.action a.option_id)) (λ keys.
            Post-skip (send_each keys) (
              Post-bind (wait_for_transition r c a.interaction_id) (λ latest.
                Post-skip (ensure (applied a latest) not_applied) (
                  Post-bind (with_event r a.action (answer_result a latest.0 latest.1) event)
                    (λ result. remember_receipt-Recorded r a.request_id c.session id result))))))))

  answer_unless-Recorded :
      (existing : Option Result) (s : Interactions)
      → Found a.request_id c.session (identity_of r a) existing s
      → Ends
          (Recorded a.request_id c.session (identity_of r a))
          (answer_unless r c a (identity_of r a) existing s)
  unfolding answer_unless
  answer_unless-Recorded none s found = (answer-Recorded (identity_of r a)).ends s
  answer_unless-Recorded (some given) s found = found

  respond_to-Recorded : Post (Recorded a.request_id c.session (identity_of r a)) (respond_to r c a)
  unfolding respond_to existing_receipt
  respond_to-Recorded = Post-skip (prune_receipts r) (
      Post-use (Found a.request_id c.session (identity_of r a))
        (answer_unless r c a (identity_of r a))
        (Post-bind (get_state (λ s. get a.request_id s.receipts))
          (answered-Found r a.request_id c.session (identity_of r a)))
        answer_unless-Recorded)

  -- A receipt that the clean-up leaves answers the request, and nothing is sent.
  respond_to-known :
      (s : Interactions) (given : Result)
      → (recorded : Recorded a.request_id c.session (identity_of r a) given s)
      → not (ltb (recorded.kept.updated_at + r.receipt_ttl) (r.monotonic s.calls)) ≡ true
      → ((respond_to r c a s).0 ≡ returns (as_duplicate given))
        × ((keys : Bool) → typings keys (respond_to r c a s).1 ≡ typings keys s)
  unfolding respond_to existing_receipt prune_receipts ask answered answer_unless typings
      count_typed
  respond_to-known s given recorded current =
      rw
        (
          get-retain (λ kept. not (ltb (kept.updated_at + r.receipt_ttl) (r.monotonic s.calls)))
              a.request_id recorded.kept s.receipts current recorded.known,
          recorded.same_session,
          recorded.same_identity,
          eq_refl c.session,
          eq_refl (identity_of r a),
          recorded.same_result,
        )
        (refl, λ keys. refl)

returned-Recorded :
    (request_id session id : String) (given : Result)
    (result : Outcome InteractionError Result × Interactions)
    → Ends (Recorded request_id session id) result
    → result.0 ≡ returns given
    → Recorded request_id session id given result.1
returned-Recorded request_id session id given (returns g, s) rec same =
    let equal : g ≡ given = cc same in subst (λ x. Recorded request_id session id x s) equal rec
returned-Recorded request_id session id given (raises e, s) rec same = cc same

-- The receipt of an id is one that the clean-up leaves.
abbrev pub Current : Runtime → String → Interactions → Type 0
Current r id s =
    (kept : Receipt)
    → get id s.receipts ≡ some kept
    → not (ltb (kept.updated_at + r.receipt_ttl) (r.monotonic s.calls)) ≡ true

module _ (r : Runtime) (c : Config) (a : Answer) where
  respond_to-respond_to :
      (s : Interactions) (given : Result)
      → (respond_to r c a s).0 ≡ returns given
      → Current r a.request_id (respond_to r c a s).1
      → ((respond_to r c a (respond_to r c a s).1).0 ≡ returns (as_duplicate given))
        × ((keys : Bool)
            → typings keys (respond_to r c a (respond_to r c a s).1).1
              ≡ typings keys (respond_to r c a s).1)
  respond_to-respond_to s given returned current =
      let rec : Recorded a.request_id c.session (identity_of r a) given (respond_to r c a s).1 =
        returned-Recorded a.request_id c.session (identity_of r a) given (respond_to r c a s)
          ((respond_to-Recorded r c a).ends s) returned in
      respond_to-known r c a (respond_to r c a s).1 given rec (current rec.kept rec.known)

  ensured-respond_to :
      (fine : Bool) (s : Interactions) (given : Result)
      → ((ensure fine missing_response >> respond_to r c a) s).0 ≡ returns given
      → respond_to r c a ≡ (ensure fine missing_response >> respond_to r c a)
  unfolding ensure
  ensured-respond_to true s given returned = refl
  ensured-respond_to false s given returned = cc returned

abbrev Again : M Result → Interactions → Result → Type 0
Again m s given =
    ((m (m s).1).0 ≡ returns (as_duplicate given))
    × ((keys : Bool) → typings keys (m (m s).1).1 ≡ typings keys (m s).1)

respond_clean-respond_clean :
    (r : Runtime) (c : Config) (interaction_id action option_id : Value) (id : String)
    (s : Interactions) (given : Result)
    → (respond_clean r c interaction_id action option_id (some id) s).0 ≡ returns given
    → Current r id (respond_clean r c interaction_id action option_id (some id) s).1
    → Again (respond_clean r c interaction_id action option_id (some id)) s given
unfolding respond_clean
respond_clean-respond_clean r c interaction_id action option_id id s given =
    let a : Answer = answer_of interaction_id action option_id id in
    let fine : Bool =
      not (is_empty a.interaction_id) && not (is_empty a.action && is_empty a.option_id) in
    λ returned current.
      subst (λ m. (m s).0 ≡ returns given → Current r id (m s).1 → Again m s given)
        (ensured-respond_to r c a fine s given returned) (respond_to-respond_to r c a s given)
        returned current

-- An answer that returned a result, given again while its receipt is kept: the same result, marked as a duplicate,
-- and neither a key nor a text is sent to the terminal.
pub respond-respond :
    (r : Runtime) (c : Config) (interaction_id action option_id client_request_id : Value)
    (id : String) (s : Interactions) (given : Result)
    → clean_request_id client_request_id ≡ some id
    → (respond r c interaction_id action option_id client_request_id s).0 ≡ returns given
    → Current r id (respond r c interaction_id action option_id client_request_id s).1
    → ((respond r c interaction_id action option_id client_request_id
          (respond r c interaction_id action option_id client_request_id s).1).0
        ≡ returns (as_duplicate given))
      × ((keys : Bool)
          → typings keys
              (respond r c interaction_id action option_id client_request_id
                (respond r c interaction_id action option_id client_request_id s).1).1
            ≡ typings keys (respond r c interaction_id action option_id client_request_id s).1)
unfolding respond
respond-respond r c interaction_id action option_id client_request_id id s given cleaned_id returned
      current =
    let clean_returned : (respond_clean r c interaction_id action option_id (some id) s).0
        ≡ returns given =
      rw cleaned_id at returned in
    let clean_current : Current r id
        (respond_clean r c interaction_id action option_id (some id) s).1 =
      rw cleaned_id at current in
    rw cleaned_id (
      respond_clean-respond_clean r c interaction_id action option_id id s given clean_returned
        clean_current)
