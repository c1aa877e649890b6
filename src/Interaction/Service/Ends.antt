-- ===== src/Interaction/Service/Ends.antt =====
-- The snapshot and the receipts end, and send nothing.
use faryo_codex_web_ui.Base.{
  ℕ, refl, Bool, true, false, not, ◌&&◌, Option, none, some, String, str_eq,
}
use faryo_codex_web_ui.Base.Dict.{get, put}
use faryo_codex_web_ui.Interaction.Types.{DetectedInteraction}
use faryo_codex_web_ui.Interaction.Runtime.{
  Config, Runtime, Receipt, Result, PublicInteraction, id_reused, not_current,
}
use faryo_codex_web_ui.Interaction.Clock.{free}
use faryo_codex_web_ui.Interaction.Does.{
  Does, nothing, Does-bind, Does-skip, Does-pure, Does-throw, Does-ensure, Does-get_state,
  Does-set_state, Does-if, Does-ask,
}
use faryo_codex_web_ui.Interaction.Service.{
  snapshot_from_capture, captured, snapshot, prune_receipts, answered, existing_receipt,
  remember_receipt, required, current_or_stale, no_interaction, state_for_detection, public_payload,
  opaque_id, identity, detected_of, is_pending,
}

module _ {r : Runtime} (from : ℕ) where
  snapshot_from_capture-Does :
      (c : Config) (screen : String) → Does r from nothing free (snapshot_from_capture r c screen)
  unfolding snapshot_from_capture
  snapshot_from_capture-Does c screen =
      Does-bind (Does-get_state (λ s. get c.session s.session_states)) (λ previous.
        Does-skip
          (Does-set_state
            (λ s. record s {
              session_states =
                  put c.session (state_for_detection r (r.detector screen) previous)
                    s.session_states;
            })
            (λ s. refl))
          (Does-pure
            (record {
              interaction = public_payload r c (state_for_detection r (r.detector screen) previous);
              revision =
                  opaque_id r c "ixr"
                    (identity c (state_for_detection r (r.detector screen) previous)) 20;
            })
            refl))

  captured-Does : (c : Config) (alive : Bool) → Does r from nothing free (captured r c alive)
  unfolding captured
  captured-Does c false = Does-pure no_interaction refl
  captured-Does c true =
      Does-bind (Does-ask _ _ (λ keys. refl)) (λ screen. snapshot_from_capture-Does c screen)

  pub snapshot-Does : (c : Config) → Does r from nothing free (snapshot r c)
  unfolding snapshot
  snapshot-Does c = Does-bind (Does-ask _ _ (λ keys. refl)) (λ alive. captured-Does c alive)

  pub prune_receipts-Does : Does r from nothing free (prune_receipts r)
  unfolding prune_receipts
  prune_receipts-Does =
      Does-bind (Does-ask _ _ (λ keys. refl)) (λ now. Does-set_state _ (λ s. refl))

  answered-Does :
      (request_id session id : String) (known : Option Receipt)
      → Does r from nothing free (answered r request_id session id known)
  unfolding answered
  answered-Does request_id session id none = Does-pure none refl
  answered-Does request_id session id (some kept) =
      Does-if (not (str_eq kept.session session && str_eq kept.identity id))
        (Does-throw id_reused (λ same. cc same))
        (Does-bind (Does-ask _ _ (λ keys. refl)) (λ now.
          Does-skip
            (Does-set_state
              (λ s. record s {
                receipts = put request_id (record kept { updated_at = now }) s.receipts;
              })
              (λ s. refl))
            (Does-pure _ refl)))

  pub existing_receipt-Does :
      (request_id session id : String)
      → Does r from nothing free (existing_receipt r request_id session id)
  unfolding existing_receipt
  existing_receipt-Does request_id session id =
      Does-bind (Does-get_state (λ s. get request_id s.receipts))
        (λ known. answered-Does request_id session id known)

  pub remember_receipt-Does :
      (request_id session id : String) (payload : Result)
      → Does r from nothing free (remember_receipt r request_id session id payload)
  unfolding remember_receipt
  remember_receipt-Does request_id session id payload =
      Does-bind (Does-ask _ _ (λ keys. refl))
        (λ now. Does-skip (Does-set_state _ (λ s. refl)) (Does-pure payload refl))

  required-Does :
      (payload : Option PublicInteraction) (detected : Option DetectedInteraction)
      → Does r from nothing free (required payload detected)
  unfolding required
  required-Does (some payload) (some detected) = Does-pure _ refl
  required-Does (some payload) none = Does-throw not_current (λ same. cc same)
  required-Does none detected = Does-throw not_current (λ same. cc same)

  pub current_or_stale-Does :
      (c : Config) (id : String) → Does r from nothing free (current_or_stale r c id)
  unfolding current_or_stale
  current_or_stale-Does c id = Does-bind (snapshot-Does c) (λ latest.
      Does-skip (Does-ensure (is_pending id latest.interaction) not_current (λ same. cc same)) (
        Does-bind (Does-get_state (λ s. get c.session s.session_states))
          (λ state. required-Does latest.interaction (detected_of state))))
