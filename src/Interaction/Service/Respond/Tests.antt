-- ===== src/Interaction/Service/Respond/Tests.antt =====
-- An answer to a menu, and the theorems at it.
use faryo_codex_web_ui.Base.{
  ◌+◌, ◌≡◌, refl, Bool, true, some, [], ◌∷◌, not, ltb, subst, length, any,
}
use faryo_codex_web_ui.Json.{text}
use faryo_codex_web_ui.Program.{ensure, Outcome, returns}
use faryo_codex_web_ui.Interaction.Types.{first_index, selected_index, one_later}
use faryo_codex_web_ui.Interaction.Runtime.{
  Interactions, Receipt, Result, InteractionError, ask, tell, rounds, continue,
}
use faryo_codex_web_ui.Interaction.Typings.{typings}
use faryo_codex_web_ui.Interaction.Service.Respond.{
  respond, keys_for_response, repeat, keys_between, nth, keys_to, keys_at, keys_for_option,
  action_key, keys_for_action, lift, send_each, poll_changed, unchanged, wait_for_transition,
  event_in, with_event, answer_result, applied, answer, answer_unless, identity_of, respond_to,
  cleaned, answer_of, respond_clean,
}
use faryo_codex_web_ui.Interaction.Service.{
  opaque_id, next_generation, fingerprint_or_empty, state_for_detection, public_option,
  public_options, identity, payload_of_detected, public_payload, snapshot_from_capture, captured,
  snapshot, clean_request_id, prune_receipts, answered as answered_before, existing_receipt,
  remember_receipt, is_pending, required, detected_of, current_or_stale,
}
use faryo_codex_web_ui.Base.Dict.{get, put, retain}
use faryo_codex_web_ui.Base.Letters.{lower}
use faryo_codex_web_ui.Base.Text.{
  strip, lstrip, rstrip, is_empty, take, decimal, is_request_id, all_chars,
}
use faryo_codex_web_ui.Json.Str.{text_or, truthy, to_text}
use faryo_codex_web_ui.Interaction.Service.Respond.Keys.{Takes, keys_for_response-Takes}
use faryo_codex_web_ui.Interaction.Service.Respond.Repeated.{Current, as_duplicate, respond-respond}
use faryo_codex_web_ui.Interaction.Examples.{menu, runtime, config, start, id, payload, answered}

abbrev respond_run : Outcome InteractionError Result × Interactions
respond_run = respond runtime config (text id) (text "choose") (text "") (text "request-0001") start

abbrev kept_receipt : Receipt
kept_receipt = record {
  session = "codex-1";
  identity = "abcdef";
  payload = answered;
  updated_at = 9;
}

respond_run_lem :
    (respond_run.0 ≡ returns answered)
    × (get "request-0001" respond_run.1.receipts ≡ some kept_receipt)
    × (length respond_run.1.calls ≡ 10)
unfolding respond repeat keys_between nth keys_to keys_at keys_for_option action_key keys_for_action
    lift send_each poll_changed unchanged wait_for_transition event_in with_event answer_result
    applied answer answer_unless identity_of respond_to cleaned answer_of respond_clean opaque_id
    next_generation fingerprint_or_empty state_for_detection public_option public_options identity
    payload_of_detected public_payload snapshot_from_capture captured snapshot clean_request_id
    prune_receipts answered_before existing_receipt remember_receipt is_pending required detected_of
    current_or_stale ask tell rounds continue ensure first_index selected_index one_later get put
    retain strip lstrip rstrip is_empty lower take decimal is_request_id all_chars text_or truthy
    to_text any keys_for_response
respond_run_lem = (refl, refl, refl)

known_receipt :
    (kept : Receipt) → get "request-0001" respond_run.1.receipts ≡ some kept → kept_receipt ≡ kept
known_receipt kept same =
    let known : some kept_receipt ≡ some kept = rw respond_run_lem.1 at same in cc known

respond_run-Current : Current runtime "request-0001" respond_run.1
respond_run-Current kept same =
    let equal : kept_receipt ≡ kept = known_receipt kept same in
    subst (λ k. not (ltb (k.updated_at + 100) (length respond_run.1.calls)) ≡ true) equal
      (rw respond_run_lem.2 refl)

keys_for_response-Takes_example : Takes payload menu "opt_one" ("Up" ∷ "Enter" ∷ [])
unfolding keys_for_response is_empty first_index selected_index one_later keys_between repeat nth
    keys_to keys_at keys_for_option
keys_for_response-Takes_example =
    keys_for_response-Takes payload menu "" "opt_one" ("Up" ∷ "Enter" ∷ []) refl refl

respond-respond_example :
    ((respond runtime config
        (text id)
        (text "choose")
        (text "")
        (text "request-0001")
        respond_run.1).0
      ≡ returns (as_duplicate answered))
    × ((keys : Bool)
        → typings keys
            (respond runtime config
              (text id)
              (text "choose")
              (text "")
              (text "request-0001")
              respond_run.1).1
          ≡ typings keys respond_run.1)
unfolding clean_request_id is_request_id strip text_or truthy is_empty to_text
respond-respond_example =
    respond-respond runtime config (text id) (text "choose") (text "") (text "request-0001")
      "request-0001" start answered refl respond_run_lem.0 respond_run-Current
