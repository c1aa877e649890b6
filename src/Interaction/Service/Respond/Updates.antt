-- ===== src/Interaction/Service/Respond/Updates.antt =====
-- What the answers and the commands write to the timeline, and what they wait for, ends and sends nothing.
use Prim.Native.String.{◌++◌}
use faryo_codex_web_ui.Base.{ℕ, refl, Option, none, some, String, if◌then◌else◌}
use faryo_codex_web_ui.Base.Text.{strip, is_empty}
use faryo_codex_web_ui.Json.{Value}
use faryo_codex_web_ui.Timeline.Event.{CommandEvent}
use faryo_codex_web_ui.Timeline.Store
use faryo_codex_web_ui.Timeline.Store.{Timeline, event_for_interaction}
use faryo_codex_web_ui.Timeline.Store.Updating.{update}
use faryo_codex_web_ui.Interaction.Runtime.{Config, Runtime, timeline_raised}
use faryo_codex_web_ui.Interaction.Clock.{free}
use faryo_codex_web_ui.Interaction.Does.{
  Does, nothing, Does-bind, Does-skip, Does-pure, Does-throw, Does-get_state, Does-set_state,
  Does-ask,
}
use faryo_codex_web_ui.Interaction.Service.Respond.{
  command_owner_key, of_timeline, public_of, update_in, update_event,
}

module _ {r : Runtime} (from : ℕ) where
  pub command_owner_key-Does : (c : Config) → Does r from nothing free (command_owner_key r c)
  unfolding command_owner_key
  command_owner_key-Does c = Does-bind (Does-ask _ _ (λ keys. refl)) (λ resolved.
      Does-pure (if is_empty (strip resolved) then "tui:" ++ c.session else strip resolved) refl)

  pub of_timeline-Does :
      {A : Type 0} (given : Store.Outcome A) → Does r from nothing free (of_timeline given)
  unfolding of_timeline
  of_timeline-Does (Store.returns a) = Does-pure a refl
  of_timeline-Does (Store.raises e) = Does-throw (timeline_raised e) (λ same. cc same)

  update_in-Does :
      (e : CommandEvent) (status : String) (metadata : Option Value) (id : Option String)
      (timeline : Option Timeline)
      → Does r from nothing free (update_in r e status metadata id timeline)
  unfolding update_in
  update_in-Does e status metadata id none = Does-pure none refl
  update_in-Does e status metadata id (some timeline) =
      Does-bind (Does-ask _ _ (λ keys. refl)) (λ writes.
        Does-bind (Does-ask _ _ (λ keys. refl)) (λ now.
          Does-skip
            (Does-set_state
              (λ s. record s {
                timeline = some (update writes now timeline e.id status metadata id).0;
              })
              (λ s. refl))
            (Does-bind (of_timeline-Does (update writes now timeline e.id status metadata id).1)
              (λ updated. Does-pure (public_of updated) refl))))

  pub update_event-Does :
      (e : CommandEvent) (status : String) (metadata : Option Value) (id : Option String)
      → Does r from nothing free (update_event r e status metadata id)
  unfolding update_event
  update_event-Does e status metadata id =
      Does-bind (Does-get_state (λ s. s.timeline))
        (λ timeline. update_in-Does e status metadata id timeline)
