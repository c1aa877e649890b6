-- ===== src/Timeline/Store/Adding/Once.antt =====
-- command_timeline.py: `begin` adds a command once, whatever happens to the older events.
use faryo_codex_web_ui.Base.{
  ℕ, zero, suc, ◌-◌, ◌/◌, max, ◌≤◌, ◌≡◌, ◌≢◌, refl, sym, ap, ◌∙◌, Bool, true, false, Option, none,
  some, List, [], ◌∷◌, ◌++◌, String, str_eq, eq_iff, eq_refl, arith, ltb, Bool-cases, inl, inr,
  length, length-append, drop,
}
use faryo_codex_web_ui.Base.Text.{strip, is_request_id}
use faryo_codex_web_ui.Json.Str.{text_or}
use faryo_codex_web_ui.Timeline.Command.{command_parts, command_is_durable, command_parts-durable}
use faryo_codex_web_ui.Timeline.Event.{CommandEvent}
use faryo_codex_web_ui.Timeline.Store.{
  Timeline, Outcome, returns, raises, id_reused, fitting, max_file_bytes, body_bytes, save, saved,
  find_last, valid_owner_key,
}
use faryo_codex_web_ui.Timeline.Store.Adding.{
  Beginning, is_request, new_event, begin_locked, begin_owned, begin_key, begin_parts, begin,
}
use faryo_codex_web_ui.Timeline.Store.Trim.{trim-append}

find_last-append :
    (test : CommandEvent → Bool) (es : List CommandEvent) (e : CommandEvent)
    → test e ≡ true
    → find_last test (es ++ (e ∷ [])) ≡ some e
unfolding find_last
find_last-append test [] e h = rw h
find_last-append test (x ∷ es) e h = rw (find_last-append test es e h) refl

drop-append :
    (n : ℕ) (es : List CommandEvent) (e : CommandEvent)
    → n ≤ length es
    → (rest : List CommandEvent) × (drop n (es ++ (e ∷ [])) ≡ rest ++ (e ∷ []))
drop-append zero es e h = (es, refl)
drop-append (suc n) [] e h = absurd (omega arith)
drop-append (suc n) (x ∷ es) e h = drop-append n es e (omega arith)

fitting-append :
    (limit : ℕ) (es : List CommandEvent) (e : CommandEvent)
    → (rest : List CommandEvent) × (fitting limit (es ++ (e ∷ [])) ≡ rest ++ (e ∷ []))
unfolding fitting
fitting-append limit es e = elim (Bool-cases (ltb max_file_bytes (body_bytes (es ++ (e ∷ []))))) [
  | inl large ↦
      let (rest, kept) =
        drop-append (length (es ++ (e ∷ [])) - max 1 (limit / 2)) es e
          (omega (arith, length-append es (e ∷ []))) in
      (rest, rw large kept)
  | inr fits ↦ (es, rw fits)
]

pub saved-returns {ℓ} : {A : Type ℓ} (writes : Bool) (a b : A) → saved writes a ≡ returns b → a ≡ b
unfolding saved
saved-returns true a b h = cc
saved-returns false a b h = cc

-- The event `e` was added as the newest one, from the event `x` that `begin` made.
record Added (x e : CommandEvent) (events : List CommandEvent) : Type 0 where
  pub same : x ≡ e
  pub older : List CommandEvent
  pub newest : events ≡ older ++ (e ∷ [])

begin_locked-Added :
    (writes : Bool) (s : Timeline) (x e : CommandEvent) (o : Option CommandEvent)
    → 1 ≤ s.max_events_per_owner
    → (begin_locked writes s x o).1 ≡ returns (some e, false)
    → Added x e (begin_locked writes s x o).0.events
unfolding begin_locked save
begin_locked-Added writes s x e (some old) one h = elim (Bool-cases (str_eq old.digest x.digest)) [
  | inl same ↦ cc (rw same at h)
  | inr other ↦ cc (rw other at h)
]
begin_locked-Added writes s x e none one h =
    let (kept, trimmed) = trim-append s.max_events_per_owner s.max_events s.events x one in
    let (older, newest) = fitting-append s.max_events kept x in
    let both : (some x, false) ≡ (some e, false) =
      saved-returns writes (some x, false) (some e, false) h in
    let same : x ≡ e = cc both in
    record {
      same = same;
      older = older;
      newest = rw trimmed (newest ∙ ap (λ y. older ++ (y ∷ [])) same);
    }

-- What a `begin` that added `e` leaves: the newest event is `e`, under the ids that were given and with the digest
-- of the invocation.
record Begun (sha256 : String → String) (b : Beginning) (s : Timeline) (e : CommandEvent)
    : Type 0 where
  pub digest : sha256 (strip (text_or "" b.invocation)) ≡ e.digest
  pub owner : valid_owner_key b.owner_key ≡ returns e.owner_key
  pub request : strip (text_or "" b.request_id) ≡ e.request_id
  pub valid : is_request_id e.request_id ≡ true
  pub older : List CommandEvent
  pub newest : s.events ≡ older ++ (e ∷ [])

begin_key-Begun :
    (sha256 : String → String) (writes : Bool) (now : ℕ) (token : String) (s : Timeline)
    (b : Beginning) (parts : String × String) (anchor : String) (o : Outcome String)
    (e : CommandEvent)
    → 1 ≤ s.max_events_per_owner
    → valid_owner_key b.owner_key ≡ o
    → is_request_id (strip (text_or "" b.request_id)) ≡ true
    → (begin_key writes now token s
        (strip (text_or "" b.request_id))
        (sha256 (strip (text_or "" b.invocation)))
        parts
        anchor
        o).1
      ≡ returns (some e, false)
    → Begun sha256 b
        (begin_key writes now token s
          (strip (text_or "" b.request_id))
          (sha256 (strip (text_or "" b.invocation)))
          parts
          anchor
          o).0
        e
unfolding begin_key
begin_key-Begun sha256 writes now token s b (name, argument) anchor (raises x) e one key valid h =
    cc
begin_key-Begun sha256 writes now token s b (name, argument) anchor (returns key) e one owner valid
      h =
    let request_id = strip (text_or "" b.request_id) in
    let digest = sha256 (strip (text_or "" b.invocation)) in
    let x = new_event now token key request_id digest name argument anchor in
    let a =
      begin_locked-Added writes s x e (find_last (is_request key request_id) s.events) one h in
    record {
      digest = ap (λ (y : CommandEvent). y.digest) a.same;
      owner = owner ∙ ap (λ (y : CommandEvent). returns y.owner_key) a.same;
      request = ap (λ (y : CommandEvent). y.request_id) a.same;
      valid = ap is_request_id (sym (ap (λ (y : CommandEvent). y.request_id) a.same)) ∙ valid;
      older = a.older;
      newest = a.newest;
    }

begin_parts-Begun :
    (sha256 : String → String) (writes : Bool) (now : ℕ) (token : String) (s : Timeline)
    (b : Beginning) (o : Option (String × String)) (e : CommandEvent)
    → 1 ≤ s.max_events_per_owner
    → (begin_parts sha256 writes now token s b o).1 ≡ returns (some e, false)
    → Begun sha256 b (begin_parts sha256 writes now token s b o).0 e
unfolding begin_parts
begin_parts-Begun sha256 writes now token s b none e one h = cc
begin_parts-Begun sha256 writes now token s b (some parts) e one h =
    elim (Bool-cases (is_request_id (strip (text_or "" b.request_id)))) [
      | inl valid ↦ elim (Bool-cases (command_is_durable b.invocation)) [
        | inl durable ↦
            rw (valid, durable)
              (begin_key-Begun sha256 writes now token s b parts _ (valid_owner_key b.owner_key) e
                one refl valid (rw (valid, durable) at h))
        | inr brief ↦ cc (rw (valid, brief) at h)
      ]
      | inr bad ↦ cc (rw bad at h)
    ]

begin_owned-known :
    (writes : Bool) (s : Timeline) (x e : CommandEvent) (older : List CommandEvent)
    → s.events ≡ older ++ (e ∷ [])
    → x.owner_key ≡ e.owner_key
    → x.request_id ≡ e.request_id
    → (x.digest ≡ e.digest → begin_owned writes s x ≡ (s, returns (some e, true)))
      × (x.digest ≢ e.digest → begin_owned writes s x ≡ (s, raises id_reused))
unfolding begin_owned
begin_owned-known writes s x e older newest owner request =
    let test : is_request x.owner_key x.request_id e ≡ true =
      rw (owner, request, eq_refl e.owner_key, eq_refl e.request_id) in
    rw (newest, find_last-append (is_request x.owner_key x.request_id) older e test)
      (
        (λ same. rw (same, eq_refl e.digest)),
        (λ other. elim (Bool-cases (str_eq e.digest x.digest)) [
          | inl same ↦ absurd (other (sym ((eq_iff e.digest x.digest).0 same)))
          | inr different ↦ rw different refl
        ]),
      )

begin_parts-known :
    (sha256 : String → String) (writes : Bool) (now : ℕ) (token : String) (s : Timeline)
    (b : Beginning) (parts : String × String) (e : CommandEvent)
    → valid_owner_key b.owner_key ≡ returns e.owner_key
    → strip (text_or "" b.request_id) ≡ e.request_id
    → is_request_id e.request_id ≡ true
    → (older : List CommandEvent) → s.events ≡ older ++ (e ∷ [])
    → command_is_durable b.invocation ≡ true
    → let digest = sha256 (strip (text_or "" b.invocation)) in
      (digest ≡ e.digest
        → begin_parts sha256 writes now token s b (some parts) ≡ (s, returns (some e, true)))
      × (digest ≢ e.digest
          → begin_parts sha256 writes now token s b (some parts) ≡ (s, raises id_reused))
unfolding begin_parts begin_key new_event
begin_parts-known sha256 writes now token s b (name, argument) e owner request valid older newest
      durable =
    let x =
      new_event now token e.owner_key e.request_id (sha256 (strip (text_or "" b.invocation))) name
        argument (text_or "" b.anchor_key) in
    rw (request, valid, durable, owner) (begin_owned-known writes s x e older newest refl refl)

-- `begin` adds a command once: after it added the event `e`, newest of all even where older events were
-- trimmed or the file was too large, a durable command with the same owner and request id finds `e`. Where the
-- digest of its invocation is that of the first one, which the same text has, it returns `e` as a duplicate, with
-- another digest it is refused; the store does not change.
pub begin_again :
    (sha256 : String → String) (writes writes' : Bool) (now now' : ℕ) (token token' : String)
    (s : Timeline) (b b' : Beginning) (e : CommandEvent)
    → 1 ≤ s.max_events_per_owner
    → (begin sha256 writes now token s b).1 ≡ returns (some e, false)
    → valid_owner_key b'.owner_key ≡ valid_owner_key b.owner_key
    → strip (text_or "" b'.request_id) ≡ strip (text_or "" b.request_id)
    → command_is_durable b'.invocation ≡ true
    → let s' = (begin sha256 writes now token s b).0 in
      let first = sha256 (strip (text_or "" b.invocation)) in
      let again = sha256 (strip (text_or "" b'.invocation)) in
      (again ≡ first → begin sha256 writes' now' token' s' b' ≡ (s', returns (some e, true)))
      × (again ≢ first → begin sha256 writes' now' token' s' b' ≡ (s', raises id_reused))
unfolding begin
begin_again sha256 writes writes' now now' token token' s b b' e one h owner request durable =
    let v = begin_parts-Begun sha256 writes now token s b (command_parts b.invocation) e one h in
    let (parts, parsed) = command_parts-durable b'.invocation durable in
    rw (parsed, v.digest)
      (begin_parts-known sha256 writes' now' token' _ b' parts e (owner ∙ v.owner)
        (request ∙ v.request) v.valid v.older v.newest durable)
