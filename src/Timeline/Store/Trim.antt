-- ===== src/Timeline/Store/Trim.antt =====
-- command_timeline.py: what `_trim` keeps.
use mathlib.Core.List.{
  Sublist, reverse, reverse-cons, reverse-reverse, reverse-append, sublist-append_left,
  sublist-append_right,
}
use mathlib.Core.List.Sublist
use faryo_codex_web_ui.Base.{
  ℕ, suc, ◌+◌, ◌≤◌, ◌<◌, ◌≡◌, ap, subst, ◌∙◌, List, [], ◌∷◌, ◌++◌, String, str_eq, eq_iff, arith,
  Every, Every-reverse, leb, Bool-cases, inl, inr, length, keep, length-reverse,
  length-keep-reverse,
}
use faryo_codex_web_ui.Base.Dict.{Dict, get, put, get-put}
use faryo_codex_web_ui.Timeline.Event.{CommandEvent}
use faryo_codex_web_ui.Timeline.Store.{select, trim, count_of}

-- The events of one owner.
abbrev pub of_owner : String → List CommandEvent → List CommandEvent
of_owner k = keep (λ e. str_eq e.owner_key k)

module _ (per_owner limit : ℕ) where
  length-select :
      (counts : Dict ℕ) (selected : ℕ) (es : List CommandEvent)
      → selected < limit
      → length (select per_owner limit counts selected es) + selected ≤ limit
  unfolding select
  length-select counts selected [] h = omega arith
  length-select counts selected (e ∷ es) h =
      let n = count_of (get e.owner_key counts) in
      ground (
        arith,
        length-select counts selected es,
        length-select (put e.owner_key (suc n) counts) (suc selected) es,
      )

  owner-select :
      (k : String) (counts : Dict ℕ) (selected : ℕ) (es : List CommandEvent)
      → count_of (get k counts) ≤ per_owner
      → length (of_owner k (select per_owner limit counts selected es)) + count_of (get k counts)
        ≤ per_owner
  unfolding select keep count_of
  owner-select k counts selected [] h = omega arith
  owner-select k counts selected (e ∷ es) h =
      let n = count_of (get e.owner_key counts) in
      ground (
        arith,
        owner-select k counts selected es,
        owner-select k (put e.owner_key (suc n) counts) (suc selected) es,
        get-put e.owner_key k (suc n) counts,
        eq_iff e.owner_key k,
      )

  reverse-select :
      (counts : Dict ℕ) (selected : ℕ) (es : List CommandEvent)
      → Sublist (reverse (select per_owner limit counts selected es)) (reverse es)
  unfolding select
  reverse-select counts selected [] = Sublist.refl []
  reverse-select counts selected (e ∷ es) =
      let n = count_of (get e.owner_key counts) in
      let skip = reverse-select counts selected es in
      let more = reverse-select (put e.owner_key (suc n) counts) (suc selected) es in
      rw (reverse-cons e es) (elim (Bool-cases (leb per_owner n)) [
        | inl full ↦ rw full (Sublist.trans skip (sublist-append_left (reverse es) (e ∷ [])))
        | inr room ↦ rw room (elim (Bool-cases (leb limit (suc selected))) [
          | inl last ↦ rw last (sublist-append_right (reverse es) (e ∷ []))
          | inr others ↦ rw others (rw reverse-cons (Sublist.append more (Sublist.refl (e ∷ []))))
        ])
      ])

  select-head :
      (selected : ℕ) (e : CommandEvent) (es : List CommandEvent)
      → 1 ≤ per_owner
      → (rest : List CommandEvent) × (select per_owner limit [] selected (e ∷ es) ≡ e ∷ rest)
  unfolding select get count_of
  select-head selected e es h = elim (Bool-cases (leb limit (suc selected))) [
    | inl last ↦ ([], ground arith)
    | inr others ↦ (select per_owner limit (put e.owner_key 1 []) (suc selected) es, ground arith)
  ]

  -- Trimming leaves at most `limit` events, at most `per_owner` of each owner, in their order and without
  -- additions; limits below one are excluded by the constructor.
  pub trim_bounds :
      (events : List CommandEvent)
      → 1 ≤ limit
      → (length (trim per_owner limit events) ≤ limit)
        × ((k : String) → length (of_owner k (trim per_owner limit events)) ≤ per_owner)
        × Sublist (trim per_owner limit events) events
  unfolding trim
  trim_bounds events h = (
    rw length-reverse (omega (arith, length-select [] 0 (reverse events) h)),
    (λ k.
        rw length-keep-reverse (
          omega
            (arith, owner-select k [] 0 (reverse events) (unfold get count_of in omega arith)))),
    subst (Sublist (reverse (select per_owner limit [] 0 (reverse events))))
        (reverse-reverse events) (reverse-select [] 0 (reverse events)),
  )

  Every-select :
      (P : CommandEvent → Type 0) (counts : Dict ℕ) (selected : ℕ) (es : List CommandEvent)
      → Every P es
      → Every P (select per_owner limit counts selected es)
  unfolding select
  Every-select P counts selected [] h = tt
  Every-select P counts selected (e ∷ es) h =
      let n = count_of (get e.owner_key counts) in
      let skip = Every-select P counts selected es h.1 in
      let more = Every-select P (put e.owner_key (suc n) counts) (suc selected) es h.1 in
      elim (Bool-cases (leb per_owner n)) [
        | inl full ↦ rw full skip
        | inr room ↦ rw room (elim (Bool-cases (leb limit (suc selected))) [
          | inl last ↦ rw last (h.0, tt)
          | inr others ↦ rw others (h.0, more)
        ])
      ]

  -- What holds for every event holds for every one that is kept.
  pub trim-Every :
      (P : CommandEvent → Type 0) (events : List CommandEvent)
      → Every P events
      → Every P (trim per_owner limit events)
  unfolding trim
  trim-Every P events h =
      Every-reverse P (select per_owner limit [] 0 (reverse events))
        (Every-select P [] 0 (reverse events) (Every-reverse P events h))

  -- The newest event survives.
  pub trim-append :
      (events : List CommandEvent) (e : CommandEvent)
      → 1 ≤ per_owner
      → (rest : List CommandEvent) × (trim per_owner limit (events ++ (e ∷ [])) ≡ rest ++ (e ∷ []))
  unfolding trim
  trim-append events e h =
      let (rest, head) = select-head 0 e (reverse events) h in
      (reverse rest, rw (reverse-append events (e ∷ [])) (ap reverse head ∙ reverse-cons e rest))
