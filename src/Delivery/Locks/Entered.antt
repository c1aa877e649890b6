-- ===== src/Delivery/Locks/Entered.antt =====
-- `scoped_lock` keeps its registry: where a block is entered, and where it is left.
use faryo_codex_web_ui.Base.{
  ◌⊎◌, inl, inr, ℕ, ◌-◌, ◌≤◌, ◌<◌, ◌≡◌, ◌≢◌, refl, sym, subst, ap, ◌∙◌, true, false, none, some,
  List, [], ◌∷◌, String, ◌==◌, arith, Bool-cases, Option-cases, str_eq, eq_iff, eq_refl,
}
use faryo_codex_web_ui.Base.Dict.{Dict, get, put, del, get-put, get-put_self, get-del}
use faryo_codex_web_ui.Delivery.Locks.{
  User, Locks, assign, set_default, counted_in, enter, is_entry, leave, Takes, Among,
}
use faryo_codex_web_ui.Delivery.Locks.Kept.{
  uses, IsKept, Takes-Among, rest-Among, one, uses-Takes, uses-positive,
}

-- What a lookup in a registry without one key finds.
get-del_found :
    (gone k : String) (entry : ℕ) (d : Dict ℕ)
    → get k (del gone d) ≡ some entry
    → (str_eq gone k ≡ false) × (get k d ≡ some entry)
get-del_found gone k entry d h = elim (Bool-cases (str_eq gone k)) [
  | inl same ↦ let missing : none ≡ some entry = rw (get-del gone k d, same) at h in cc missing
  | inr other ↦ (other, rw (get-del gone k d, other) at h)
]

same_number : (a b : ℕ) → (b == a) ≡ true → a ≡ b
same_number a b same = ground arith

differ_number : (a b : ℕ) → (b == a) ≡ false → b ≢ a
differ_number a b differ same = ground arith

positive : (a b : ℕ) → a ≡ b → (a == 0) ≡ false → 1 ≤ b
positive a b same more = ground (arith, same)

same_refl : (a : ℕ) → (a == a) ≡ true
same_refl a = ground arith

module _ (s : Locks) (kept : IsKept s) (u : User) (rest : List User)
    (taken : Takes u s.users rest) where
  others : (v : User) → Among v rest → Among v s.users
  others v m = rest-Among u v s.users rest taken m

  is_known : get u.key s.registry ≡ some u.entry
  is_known = kept.known u (Takes-Among u s.users rest taken)

  left : ℕ
  left = s.references u.entry - 1

  left_lem : left ≡ uses u.entry rest
  unfolding left one
  left_lem = ground (arith, kept.counted u.entry, uses-Takes u.entry u s.users rest taken)

  discounted : (entry : ℕ) → assign u.entry left s.references entry ≡ uses entry rest
  unfolding assign one
  discounted entry = elim (Bool-cases (entry == u.entry)) [
    | inl same ↦ ground (arith, left_lem)
    | inr other ↦ ground (arith, kept.counted entry, uses-Takes entry u s.users rest taken)
  ]

  not_last : (entry : ℕ) → entry ≢ u.entry → 1 ≤ uses entry s.users → 1 ≤ uses entry rest
  unfolding one
  not_last entry other some_left = ground (arith, other, uses-Takes entry u s.users rest taken)

  none_left : uses u.entry rest ≡ 0 → 1 ≤ uses u.entry rest → ⊥
  none_left zero_left some_left = omega (arith, zero_left, some_left)

  -- Another key has another entry.
  other_entry :
      (key : String) (entry : ℕ)
      → str_eq u.key key ≡ false
      → get key s.registry ≡ some entry
      → entry ≢ u.entry
  other_entry key entry differ h same =
      let same_key : key ≡ u.key = kept.apart key u.key u.entry (rw same at h) is_known in
      let refused : str_eq u.key u.key ≡ false =
        subst (λ k. str_eq u.key k ≡ false) same_key differ in
      let bad : true ≡ false = rw (eq_refl u.key) at refused in cc bad

  -- A block with the same key uses the same entry.
  same_entry : (v : User) → Among v rest → str_eq u.key v.key ≡ true → v.entry ≡ u.entry
  same_entry v m same =
      let same_key : u.key ≡ v.key = ground (arith, eq_iff u.key v.key, same) in
      let both : some v.entry ≡ some u.entry =
        sym (kept.known v (others v m)) ∙ (ap (λ k. get k s.registry) (sym same_key) ∙ is_known) in
      cc both

  known_left :
      (v : User)
      → uses u.entry rest ≡ 0
      → Among v rest
      → get v.key (del u.key s.registry) ≡ some v.entry
  known_left v zero_left m = elim (Bool-cases (str_eq u.key v.key)) [
    | inr other ↦ rw (get-del u.key v.key s.registry, other) (kept.known v (others v m))
    | inl same ↦ elim (none_left zero_left (uses-positive u v rest m (same_entry v m same))) [ ]
  ]

  -- The last user of its entry: the key leaves the registry.
  last-IsKept :
      uses u.entry rest ≡ 0
      → IsKept (record s {
        registry = del u.key s.registry;
        references = assign u.entry left s.references;
        users = rest;
      })
  last-IsKept zero_left = record {
    known = λ v m. known_left v zero_left m;
    made = λ key entry h. kept.made key entry (get-del_found u.key key entry s.registry h).1;
    apart = λ j k entry h other.
        kept.apart j k entry (get-del_found u.key j entry s.registry h).1
          (get-del_found u.key k entry s.registry other).1;
    counted = discounted;
    used = λ key entry h.
        let found : _ = get-del_found u.key key entry s.registry h in
        not_last entry (λ same. other_entry key entry found.0 found.1 same)
          (kept.used key entry found.1);
    exclusive = λ v w m n. kept.exclusive v w (others v m) (others w n);
  }

  -- The entry has other users: it stays.
  shared-IsKept :
      1 ≤ uses u.entry rest
      → IsKept (record s { references = assign u.entry left s.references; users = rest })
  shared-IsKept some_left = record {
    known = λ v m. kept.known v (others v m);
    made = kept.made;
    apart = kept.apart;
    counted = discounted;
    used = λ key entry h. elim (Bool-cases (entry == u.entry)) [
      | inl same ↦ subst (λ e. 1 ≤ uses e rest) (same_number u.entry entry same) some_left
      | inr other ↦
          not_last entry (λ same. differ_number u.entry entry other same) (kept.used key entry h)
    ];
    exclusive = λ v w m n. kept.exclusive v w (others v m) (others w n);
  }

  pub leave-IsKept : IsKept (leave u rest s)
  unfolding leave left is_entry
  leave-IsKept = elim (Bool-cases (left == 0)) [
    | inl last ↦
        rw (last, is_known, same_refl u.entry)
          (last-IsKept (omega (arith, left_lem, same_number 0 left last)))
    | inr more ↦ rw more (shared-IsKept (positive left (uses u.entry rest) left_lem more))
  ]

-- What a lookup finds after a write.
put_found :
    (key k : String) (entry n : ℕ) (d : Dict ℕ)
    → get k (put key n d) ≡ some entry
    → ((key ≡ k) × (entry ≡ n)) ⊎ ((str_eq key k ≡ false) × (get k d ≡ some entry))
put_found key k entry n d h = elim (Bool-cases (str_eq key k)) [
  | inl same ↦
      let written : some n ≡ some entry = rw (get-put key k n d, same) at h in
      let equal : n ≡ entry = cc written in inl (ground (arith, eq_iff key k, same), sym equal)
  | inr other ↦ inr (other, rw (get-put key k n d, other) at h)
]

uses_none : (n : ℕ) (us : List User) → ((u : User) → Among u us → u.entry < n) → uses n us ≡ 0
unfolding uses
uses_none n [] h = refl
uses_none n (u ∷ us) h = ground (arith, h u (inl refl), uses_none n us (λ v m. h v (inr m)))

module _ (s : Locks) (kept : IsKept s) (thread : ℕ) (key : String) where
  -- A block that has the lock was there before.
  held_before :
      (entry : ℕ) (v : User)
      → Among v (record { thread = thread; key = key; entry = entry; holding = false } ∷ s.users)
      → v.holding ≡ true
      → Among v s.users
  held_before entry v h held = elim h [
    | inr m ↦ m
    | inl e ↦ let bad : true ≡ false = sym held ∙ ap (λ x. x.holding) e in cc bad
  ]

  joined_exclusive :
      (entry : ℕ) (v w : User)
      → Among v (record { thread = thread; key = key; entry = entry; holding = false } ∷ s.users)
      → Among w (record { thread = thread; key = key; entry = entry; holding = false } ∷ s.users)
      → v.holding ≡ true
      → w.holding ≡ true
      → v.entry ≡ w.entry
      → v.thread ≡ w.thread
  joined_exclusive entry v w m n held also same =
      kept.exclusive v w (held_before entry v m held) (held_before entry w n also) held also same

  -- A block that uses an entry of the registry.
  found-IsKept :
      (entry : ℕ) → get key s.registry ≡ some entry → IsKept (counted_in thread key (entry, s))
  unfolding counted_in assign uses
  found-IsKept entry found = record {
    known = λ v h. elim h [
      | inl e ↦ subst (λ x. get x.key s.registry ≡ some x.entry) (sym e) found
      | inr m ↦ kept.known v m
    ];
    made = kept.made;
    apart = kept.apart;
    counted = λ e. ground (arith, kept.counted e, kept.counted entry);
    used = λ k e h. ground (arith, kept.used k e h);
    exclusive = λ v w m n. joined_exclusive entry v w m n;
  }

  too_new : (e : ℕ) → e ≡ s.next_entry → e < s.next_entry → ⊥
  too_new e same below = omega (arith, same, below)

  known_before :
      (k : String) (e : ℕ)
      → get key s.registry ≡ none
      → get k s.registry ≡ some e
      → get k (put key s.next_entry s.registry) ≡ some e
  known_before k e absent h = elim (Bool-cases (str_eq key k)) [
    | inr other ↦ rw (get-put key k s.next_entry s.registry, other) h
    | inl same ↦
        let same_key : key ≡ k = ground (arith, eq_iff key k, same) in
        let bad : none ≡ some e = sym absent ∙ (ap (λ x. get x s.registry) same_key ∙ h) in cc bad
  ]

  unused : uses s.next_entry s.users ≡ 0
  unused = uses_none s.next_entry s.users (λ u m. kept.made u.key u.entry (kept.known u m))

  -- A block that makes the entry.
  made-IsKept : get key s.registry ≡ none → IsKept (counted_in thread key (set_default key s none))
  unfolding counted_in set_default assign uses
  made-IsKept absent = record {
    known = λ v h. elim h [
      | inl e ↦
          subst (λ x. get x.key (put key s.next_entry s.registry) ≡ some x.entry) (sym e)
            (get-put_self key s.next_entry s.registry)
      | inr m ↦ known_before v.key v.entry absent (kept.known v m)
    ];
    made = λ k e h. elim (put_found key k e s.next_entry s.registry h) [
      | inl same ↦ omega (arith, same.1)
      | inr before ↦ omega (arith, kept.made k e before.1)
    ];
    apart = λ j k e h g. elim (put_found key j e s.next_entry s.registry h) [
      | inl one_same ↦ elim (put_found key k e s.next_entry s.registry g) [
        | inl same ↦ sym one_same.0 ∙ same.0
        | inr before ↦ elim (too_new e one_same.1 (kept.made k e before.1)) [ ]
      ]
      | inr one_before ↦ elim (put_found key k e s.next_entry s.registry g) [
        | inl same ↦ elim (too_new e same.1 (kept.made j e one_before.1)) [ ]
        | inr before ↦ kept.apart j k e one_before.1 before.1
      ]
    ];
    counted = λ e. ground (arith, kept.counted e, unused);
    used = λ k e h. elim (put_found key k e s.next_entry s.registry h) [
      | inl same ↦ ground (arith, same.1)
      | inr before ↦ ground (arith, kept.used k e before.1)
    ];
    exclusive = λ v w m n. joined_exclusive s.next_entry v w m n;
  }

  pub enter-IsKept : IsKept (enter thread key s)
  unfolding enter set_default
  enter-IsKept = elim (Option-cases (get key s.registry)) [
    | inl absent ↦ rw absent (made-IsKept absent)
    | inr present ↦ rw present.1 (found-IsKept present.0 present.1)
  ]
