-- ===== src/Delivery/Locks/Kept.antt =====
-- The registry of locks has an entry for each key that is in use, and for no other.
use faryo_codex_web_ui.Base.{
  inl, inr, ℕ, ◌+◌, ◌≤◌, ◌<◌, ◌≡◌, refl, sym, subst, ap, Bool, true, some, List, [], ◌∷◌, String,
  ◌==◌, if◌then◌else◌, arith,
}
use faryo_codex_web_ui.Base.Dict.{get}
use faryo_codex_web_ui.Delivery.Locks.{User, Locks, Takes, here, there, Among, idle}

-- How many blocks use an entry.
unfoldable pub uses : ℕ → List User → ℕ
uses entry [] = 0
uses entry (u ∷ us) = if u.entry == entry then uses entry us + 1 else uses entry us

pub record IsKept (s : Locks) : Type 0 where
  pub known : (u : User) → Among u s.users → get u.key s.registry ≡ some u.entry
  pub made : (key : String) (entry : ℕ) → get key s.registry ≡ some entry → entry < s.next_entry
  pub apart :
      (j k : String) (entry : ℕ)
      → get j s.registry ≡ some entry
      → get k s.registry ≡ some entry
      → j ≡ k
  pub counted : (entry : ℕ) → s.references entry ≡ uses entry s.users
  pub used : (key : String) (entry : ℕ) → get key s.registry ≡ some entry → 1 ≤ uses entry s.users
  pub exclusive :
      (u v : User)
      → Among u s.users
      → Among v s.users
      → u.holding ≡ true
      → v.holding ≡ true
      → u.entry ≡ v.entry
      → u.thread ≡ v.thread

pub idle-IsKept : IsKept idle
unfolding get uses
idle-IsKept = record {
  known = λ u h. elim h [ ];
  made = λ key entry h. cc h;
  apart = λ j k entry h other. cc h;
  counted = λ entry. refl;
  used = λ key entry h. cc h;
  exclusive = λ u v h. elim h [ ];
}

pub Takes-Among : (u : User) (us rest : List User) → Takes u us rest → Among u us
Takes-Among u _ _ (here us) = inl refl
Takes-Among u _ _ (there v {us} {rest} t) = inr (Takes-Among u us rest t)

pub rest-Among : (u v : User) (us rest : List User) → Takes u us rest → Among v rest → Among v us
rest-Among u v _ _ (here us) h = inr h
rest-Among u v _ _ (there w {us} {rest} t) h = elim h [
  | inl e ↦ inl e
  | inr m ↦ inr (rest-Among u v us rest t m)
]

unfoldable pub one : ℕ → ℕ → ℕ
one a b = if a == b then 1 else 0

pub uses-Takes :
    (entry : ℕ) (u : User) (us rest : List User)
    → Takes u us rest
    → uses entry us ≡ uses entry rest + one u.entry entry
unfolding uses one
uses-Takes entry u _ _ (here us) = ground arith
uses-Takes entry u _ _ (there v {us} {rest} t) = ground (arith, uses-Takes entry u us rest t)

Among-uses : (u : User) (us : List User) → Among u us → 1 ≤ uses u.entry us
unfolding uses
Among-uses u [] h = elim h [ ]
Among-uses u (v ∷ us) h = elim h [
  | inl same ↦ ground (arith, ap (λ x. x.entry) same)
  | inr m ↦ ground (arith, Among-uses u us m)
]

pub uses-positive :
    (u v : User) (us : List User) → Among v us → v.entry ≡ u.entry → 1 ≤ uses u.entry us
uses-positive u v us h same = rw same at (Among-uses v us h)

-- A block takes the lock of its entry, or gives it back.
module _ (s : Locks) (kept : IsKept s) (u : User) (rest : List User) (taken : Takes u s.users rest)
    (b : Bool) where
  switched-uses : (entry : ℕ) → uses entry (record u { holding = b } ∷ rest) ≡ uses entry s.users
  unfolding uses one
  switched-uses entry = ground (arith, uses-Takes entry u s.users rest taken)

  switched-Among :
      (P : User → Type 0) (v : User)
      → P (record u { holding = b })
      → ((w : User) → Among w rest → P w)
      → Among v (record u { holding = b } ∷ rest)
      → P v
  switched-Among P v first others h = elim h [ inl e ↦ subst P (sym e) first | inr m ↦ others v m ]

  pub switched-IsKept :
      ((v : User)
        → Among v rest
        → b ≡ true
        → v.holding ≡ true
        → v.entry ≡ u.entry
        → v.thread ≡ u.thread)
      → IsKept (record s { users = record u { holding = b } ∷ rest })
  switched-IsKept alone = record {
    known = λ v h.
        switched-Among (λ x. get x.key s.registry ≡ some x.entry) v
          (kept.known u (Takes-Among u s.users rest taken))
          (λ w m. kept.known w (rest-Among u w s.users rest taken m)) h;
    made = kept.made;
    apart = kept.apart;
    counted = λ entry. omega (arith, kept.counted entry, switched-uses entry);
    used = λ key entry h. omega (arith, kept.used key entry h, switched-uses entry);
    exclusive = λ v w.
        switched-Among
          (λ x.
            Among w (record u { holding = b } ∷ rest)
            → x.holding ≡ true
            → w.holding ≡ true
            → x.entry ≡ w.entry
            → x.thread ≡ w.thread)
          v
          (switched-Among
            (λ y. b ≡ true → y.holding ≡ true → u.entry ≡ y.entry → u.thread ≡ y.thread) w
            (λ held also same. refl) (λ y m held also same. sym (alone y m held also (sym same))))
          (λ x m.
            switched-Among
              (λ y. x.holding ≡ true → y.holding ≡ true → x.entry ≡ y.entry → x.thread ≡ y.thread) w
              (λ held also same. alone x m also held same)
              (λ y n.
                kept.exclusive x y (rest-Among u x s.users rest taken m)
                  (rest-Among u y s.users rest taken n)));
  }
