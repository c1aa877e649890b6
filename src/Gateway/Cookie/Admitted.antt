-- ===== src/Gateway/Cookie/Admitted.antt =====
-- gateway_security.py: nobody is let in but whom a signed payload names.
use faryo_codex_web_ui.Base.{
  ℕ, ◌+◌, ◌<◌, ◌≡◌, refl, subst, ap, ◌∙◌, ◌⊎◌, inl, inr, true, ◌&&◌, Option, none, some, List, [],
  ◌∷◌, String, str_eq, eq_iff, arith, Bool-cases, any, sym, Among, at_head, in_tail, suc, ◌==◌,
}
use faryo_codex_web_ui.Base.Text.{rsplit, int, ℤ, pos, negsuc}
use faryo_codex_web_ui.Gateway.Cookie.{
  split, Codec, Claim, claim_of, is_epoch, epoch_fits, is_fresh, checked_claim, claimed,
  checked_parts, user_of_value,
}

-- `now` is before the end of the age, counted from the time of issue; a time before the epoch is negative.
abbrev pub IsWithin : ℕ → ℕ → ℤ → Type 0
IsWithin now max_age (pos issued) = now < issued + max_age
IsWithin now max_age (negsuc n) = now + suc n < max_age

-- The parts of a payload: with the epoch, or in the old form without one, which counts as epoch 0.
abbrev pub States : List String → String → String → ℤ → Type 0
States (u ∷ t ∷ nonce ∷ []) user issued_at epoch = (u ≡ user) × (t ≡ issued_at) × (epoch ≡ pos 0)
States (u ∷ t ∷ e ∷ nonce ∷ []) user issued_at epoch =
    (u ≡ user) × (t ≡ issued_at) × (int e ≡ some epoch)
States _ user issued_at epoch = ⊥

-- Why a value lets a user in: it is signed; its payload names the user, a time and an epoch; the user exists, has no
-- epoch yet or this one; and the time is not too long ago.
pub record Admitted (c : Codec) (now : ℕ) (users : List String) (auth_epoch : String → ℕ)
    (value user : String) : Type 0 where
  pub payload_b64 : String
  pub parts : rsplit b'.' value ≡ some (payload_b64, c.hmac c.secret payload_b64)
  pub payload : String
  pub decoded : c.decode payload_b64 ≡ some payload
  pub issued_at : String
  pub epoch : ℤ
  pub stated : States (split b'|' payload) user issued_at epoch
  pub known : Among user users
  pub current : (auth_epoch user ≡ 0) ⊎ (epoch ≡ pos (auth_epoch user))
  pub time : ℤ
  pub timed : int issued_at ≡ some time
  pub fresh : IsWithin now c.max_age time

any-Among :
    (users : List String) (user : String)
    → any (λ other. str_eq other user) users ≡ true
    → Among user users
unfolding any
any-Among [] user h = cc h
any-Among (u ∷ users) user h = elim (Bool-cases (str_eq u user)) [
  | inl here ↦ at_head (sym ((eq_iff u user).0 here))
  | inr there ↦ in_tail (any-Among users user (rw there at h))
]

some_eq : (a b : ℤ) → some a ≡ some b → a ≡ b
some_eq a b h = cc h

abbrev claim_read : String → String → Option ℤ → Claim
claim_read user issued_at epoch = record { user = user; issued_at = issued_at; epoch = epoch }

-- What `claim_of` reads off a payload's parts, where the epoch is a number.
claim_of-States :
    (parts : List String) (claim : Claim) (epoch : ℤ)
    → claim_of parts ≡ some claim
    → claim.epoch ≡ some epoch
    → States parts claim.user claim.issued_at epoch
unfolding claim_of
claim_of-States (u ∷ t ∷ nonce ∷ []) claim epoch h e =
    let same : claim_read u t (some (pos 0)) ≡ claim = cc h in
    (
      ap (λ (x : Claim). x.user) same,
      ap (λ (x : Claim). x.issued_at) same,
      some_eq epoch (pos 0) (sym e ∙ sym (ap (λ (x : Claim). x.epoch) same)),
    )
claim_of-States (u ∷ t ∷ x ∷ nonce ∷ []) claim epoch h e =
    let same : claim_read u t (int x) ≡ claim = cc h in
    (
      ap (λ (y : Claim). y.user) same,
      ap (λ (y : Claim). y.issued_at) same,
      ap (λ (y : Claim). y.epoch) same ∙ e,
    )
claim_of-States [] claim epoch h e = cc h
claim_of-States (u ∷ []) claim epoch h e = cc h
claim_of-States (u ∷ t ∷ []) claim epoch h e = cc h
claim_of-States (u ∷ t ∷ x ∷ nonce ∷ more ∷ rest) claim epoch h e = cc h

epoch_fits-current :
    (current : ℕ) (o : Option ℤ)
    → epoch_fits current o ≡ true
    → (epoch : ℤ) × (o ≡ some epoch) × ((current ≡ 0) ⊎ (epoch ≡ pos current))
unfolding epoch_fits is_epoch
epoch_fits-current current none h = cc h
epoch_fits-current current (some (negsuc n)) h = (negsuc n, refl, inl (ground arith))
epoch_fits-current current (some (pos n)) h = elim (Bool-cases (current == 0)) [
  | inl no_epoch ↦ (pos n, refl, inl (ground arith))
  | inr some_epoch ↦ let same : n ≡ current = ground arith in (pos n, refl, inr (ap pos same))
]

is_fresh-IsWithin :
    (now max_age : ℕ) (o : Option ℤ)
    → is_fresh now max_age o ≡ true
    → (time : ℤ) × (o ≡ some time) × IsWithin now max_age time
unfolding is_fresh
is_fresh-IsWithin now max_age none h = cc h
is_fresh-IsWithin now max_age (some (pos n)) h = (pos n, refl, ground arith)
is_fresh-IsWithin now max_age (some (negsuc n)) h = (negsuc n, refl, ground arith)

claimed-claim_of :
    (o : Option String) (claim : Claim)
    → claimed o ≡ some claim
    → (payload : String) × (o ≡ some payload) × (claim_of (split b'|' payload) ≡ some claim)
unfolding claimed
claimed-claim_of none claim h = cc h
claimed-claim_of (some payload) claim h = (payload, refl, h)

-- What a claim that is let in has passed.
record Passed (c : Codec) (now : ℕ) (users : List String) (auth_epoch : String → ℕ)
    (o : Option Claim) (user : String) : Type 0 where
  pub claim : Claim
  pub stated : o ≡ some claim
  pub named : claim.user ≡ user
  pub known : any (λ other. str_eq other user) users ≡ true
  pub current : epoch_fits (auth_epoch user) claim.epoch ≡ true
  pub fresh : is_fresh now c.max_age (int claim.issued_at) ≡ true

checked_claim-Passed :
    (c : Codec) (now : ℕ) (users : List String) (auth_epoch : String → ℕ) (o : Option Claim)
    (user : String)
    → checked_claim c now users auth_epoch o ≡ some user
    → Passed c now users auth_epoch o user
unfolding checked_claim
checked_claim-Passed c now users auth_epoch none user h = cc
checked_claim-Passed c now users auth_epoch (some claim) user h =
    elim (Bool-cases (
      any (λ other. str_eq other claim.user) users
      && epoch_fits (auth_epoch claim.user) claim.epoch
      && is_fresh now c.max_age (int claim.issued_at))) [
        | inl passed ↦
            let both : some claim.user ≡ some user = rw passed at h in
            let same : claim.user ≡ user = cc both in
            subst (Passed c now users auth_epoch (some claim)) same (record {
              claim = claim;
              stated = refl;
              named = refl;
              known = ground arith;
              current = ground arith;
              fresh = ground arith;
            })
        | inr failed ↦ cc (rw failed at h)
      ]

-- A signed part whose claim has passed.
Passed-Admitted :
    (c : Codec) (now : ℕ) (users : List String) (auth_epoch : String → ℕ)
    (value user payload_b64 : String)
    → rsplit b'.' value ≡ some (payload_b64, c.hmac c.secret payload_b64)
    → Passed c now users auth_epoch (claimed (c.decode payload_b64)) user
    → Admitted c now users auth_epoch value user
Passed-Admitted c now users auth_epoch value user payload_b64 parts p =
    let (payload, decoded, read) = claimed-claim_of (c.decode payload_b64) p.claim p.stated in
    let (epoch, is_epoch, current) = epoch_fits-current (auth_epoch user) p.claim.epoch p.current in
    let (time, timed, fresh) = is_fresh-IsWithin now c.max_age (int p.claim.issued_at) p.fresh in
    record {
      payload_b64 = payload_b64;
      parts = parts;
      payload = payload;
      decoded = decoded;
      issued_at = p.claim.issued_at;
      epoch = epoch;
      stated =
          subst (λ (u : String). States (split b'|' payload) u p.claim.issued_at epoch) p.named
            (claim_of-States (split b'|' payload) p.claim epoch read is_epoch);
      known = any-Among users user p.known;
      current = current;
      time = time;
      timed = timed;
      fresh = fresh;
    }

checked_parts-Admitted :
    (c : Codec) (now : ℕ) (users : List String) (auth_epoch : String → ℕ) (value user : String)
    (o : Option (String × String))
    → rsplit b'.' value ≡ o
    → checked_parts c now users auth_epoch o ≡ some user
    → Admitted c now users auth_epoch value user
unfolding checked_parts
checked_parts-Admitted c now users auth_epoch value user none e h = cc
checked_parts-Admitted c now users auth_epoch value user (some (payload_b64, signature)) e h =
    elim (Bool-cases (str_eq signature (c.hmac c.secret payload_b64))) [
      | inl signed ↦
          Passed-Admitted c now users auth_epoch value user payload_b64
            (e
              ∙ ap (λ (s : String). some (payload_b64, s))
                  ((eq_iff signature (c.hmac c.secret payload_b64)).0 signed))
            (checked_claim-Passed c now users auth_epoch (claimed (c.decode payload_b64)) user
              (rw signed at h))
      | inr forged ↦ cc (rw forged at h)
    ]

-- Nobody else is let in: a value that gives a user is a payload with its own signature under the secret, which
-- names that user. The user exists; the epoch that the payload states, 0 in its old form, is the user's, unless the
-- user's epoch is 0, which any epoch suits; and the time that it states is less than the age ago.
pub user_of_value-Admitted :
    (c : Codec) (now : ℕ) (users : List String) (auth_epoch : String → ℕ) (value user : String)
    → user_of_value c now users auth_epoch value ≡ some user
    → Admitted c now users auth_epoch value user
unfolding user_of_value
user_of_value-Admitted c now users auth_epoch value user h =
    checked_parts-Admitted c now users auth_epoch value user (rsplit b'.' value) refl h
