-- ===== src/Gateway/Cookie/Session.antt =====
-- gateway_security.py: the cookie that was issued lets its user in.
use Prim.Native.String.{◌++◌}
use Prim.Native.String.append
use faryo_codex_web_ui.Base.{
  ℕ, ◌+◌, ◌<◌, ◌≡◌, refl, ◌⊎◌, inl, inr, true, false, some, List, [], ◌∷◌, String, str_eq, eq_refl,
  arith, any,
}
use faryo_codex_web_ui.Base.Text.{has_char, all_chars, is_digit, decimal, pos}
use faryo_codex_web_ui.Base.Text.Rsplit.{rsplit-dot}
use faryo_codex_web_ui.Base.Text.Decimal.{decimal-digits, int-decimal}
use faryo_codex_web_ui.Gateway.Cookie.{
  prepend, split, Codec, payload_of, cookie_value, claim_of, is_epoch, epoch_fits, is_fresh,
  checked_claim, claimed, checked_parts, user_of_value,
}

split-none : (s : String) → has_char b'|' s ≡ false → split b'|' s ≡ s ∷ []
unfolding split has_char prepend
split-none String.[] h = refl
split-none (String.◌∷◌ c s) h = ground (arith, split-none s)

split-bar :
    (a s : String) → has_char b'|' a ≡ false → split b'|' (a ++ ("|" ++ s)) ≡ a ∷ split b'|' s
unfolding split has_char prepend
split-bar String.[] s h = rw (append.nil, append.cons, append.nil) refl
split-bar (String.◌∷◌ c a) s h = rw (append.cons, split) (ground (arith, split-bar a s))

digits-no_bar : (s : String) → all_chars is_digit s ≡ true → has_char b'|' s ≡ false
unfolding has_char all_chars
digits-no_bar String.[] h = refl
digits-no_bar (String.◌∷◌ c s) h = ground (arith, digits-no_bar s)

split-payload :
    (user : String) (now epoch : ℕ) (nonce : String)
    → has_char b'|' user ≡ false
    → has_char b'|' nonce ≡ false
    → split b'|' (payload_of user now epoch nonce) ≡ user ∷ decimal now ∷ decimal epoch ∷ nonce ∷ []
split-payload user now epoch nonce hu hn =
    rw
      (
        split-bar user (decimal now ++ ("|" ++ (decimal epoch ++ ("|" ++ nonce)))) hu,
        split-bar (decimal now) (decimal epoch ++ ("|" ++ nonce))
            (digits-no_bar (decimal now) (decimal-digits now)),
        split-bar (decimal epoch) nonce (digits-no_bar (decimal epoch) (decimal-digits epoch)),
        split-none nonce hn,
      )
      refl

epoch_current :
    (current epoch : ℕ)
    → (current ≡ 0) ⊎ (current ≡ epoch)
    → epoch_fits current (some (pos epoch)) ≡ true
unfolding epoch_fits is_epoch
epoch_current current epoch (inl none_yet) = ground arith
epoch_current current epoch (inr same) = ground arith

fresh_before :
    (now issued age : ℕ) → now < issued + age → is_fresh now age (some (pos issued)) ≡ true
unfolding is_fresh
fresh_before now issued age h = ground arith

-- A cookie that was issued lets its user in: while the user exists, was not signed out by a new epoch, and the
-- cookie has not reached its age, whatever the clock says since. It needs that Base64 is read back, that a
-- signature has no dot, and that the user's name and the nonce have no bar.
pub user_of_value-cookie_value :
    (c : Codec) (issued now epoch : ℕ) (users : List String) (auth_epoch : String → ℕ)
    (user nonce : String)
    → ((payload : String) → c.decode (c.encode payload) ≡ some payload)
    → ((message : String) → has_char b'.' (c.hmac c.secret message) ≡ false)
    → has_char b'|' user ≡ false
    → has_char b'|' nonce ≡ false
    → any (λ other. str_eq other user) users ≡ true
    → (auth_epoch user ≡ 0) ⊎ (auth_epoch user ≡ epoch)
    → now < issued + c.max_age
    → user_of_value c now users auth_epoch (cookie_value c (payload_of user issued epoch nonce))
      ≡ some user
unfolding user_of_value checked_parts claimed claim_of checked_claim
user_of_value-cookie_value c issued now epoch users auth_epoch user nonce reads plain hu hn known
      current fresh =
    let payload = payload_of user issued epoch nonce in
    let payload_b64 = c.encode payload in
    let signature = c.hmac c.secret payload_b64 in
    let epoch_ok : epoch_fits (auth_epoch user) (some (pos epoch)) ≡ true =
      epoch_current (auth_epoch user) epoch current in
    let time_ok : is_fresh now c.max_age (some (pos issued)) ≡ true =
      fresh_before now issued c.max_age fresh in
    rw
      (
        rsplit-dot payload_b64 signature (plain payload_b64),
        eq_refl signature,
        reads payload,
        split-payload user issued epoch nonce hu hn,
        int-decimal epoch,
        int-decimal issued,
        known,
        epoch_ok,
        time_ok,
      )
      refl
