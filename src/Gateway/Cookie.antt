-- ===== src/Gateway/Cookie.antt =====
-- gateway_security.py: `SessionCookieCodec`, and the functions before it. HMAC, URL-safe Base64 with UTF-8, the
-- reading of a cookie header and of an IP address are parameters; times are whole seconds.
pub mod Admitted
pub mod Session
use Prim.Native.Char.{Char, code}
use Prim.Native.String.{◌++◌}
use faryo_codex_web_ui.Base.{
  ℕ, suc, ◌+◌, Bool, true, false, not, ◌||◌, ◌&&◌, Option, none, some, List, [], ◌∷◌, String,
  str_eq, leb, ◌==◌, if◌then◌else◌, any, is_some, ◌≡◌, refl,
}
use faryo_codex_web_ui.Base.Text.{rsplit, strip, is_empty, decimal, int, ℤ, pos, negsuc}

-- `csrf_token`
unfoldable pub csrf_token : (String → String → String) → String → String → ℕ → String
csrf_token hmac secret username auth_epoch = hmac secret (username ++ ("|" ++ decimal auth_epoch))

starts_with_slash : String → Bool
starts_with_slash String.[] = false
starts_with_slash (String.◌∷◌ c s) = code c == b'/'

is_local : String → Bool
unfolding starts_with_slash
is_local String.[] = false
is_local (String.◌∷◌ c s) = code c == b'/' && not (starts_with_slash s)

-- `safe_target`
unfoldable pub safe_target : String → String
unfolding is_local
safe_target value = if is_local value then value else "/"

-- What `ipaddress.ip_address` makes of a text: whether it is a loopback address, and its compressed form.
pub record Address : Type 0 where
  pub is_loopback : Bool
  pub compressed : String

loopback : Option Address → Bool
loopback none = false
loopback (some a) = a.is_loopback

compressed_or : String → Option Address → String
compressed_or peer none = peer
compressed_or peer (some a) = a.compressed

-- `login_rate_key`
unfoldable pub login_rate_key : (String → Option Address) → String → String → String
unfolding loopback compressed_or
login_rate_key ip_address peer cloudflare_ip =
    if loopback (ip_address peer)
    then compressed_or peer (ip_address (strip cloudflare_ip))
    else peer

-- `value.split(sep)`, for a separator of one character
prepend : Char → List String → List String
prepend c [] = String.◌∷◌ c "" ∷ []
prepend c (part ∷ parts) = String.◌∷◌ c part ∷ parts

unfoldable pub split : ℕ → String → List String
unfolding prepend
split sep String.[] = "" ∷ []
split sep (String.◌∷◌ c s) =
    let parts = split sep s in if code c == sep then "" ∷ parts else prepend c parts

pub record Codec : Type 0 where
  pub hmac : String → String → String
  pub encode : String → String
  pub decode : String → Option String
  pub read_cookie : String → String → Option String
  pub secret : String
  pub name : String
  pub max_age : ℕ
  pub same_site : String

abbrev pub payload_of : String → ℕ → ℕ → String → String
payload_of username now auth_epoch nonce =
    username ++ ("|" ++ (decimal now ++ ("|" ++ (decimal auth_epoch ++ ("|" ++ nonce)))))

-- The value of the cookie that `issue` sets.
abbrev pub cookie_value : Codec → String → String
cookie_value c payload =
    let payload_b64 = c.encode payload in payload_b64 ++ ("." ++ c.hmac c.secret payload_b64)

-- `issue`
unfoldable pub issue : Codec → ℕ → String → String → ℕ → String
issue c now nonce username auth_epoch =
    c.name
    ++ ("="
        ++ (cookie_value c (payload_of username now auth_epoch nonce)
            ++ ("; Path=/; Max-Age="
                ++ (decimal c.max_age ++ ("; HttpOnly; Secure; SameSite=" ++ c.same_site)))))

-- `expire`
unfoldable pub expire : Codec → Option String → String
expire c name =
    let shown : String = elim name [ none ↦ c.name | some n ↦ if is_empty n then c.name else n ] in
    shown ++ ("=; Path=/; Max-Age=0; HttpOnly; Secure; SameSite=" ++ c.same_site)

-- The user, the time of issue and the epoch that a payload states; what raises in Python is `none`.
pub record Claim : Type 0 where
  pub user : String
  pub issued_at : String
  pub epoch : Option ℤ

claim_of : List String → Option Claim
claim_of (user ∷ issued_at ∷ nonce ∷ []) =
    some (record { user = user; issued_at = issued_at; epoch = some (pos 0) })
claim_of (user ∷ issued_at ∷ epoch ∷ nonce ∷ []) =
    some (record { user = user; issued_at = issued_at; epoch = int epoch })
claim_of _ = none

is_epoch : ℕ → ℤ → Bool
is_epoch current (pos n) = n == current
is_epoch current (negsuc n) = false

-- `current_epoch and cookie_epoch != current_epoch`
pub epoch_fits : ℕ → Option ℤ → Bool
unfolding is_epoch
epoch_fits current none = false
epoch_fits current (some epoch) = current == 0 || is_epoch current epoch

-- `now - int(issued_at) >= max_age`
pub is_fresh : ℕ → ℕ → Option ℤ → Bool
is_fresh now max_age none = false
is_fresh now max_age (some (pos n)) = not (leb (n + max_age) now)
is_fresh now max_age (some (negsuc n)) = not (leb max_age (now + suc n))

checked_claim : Codec → ℕ → List String → (String → ℕ) → Option Claim → Option String
unfolding epoch_fits is_fresh
checked_claim c now users auth_epoch none = none
checked_claim c now users auth_epoch (some claim) =
    if any (λ user. str_eq user claim.user) users
      && epoch_fits (auth_epoch claim.user) claim.epoch
      && is_fresh now c.max_age (int claim.issued_at)
    then some claim.user
    else none

pub claimed : Option String → Option Claim
unfolding claim_of
claimed none = none
claimed (some payload) = claim_of (split b'|' payload)

checked_parts : Codec → ℕ → List String → (String → ℕ) → Option (String × String) → Option String
unfolding checked_claim claimed
checked_parts c now users auth_epoch none = none
checked_parts c now users auth_epoch (some (payload_b64, signature)) =
    if str_eq signature (c.hmac c.secret payload_b64)
    then checked_claim c now users auth_epoch (claimed (c.decode payload_b64))
    else none

-- `username`, on the value of the cookie.
unfoldable pub user_of_value : Codec → ℕ → List String → (String → ℕ) → String → Option String
unfolding checked_parts
user_of_value c now users auth_epoch value =
    checked_parts c now users auth_epoch (rsplit b'.' value)

user_of_morsel : Codec → ℕ → List String → (String → ℕ) → Option String → Option String
user_of_morsel c now users auth_epoch none = none
user_of_morsel c now users auth_epoch (some value) = user_of_value c now users auth_epoch value

-- `username`
unfoldable pub username : Codec → ℕ → List String → (String → ℕ) → String → Option String
unfolding user_of_morsel
username c now users auth_epoch raw_cookie =
    let user = user_of_morsel c now users auth_epoch (c.read_cookie raw_cookie c.name) in
    if is_empty raw_cookie then none else user

target_tests :
    (safe_target "/work" ≡ "/work")
    × (safe_target "//evil" ≡ "/")
    × (safe_target "https://evil" ≡ "/")
    × (split b'|' "a||b" ≡ "a" ∷ "" ∷ "b" ∷ [])
unfolding safe_target split
target_tests = (refl, refl, refl, refl)
