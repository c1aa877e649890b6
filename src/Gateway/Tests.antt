-- ===== src/Gateway/Tests.antt =====
-- gateway_security.py: runs of the limiter and of the cookie, and their theorems at small inputs.
use faryo_codex_web_ui.Base.{
  ◌≡◌, refl, inr, true, false, none, some, List, [], ◌∷◌, String, str_eq, arith, keep, any,
}
use faryo_codex_web_ui.Base.Dict.{get, put}
use faryo_codex_web_ui.Base.Text.{rsplit, int, has_char}
use faryo_codex_web_ui.Gateway.Cookie.{Codec, split, payload_of, cookie_value, user_of_value}
use faryo_codex_web_ui.Gateway.Cookie.Session.{user_of_value-cookie_value}
use faryo_codex_web_ui.Gateway.Cookie.Admitted.{Admitted, user_of_value-Admitted}
use faryo_codex_web_ui.Gateway.Limiter.{LoginRateLimiter, limited, record_failure, fail_at}
use faryo_codex_web_ui.Gateway.Limiter.Blocks.{fail_at-limited}

abbrev limiter : LoginRateLimiter
limiter = record { window_seconds = 10; block_seconds = 60; max_failures = 3; state = [] }

fail_at-limited_example :
    limited (fail_at limiter "10.0.0.1" (5 ∷ 9 ∷ 12 ∷ [])) 71 "10.0.0.1" ≡ true
fail_at-limited_example =
    fail_at-limited limiter "10.0.0.1" (5 ∷ 9 ∷ []) 12 71
      ((omega arith, omega arith), ((omega arith, omega arith), tt)) (omega arith) (omega arith)

slow_failures : limited (fail_at limiter "10.0.0.1" (5 ∷ 20 ∷ 40 ∷ [])) 41 "10.0.0.1" ≡ false
unfolding limited fail_at record_failure get put keep
slow_failures = refl

-- A codec whose encoding is the text itself and whose signature is its secret.
abbrev codec : Codec
codec = record {
  hmac = λ secret message. secret;
  encode = λ payload. payload;
  decode = λ payload_b64. some payload_b64;
  read_cookie = λ raw name. some raw;
  secret = "k1";
  name = "faryo";
  max_age = 100;
  same_site = "Lax";
}

abbrev users : List String
users = "bob" ∷ "amy" ∷ []

abbrev value : String
value = cookie_value codec (payload_of "amy" 50 3 "n-1")

no_dot : has_char b'.' "k1" ≡ false
unfolding has_char
no_dot = refl

no_bars : (has_char b'|' "amy" ≡ false) × (has_char b'|' "n-1" ≡ false)
unfolding has_char
no_bars = (refl, refl)

amy_known : any (λ other. str_eq other "amy") users ≡ true
unfolding any
amy_known = refl

user_of_value-cookie_value_example : user_of_value codec 149 users (λ user. 3) value ≡ some "amy"
user_of_value-cookie_value_example =
    user_of_value-cookie_value codec 50 149 3 users (λ user. 3) "amy" "n-1" (λ payload. refl)
      (λ message. no_dot) no_bars.0 no_bars.1 amy_known (inr refl) (omega arith)

amy_let_in : user_of_value codec 149 users (λ user. 3) "amy|50|3|n-1.k1" ≡ some "amy"
unfolding user_of_value rsplit split any int
amy_let_in = refl

user_of_value-Admitted_example : Admitted codec 149 users (λ user. 3) "amy|50|3|n-1.k1" "amy"
user_of_value-Admitted_example =
    user_of_value-Admitted codec 149 users (λ user. 3) "amy|50|3|n-1.k1" "amy" amy_let_in

refused :
    (user_of_value codec 150 users (λ user. 3) "amy|50|3|n-1.k1" ≡ none)
    × (user_of_value codec 149 users (λ user. 4) "amy|50|3|n-1.k1" ≡ none)
    × (user_of_value codec 149 users (λ user. 3) "amy|50|3|n-1.k2" ≡ none)
    × (user_of_value codec 149 users (λ user. 0) "amy|50|n-1.k1" ≡ some "amy")
unfolding user_of_value rsplit split any int
refused = (refl, refl, refl, refl)
