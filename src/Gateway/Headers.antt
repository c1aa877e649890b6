-- ===== src/Gateway/Headers.antt =====
-- gateway_security.py: `browser_security_headers`.
use Prim.Native.String.{◌++◌}
use faryo_codex_web_ui.Base.{◌≡◌, refl, some, List, [], ◌∷◌, String, if◌then◌else◌}
use faryo_codex_web_ui.Base.Dict.{Dict, get}
use faryo_codex_web_ui.Base.Text.{is_empty, join}

script_source : String → String
script_source nonce = "'self'" ++ (if is_empty nonce then "" else " 'nonce-" ++ (nonce ++ "'"))

content_policy : String → List String
unfolding script_source
content_policy nonce =
    "default-src 'self'"
    ∷ ("script-src " ++ script_source nonce)
    ∷ "script-src-attr 'none'"
    ∷ "style-src 'self' 'unsafe-inline'"
    ∷ "img-src 'self' data: blob:"
    ∷ "font-src 'self'"
    ∷ "connect-src 'self'"
    ∷ "worker-src 'self'"
    ∷ "manifest-src 'self'"
    ∷ "object-src 'none'"
    ∷ "base-uri 'none'"
    ∷ "frame-ancestors 'none'"
    ∷ "form-action 'self'"
    ∷ []

-- `browser_security_headers`
unfoldable pub browser_security_headers : String → Dict String
unfolding content_policy
browser_security_headers nonce =
    ("Content-Security-Policy", join "; " (content_policy nonce))
    ∷ ("X-Content-Type-Options", "nosniff")
    ∷ ("X-Frame-Options", "DENY")
    ∷ ("Referrer-Policy", "no-referrer")
    ∷ ("Permissions-Policy", "camera=(), microphone=(), geolocation=(), fullscreen=(self)")
    ∷ ("Strict-Transport-Security", "max-age=31536000")
    ∷ []

policy_text :
    get "Content-Security-Policy" (browser_security_headers "n1")
    ≡ some
        "default-src 'self'; script-src 'self' 'nonce-n1'; script-src-attr 'none'; style-src 'self' 'unsafe-inline'; img-src 'self' data: blob:; font-src 'self'; connect-src 'self'; worker-src 'self'; manifest-src 'self'; object-src 'none'; base-uri 'none'; frame-ancestors 'none'; form-action 'self'"
unfolding browser_security_headers join is_empty get
policy_text = refl
