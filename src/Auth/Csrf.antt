-- ===== src/Auth/Csrf.antt =====
-- core/src/middlewares/csrf.middleware.ts. It is mounted on the application itself
-- (core/src/server.ts), so the path that it sees begins with "/api/".
use code_warzz.RateLimit.Rules.{Text, Method, get, head, options, starts_with}
use code_warzz.Prelude.{
  ℕ, Bool, true, false, Option, none, some, [], ◌∷◌, ◌==◌, if◌then◌else◌, is_some, get_or,
}

-- the field `_csrf` of the body
pub data BodyField : Type 0 where
  absent other : BodyField
  text : ℕ → BodyField

pub record CsrfRequest : Type 0 where
  pub method : Method
  pub path : Text
  pub csrf_cookie : Option ℕ
  pub internal_api_key : Option ℕ
  pub is_bearer : Bool  -- the header "Authorization" begins with "Bearer "
  pub csrf_header : Option ℕ
  pub csrf_field : BodyField

-- `next()`, "CSRF token missing" or "CSRF token mismatch"
pub data CsrfAnswer : Type 0 where
  passed missing mismatch : CsrfAnswer

-- `SAFE_METHODS.has(method)`
abbrev pub is_safe : Method → Bool
is_safe get = true
is_safe head = true
is_safe options = true
is_safe _ = false

-- "/auth/"
abbrev pub auth_prefix : Text
auth_prefix = b'/' ∷ b'a' ∷ b'u' ∷ b't' ∷ b'h' ∷ b'/' ∷ []

abbrev pub is_key : Option ℕ → Option ℕ → Bool
is_key (some key) (some configured) = key == configured
is_key _ _ = false

-- the header, or else the field of the body, if it is a text
abbrev pub sent_token : Option ℕ → BodyField → Option ℕ
sent_token (some token) field = some token
sent_token none (text token) = some token
sent_token none absent = none
sent_token none other = none

abbrev pub compare_tokens : Option ℕ → ℕ → CsrfAnswer
compare_tokens none cookie = missing
compare_tokens (some token) cookie = if token == cookie then passed else mismatch

-- `csrfProtection`, with a random token and INTERNAL_API_KEY: the cookie that is set, and the answer
unfoldable pub csrf_protection : ℕ → Option ℕ → CsrfRequest → Option ℕ × CsrfAnswer
csrf_protection random configured r =
    let issued : Option ℕ = if is_some r.csrf_cookie then none else some random in
    let cookie = get_or r.csrf_cookie random in
    let answer =
      if is_safe r.method
      then passed
      else if is_key r.internal_api_key configured
      then passed
      else if r.is_bearer
      then passed
      else if starts_with r.path auth_prefix
      then passed
      else compare_tokens (sent_token r.csrf_header r.csrf_field) cookie in
    (issued, answer)
