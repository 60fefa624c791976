-- ===== src/Auth.antt =====
-- app/auth.py: the tokens of the API, and the user that a token names.
pub mod Tokens
pub mod Claims
pub mod Accepted
pub mod Renewed
use capturemate_ai.Prelude.{
  ℕ, Bool, true, false, Option, none, some, List, [], ◌∷◌, Str, if◌then◌else◌, ◌==◌, str_eq,
}
use capturemate_ai.Prelude.Int.{ℤ, ◌+ℤ◌}
use capturemate_ai.Text.{Unicode, codes}
use capturemate_ai.Json.{
  Value, Fields, Error, other_error, null, int, str, end, field, get, put, opt_str,
}
use capturemate_ai.Models.{Settings}

-- A result, the HTTPException that is raised, or another exception.
pub data Http {ℓ} (A : Type ℓ) : Type ℓ where
  success : A → Http A
  http_error : (status_code : ℕ) → (detail : Str) → Http A
  exception : Error → Http A

infixl 5 ◌>>=◌
abbrev pub ◌>>=◌ {ℓ κ} : {A : Type ℓ} {B : Type κ} → Http A → (A → Http B) → Http B
success a >>= f = f a
http_error n d >>= f = http_error n d
exception e >>= f = exception e

pub record AuthenticatedUser : Type 0 where
  pub subject : Str
  pub email : Option Str
  pub name : Option Str
  pub picture : Option Str

-- PyJWT with HS256: `decode` takes the time, the token, the secret, the issuer and the audience;
-- `none` is PyJWTError, of `encode` where the secret is no key for HS256. The code never looks into a token, so its type is a parameter.
pub record Jwt (Token : Type 0) : Type 0 where
  pub encode : Fields → Str → Option Token
  pub decode : ℤ → Token → Str → Str → Str → Option Fields

-- What the clock and uuid4 give to one call of `_encode_token`.
pub record Moment : Type 0 where
  pub now : ℤ
  pub jti : Str

abbrev pub access_token_type : Str
access_token_type = codes "access"

abbrev pub refresh_token_type : Str
refresh_token_type = codes "refresh"

-- The text, where it is one and not empty; `_optional_string` gives None otherwise.
unfoldable pub optional_string : Value → Option Str
optional_string (str (c ∷ s)) = some (c ∷ s)
optional_string _ = none

abbrev found_subject : Str → Option Str → Http Str
found_subject detail none = http_error 401 detail
found_subject detail (some subject) = success subject

-- A claim `sub` that is no text, or empty, is refused.
unfoldable pub subject_of : Str → Fields → Http Str
unfolding optional_string get
subject_of detail claims = found_subject detail (optional_string (get (codes "sub") claims))

abbrev configured : Str → Option Str → Http Str
configured detail none = http_error 500 detail
configured detail (some []) = http_error 500 detail
configured detail (some (c ∷ s)) = success (c ∷ s)

abbrev claims_or : Str → Option Fields → Http Fields
claims_or detail none = http_error 401 detail
claims_or detail (some claims) = success claims

-- Nothing catches the exception of `encode`.
abbrev made_token {ℓ} : {Token : Type ℓ} → Option Token → Http Token
made_token none = exception (other_error (codes "InvalidKeyError"))
made_token (some token) = success token

abbrev is_text : Str → Value → Bool
is_text s (str t) = t == s
is_text s _ = false

abbrev of_type : Fields → Bool → Http Fields
of_type claims true = success claims
of_type claims false = http_error 401 (codes "invalid token type")

-- {key: value for key, value in claims.items() if value is not None}
unfoldable pub without_none : Fields → Fields
without_none end = end
without_none (field k null fs) = without_none fs
without_none (field k v fs) = field k v (without_none fs)

module _ {Token : Type 0} (cfg : Settings) (jwt : Jwt Token) where
  unfoldable pub access_secret : Http Str
  access_secret = configured (codes "JWT_ACCESS_SECRET is not configured") cfg.jwt_access_secret

  unfoldable pub refresh_secret : Http Str
  refresh_secret = configured (codes "JWT_REFRESH_SECRET is not configured") cfg.jwt_refresh_secret

  -- `verify_google_id_token`; the library's check is a parameter, `none` is ValueError.
  unfoldable pub verify_google_id_token : (Str → Str → Option Fields) → Str → Http Fields
  unfolding subject_of
  verify_google_id_token verify_oauth2_token token = do
    audience ← configured (codes "GOOGLE_WEB_CLIENT_ID is not configured") cfg.google_web_client_id
    claims ← claims_or (codes "invalid Google ID token") (verify_oauth2_token token audience)
    subject ← subject_of (codes "invalid Google ID token") claims
    success claims

  -- The payload of `_encode_token`.
  unfoldable pub payload_of : Fields → Str → ℤ → Moment → Fields
  unfolding without_none put
  payload_of claims token_type ttl_seconds m = put (codes "type") (str token_type) (
      put (codes "jti") (str m.jti) (
        put (codes "exp") (int (m.now +ℤ ttl_seconds)) (
          put (codes "iat") (int m.now) (
            put (codes "aud") (str cfg.jwt_audience)
              (put (codes "iss") (str cfg.jwt_issuer) (without_none claims))))))

  -- `_encode_token`
  unfoldable pub encode_token : Fields → Str → ℤ → Moment → Http Token
  unfolding payload_of access_secret refresh_secret
  encode_token claims token_type ttl_seconds m = do
    secret ← if token_type == access_token_type then access_secret else refresh_secret
    made_token (jwt.encode (payload_of claims token_type ttl_seconds m) secret)

  -- `_decode_token`, at the time `now`.
  unfoldable pub decode_token : ℤ → Token → Str → Str → Http Fields
  unfolding get
  decode_token now token expected_type secret = do
    claims ←
        claims_or (codes "invalid bearer token")
          (jwt.decode now token secret cfg.jwt_issuer cfg.jwt_audience)
    of_type claims (is_text expected_type (get (codes "type") claims))

  -- `_user_from_claims`
  unfoldable pub user_from_claims : Fields → Http AuthenticatedUser
  unfolding subject_of optional_string get
  user_from_claims claims = do
    subject ← subject_of (codes "invalid bearer token") claims
    success (record {
      subject = subject;
      email = optional_string (get (codes "email") claims);
      name = optional_string (get (codes "name") claims);
      picture = optional_string (get (codes "picture") claims);
    })

  unfoldable pub decode_access_token : ℤ → Token → Http AuthenticatedUser
  unfolding decode_token user_from_claims access_secret
  decode_access_token now token = do
    secret ← access_secret
    claims ← decode_token now token access_token_type secret
    user_from_claims claims

  unfoldable pub decode_refresh_token : ℤ → Token → Http AuthenticatedUser
  unfolding decode_token user_from_claims refresh_secret
  decode_refresh_token now token = do
    secret ← refresh_secret
    claims ← decode_token now token refresh_token_type secret
    user_from_claims claims

  abbrev claims_of : Str → Value → Value → Value → Fields
  claims_of subject email name picture = field (codes "sub") (str subject) (
      field (codes "email") email (field (codes "name") name (field (codes "picture") picture end)))

  -- `issue_token_pair`: the access token and the refresh token.
  unfoldable pub issue_token_pair : Fields → Moment → Moment → Http (Token × Token)
  unfolding subject_of get encode_token
  issue_token_pair google_claims m₁ m₂ = do
    subject ← subject_of (codes "invalid Google ID token") google_claims
    let base_claims =
        claims_of subject (get (codes "email") google_claims) (get (codes "name") google_claims)
          (get (codes "picture") google_claims)
    access ← encode_token base_claims access_token_type cfg.jwt_access_ttl_seconds m₁
    refresh ← encode_token base_claims refresh_token_type cfg.jwt_refresh_ttl_seconds m₂
    success (access, refresh)

  -- `issue_access_token_from_refresh`
  unfoldable pub issue_access_token_from_refresh : ℤ → Token → Moment → Http Token
  unfolding decode_refresh_token encode_token opt_str
  issue_access_token_from_refresh now refresh_token m = do
    user ← decode_refresh_token now refresh_token
    encode_token
        (claims_of user.subject (opt_str user.email) (opt_str user.name) (opt_str user.picture))
        access_token_type cfg.jwt_access_ttl_seconds m

  -- `get_current_user`, of the scheme and the credentials.
  unfoldable pub get_current_user : Unicode → ℤ → Option (Str × Token) → Http AuthenticatedUser
  unfolding decode_access_token
  get_current_user unicode now none = http_error 401 (codes "missing bearer token")
  get_current_user unicode now (some (scheme, token)) =
      let user = decode_access_token now token in
      if unicode.lower scheme == codes "bearer"
      then user
      else http_error 401 (codes "missing bearer token")
