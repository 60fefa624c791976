-- ===== src/Auth/Tokens.antt =====
-- What the tokens of auth.py are good for.
use capturemate_ai.Prelude.{
  ℕ, ◌≡◌, refl, sym, ap, ◌∙◌, true, false, Option, none, some, Str, Bool-cases, inl, inr, ◌==◌,
  str_eq, str_eqb_iff, if◌then◌else◌,
}
use capturemate_ai.Prelude.Int.{ℤ, leb_ℤ}
use capturemate_ai.Text.{codes, nonempty}
use capturemate_ai.Json.{Value, Fields, Error, null, bool, int, float, str, list, dict, get}
use capturemate_ai.Json.Keys.{get-put}
use capturemate_ai.Models.{Settings}
use capturemate_ai.Auth.{
  Http, success, http_error, exception, made_token, ◌>>=◌, AuthenticatedUser, Jwt, Moment,
  access_token_type, refresh_token_type, subject_of, claims_or, is_text, access_secret,
  refresh_secret, payload_of, encode_token, decode_token, decode_access_token, decode_refresh_token,
  claims_of, issue_token_pair,
}

-- What PyJWT documents: a token of a payload with a subject and an identifier that are texts, and
-- without `nbf`, gives its payload back, to its secret, its issuer and its audience, if that is not
-- empty, from `iat` until before `exp`; no token gives another payload than its own; and whether a
-- token can be made is a matter of the secret alone.
pub record IsJwt {Token : Type 0} (jwt : Jwt Token) : Type 0 where
  pub decoded :
      (fs : Fields) (secret issuer audience : Str) (issued expires now : ℤ) (token : Token)
      → jwt.encode fs secret ≡ some token
      → get (codes "iss") fs ≡ str issuer
      → get (codes "aud") fs ≡ str audience
      → get (codes "iat") fs ≡ int issued
      → get (codes "exp") fs ≡ int expires
      → (subject jti : Str) → get (codes "sub") fs ≡ str subject
      → get (codes "jti") fs ≡ str jti
      → nonempty audience ≡ true
      → get (codes "nbf") fs ≡ null
      → leb_ℤ issued now ≡ true
      → leb_ℤ expires now ≡ false
      → jwt.decode now token secret issuer audience ≡ some fs
  pub authentic :
      (fs fs' : Fields) (secret secret' issuer audience : Str) (now : ℤ) (token : Token)
      → jwt.encode fs secret ≡ some token
      → jwt.decode now token secret' issuer audience ≡ some fs'
      → fs' ≡ fs
  pub keyed :
      (fs fs' : Fields) (secret : Str) (token : Token)
      → jwt.encode fs secret ≡ some token
      → (token' : Token) × (jwt.encode fs' secret ≡ some token')

pub success_inj {ℓ} : {A : Type ℓ} {a b : A} → success a ≡ success b → a ≡ b
success_inj {A = A} {a = a} h = ap value_or h
  where
    value_or : Http A → A
    value_or (success x) = x
    value_or (http_error n d) = a
    value_or (exception e) = a

pub error-success {ℓ} : {A : Type ℓ} {n : ℕ} {d : Str} {a : A} → ¬ http_error n d ≡ success a
error-success h = cc

pub exception-success {ℓ} : {A : Type ℓ} {e : Error} {a : A} → ¬ exception e ≡ success a
exception-success h = cc

pub bind-success {ℓ κ} :
    {A : Type ℓ} {B : Type κ} (r : Http A) (f : A → Http B) {b : B}
    → (r >>= f) ≡ success b
    → (a : A) × (r ≡ success a) × (f a ≡ success b)
bind-success (http_error n d) f h = absurd (error-success h)
bind-success (exception e) f h = absurd (exception-success h)
bind-success (success a) f h = (a, refl, h)

pub made_token-some :
    {Token : Type 0} (o : Option Token) {token : Token}
    → made_token o ≡ success token
    → o ≡ some token
made_token-some none h = absurd (exception-success h)
made_token-some (some t) h = ap some (success_inj h)

claims_or-some :
    (d : Str) (o : Option Fields) {fs : Fields} → claims_or d o ≡ success fs → o ≡ some fs
claims_or-some d none h = absurd (error-success h)
claims_or-some d (some fs) h = ap some (success_inj h)

is_text-same : (s : Str) (v : Value) → is_text s v ≡ true → v ≡ str s
is_text-same s (str t) h = ap str ((str_eqb_iff t s).0 h)
is_text-same s null h = cc
is_text-same s (bool b) h = cc
is_text-same s (int n) h = cc
is_text-same s (float x) h = cc
is_text-same s (list vs) h = cc
is_text-same s (dict fs) h = cc

module _ {Token : Type 0} (cfg : Settings) (jwt : Jwt Token) (sound : IsJwt jwt) where
  pub type_of_payload :
      (claims : Fields) (ty : Str) (ttl : ℤ) (m : Moment)
      → get (codes "type") (payload_of cfg jwt claims ty ttl m) ≡ str ty
  unfolding payload_of
  type_of_payload claims ty ttl m = simp get-put

  -- A token that is accepted for a type carries it.
  decode_token-type :
      (now : ℤ) (payload fs : Fields) (secret secret' ty : Str) (token : Token)
      → jwt.encode payload secret ≡ some token
      → decode_token cfg jwt now token ty secret' ≡ success fs
      → get (codes "type") payload ≡ str ty
  unfolding decode_token
  decode_token-type now payload fs secret secret' ty token t h =
      let (claims, e, h') =
        bind-success
          (claims_or (codes "invalid bearer token")
            (jwt.decode now token secret' cfg.jwt_issuer cfg.jwt_audience))
          _ h in
      let own : claims ≡ payload =
        sound.authentic payload claims secret secret' _ _ now token t (claims_or-some _ _ e) in
      elim (Bool-cases (is_text ty (get (codes "type") claims))) [
        | inl right ↦ rw (← own) (is_text-same ty _ right)
        | inr wrong ↦ absurd (error-success (rw wrong at h'))
      ]

  pub encoded :
      (claims : Fields) (ty : Str) (ttl : ℤ) (m : Moment) {token : Token}
      → encode_token cfg jwt claims ty ttl m ≡ success token
      → (secret : Str) × (jwt.encode (payload_of cfg jwt claims ty ttl m) secret ≡ some token)
  unfolding encode_token
  encoded claims ty ttl m h =
      let (secret, e, h') =
        bind-success
          (if ty == access_token_type then access_secret cfg jwt else refresh_secret cfg jwt) _ h in
      (secret, made_token-some _ h')

  issued-type :
      (claims fs : Fields) (ty ty' : Str) (ttl now : ℤ) (m : Moment) (token : Token) (secret' : Str)
      → encode_token cfg jwt claims ty ttl m ≡ success token
      → decode_token cfg jwt now token ty' secret' ≡ success fs
      → str ty ≡ str ty'
  issued-type claims fs ty ty' ttl now m token secret' h k =
      let (secret, e) = encoded claims ty ttl m h in
      let payload = payload_of cfg jwt claims ty ttl m in
      sym (type_of_payload claims ty ttl m)
      ∙ decode_token-type now payload fs secret secret' ty' token e k

  -- An access token is never a refresh token.
  access_only :
      (claims : Fields) (ttl now : ℤ) (m : Moment) (token : Token) (user : AuthenticatedUser)
      → encode_token cfg jwt claims access_token_type ttl m ≡ success token
      → ¬ decode_refresh_token cfg jwt now token ≡ success user
  unfolding decode_refresh_token
  access_only claims ttl now m token user h k =
      let (secret', es, k') = bind-success (refresh_secret cfg jwt) _ k in
      let (fs, ef, k'') =
        bind-success (decode_token cfg jwt now token refresh_token_type secret') _ k' in
      let same =
        issued-type claims fs access_token_type refresh_token_type ttl now m token secret' h ef in
      let clash : true ≡ false = ap (is_text access_token_type) same in cc

  refresh_only :
      (claims : Fields) (ttl now : ℤ) (m : Moment) (token : Token) (user : AuthenticatedUser)
      → encode_token cfg jwt claims refresh_token_type ttl m ≡ success token
      → ¬ decode_access_token cfg jwt now token ≡ success user
  unfolding decode_access_token
  refresh_only claims ttl now m token user h k =
      let (secret', es, k') = bind-success (access_secret cfg jwt) _ k in
      let (fs, ef, k'') =
        bind-success (decode_token cfg jwt now token access_token_type secret') _ k' in
      let same =
        issued-type claims fs refresh_token_type access_token_type ttl now m token secret' h ef in
      let clash : true ≡ false = ap (is_text refresh_token_type) same in cc

  -- Of a pair of tokens that is issued, the access token is never accepted where a refresh token
  -- is asked for, nor the refresh token where an access token is, at any time and even where the
  -- two secrets are the same. This supposes the documented behaviour of the token library.
  pub issue_token_pair-separate :
      (google_claims : Fields) (m₁ m₂ : Moment) (access refresh : Token) (now : ℤ)
      (user : AuthenticatedUser)
      → issue_token_pair cfg jwt google_claims m₁ m₂ ≡ success (access, refresh)
      → (¬ decode_refresh_token cfg jwt now access ≡ success user)
        × (¬ decode_access_token cfg jwt now refresh ≡ success user)
  unfolding issue_token_pair
  issue_token_pair-separate google_claims m₁ m₂ access refresh now user h =
      let (subject, es, h₁) =
        bind-success (subject_of (codes "invalid Google ID token") google_claims) _ h in
      let base =
        claims_of cfg jwt subject (get (codes "email") google_claims)
          (get (codes "name") google_claims) (get (codes "picture") google_claims) in
      let (a, ea, h₂) =
        bind-success (encode_token cfg jwt base access_token_type cfg.jwt_access_ttl_seconds m₁) _
          h₁ in
      let (r, er, h₃) =
        bind-success (encode_token cfg jwt base refresh_token_type cfg.jwt_refresh_ttl_seconds m₂) _
          h₂ in
      let pair = success_inj h₃ in
      let same_a : a ≡ access = ap (λ (p : Token × Token). p.0) pair in
      let same_r : r ≡ refresh = ap (λ (p : Token × Token). p.1) pair in
      (
        access_only base cfg.jwt_access_ttl_seconds now m₁ access user (ea ∙ ap success same_a),
        refresh_only base cfg.jwt_refresh_ttl_seconds now m₂ refresh user (er ∙ ap success same_r),
      )
