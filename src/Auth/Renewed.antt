-- ===== src/Auth/Renewed.antt =====
-- That an access token issued for a refresh token names the same user.
use capturemate_ai.Prelude.{◌≡◌, refl, ap, ◌∙◌, true, false, some, [], ◌∷◌, Str, str_eq}
use capturemate_ai.Prelude.Int.{ℤ, ◌+ℤ◌, leb_ℤ}
use capturemate_ai.Text.{codes, nonempty}
use capturemate_ai.Json.{Value, Fields, null, bool, int, float, str, list, dict, opt_str, get}
use capturemate_ai.Models.{Settings}
use capturemate_ai.Auth.{
  success, made_token, AuthenticatedUser, Jwt, Moment, access_token_type, optional_string,
  access_secret, encode_token, decode_token, decode_access_token, decode_refresh_token, payload_of,
  claims_of, issue_token_pair, issue_access_token_from_refresh, subject_of,
}
use capturemate_ai.Auth.Tokens.{IsJwt, bind-success, made_token-some}
use capturemate_ai.Auth.Claims.{bind-accepts, optional_string-again}
use capturemate_ai.Auth.Accepted.{
  user_of, decoded_payload, user_of_payload, Names, issue_token_pair-accepted,
}

-- A claim that was read once is read the same when it is written back.
optional_string-opt_str :
    (v : Value) → optional_string (opt_str (optional_string v)) ≡ optional_string v
unfolding optional_string opt_str
optional_string-opt_str (str (c ∷ t)) = refl
optional_string-opt_str (str []) = refl
optional_string-opt_str null = refl
optional_string-opt_str (bool b) = refl
optional_string-opt_str (int n) = refl
optional_string-opt_str (float x) = refl
optional_string-opt_str (list vs) = refl
optional_string-opt_str (dict fs) = refl

module _ {Token : Type 0} (cfg : Settings) (jwt : Jwt Token) (sound : IsJwt jwt) where
  -- A pair is issued only where there is an access secret, with which any payload is encoded.
  issued_secret :
      (google_claims : Fields) (m₁ m₂ : Moment) (pair : Token × Token)
      → issue_token_pair cfg jwt google_claims m₁ m₂ ≡ success pair
      → (key : Str) × (access_secret cfg jwt ≡ success key)
        × ((fs : Fields) → (token : Token) × (jwt.encode fs key ≡ some token))
  unfolding issue_token_pair encode_token
  issued_secret google_claims m₁ m₂ pair h =
      let (subject, es, h₁) =
        bind-success (subject_of (codes "invalid Google ID token") google_claims) _ h in
      let (a, ea, h₂) =
        bind-success
          (encode_token cfg jwt
            (claims_of cfg jwt subject (get (codes "email") google_claims)
              (get (codes "name") google_claims) (get (codes "picture") google_claims))
            access_token_type cfg.jwt_access_ttl_seconds m₁)
          _ h₁ in
      let (key, e, h₃) = bind-success (access_secret cfg jwt) _ ea in
      (key, e, λ fs. sound.keyed _ fs key a (made_token-some _ h₃))

  module _ (key subject : Str) (email name picture : Value) (m : Moment) where
    abbrev written : Fields
    written = claims_of cfg jwt subject email name picture

    abbrev new_payload : Fields
    new_payload = payload_of cfg jwt written access_token_type cfg.jwt_access_ttl_seconds m

    encoded_again :
        (new_token : Token)
        → jwt.encode new_payload key ≡ some new_token
        → access_secret cfg jwt ≡ success key
        → encode_token cfg jwt written access_token_type cfg.jwt_access_ttl_seconds m
          ≡ success new_token
    unfolding encode_token
    encoded_again new_token made e = bind-accepts (access_secret cfg jwt) _ e (ap made_token made)

    new_token-accepted :
        (new_token : Token)
        → jwt.encode new_payload key ≡ some new_token
        → access_secret cfg jwt ≡ success key
        → nonempty cfg.jwt_audience ≡ true
        → optional_string (str subject) ≡ some subject
        → (now : ℤ) → leb_ℤ m.now now ≡ true
        → leb_ℤ (m.now +ℤ cfg.jwt_access_ttl_seconds) now ≡ false
        → decode_access_token cfg jwt now new_token
          ≡ success (record {
            subject = subject;
            email = optional_string email;
            name = optional_string name;
            picture = optional_string picture;
          })
    unfolding decode_access_token
    new_token-accepted new_token made e audience h now from until =
        bind-accepts (access_secret cfg jwt) _ e (
          bind-accepts (decode_token cfg jwt now new_token access_token_type key) _
            (decoded_payload cfg jwt sound subject email name picture access_token_type
              cfg.jwt_access_ttl_seconds m now key new_token made audience from until)
            (user_of_payload cfg jwt sound subject email name picture access_token_type
              cfg.jwt_access_ttl_seconds m h))

  same_user :
      (subject : Str) (claims : Fields)
      → ◌≡◌ {A = AuthenticatedUser}
          (record {
            subject = subject;
            email = optional_string (opt_str (optional_string (get (codes "email") claims)));
            name = optional_string (opt_str (optional_string (get (codes "name") claims)));
            picture = optional_string (opt_str (optional_string (get (codes "picture") claims)));
          })
          (user_of cfg jwt sound subject claims)
  same_user subject claims = simp optional_string-opt_str

  -- If a pair of tokens is issued, then for the refresh token, while it lasts, an access token is
  -- issued, and that token, while it lasts in turn, is accepted and names the user of the claims.
  pub issue_token_pair-renewed :
      nonempty cfg.jwt_audience ≡ true
      → (google_claims : Fields) (m₁ m₂ : Moment) (access refresh : Token)
      → issue_token_pair cfg jwt google_claims m₁ m₂ ≡ success (access, refresh)
      → (subject : Str) × Names cfg jwt sound
          (decode_access_token cfg jwt)
          google_claims
          cfg.jwt_access_ttl_seconds
          m₁
          subject
          access
        × ((now : ℤ) (m : Moment)
            → leb_ℤ m₂.now now ≡ true
            → leb_ℤ (m₂.now +ℤ cfg.jwt_refresh_ttl_seconds) now ≡ false
            → (token : Token) × (issue_access_token_from_refresh cfg jwt now refresh m
                ≡ success token)
              × Names cfg jwt sound
                  (decode_access_token cfg jwt)
                  google_claims
                  cfg.jwt_access_ttl_seconds
                  m
                  subject
                  token)
  unfolding issue_access_token_from_refresh
  issue_token_pair-renewed audience google_claims m₁ m₂ access refresh h =
      let (subject, found, a, r) =
        issue_token_pair-accepted cfg jwt sound audience google_claims m₁ m₂ access refresh h in
      let (key, e, encodes) = issued_secret google_claims m₁ m₂ (access, refresh) h in
      let optional : Str → Value = λ k. opt_str (optional_string (get k google_claims)) in
      let named = optional_string-again _ subject found in
      (
        subject,
        a,
        λ now m from until.
            let (token, made) = encodes (
              new_payload key subject (optional (codes "email")) (optional (codes "name"))
                (optional (codes "picture")) m) in
            (
              token,
              bind-accepts (decode_refresh_token cfg jwt now refresh) _ (r now from until) (
                  encoded_again key subject (optional (codes "email")) (optional (codes "name"))
                    (optional (codes "picture")) m token made e),
              λ now' from' until'.
                  new_token-accepted key subject (optional (codes "email"))
                    (optional (codes "name")) (optional (codes "picture")) m token made e audience
                    named now' from' until'
                  ∙ ap success (same_user subject google_claims),
            ),
      )
