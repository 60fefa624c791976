-- ===== src/Auth/Accepted.antt =====
-- That the tokens of auth.py are accepted while they last.
use capturemate_ai.Prelude.{◌≡◌, refl, ap, ◌∙◌, true, false, some, Str, str_eq, str_eqb_iff}
use capturemate_ai.Prelude.Int.{ℤ, ◌+ℤ◌, leb_ℤ}
use capturemate_ai.Text.{codes, nonempty}
use capturemate_ai.Json.{Value, Fields, null, str, end, get}
use capturemate_ai.Json.Keys.{get-put}
use capturemate_ai.Models.{Settings}
use capturemate_ai.Auth.{
  Http, success, AuthenticatedUser, Jwt, Moment, access_token_type, refresh_token_type,
  optional_string, subject_of, claims_or, is_text, without_none, access_secret, refresh_secret,
  payload_of, encode_token, decode_token, user_from_claims, decode_access_token,
  decode_refresh_token, claims_of, issue_token_pair,
}
use capturemate_ai.Auth.{found_subject, of_type}
use capturemate_ai.Auth.Tokens.{IsJwt, success_inj, made_token-some, bind-success, type_of_payload}
use capturemate_ai.Auth.Claims.{
  bind-accepts, without_none-hit, without_none-miss, nothing, optional_string-again,
  found_subject-some,
}

module _ {Token : Type 0} (cfg : Settings) (jwt : Jwt Token) (sound : IsJwt jwt) where
  -- The user that the claims of the identity provider name.
  abbrev pub user_of : Str → Fields → AuthenticatedUser
  user_of subject claims = record {
    subject = subject;
    email = optional_string (get (codes "email") claims);
    name = optional_string (get (codes "name") claims);
    picture = optional_string (get (codes "picture") claims);
  }

  module _ (subject : Str) (email name picture : Value) where
    abbrev pub base : Fields
    base = claims_of cfg jwt subject email name picture

    sub_kept : get (codes "sub") (without_none base) ≡ str subject
    unfolding without_none get
    sub_kept = refl

    email_kept : get (codes "email") (without_none base) ≡ email
    email_kept =
        without_none-miss (codes "email") (codes "sub") (str subject) _ refl
        ∙ without_none-hit (codes "email") email _ (
            without_none-miss (codes "email") (codes "name") name _ refl
            ∙ (without_none-miss (codes "email") (codes "picture") picture end refl
                ∙ nothing (codes "email")))

    name_kept : get (codes "name") (without_none base) ≡ name
    name_kept =
        without_none-miss (codes "name") (codes "sub") (str subject) _ refl
        ∙ (without_none-miss (codes "name") (codes "email") email _ refl
            ∙ without_none-hit (codes "name") name _ (
                without_none-miss (codes "name") (codes "picture") picture end refl
                ∙ nothing (codes "name")))

    picture_kept : get (codes "picture") (without_none base) ≡ picture
    picture_kept =
        without_none-miss (codes "picture") (codes "sub") (str subject) _ refl
        ∙ (without_none-miss (codes "picture") (codes "email") email _ refl
            ∙ (without_none-miss (codes "picture") (codes "name") name _ refl
                ∙ without_none-hit (codes "picture") picture end (nothing (codes "picture"))))

    nbf_missing : get (codes "nbf") (without_none base) ≡ null
    nbf_missing =
        without_none-miss (codes "nbf") (codes "sub") (str subject) _ refl
        ∙ (without_none-miss (codes "nbf") (codes "email") email _ refl
            ∙ (without_none-miss (codes "nbf") (codes "name") name _ refl
                ∙ (without_none-miss (codes "nbf") (codes "picture") picture end refl
                    ∙ nothing (codes "nbf"))))

    module _ (ty : Str) (ttl : ℤ) (m : Moment) where
      abbrev pub payload : Fields
      payload = payload_of cfg jwt base ty ttl m

      in_payload :
          (get (codes "sub") payload ≡ str subject)
          × (get (codes "email") payload ≡ email)
          × (get (codes "name") payload ≡ name)
          × (get (codes "picture") payload ≡ picture)
      unfolding payload_of
      in_payload = (
        simp (get-put, sub_kept),
        simp (get-put, email_kept),
        simp (get-put, name_kept),
        simp (get-put, picture_kept),
      )

      pub decoded_payload :
          (now : ℤ) (secret : Str) (token : Token)
          → jwt.encode payload secret ≡ some token
          → nonempty cfg.jwt_audience ≡ true
          → leb_ℤ m.now now ≡ true
          → leb_ℤ (m.now +ℤ ttl) now ≡ false
          → decode_token cfg jwt now token ty secret ≡ success payload
      unfolding decode_token payload_of
      decoded_payload now secret token t audience from until =
          let back : jwt.decode now token secret cfg.jwt_issuer cfg.jwt_audience ≡ some payload =
            sound.decoded payload secret cfg.jwt_issuer cfg.jwt_audience m.now (m.now +ℤ ttl) now
              token t (simp get-put) (simp get-put) (simp get-put) (simp get-put) subject m.jti
              (simp (get-put, sub_kept)) (simp get-put) audience (simp (get-put, nbf_missing)) from
              until in
          bind-accepts
            (claims_or (codes "invalid bearer token")
              (jwt.decode now token secret cfg.jwt_issuer cfg.jwt_audience))
            _ (ap (claims_or (codes "invalid bearer token")) back)
            (ap (λ v. of_type payload (is_text ty v)) (type_of_payload cfg jwt sound base ty ttl m)
              ∙ ap (of_type payload) ((str_eqb_iff ty ty).1 refl))

      -- The user that the payload names.
      pub user_of_payload :
          optional_string (str subject) ≡ some subject
          → user_from_claims cfg jwt payload
            ≡ success (record {
              subject = subject;
              email = optional_string email;
              name = optional_string name;
              picture = optional_string picture;
            })
      unfolding user_from_claims subject_of
      user_of_payload h =
          let (s, e, n, p) = in_payload in
          bind-accepts (subject_of (codes "invalid bearer token") payload) _
            (ap (found_subject (codes "invalid bearer token")) (ap optional_string s ∙ h))
            (ap (λ x. made x (get (codes "name") payload) (get (codes "picture") payload)) e
              ∙ (ap (λ x. made email x (get (codes "picture") payload)) n ∙ ap (made email name) p))
        where
          made : Value → Value → Value → Http AuthenticatedUser
          made e n p = success (record {
            subject = subject;
            email = optional_string e;
            name = optional_string n;
            picture = optional_string p;
          })

  -- A token of a pair that is issued names the user of the claims, while it lasts.
  abbrev pub Names :
      (ℤ → Token → Http AuthenticatedUser) → Fields → ℤ → Moment → Str → Token → Type 0
  Names decode google_claims ttl m subject token =
      (now : ℤ)
      → leb_ℤ m.now now ≡ true
      → leb_ℤ (m.now +ℤ ttl) now ≡ false
      → decode now token ≡ success (user_of subject google_claims)

  -- If a pair of tokens is issued, the claims have a subject that is a text and not empty; from its
  -- issue until before its expiry, each token is accepted where its type is asked for, and names
  -- the user with that subject and the email, name and picture of the claims that are texts and
  -- not empty. This supposes the documented behaviour of the token library, and a configured
  -- audience that is not empty.
  pub issue_token_pair-accepted :
      nonempty cfg.jwt_audience ≡ true
      → (google_claims : Fields) (m₁ m₂ : Moment) (access refresh : Token)
      → issue_token_pair cfg jwt google_claims m₁ m₂ ≡ success (access, refresh)
      → (subject : Str) × (optional_string (get (codes "sub") google_claims) ≡ some subject)
        × Names
            (decode_access_token cfg jwt)
            google_claims
            cfg.jwt_access_ttl_seconds
            m₁
            subject
            access
        × Names
            (decode_refresh_token cfg jwt)
            google_claims
            cfg.jwt_refresh_ttl_seconds
            m₂
            subject
            refresh
  unfolding issue_token_pair encode_token decode_access_token decode_refresh_token subject_of
  issue_token_pair-accepted audience google_claims m₁ m₂ access refresh h =
      let (subject, es, h₁) =
        bind-success (subject_of (codes "invalid Google ID token") google_claims) _ h in
      let email = get (codes "email") google_claims in
      let name = get (codes "name") google_claims in
      let picture = get (codes "picture") google_claims in
      let base₀ = base subject email name picture in
      let found = found_subject-some _ _ es in
      let named = optional_string-again _ subject found in
      let (a, ea, h₂) =
        bind-success (encode_token cfg jwt base₀ access_token_type cfg.jwt_access_ttl_seconds m₁) _
          h₁ in
      let (r, er, h₃) =
        bind-success (encode_token cfg jwt base₀ refresh_token_type cfg.jwt_refresh_ttl_seconds m₂)
          _ h₂ in
      let (key_a, sa, ta) = bind-success (access_secret cfg jwt) _ ea in
      let (key_r, sr, tr) = bind-success (refresh_secret cfg jwt) _ er in
      let pair = success_inj h₃ in
      let p₁ = payload_of cfg jwt base₀ access_token_type cfg.jwt_access_ttl_seconds m₁ in
      let p₂ = payload_of cfg jwt base₀ refresh_token_type cfg.jwt_refresh_ttl_seconds m₂ in
      let is_a : jwt.encode p₁ key_a ≡ some access =
        made_token-some _ ta ∙ ap (λ (p : Token × Token). some p.0) pair in
      let is_r : jwt.encode p₂ key_r ≡ some refresh =
        made_token-some _ tr ∙ ap (λ (p : Token × Token). some p.1) pair in
      (
        subject,
        found,
        λ now from until. bind-accepts (access_secret cfg jwt) _ sa (
            bind-accepts (decode_token cfg jwt now access access_token_type key_a) _
              (decoded_payload subject email name picture access_token_type
                cfg.jwt_access_ttl_seconds m₁ now key_a access is_a audience from until)
              (user_of_payload subject email name picture access_token_type
                cfg.jwt_access_ttl_seconds m₁ named)),
        λ now from until. bind-accepts (refresh_secret cfg jwt) _ sr (
            bind-accepts (decode_token cfg jwt now refresh refresh_token_type key_r) _
              (decoded_payload subject email name picture refresh_token_type
                cfg.jwt_refresh_ttl_seconds m₂ now key_r refresh is_r audience from until)
              (user_of_payload subject email name picture refresh_token_type
                cfg.jwt_refresh_ttl_seconds m₂ named)),
      )
