-- ===== src/Endpoints/SignIn.antt =====
-- A session: the sign-in, the requests of its user, and the renewal of its access token.
use capturemate_ai.Prelude.{◌≡◌, refl, ap, subst, true, false, Option, some, Str, str_eq}
use capturemate_ai.Prelude.Int.{ℤ, ◌+ℤ◌, leb_ℤ}
use capturemate_ai.Text.{codes, nonempty}
use capturemate_ai.Json.{Fields}
use capturemate_ai.Auth.{
  success, AuthenticatedUser, Moment, decode_access_token, verify_google_id_token, issue_token_pair,
  issue_access_token_from_refresh, get_current_user,
}
use capturemate_ai.Auth.Tokens.{IsJwt}
use capturemate_ai.Auth.Accepted.{user_of}
use capturemate_ai.Auth.Renewed.{issue_token_pair-renewed}
use capturemate_ai.Images.{answer}
use capturemate_ai.Images.Collected.{answer_inj, bind-answer, answers-bind}
use capturemate_ai.Endpoints.{
  Backend, AuthTokenResponse, of_http, require_user, authenticate_with_google, refresh_access_token,
}
use capturemate_ai.Endpoints.Answered.{of_http-success}

module _ {Engine Token : Type 0} (backend : Backend Engine Token) where
  open backend use {rt, cfg, jwt}

  -- The access token of a response is accepted for the user, from a moment on, while it lasts.
  abbrev pub Opens : Str → AuthenticatedUser → Moment → AuthTokenResponse Token → Type 0
  Opens scheme user m response =
      (now : ℤ)
      → leb_ℤ m.now now ≡ true
      → leb_ℤ (m.now +ℤ response.access_expires_in) now ≡ false
      → require_user backend now (some (scheme, response.access_token)) ≡ answer user

  known-user :
      (scheme : Str) (now : ℤ) (token : Token) (user : AuthenticatedUser)
      → rt.unicode.lower scheme ≡ codes "bearer"
      → decode_access_token cfg jwt now token ≡ success user
      → require_user backend now (some (scheme, token)) ≡ answer user
  unfolding require_user get_current_user
  known-user scheme now token user b h = rw (b, h) refl

  -- The response of a sign-in: the user whom its access token admits, and what its refresh token
  -- renews while it lasts.
  pub record IsSession (scheme : Str) (m₁ m₂ : Moment) (response : AuthTokenResponse Token)
      : Type 0 where
    pub user : AuthenticatedUser
    pub opens : Opens scheme user m₁ response
    pub refresh_token : Token
    pub given : response.refresh_token ≡ some refresh_token
    pub renews :
        (now : ℤ) (m : Moment)
        → leb_ℤ m₂.now now ≡ true
        → leb_ℤ (m₂.now +ℤ cfg.jwt_refresh_ttl_seconds) now ≡ false
        → (renewed : AuthTokenResponse Token) × (refresh_access_token backend now refresh_token m
            ≡ answer renewed)
          × Opens scheme user m renewed

  -- If /v1/auth/google answers, it answers an access and a refresh token: as long as it lasts, the
  -- access token admits one user to /v1/analyze; and as long as the refresh token lasts,
  -- /v1/auth/refresh answers a new access token, which admits the same user for as long as that
  -- lasts. This supposes the documented behaviour of the token library, a configured audience that
  -- is not empty, and a scheme that is bearer in lower case.
  pub authenticate_with_google-IsSession :
      IsJwt jwt
      → nonempty cfg.jwt_audience ≡ true
      → (scheme : Str) → rt.unicode.lower scheme ≡ codes "bearer"
      → (verify_oauth2_token : Str → Str → Option Fields) (id_token : Str) (m₁ m₂ : Moment)
        (response : AuthTokenResponse Token)
      → authenticate_with_google backend verify_oauth2_token id_token m₁ m₂ ≡ answer response
      → IsSession scheme m₁ m₂ response
  unfolding authenticate_with_google refresh_access_token
  authenticate_with_google-IsSession sound audience scheme b verify id_token m₁ m₂ response h =
      let (claims, c, h₁) =
        bind-answer (of_http (verify_google_id_token cfg jwt verify id_token)) _ h in
      let ((access, refresh), p, h₂) =
        bind-answer (of_http (issue_token_pair cfg jwt claims m₁ m₂)) _ h₁ in
      let (subject, opens, renews) =
        issue_token_pair-renewed cfg jwt sound audience claims m₁ m₂ access refresh
          (of_http-success _ _ p) in
      subst (IsSession scheme m₁ m₂) (answer_inj h₂) (record {
        user = user_of cfg jwt sound subject claims;
        opens = λ now from until. known-user scheme now access _ b (opens now from until);
        refresh_token = refresh;
        given = refl;
        renews = λ now m from until.
            let (token, r, again) = renews now m from until in
            (
              _,
              answers-bind (of_http (issue_access_token_from_refresh cfg jwt now refresh m)) _
                  (ap of_http r) refl,
              λ now' from' until'. known-user scheme now' token _ b (again now' from' until'),
            );
      })
