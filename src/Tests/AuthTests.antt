-- ===== src/Tests/AuthTests.antt =====
-- Runs of the token functions, with tokens that carry their payload and secret.
use capturemate_ai.Prelude.{
  ◌≡◌, refl, sym, subst, false, Bool, ◌&&◌, not, none, some, Str, if◌then◌else◌, ◌==◌, str_eq,
  str_eqb_iff, some_inj, none-some, Bool-cases, inl, inr,
}
use capturemate_ai.Prelude.Int.{ℤ, pos, leb_ℤ}
use capturemate_ai.Text.{codes}
use capturemate_ai.Json.{Fields, Value, int, str, field, end, get}
use capturemate_ai.Auth.{
  success, Jwt, Moment, AuthenticatedUser, issue_token_pair, decode_access_token,
  decode_refresh_token, optional_string,
}
use capturemate_ai.Auth.Tokens.{IsJwt, issue_token_pair-separate}
use capturemate_ai.Auth.Accepted.{Names, issue_token_pair-accepted}
use capturemate_ai.Tests.Samples.{sample_settings}

abbrev pub lasts : ℤ → Value → Value → Bool
lasts now (int issued) (int expires) = leb_ℤ issued now && not (leb_ℤ expires now)
lasts now _ _ = false

abbrev pub addressed : Str → Value → Bool
addressed s (str t) = t == s
addressed s _ = false

abbrev pub accepts : ℤ → Fields → Str → Str → Str → Str → Bool
accepts now fs secret secret' issuer audience =
    secret == secret'
    && addressed issuer (get (codes "iss") fs)
    && addressed audience (get (codes "aud") fs)
    && lasts now (get (codes "iat") fs) (get (codes "exp") fs)

-- A token is its payload and the secret that it is signed with.
abbrev pub open_jwt : Jwt (Fields × Str)
open_jwt = record {
  encode = λ fs secret. some (fs, secret);
  decode = λ now token secret issuer audience.
      if accepts now token.0 token.1 secret issuer audience then some token.0 else none;
}

pub open_jwt-IsJwt : IsJwt open_jwt
open_jwt-IsJwt = record {
  decoded =
      λ fs secret issuer audience issued expires now token made i a t e subject jti s j shown n from
          until.
        subst (λ u. open_jwt.decode now u secret issuer audience ≡ some fs) (some_inj made)
          (rw
            (
              i,
              a,
              t,
              e,
              from,
              until,
              (str_eqb_iff secret secret).1 refl,
              (str_eqb_iff issuer issuer).1 refl,
              (str_eqb_iff audience audience).1 refl,
            )
            refl);
  authentic = λ fs fs' secret secret' issuer audience now token made h.
      let own =
        subst (λ u. open_jwt.decode now u secret' issuer audience ≡ some fs') (sym (some_inj made))
          h in
      elim (Bool-cases (accepts now fs secret secret' issuer audience)) [
        | inl taken ↦ sym (some_inj (rw taken at own))
        | inr refused ↦ absurd (none-some (rw refused at own))
      ];
  keyed = λ fs fs' secret token made. ((fs', secret), refl);
}

abbrev pub google_claims : Fields
google_claims =
    field (codes "sub") (str (codes "u1")) (field (codes "email") (str (codes "a@b.co")) end)

abbrev pub moment : Moment
moment = record { now = pos 100; jti = codes "j" }

abbrev pub Token : Type 0
Token = Fields × Str

issued :
    (access : Token) × (refresh : Token) × (issue_token_pair sample_settings open_jwt google_claims
        moment moment
      ≡ success (access, refresh))
unfolding issue_token_pair
issued = (_, _, refl)

issue_token_pair-accepted_example :
    (subject : Str) × (optional_string (get (codes "sub") google_claims) ≡ some subject)
    × Names sample_settings open_jwt open_jwt-IsJwt
        (decode_access_token sample_settings open_jwt)
        google_claims
        sample_settings.jwt_access_ttl_seconds
        moment
        subject
        issued.0
    × Names sample_settings open_jwt open_jwt-IsJwt
        (decode_refresh_token sample_settings open_jwt)
        google_claims
        sample_settings.jwt_refresh_ttl_seconds
        moment
        subject
        issued.1
issue_token_pair-accepted_example =
    issue_token_pair-accepted sample_settings open_jwt open_jwt-IsJwt refl google_claims moment
      moment issued.0 issued.1 issued.2

abbrev other_user : AuthenticatedUser
other_user = record { subject = codes "u1"; email = none; name = none; picture = none }

issue_token_pair-separate_example :
    (¬ decode_refresh_token sample_settings open_jwt (pos 200) issued.0 ≡ success other_user)
    × (¬ decode_access_token sample_settings open_jwt (pos 200) issued.1 ≡ success other_user)
issue_token_pair-separate_example =
    issue_token_pair-separate sample_settings open_jwt open_jwt-IsJwt google_claims moment moment
      issued.0 issued.1 (pos 200) other_user issued.2
