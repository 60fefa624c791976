-- ===== src/Endpoints.antt =====
-- app/main.py: the endpoints, composed of authentication, the OCR engine, the images and the batch.
pub mod Answered
pub mod Refused
pub mod Offline
pub mod SignIn
use capturemate_ai.Prelude.{ℕ, Bool, Option, none, some, List, [], ◌∷◌, Str}
use capturemate_ai.Prelude.Int.{ℤ}
use capturemate_ai.Text.{codes}
use capturemate_ai.Json.{Value, Fields, Result, ok, raise, str, end, field}
use capturemate_ai.Models.{Settings, AnalyzeBatchItem, MemoGroup}
use capturemate_ai.Privacy.{Span}
use capturemate_ai.Service.{Runtime, Client, World}
use capturemate_ai.Batch.{Embedder, analyze_batch}
use capturemate_ai.Auth.{
  Http, success, http_error, exception, AuthenticatedUser, Jwt, Moment, get_current_user,
  verify_google_id_token, issue_token_pair, issue_access_token_from_refresh,
}
use capturemate_ai.Engine.{Loaded, engine, import_error, load_failure, Cache, get_ocr_engine}
use capturemate_ai.Images.{
  Answer, answer, refused, uncaught, ◌>>=◌, Upload, parse_metadata, read_images,
}

-- The packages and services that the endpoints use.
pub record Backend (Engine Token : Type 0) : Type 0 where
  pub rt : Runtime
  pub cfg : Settings
  pub jwt : Jwt Token
  pub client : Option Client
  pub embedding : Option Embedder
  pub detect : Str → Option (List Span)
  pub load : ℕ → Loaded Engine
  pub extract : Engine → ℕ → List ℕ → Option Str
  pub validate : Value → Str → Value → Option AnalyzeBatchItem

-- What the process keeps between requests.
pub record Server (Engine : Type 0) : Type 0 where
  pub cache : Cache Engine
  pub world : World

-- A request to /v1/analyze, with the time at which it comes.
pub record AnalyzeImages (Token : Type 0) : Type 0 where
  pub now : ℤ
  pub credentials : Option (Str × Token)
  pub images : List Upload
  pub locale : Str
  pub metadata : Option Str

pub record AuthTokenResponse (Token : Type 0) : Type 0 where
  pub access_token : Token
  pub refresh_token : Option Token
  pub token_type : Str
  pub access_expires_in : ℤ
  pub refresh_expires_in : Option ℤ

-- An HTTPException of the authentication refuses the request.
abbrev pub of_http {ℓ} : {A : Type ℓ} → Http A → Answer A
of_http (success a) = answer a
of_http (http_error n d) = refused n d
of_http (exception e) = uncaught e

-- `health_live`
abbrev pub health_live : Fields
health_live = field (codes "status") (str (codes "ok")) end

-- The engine, or the 503 of the handler.
unfoldable pub engine_or_503 : {Engine : Type 0} → Loaded Engine → Answer Engine
engine_or_503 (engine e) = answer e
engine_or_503 (import_error name) =
    refused 503 (codes "OCR engine not installed (pip install -r requirements-ocr.txt)")
engine_or_503 (load_failure name) = refused 503 (codes "OCR engine unavailable")

module _ {Engine Token : Type 0} (backend : Backend Engine Token) where
  open backend use {rt, cfg, jwt, client, embedding, detect, load, extract, validate}

  -- `_require_user`
  unfoldable pub require_user : ℤ → Option (Str × Token) → Answer AuthenticatedUser
  unfolding get_current_user
  require_user now credentials = of_http (get_current_user cfg jwt rt.unicode now credentials)

  abbrev token_pair : Token × Token → AuthTokenResponse Token
  token_pair (access_token, refresh_token) = record {
    access_token = access_token;
    refresh_token = some refresh_token;
    token_type = codes "Bearer";
    access_expires_in = cfg.jwt_access_ttl_seconds;
    refresh_expires_in = some cfg.jwt_refresh_ttl_seconds;
  }

  -- `authenticate_with_google`; the library's check of the token is a parameter.
  unfoldable pub authenticate_with_google :
      (Str → Str → Option Fields) → Str → Moment → Moment → Answer (AuthTokenResponse Token)
  unfolding verify_google_id_token issue_token_pair
  authenticate_with_google verify_oauth2_token id_token m₁ m₂ = do
    google_claims ← of_http (verify_google_id_token cfg jwt verify_oauth2_token id_token)
    tokens ← of_http (issue_token_pair cfg jwt google_claims m₁ m₂)
    answer (token_pair tokens)

  -- `refresh_access_token`
  unfoldable pub refresh_access_token : ℤ → Token → Moment → Answer (AuthTokenResponse Token)
  unfolding issue_access_token_from_refresh
  refresh_access_token now refresh_token m = do
    access_token ← of_http (issue_access_token_from_refresh cfg jwt now refresh_token m)
    answer (record {
      access_token = access_token;
      refresh_token = none;
      token_type = codes "Bearer";
      access_expires_in = cfg.jwt_access_ttl_seconds;
      refresh_expires_in = none;
    })

  abbrev of_result : Result (List MemoGroup) × World → Answer (List MemoGroup) × World
  of_result (ok groups, w) = (answer groups, w)
  of_result (raise e, w) = (uncaught e, w)

  -- The analysis of the items, where the loop over the images has come to its end.
  unfoldable pub analyze_items :
      Str → Answer (List AnalyzeBatchItem) → World → Answer (List MemoGroup) × World
  unfolding analyze_batch
  analyze_items locale (answer items) w =
      of_result (analyze_batch rt cfg client locale detect embedding items w)
  analyze_items locale (refused n d) w = (refused n d, w)
  analyze_items locale (uncaught e) w = (uncaught e, w)

  abbrev with_cache :
      Cache Engine → Answer (List MemoGroup) × World → Answer (List MemoGroup) × Server Engine
  with_cache c (r, w) = (r, record { cache = c; world = w })

  -- From the engine on.
  unfoldable pub analyze_loaded :
      AnalyzeImages Token
      → List Value
      → Loaded Engine × Cache Engine
      → World
      → Answer (List MemoGroup) × Server Engine
  unfolding engine_or_503 read_images analyze_items
  analyze_loaded request meta (loaded, c) w = with_cache c (
      analyze_items request.locale
        (engine_or_503 loaded >>= (λ e. read_images (extract e) validate meta 0 request.images)) w)

  -- From the metadata on.
  abbrev analyze_parsed :
      AnalyzeImages Token
      → Answer (List Value)
      → Server Engine
      → Answer (List MemoGroup) × Server Engine
  analyze_parsed request (answer meta) s =
      analyze_loaded request meta (get_ocr_engine load s.cache) s.world
  analyze_parsed request (refused n d) s = (refused n d, s)
  analyze_parsed request (uncaught e) s = (uncaught e, s)

  -- The handler `analyze`, which FastAPI runs for an authenticated user.
  unfoldable pub analyze_images :
      AnalyzeImages Token → Server Engine → Answer (List MemoGroup) × Server Engine
  unfolding require_user parse_metadata get_ocr_engine analyze_loaded
  analyze_images request s =
      analyze_parsed request
        (require_user request.now request.credentials
          >>= (λ user. parse_metadata rt.json_loads request.metadata))
        s
