-- ===== src/Models.antt =====
-- app/models.py, app/config.py and LlmAnalysis of app/analysis/prompt.py: the records that the parts exchange.
use capturemate_ai.Prelude.{Bool, Option, List, Str}
use capturemate_ai.Prelude.Int.{ℤ}
use capturemate_ai.Prelude.Float.{Float}
use capturemate_ai.Json.{Value, Fields}

pub record Settings : Type 0 where
  pub llm_provider : Str
  pub llm_model : Str
  pub llm_embedding_model : Str
  pub llm_api_key : Option Str
  pub llm_timeout_seconds : Float
  pub llm_embedding_timeout_seconds : Float
  pub llm_max_retries : ℤ
  pub llm_min_interval_seconds : Float
  pub use_presidio : Bool
  pub grouping_threshold : Float
  pub grouping_tau_seconds : Float
  pub grouping_w_min : Float
  pub kakao_rest_api_key : Option Str
  pub kakao_timeout_seconds : Float
  pub google_web_client_id : Option Str
  pub jwt_access_secret : Option Str
  pub jwt_refresh_secret : Option Str
  pub jwt_issuer : Str
  pub jwt_audience : Str
  pub jwt_access_ttl_seconds : ℤ
  pub jwt_refresh_ttl_seconds : ℤ
  pub ocr_warmup_on_startup : Bool
  pub paddle_cpu_threads : ℤ

-- The recommended action is `str | None` where it is validated; `model_copy` puts any value there.
pub record AnalyzeResponse : Type 0 where
  pub server_memo_id : Option Str
  pub title : Str
  pub summary : Str
  pub category : Str
  pub is_useful : Bool
  pub recommended_action : Value
  pub reminder_at : Option ℤ
  pub details : Option Fields

pub record AnalyzeBatchItem : Type 0 where
  pub client_id : Str
  pub masked_text : Str
  pub captured_at : Option ℤ

pub record MemoGroup : Type 0 where
  pub member_client_ids : List Str
  pub analysis : AnalyzeResponse

pub record LlmAnalysis : Type 0 where
  pub title : Str
  pub summary : Str
  pub category : Str
  pub is_useful : Bool
  pub useful_reason : Str
  pub recommended_action : Option Str
  pub reminder_at_iso : Option Str
