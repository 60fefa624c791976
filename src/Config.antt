-- ===== src/Config.antt =====
-- app/config.py: the settings, read from the environment.
use capturemate_ai.Prelude.{Bool, Option, none, some, Str, ◌==◌, str_eq}
use capturemate_ai.Prelude.Int.{ℤ}
use capturemate_ai.Prelude.Float.{Float, FloatOps, thousand}
use capturemate_ai.Text.{Unicode, codes}
use capturemate_ai.Json.{Result, ok, or_arithmetic, or_value_error, ◌>>=◌}
use capturemate_ai.Models.{Settings}

-- `getenv` is os.getenv, and `int_of_text` is int() of a text, `none` where it raises ValueError.
module _ (unicode : Unicode) (ops : FloatOps) (int_of_text : Str → Option ℤ)
    (getenv : Str → Option Str) where
  -- os.getenv(name, default)
  abbrev pub or_default : Option Str → Str → Str
  or_default none default = default
  or_default (some s) default = s

  abbrev pub env : Str → Str → Str
  env name default = or_default (getenv name) default

  -- float(os.getenv(name, default))
  unfoldable pub float_env : Str → Str → Result Float
  float_env name default = or_value_error (ops.of_str (env name default))

  -- int(os.getenv(name, default))
  unfoldable pub int_env : Str → Str → Result ℤ
  int_env name default = or_value_error (int_of_text (env name default))

  -- os.getenv(name, default).lower() == "true"
  unfoldable pub bool_env : Str → Str → Bool
  bool_env name default = unicode.lower (env name default) == codes "true"

  -- `load_settings`
  unfoldable pub load_settings : Result Settings
  unfolding float_env int_env bool_env
  load_settings = do
    timeout ← float_env (codes "LLM_TIMEOUT_SECONDS") (codes "20")
    embedding_timeout ← float_env (codes "LLM_EMBEDDING_TIMEOUT_SECONDS") (codes "15")
    max_retries ← int_env (codes "LLM_MAX_RETRIES") (codes "2")
    interval_ms ← float_env (codes "LLM_MIN_INTERVAL_MS") (codes "0")
    min_interval ← or_arithmetic (ops.div interval_ms thousand)
    threshold ← float_env (codes "GROUPING_THRESHOLD") (codes "0.7")
    tau ← float_env (codes "GROUPING_TAU_SECONDS") (codes "300")
    w_min ← float_env (codes "GROUPING_W_MIN") (codes "0.0")
    kakao_timeout ← float_env (codes "KAKAO_TIMEOUT_SECONDS") (codes "3")
    access_ttl ← int_env (codes "JWT_ACCESS_TTL_SECONDS") (codes "1800")
    refresh_ttl ← int_env (codes "JWT_REFRESH_TTL_SECONDS") (codes "259200")
    cpu_threads ← int_env (codes "PADDLE_CPU_THREADS") (codes "2")
    ok (record {
      llm_provider = env (codes "LLM_PROVIDER") (codes "gemini");
      llm_model = env (codes "LLM_MODEL") (codes "gemini-2.5-flash");
      llm_embedding_model = env (codes "LLM_EMBEDDING_MODEL") (codes "text-embedding-004");
      llm_api_key = getenv (codes "LLM_API_KEY");
      llm_timeout_seconds = timeout;
      llm_embedding_timeout_seconds = embedding_timeout;
      llm_max_retries = max_retries;
      llm_min_interval_seconds = min_interval;
      use_presidio = bool_env (codes "USE_PRESIDIO") (codes "false");
      grouping_threshold = threshold;
      grouping_tau_seconds = tau;
      grouping_w_min = w_min;
      kakao_rest_api_key = getenv (codes "KAKAO_REST_API_KEY");
      kakao_timeout_seconds = kakao_timeout;
      google_web_client_id = getenv (codes "GOOGLE_WEB_CLIENT_ID");
      jwt_access_secret = getenv (codes "JWT_ACCESS_SECRET");
      jwt_refresh_secret = getenv (codes "JWT_REFRESH_SECRET");
      jwt_issuer = env (codes "JWT_ISSUER") (codes "capturemate-api");
      jwt_audience = env (codes "JWT_AUDIENCE") (codes "capturemate-android");
      jwt_access_ttl_seconds = access_ttl;
      jwt_refresh_ttl_seconds = refresh_ttl;
      ocr_warmup_on_startup = bool_env (codes "OCR_WARMUP_ON_STARTUP") (codes "true");
      paddle_cpu_threads = cpu_threads;
    })
