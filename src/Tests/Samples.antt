-- ===== src/Tests/Samples.antt =====
-- The packages and settings that the tests run on.
use capturemate_ai.Prelude.{
  ℕ, ◌+◌, ◌*◌, ◌/◌, ◌&&◌, ◌||◌, true, false, none, some, List, [], ◌∷◌, ltb, leb, eqb,
  if◌then◌else◌,
}
use capturemate_ai.Prelude.Int.{pos}
use capturemate_ai.Prelude.Float.{Float, FloatOps}
use capturemate_ai.Text.{Unicode, codes}
use capturemate_ai.Json.{
  Fields, str, dict, end, field, ok, raise, arithmetic_error, validation_error,
}
use capturemate_ai.Models.{Settings, LlmAnalysis}
use capturemate_ai.Service.{Runtime, Client, World, reply, llm_error}

-- The ASCII part of the tables.
abbrev pub ascii : Unicode
ascii = record {
  lower = λ s. s;
  casefold = λ s. s;
  is_alnum =
      λ c. (leb b'0' c && leb c b'9') || (leb b'A' c && leb c b'Z') || (leb b'a' c && leb c b'z');
  is_decimal = λ c. leb b'0' c && leb c b'9';
}

abbrev pub small_sum : ℕ → List Float → Float
small_sum n [] = record { bits = n }
small_sum n (x ∷ xs) = small_sum (n + x.bits) xs

-- Arithmetic on the patterns as counts: enough to run the code, and total.
abbrev pub counting_floats : FloatOps
counting_floats = record {
  neg = λ x. x;
  mul = λ x y. record { bits = x.bits * y.bits };
  sum = small_sum 0;
  sqrt = λ x. x;
  exp = λ x. record { bits = 1 };
  div = λ x y. some (record { bits = x.bits / y.bits });
  of_int = λ n. some (record { bits = 1 });
  of_str = λ s. none;
  eq = λ x y. eqb x.bits y.bits;
  lt = λ x y. ltb x.bits y.bits;
  le = λ x y. leb x.bits y.bits;
}

abbrev pub count_float : ℕ → Float
count_float n = record { bits = n }

abbrev pub sample_details : Fields
sample_details =
    field (codes "title") (str (codes "exam"))
      (field (codes "recommendedAction") (str (codes "review")) end)

abbrev pub sample_analysis : LlmAnalysis
sample_analysis = record {
  title = codes "exam";
  summary = codes "exam on monday";
  category = codes "study";
  is_useful = true;
  useful_reason = [];
  recommended_action = none;
  reminder_at_iso = none;
}

-- A JSON parser that knows one object, and models that accept or refuse all.
abbrev pub sample_runtime : Runtime
sample_runtime = record {
  unicode = ascii;
  floats = counting_floats;
  format = λ v. codes "None";
  json_loads = λ s. elim s [ [] ↦ none | c ∷ t ↦ if eqb c b'{' then some (dict end) else none ];
  today = λ n. codes "2026-07-01";
  validate_analysis = λ fs. some sample_analysis;
  validators = record {
    schedule = λ fs. raise validation_error;
    study = λ fs. ok sample_details;
    life_info = λ fs. raise arithmetic_error;
    restaurant = λ fs. ok end;
  };
  iso_timestamp_ms = λ s. none;
  fetch = λ query code. none;
}

abbrev pub sample_settings : Settings
sample_settings = record {
  llm_provider = codes "gemini";
  llm_model = codes "m";
  llm_embedding_model = codes "e";
  llm_api_key = some (codes "k");
  llm_timeout_seconds = count_float 20;
  llm_embedding_timeout_seconds = count_float 15;
  llm_max_retries = pos 2;
  llm_min_interval_seconds = count_float 0;
  use_presidio = false;
  grouping_threshold = count_float 1;
  grouping_tau_seconds = count_float 300;
  grouping_w_min = count_float 0;
  kakao_rest_api_key = none;
  kakao_timeout_seconds = count_float 3;
  google_web_client_id = none;
  jwt_access_secret = some (codes "a");
  jwt_refresh_secret = some (codes "r");
  jwt_issuer = codes "i";
  jwt_audience = codes "d";
  jwt_access_ttl_seconds = pos 1800;
  jwt_refresh_ttl_seconds = pos 259200;
  ocr_warmup_on_startup = true;
  paddle_cpu_threads = pos 2;
}

-- The first call fails, the second gives an object.
abbrev pub second_try : Client
second_try n prompt = if eqb n 0 then llm_error else reply (codes "{}")

abbrev pub fresh : World
fresh = record { calls = 0; slept = [] }
