-- ===== src/Engine.antt =====
-- The OCR engine that app/main.py loads once: the cache, its error, and the readiness of the server.
pub mod Race
pub mod Failed
pub mod Ready
use capturemate_ai.Prelude.{
  ℕ, suc, [], ◌∷◌, Bool, true, false, ◌&&◌, not, Option, none, some, Str, if◌then◌else◌,
}
use capturemate_ai.Text.{codes}
use capturemate_ai.Json.{Value, Fields, bool, str, end, field}

-- What the construction of a PaddleOcrEngine gives: an engine, an ImportError, or another
-- exception. A failure has the name of its exception type.
pub data Loaded (Engine : Type 0) : Type 0 where
  engine : Engine → Loaded Engine
  import_error : Str → Loaded Engine
  load_failure : Str → Loaded Engine

-- `_ocr_engine` and `_ocr_load_error`, and how many constructions there have been.
pub record Cache (Engine : Type 0) : Type 0 where
  pub ocr_engine : Option Engine
  pub ocr_load_error : Option Str
  pub loads : ℕ

abbrev pub is_some {ℓ} : {A : Type ℓ} → Option A → Bool
is_some none = false
is_some (some a) = true

abbrev error_field : Option Str → Fields
error_field none = end
error_field (some []) = end
error_field (some (c ∷ s)) = field (codes "ocrLoadError") (str (c ∷ s)) end

module _ {Engine : Type 0} where
  abbrev pub empty_cache : Cache Engine
  empty_cache = record { ocr_engine = none; ocr_load_error = none; loads = 0 }

  -- The cache after a construction.
  unfoldable pub store : Cache Engine → Loaded Engine → Cache Engine
  store c (engine e) = record { ocr_engine = some e; ocr_load_error = none; loads = suc c.loads }
  store c (import_error name) = record c { ocr_load_error = some name; loads = suc c.loads }
  store c (load_failure name) = record c { ocr_load_error = some name; loads = suc c.loads }

  -- `_get_ocr_engine`, of what the n-th construction gives.
  abbrev engine_or_load :
      (ℕ → Loaded Engine) → Cache Engine → Option Engine → Loaded Engine × Cache Engine
  engine_or_load load c (some e) = (engine e, c)
  engine_or_load load c none = (load c.loads, store c (load c.loads))

  unfoldable pub get_ocr_engine : (ℕ → Loaded Engine) → Cache Engine → Loaded Engine × Cache Engine
  unfolding store
  get_ocr_engine load c = engine_or_load load c c.ocr_engine

  -- `_ocr_ready`
  unfoldable pub ocr_ready : Cache Engine → Bool
  ocr_ready c = is_some c.ocr_engine && not (is_some c.ocr_load_error)

  -- `_warmup_ocr_engine`, which swallows every exception.
  unfoldable pub warmup_ocr_engine : (ℕ → Loaded Engine) → Cache Engine → Cache Engine
  unfolding get_ocr_engine
  warmup_ocr_engine load c = (get_ocr_engine load c).1

  -- `startup`
  unfoldable pub startup : (ℕ → Loaded Engine) → Bool → Cache Engine → Cache Engine
  unfolding warmup_ocr_engine
  startup load warmup_on_startup c = if warmup_on_startup then warmup_ocr_engine load c else c

  -- `health`
  unfoldable pub health : Bool → Cache Engine → Fields
  unfolding ocr_ready
  health llm_enabled c = field (codes "status") (str (codes "ok")) (
      field (codes "llmEnabled") (bool llm_enabled)
        (field (codes "ocrReady") (bool (ocr_ready c)) end))

  -- `health_ready`: the status code and the body.
  unfoldable pub health_ready : Bool → Cache Engine → ℕ × Fields
  unfolding ocr_ready
  health_ready llm_enabled c = (
    if ocr_ready c then 200 else 503,
    field (codes "status") (str (if ocr_ready c then codes "ok" else codes "starting")) (
        field (codes "llmEnabled") (bool llm_enabled)
          (field (codes "ocrReady") (bool (ocr_ready c)) (error_field c.ocr_load_error))),
  )
