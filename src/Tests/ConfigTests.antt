-- ===== src/Tests/ConfigTests.antt =====
-- Runs of the reading of the settings.
use capturemate_ai.Prelude.{
  ◌≡◌, refl, Bool, true, false, Option, none, some, [], ◌∷◌, Str, length, ◌==◌, str_eq,
  if◌then◌else◌,
}
use capturemate_ai.Prelude.Int.{ℤ, pos}
use capturemate_ai.Prelude.Float.{FloatOps}
use capturemate_ai.Text.{codes}
use capturemate_ai.Json.{Result, ok, raise, value_error}
use capturemate_ai.Models.{Settings}
use capturemate_ai.Config.{load_settings}
use capturemate_ai.Tests.Samples.{ascii, counting_floats, count_float}

-- A number is read as the length of its text; the empty text is none.
abbrev length_or_none : Str → Option ℤ
length_or_none [] = none
length_or_none (c ∷ s) = some (pos (length (c ∷ s)))

abbrev reading_floats : FloatOps
reading_floats = record counting_floats { of_str = λ s. some (count_float (length s)) }

abbrev only : Str → Str → Str → Option Str
only name value asked = if asked == name then some value else none

-- Without OCR_WARMUP_ON_STARTUP the engine is loaded at the start, with another text it is not.
abbrev warms_up : Result Settings → Option Bool
warms_up (ok s) = some s.ocr_warmup_on_startup
warms_up (raise e) = none

warm_by_default :
    warms_up (load_settings ascii reading_floats length_or_none (λ name. none)) ≡ some true
unfolding load_settings
warm_by_default = refl

cold_on_request :
    warms_up (
      load_settings ascii reading_floats length_or_none
        (only (codes "OCR_WARMUP_ON_STARTUP") (codes "0")))
    ≡ some false
unfolding load_settings
cold_on_request = refl

-- A number that cannot be read stops the server.
empty_retries :
    load_settings ascii reading_floats length_or_none (only (codes "LLM_MAX_RETRIES") [])
    ≡ raise value_error
unfolding load_settings
empty_retries = refl
