-- ===== src/Tests/ServiceTests.antt =====
-- Runs of the analysis service.
use capturemate_ai.Prelude.{◌≡◌, refl, ◌≤◌, ◌+◌, ◌*◌, ◌-◌, some, [], ◌∷◌}
use capturemate_ai.Text.{codes}
use capturemate_ai.Json.{end, get, raise, arithmetic_error, ok_inj, raise-ok}
use capturemate_ai.Categories.{category_stage2}
use capturemate_ai.Service.{Runtime, generate_json, analyze}
use capturemate_ai.Service.Retry.{Tried, total, generate_json-Tried, generate_json-wait}
use capturemate_ai.Service.Responses.{Analyzed, IsTyped, analyze-IsWellFormed}
use capturemate_ai.Tests.Samples.{sample_runtime, sample_settings, second_try, fresh}

retried :
    generate_json sample_runtime sample_settings second_try (codes "p") fresh
    ≡ (some end, record { calls = 2; slept = 1 ∷ [] })
unfolding generate_json
retried = refl

generate_json-Tried_example :
    Tried sample_runtime second_try
      (codes "p")
      3
      0
      (generate_json sample_runtime sample_settings second_try (codes "p") fresh).0
      (generate_json sample_runtime sample_settings second_try (codes "p") fresh).1.calls
generate_json-Tried_example =
    generate_json-Tried sample_runtime sample_settings second_try (codes "p") fresh

generate_json-wait_example :
    total sample_runtime second_try
      (codes "p")
      (generate_json sample_runtime sample_settings second_try (codes "p") fresh).1.slept
    ≤ 0 + 4 * (3 - 1)
generate_json-wait_example =
    generate_json-wait sample_runtime sample_settings second_try (codes "p") fresh

sample_runtime-IsTyped : IsTyped sample_runtime.validators
unfolding get
sample_runtime-IsTyped = record {
  schedule = λ fs d e. absurd (raise-ok e);
  study = λ fs d e. rw (← (ok_inj e));
  life_info = λ fs d e. absurd (raise-ok e);
  restaurant = λ fs d e. rw (← (ok_inj e));
}

analyze-IsWellFormed_example :
    Analyzed sample_runtime
      (analyze sample_runtime sample_settings
        (some second_try)
        (codes "exam")
        (codes "ko-KR")
        fresh).0
analyze-IsWellFormed_example =
    analyze-IsWellFormed sample_runtime sample_settings sample_runtime-IsTyped refl
      (some second_try) (codes "exam") (codes "ko-KR") fresh

-- An exception of a validator that is no ValidationError leaves the analysis.
abbrev raising_runtime : Runtime
raising_runtime = record sample_runtime {
  validators = record sample_runtime.validators { study = λ fs. raise arithmetic_error };
}

escaped_run :
    (analyze raising_runtime sample_settings
      (some second_try)
      (codes "exam")
      (codes "ko-KR")
      fresh).0
    ≡ raise arithmetic_error
unfolding analyze category_stage2
escaped_run = refl
