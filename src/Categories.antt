-- ===== src/Categories.antt =====
-- app/analysis/categories/__init__.py and base.py: the registry of the second stage.
use capturemate_ai.Prelude.{[], ◌∷◌, Str}
use capturemate_ai.Prelude.Dict.{Dict}
use capturemate_ai.Text.{codes}
use capturemate_ai.Json.{Fields, Result}
use capturemate_ai.Models.{LlmAnalysis}
use capturemate_ai.Prompts.Schedule.{build_schedule_prompt}
use capturemate_ai.Prompts.Study.{build_study_prompt}
use capturemate_ai.Prompts.LifeInfo.{build_life_info_prompt}
use capturemate_ai.Prompts.Restaurant.{build_restaurant_prompt}

-- A prompt, and the dump of the details that the category's model validates.
pub record CategoryStage2 : Type 0 where
  pub build_prompt : Str → LlmAnalysis → Str → Str → Str
  pub validate : Fields → Result Fields

-- `details_model.model_validate(data).model_dump()` of each category, which Pydantic does, with the
-- validators of the models: `raise validation_error` is ValidationError, and any other exception is
-- one that leaves a validator and that Pydantic passes on, such as OverflowError.
pub record Validators : Type 0 where
  pub schedule : Fields → Result Fields
  pub study : Fields → Result Fields
  pub life_info : Fields → Result Fields
  pub restaurant : Fields → Result Fields

unfoldable pub category_stage2 : Validators → Dict Str CategoryStage2
category_stage2 v =
    (codes "schedule", record { build_prompt = build_schedule_prompt; validate = v.schedule })
    ∷ (codes "study", record { build_prompt = build_study_prompt; validate = v.study })
    ∷ (codes "life_info", record { build_prompt = build_life_info_prompt; validate = v.life_info })
    ∷ (
      codes "restaurant",
      record { build_prompt = build_restaurant_prompt; validate = v.restaurant },
    )
    ∷ []
