-- ===== src/Service/Offline.antt =====
-- What `AnalysisService.analyze` makes without a client.
use capturemate_ai.Prelude.{
  ◌≡◌, refl, inl, inr, Bool, true, false, Option, none, some, Str, Bool-cases, str_eq,
}
use capturemate_ai.Prelude.Dict.{lookup}
use capturemate_ai.Text.{nonempty, strip}
use capturemate_ai.Json.{null, ok, opt_str}
use capturemate_ai.Models.{AnalyzeResponse, Settings, LlmAnalysis}
use capturemate_ai.Categories.{CategoryStage2, category_stage2}
use capturemate_ai.Service.{
  Runtime, World, analyze, classify, extract_details, to_response, response_of, empty_response,
  staged,
}
use capturemate_ai.Service.Responses.{is_text_or_none}

pub record IsPlain (r : AnalyzeResponse) : Type 0 where
  pub bare : r.details ≡ none
  pub action_text : is_text_or_none r.recommended_action ≡ true

module _ (rt : Runtime) (cfg : Settings) (locale : Str) where
  to_response-IsPlain :
      (base : LlmAnalysis) → (r : AnalyzeResponse) × (to_response rt base none ≡ ok r) × IsPlain r
  unfolding to_response opt_str
  to_response-IsPlain base = with_action base.recommended_action refl
    where
      with_action :
          (o : Option Str)
          → base.recommended_action ≡ o
          → (r : AnalyzeResponse) × (to_response rt base none ≡ ok r) × IsPlain r
      with_action none e =
          (response_of rt base none null, rw e refl, record { bare = refl; action_text = refl })
      with_action (some s) e = (
        response_of rt base none (opt_str (some s)),
        rw e refl,
        record { bare = refl; action_text = refl },
      )

  staged-IsPlain :
      (b : Bool) (text : Str) (base : LlmAnalysis) (w : World)
      → (r : AnalyzeResponse) × ((staged rt cfg none b text locale base w).0 ≡ ok r) × IsPlain r
  unfolding extract_details
  staged-IsPlain false text base w = to_response-IsPlain base
  staged-IsPlain true text base w =
      with_stage (lookup base.category (category_stage2 rt.validators)) refl
    where
      with_stage :
          (o : Option CategoryStage2)
          → lookup base.category (category_stage2 rt.validators) ≡ o
          → (r : AnalyzeResponse) × ((staged rt cfg none true text locale base w).0 ≡ ok r)
            × IsPlain r
      with_stage none e = rw e (to_response-IsPlain base)
      with_stage (some st) e = rw e (to_response-IsPlain base)

  pub analyze-IsPlain :
      (text : Str) (w : World)
      → (r : AnalyzeResponse) × ((analyze rt cfg none text locale w).0 ≡ ok r) × IsPlain r
  unfolding analyze
  analyze-IsPlain text w = elim (Bool-cases (nonempty (strip text))) [
    | inl e ↦
        let (base, w') = classify rt cfg none (strip text) locale w in
        let (r, q, v) = staged-IsPlain base.is_useful (strip text) base w' in (r, rw e q, v)
    | inr e ↦ (empty_response rt, rw e, record { bare = refl; action_text = refl })
  ]
