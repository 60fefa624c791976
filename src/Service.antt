-- ===== src/Service.antt =====
-- app/analysis/service.py: the two-stage analysis of a masked text.
pub mod Retry
pub mod Responses
pub mod Offline
use capturemate_ai.Prelude.{
  ℕ, zero, suc, ◌+◌, ◌-◌, ◌^◌, min, Bool, true, false, ◌&&◌, ◌||◌, not, Option, none, some, List,
  [], ◌∷◌, ◌++◌, Str, ltb, eqb, if◌then◌else◌, take, ◌==◌, str_eq,
}
use capturemate_ai.Prelude.Int.{ℤ, pos, negsuc}
use capturemate_ai.Prelude.Float.{FloatOps}
use capturemate_ai.Prelude.Dict.{Dict, lookup}
use capturemate_ai.Text.{Unicode, codes, strip, strip_by, starts_with, contains, nonempty, or_text}
use capturemate_ai.Json.{
  Value, Values, Fields, null, bool, int, float, str, list, dict, nil, cons, end, field, Error,
  Result, ok, raise, attribute_error, validation_error, ◌>>=◌, get, put, without, truthy, opt_str,
}
use capturemate_ai.Models.{Settings, AnalyzeResponse, LlmAnalysis}
use capturemate_ai.Fallback.{fallback_analysis, unknown_category, allowed_categories}
use capturemate_ai.Categories.{CategoryStage2, Validators, category_stage2}
use capturemate_ai.Prompts.Classify.{build_classify_prompt}
use capturemate_ai.Kakao.{enrich_restaurant_details_with_kakao}

-- What one call of the model client gives by its contract: a text, or `LlmError`.
pub data Reply : Type 0 where
  reply : Str → Reply
  llm_error : Reply

-- How many calls the client has served, and the seconds slept between them, the latest first.
pub record World : Type 0 where
  pub calls : ℕ
  pub slept : List ℕ

-- What the service runs on, and the packages that it calls: the JSON parser, Pydantic's validation
-- (of the first stage, `none` is ValidationError), the date, ISO dates, and the place service.
pub record Runtime : Type 0 where
  pub unicode : Unicode
  pub floats : FloatOps
  pub format : Value → Str
  pub json_loads : Str → Option Value
  pub today : ℕ → Str
  pub validate_analysis : Fields → Option LlmAnalysis
  pub validators : Validators
  pub iso_timestamp_ms : Str → Option ℤ
  pub fetch : Str → Option Str → Option Value

-- The answer of the client to its n-th call.
abbrev pub Client : Type 0
Client = ℕ → Str → Reply

-- text.partition("\n"), first and last part.
unfoldable pub partition_line : Str → Str × Str
partition_line [] = ([], [])
partition_line (c ∷ s) =
    let (first, rest) = partition_line s in if eqb c 10 then ([], s) else (c ∷ first, rest)

module _ (rt : Runtime) where
  open rt use {unicode}

  -- The code fence around a reply, taken off.
  unfoldable pub unfence : Str → Str
  unfolding strip strip_by starts_with partition_line
  unfence raw =
      let cleaned = strip raw in
      let inner = strip_by (λ c. eqb c b'`') cleaned in
      let (first, rest) = partition_line inner in
      let language = unicode.lower (strip first) in
      if starts_with cleaned (codes "```")
      then (if language == codes "json" || language == [] then rest else inner)
      else cleaned

  abbrev pub object_of : Option Value → Option Fields
  object_of (some (dict fs)) = some fs
  object_of _ = none

  -- `_parse_json`; `none` is ValueError.
  unfoldable pub parse_json : Str → Option Fields
  unfolding unfence
  parse_json raw = object_of (rt.json_loads (unfence raw))

  abbrev pub parsed : Reply → Option Fields
  parsed (reply raw) = parse_json raw
  parsed llm_error = none

  module _ (client : Client) where
    -- Before the next attempt: min(2 ** (attempt - 1), 4) seconds, and none after the last.
    abbrev pub pause : ℕ → ℕ → World → World
    pause zero attempt w = w
    pause (suc left) attempt w = record w { slept = min (2 ^ (attempt - 1)) 4 ∷ w.slept }

    -- The loop of `_generate_json`, with `left` attempts to go.
    unfoldable pub try_calls : ℕ → ℕ → Str → World → Option Fields × World
    unfolding parse_json
    try_calls zero attempt prompt w = (none, w)
    try_calls (suc left) attempt prompt w =
        let served : World = record w { calls = suc w.calls } in
        elim (parsed (client w.calls prompt)) [
          | some fs ↦ (some fs, served)
          | none ↦ try_calls left (suc attempt) prompt (pause left attempt served)
        ]

  -- llm_max_retries + 1, as the number of rounds of `range(1, attempts + 1)`.
  abbrev pub attempts : ℤ → ℕ
  attempts (pos n) = suc n
  attempts (negsuc n) = 0

  module _ (cfg : Settings) where
    unfoldable pub generate_json : Client → Str → World → Option Fields × World
    unfolding try_calls
    generate_json client prompt w = try_calls client (attempts cfg.llm_max_retries) 1 prompt w

    abbrev analysis_or_fallback : Str → Option Fields → LlmAnalysis
    analysis_or_fallback text none = fallback_analysis unicode text
    analysis_or_fallback text (some fs) = elim (rt.validate_analysis fs) [
      | none ↦ fallback_analysis unicode text
      | some base ↦ base
    ]

    -- `_classify`
    unfoldable pub classify : Option Client → Str → Str → World → LlmAnalysis × World
    unfolding generate_json fallback_analysis
    classify none text locale w = (fallback_analysis unicode text, w)
    classify (some client) text locale w =
        let (fs, w') =
          generate_json client (build_classify_prompt text locale (rt.today w.calls)) w in
        (analysis_or_fallback text fs, w')

    abbrev map_values : (Fields → Result Fields) → Values → Result Values
    map_values f nil = ok nil
    map_values f (cons (dict fs) vs) = do
      fs' ← f fs
      vs' ← map_values f vs
      ok (cons (dict fs') vs')
    map_values f (cons v vs) = do vs' ← map_values f vs; ok (cons v vs')

    abbrev enrich_with : (Fields → Result Fields) → Value → Fields → Result Fields
    enrich_with f (list vs) details = do
      vs' ← map_values f vs
      ok (put (codes "restaurants") (list vs') details)
    enrich_with f v details = f details

    abbrev has_text : Option Str → Bool
    has_text none = false
    has_text (some s) = nonempty s

    -- `_enrich_details`
    unfoldable pub enrich_details : Str → Fields → Result Fields
    unfolding get put enrich_restaurant_details_with_kakao
    enrich_details category details =
        if not (category == codes "restaurant") || not (has_text cfg.kakao_rest_api_key)
        then ok details
        else enrich_with (enrich_restaurant_details_with_kakao rt.floats rt.fetch unicode rt.format)
            (get (codes "restaurants") details) details

    -- Only ValidationError is caught.
    abbrev caught : Result Fields → Result (Option Fields)
    caught (ok details) = ok (some details)
    caught (raise validation_error) = ok none
    caught (raise e) = raise e

    abbrev validated : CategoryStage2 → Option Fields → Result (Option Fields)
    validated stage2 none = ok none
    validated stage2 (some fs) = caught (stage2.validate fs)

    abbrev optional : Result Fields → Result (Option Fields)
    optional (ok fs) = ok (some fs)
    optional (raise e) = raise e

    abbrev enrich_optional : Str → Option Fields → Result (Option Fields)
    enrich_optional category none = ok none
    enrich_optional category (some details) = optional (enrich_details category details)

    abbrev second_stage :
        Client → CategoryStage2 → Str → Str → LlmAnalysis → World → Result (Option Fields) × World
    second_stage client stage2 text locale base w =
        let prompt = stage2.build_prompt text base locale (rt.today w.calls) in
        let (fs, w') = generate_json client prompt w in
        (validated stage2 fs >>= enrich_optional base.category, w')

    abbrev extract_with :
        Option CategoryStage2
        → Option Client
        → Str
        → Str
        → LlmAnalysis
        → World
        → Result (Option Fields) × World
    extract_with (some stage2) (some client) text locale base w =
        second_stage client stage2 text locale base w
    extract_with _ _ text locale base w = (ok none, w)

    -- `_extract_details`
    unfoldable pub extract_details :
        Option Client → Str → Str → LlmAnalysis → World → Result (Option Fields) × World
    unfolding lookup generate_json enrich_details
    extract_details client text locale base w =
        extract_with (lookup base.category (category_stage2 rt.validators)) client text locale base
          w

  -- `_iso_to_epoch_ms`
  unfoldable pub iso_to_epoch_ms : Option Str → Option ℤ
  iso_to_epoch_ms none = none
  iso_to_epoch_ms (some []) = none
  iso_to_epoch_ms (some (c ∷ s)) = rt.iso_timestamp_ms (c ∷ s)

  abbrev stage2_action : Option Fields → Value
  stage2_action none = null
  stage2_action (some details) = get (codes "recommendedAction") details

  abbrev pop_action : Option Fields → Option Fields
  pop_action none = none
  pop_action (some details) = some (without (codes "recommendedAction") details)

  -- The field `recommendedAction` is a text or None, or the response is not built.
  abbrev checked_action : Value → Result Value
  checked_action null = ok null
  checked_action (str s) = ok (str s)
  checked_action _ = raise validation_error

  -- The response that is built, given the action to recommend.
  abbrev pub response_of : LlmAnalysis → Option Fields → Value → AnalyzeResponse
  response_of base details recommended =
      let category =
        if contains base.category allowed_categories then base.category else unknown_category in
      record {
        server_memo_id = none;
        title = or_text (take 40 base.title) (codes "New capture");
        summary = or_text base.summary (codes "No content to summarize.");
        category = category;
        is_useful = base.is_useful && not (category == unknown_category);
        recommended_action = recommended;
        reminder_at = iso_to_epoch_ms base.reminder_at_iso;
        details = pop_action details;
      }

  -- `_to_response`
  unfoldable pub to_response : LlmAnalysis → Option Fields → Result AnalyzeResponse
  unfolding contains get without truthy opt_str iso_to_epoch_ms
  to_response base details = do
    let action = stage2_action details
    recommended ← checked_action (if truthy action then action else opt_str base.recommended_action)
    ok (response_of base details recommended)

  -- `_empty_response`
  abbrev pub empty_response : AnalyzeResponse
  empty_response = record {
    server_memo_id = none;
    title = codes "New capture";
    summary = codes "No content to summarize.";
    category = unknown_category;
    is_useful = false;
    recommended_action = str (codes "메모로 저장");
    reminder_at = none;
    details = none;
  }

  abbrev respond : LlmAnalysis → Result (Option Fields) × World → Result AnalyzeResponse × World
  respond base (r, w) = (r >>= to_response base, w)

  module _ (cfg : Settings) (client : Option Client) where
    -- The second stage, only for a useful text.
    abbrev staged : Bool → Str → Str → LlmAnalysis → World → Result AnalyzeResponse × World
    staged true text locale base w = respond base (extract_details cfg client text locale base w)
    staged false text locale base w = (to_response base none, w)

    -- `AnalysisService.analyze`
    unfoldable pub analyze : Str → Str → World → Result AnalyzeResponse × World
    unfolding strip classify extract_details to_response
    analyze masked_text locale w =
        let text = strip masked_text in
        if nonempty text
        then (let (base, w') = classify cfg client text locale w in
            staged base.is_useful text locale base w')
        else (ok empty_response, w)
