-- ===== src/Service/Responses.antt =====
-- What `AnalysisService.analyze` returns, and that it returns.
use capturemate_ai.Prelude.{
  ℕ, ◌≤◌, ◌≡◌, ◌≢◌, ◌⊎◌, refl, inl, inr, Bool, true, false, not, ◌&&◌, Bool-cases, Option, none,
  some, [], ◌∷◌, All, Str, length, length-take-le, take, arith, if◌then◌else◌, ◌==◌, str_eq,
}
use capturemate_ai.Prelude.Dict.{Dict, values, lookup}
use capturemate_ai.Text.{codes, contains, nonempty, or_text, strip}
use capturemate_ai.Json.{
  Value, Fields, null, bool, int, float, str, list, dict, Error, Result, ok, raise, type_error,
  value_error, attribute_error, arithmetic_error, validation_error, import_error, other_error,
  ◌>>=◌, get, truthy, opt_str,
}
use capturemate_ai.Models.{Settings, AnalyzeResponse, LlmAnalysis}
use capturemate_ai.Fallback.{unknown_category, allowed_categories}
use capturemate_ai.Categories.{CategoryStage2, Validators, category_stage2}
use capturemate_ai.Service.{
  Runtime, Client, World, empty_response, to_response, stage2_action, checked_action, response_of,
  analyze, staged, classify, extract_details, extract_with, enrich_details, enrich_optional, caught,
  validated, has_text,
}

-- A text or None.
abbrev pub is_text_or_none : Value → Bool
is_text_or_none null = true
is_text_or_none (str s) = true
is_text_or_none _ = false

abbrev pub HasTextAction : Fields → Type 0
HasTextAction d = is_text_or_none (get (codes "recommendedAction") d) ≡ true

pub record IsWellFormed (r : AnalyzeResponse) : Type 0 where
  pub category_allowed : contains r.category allowed_categories ≡ true
  pub title_fits : length r.title ≤ 40
  pub title_shown : nonempty r.title ≡ true
  pub summary_shown : nonempty r.summary ≡ true
  pub unknown_useless : r.category ≡ unknown_category → r.is_useful ≡ false
  pub action_text : is_text_or_none r.recommended_action ≡ true

or_text-nonempty : (s t : Str) → nonempty t ≡ true → nonempty (or_text s t) ≡ true
or_text-nonempty [] t h = h
or_text-nonempty (c ∷ s) t h = refl

length-or_text : (n : ℕ) (s t : Str) → length s ≤ n → length t ≤ n → length (or_text s t) ≤ n
length-or_text n [] t h k = k
length-or_text n (c ∷ s) t h k = h

chosen-allowed :
    (c : Str)
    → contains (if contains c allowed_categories then c else unknown_category) allowed_categories
      ≡ true
unfolding contains
chosen-allowed c = elim (Bool-cases (contains c allowed_categories)) [
  | inl e ↦ rw e e
  | inr e ↦ rw e
]

useful_known :
    (b : Bool) (c : Str) → c ≡ unknown_category → (b && not (c == unknown_category)) ≡ false
useful_known b c e = rw e (ground arith)

-- Pydantic's details hold a text or None under `recommendedAction`, as their models declare.
pub record IsTyped (v : Validators) : Type 0 where
  pub schedule : (fs d : Fields) → v.schedule fs ≡ ok d → HasTextAction d
  pub study : (fs d : Fields) → v.study fs ≡ ok d → HasTextAction d
  pub life_info : (fs d : Fields) → v.life_info fs ≡ ok d → HasTextAction d
  pub restaurant : (fs d : Fields) → v.restaurant fs ≡ ok d → HasTextAction d

abbrev TypedStage : CategoryStage2 → Type 0
TypedStage st = (fs d : Fields) → st.validate fs ≡ ok d → HasTextAction d

stages_typed : (v : Validators) → IsTyped v → All TypedStage (values (category_stage2 v))
unfolding category_stage2
stages_typed v t = (t.schedule, (t.study, (t.life_info, (t.restaurant, tt))))

lookup-All :
    (k : Str) (d : Dict Str CategoryStage2) (st : CategoryStage2)
    → All TypedStage (values d)
    → lookup k d ≡ some st
    → TypedStage st
unfolding lookup
lookup-All k [] st a e = cc
lookup-All k ((j, st') ∷ d) st (here', rest) e = elim (Bool-cases (j == k)) [
  | inl same ↦ let q : st' ≡ st = ground arith in rw q at here'
  | inr other ↦ lookup-All k d st rest (ground arith)
]

module _ (rt : Runtime) where
  -- An exception that the validation of the second stage raises, and that is no ValidationError.
  abbrev pub Escaped {ℓ} : {A : Type ℓ} → Result A → Type ℓ
  Escaped r =
      (e : Error) × (r ≡ raise e)
      × (e ≢ validation_error)
      × (category : Str) × (st : CategoryStage2) × (fs : Fields) × (lookup category
            (category_stage2 rt.validators)
          ≡ some st)
      × (st.validate fs ≡ raise e)

  abbrev pub Analyzed : Result AnalyzeResponse → Type 0
  Analyzed o = ((r : AnalyzeResponse) × (o ≡ ok r) × IsWellFormed r) ⊎ Escaped o

  abbrev Detailed : Result (Option Fields) → Type 0
  Detailed o =
      ((d : Option Fields) × (o ≡ ok d) × (is_text_or_none (stage2_action rt d) ≡ true)) ⊎ Escaped o

  checked-chosen :
      (v : Value) (o : Option Str)
      → is_text_or_none v ≡ true
      → (checked_action rt (if truthy v then v else opt_str o)
          ≡ ok (if truthy v then v else opt_str o))
        × (is_text_or_none (if truthy v then v else opt_str o) ≡ true)
  unfolding truthy opt_str
  checked-chosen null none h = (refl, refl)
  checked-chosen null (some s) h = (refl, refl)
  checked-chosen (str []) none h = (refl, refl)
  checked-chosen (str []) (some s) h = (refl, refl)
  checked-chosen (str (c ∷ s)) o h = (refl, refl)
  checked-chosen (bool b) o h = cc
  checked-chosen (int n) o h = cc
  checked-chosen (float x) o h = cc
  checked-chosen (list vs) o h = cc
  checked-chosen (dict fs) o h = cc

  to_response-IsWellFormed :
      (base : LlmAnalysis) (details : Option Fields)
      → is_text_or_none (stage2_action rt details) ≡ true
      → (r : AnalyzeResponse) × (to_response rt base details ≡ ok r) × IsWellFormed r
  unfolding to_response
  to_response-IsWellFormed base details h =
      let action = stage2_action rt details in
      let chosen = if truthy action then action else opt_str base.recommended_action in
      let (e, t) = checked-chosen (stage2_action rt details) base.recommended_action h in
      (
        response_of rt base details chosen,
        rw e,
        record {
          category_allowed = chosen-allowed base.category;
          title_fits =
              length-or_text 40 (take 40 base.title) _ (length-take-le 40 base.title) (omega arith);
          title_shown = or_text-nonempty (take 40 base.title) _ refl;
          summary_shown = or_text-nonempty base.summary _ refl;
          unknown_useless = useful_known base.is_useful _;
          action_text = t;
        },
      )

  empty_response-IsWellFormed : IsWellFormed (empty_response rt)
  unfolding contains
  empty_response-IsWellFormed = record {
    category_allowed = refl;
    title_fits = omega arith;
    title_shown = refl;
    summary_shown = refl;
    unknown_useless = λ e. refl;
    action_text = refl;
  }

  module _ (cfg : Settings) (typed : IsTyped rt.validators)
      (no_key : has_text rt cfg cfg.kakao_rest_api_key ≡ false) where
    uncaught :
        (e : Error)
        → (e ≡ validation_error) ⊎ ((caught rt cfg (raise e) ≡ raise e) × (e ≢ validation_error))
    uncaught validation_error = inl refl
    uncaught type_error = inr (refl, λ h. cc)
    uncaught value_error = inr (refl, λ h. cc)
    uncaught attribute_error = inr (refl, λ h. cc)
    uncaught arithmetic_error = inr (refl, λ h. cc)
    uncaught import_error = inr (refl, λ h. cc)
    uncaught (other_error name) = inr (refl, λ h. cc)

    enriched :
        (category : Str) (st : CategoryStage2) (fs : Fields)
        → lookup category (category_stage2 rt.validators) ≡ some st
        → (r : Result Fields) → st.validate fs ≡ r
        → Detailed (caught rt cfg r >>= enrich_optional rt cfg category)
    unfolding enrich_details get
    enriched category st fs l (ok d) e = inl (
      some d,
      rw (no_key, enrich_details) (ground arith),
      lookup-All category (category_stage2 rt.validators) st (stages_typed rt.validators typed) l fs
          d e,
    )
    enriched category st fs l (raise x) e = elim (uncaught x) [
      | inl q ↦ inl (none, rw q refl, refl)
      | inr (q, n) ↦ inr (x, rw q refl, n, category, st, fs, l, e)
    ]

    validated-Detailed :
        (category : Str) (st : CategoryStage2) (o : Option Fields)
        → lookup category (category_stage2 rt.validators) ≡ some st
        → Detailed (validated rt cfg st o >>= enrich_optional rt cfg category)
    validated-Detailed category st none l = inl (none, refl, refl)
    validated-Detailed category st (some fs) l = enriched category st fs l (st.validate fs) refl

    extracted :
        (client : Option Client) (text locale : Str) (base : LlmAnalysis) (w : World)
        → Detailed (extract_details rt cfg client text locale base w).0
    unfolding extract_details get
    extracted client text locale base w =
        with_stage client (lookup base.category (category_stage2 rt.validators)) refl
      where
        with_stage :
            (c : Option Client) (o : Option CategoryStage2)
            → lookup base.category (category_stage2 rt.validators) ≡ o
            → Detailed (extract_with rt cfg o c text locale base w).0
        with_stage c none e = inl (none, refl, refl)
        with_stage none (some st) e = inl (none, refl, refl)
        with_stage (some c) (some st) e = validated-Detailed base.category st _ e

    responded :
        (client : Option Client) (b : Bool) (text locale : Str) (base : LlmAnalysis) (w : World)
        → Analyzed (staged rt cfg client b text locale base w).0
    responded client true text locale base w = elim (extracted client text locale base w) [
      | inl (d, e, t) ↦ let (r, e', v) = to_response-IsWellFormed base d t in inl (r, rw e e', v)
      | inr (x, e, n, c, st, fs, l, q) ↦ inr (x, rw e refl, n, c, st, fs, l, q)
    ]
    responded client false text locale base w = inl (to_response-IsWellFormed base none refl)

    -- Whatever texts or LlmErrors the client answers, `analyze` either returns a response or raises
    -- an exception that the validation of the details raises and that is no ValidationError; a
    -- ValidationError never leaves it. In the response the category is an allowed one, the title
    -- has 1 to 40 characters, the summary is not empty, an unknown category is never useful, and
    -- the action is a text or None. This supposes that validated details have a text or None as
    -- their action, and no key for the place service.
    pub analyze-IsWellFormed :
        (client : Option Client) (masked_text locale : Str) (w : World)
        → Analyzed (analyze rt cfg client masked_text locale w).0
    unfolding analyze
    analyze-IsWellFormed client masked_text locale w =
        elim (Bool-cases (nonempty (strip masked_text))) [
          | inl e ↦
              let text = strip masked_text in
              let (base, w') = classify rt cfg client text locale w in
              rw e (responded client base.is_useful text locale base w')
          | inr e ↦ inl (empty_response rt, rw e, empty_response-IsWellFormed)
        ]
