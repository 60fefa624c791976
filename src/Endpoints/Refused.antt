-- ===== src/Endpoints/Refused.antt =====
-- Why a request is refused, and what it has changed by then.
use capturemate_ai.Prelude.{ℕ, ◌≡◌, refl, sym, inl, inr, none, some, List, Str, In}
use capturemate_ai.Json.{Value, Result, ok, raise}
use capturemate_ai.Models.{AnalyzeBatchItem, MemoGroup}
use capturemate_ai.Service.{World}
use capturemate_ai.Auth.{get_current_user, Http, success, http_error, exception}
use capturemate_ai.Engine.{Loaded, engine, import_error, load_failure, get_ocr_engine}
use capturemate_ai.Engine.Failed.{Failed, get_ocr_engine-Failed}
use capturemate_ai.Images.{
  Answer, answer, refused, uncaught, ◌>>=◌, Upload, parse_metadata, read_images,
}
use capturemate_ai.Images.Refused.{
  refused_inj, answer-refused, uncaught-refused, bind-refused, parse_metadata-refused, IsLarge,
  read_images-refused,
}
use capturemate_ai.Batch.{analyze_batch}
use capturemate_ai.Endpoints.{
  Backend, Server, AnalyzeImages, of_http, engine_or_503, require_user, of_result, analyze_items,
  analyze_loaded, analyze_parsed, analyze_images,
}

of_http-refused :
    {A : Type 0} (r : Http A) (n : ℕ) (d : Str) → of_http r ≡ refused n d → r ≡ http_error n d
of_http-refused (success a) n d h = absurd (answer-refused h)
of_http-refused (http_error m d') n d h = rw ((refused_inj h).0, (refused_inj h).1) refl
of_http-refused (exception e) n d h = absurd (uncaught-refused h)

engine_or_503-refused :
    {Engine : Type 0} (l : Loaded Engine) (n : ℕ) (d : Str)
    → engine_or_503 l ≡ refused n d
    → (n ≡ 503) × ((e : Engine) → ¬ l ≡ engine e)
unfolding engine_or_503
engine_or_503-refused (engine e) n d h = absurd (answer-refused h)
engine_or_503-refused (import_error s) n d h = (sym (refused_inj h).0, λ e c. cc)
engine_or_503-refused (load_failure s) n d h = (sym (refused_inj h).0, λ e c. cc)

module _ {Engine Token : Type 0} (backend : Backend Engine Token) where
  open backend use {rt, cfg, jwt, client, embedding, detect, load, extract, validate}

  -- Why a request is refused, and the server that the refusal leaves behind.
  pub data Cause (request : AnalyzeImages Token) (s : Server Engine) (status : ℕ) (detail : Str)
      (s' : Server Engine) : Type 0 where
    unauthenticated :
        get_current_user cfg jwt rt.unicode request.now request.credentials
          ≡ http_error status detail
        → s' ≡ s
        → Cause request s status detail s'
    bad_metadata :
        (text : Str)
        → request.metadata ≡ some text
        → rt.json_loads text ≡ none
        → status ≡ 400
        → s' ≡ s
        → Cause request s status detail s'
    no_engine :
        Failed s.cache s'.cache
        → status ≡ 503
        → s'.world ≡ s.world
        → Cause request s status detail s'
    too_large :
        (image : Upload)
        → In image request.images
        → IsLarge image
        → status ≡ 413
        → s'.world ≡ s.world
        → Cause request s status detail s'

  of_result-refused :
      (r : Result (List MemoGroup) × World) {n : ℕ} {d : Str}
      → ¬ (of_result backend r).0 ≡ refused n d
  of_result-refused (ok hs, w) h = answer-refused h
  of_result-refused (raise e, w) h = uncaught-refused h

  items-refused :
      (locale : Str) (r : Answer (List AnalyzeBatchItem)) (w : World) (n : ℕ) (d : Str)
      → (analyze_items backend locale r w).0 ≡ refused n d
      → (r ≡ refused n d) × ((analyze_items backend locale r w).1 ≡ w)
  unfolding analyze_items
  items-refused locale (answer items) w n d h =
      absurd (of_result-refused (analyze_batch rt cfg client locale detect embedding items w) h)
  items-refused locale (refused m d') w n d h =
      let (same, told) = refused_inj h in (rw (same, told) refl, refl)
  items-refused locale (uncaught e) w n d h = absurd (uncaught-refused h)

  loaded-Cause :
      (request : AnalyzeImages Token) (s : Server Engine) (meta : List Value) (n : ℕ) (d : Str)
      → (analyze_loaded backend request meta (get_ocr_engine load s.cache) s.world).0 ≡ refused n d
      → Cause request s n d
          (analyze_loaded backend request meta (get_ocr_engine load s.cache) s.world).1
  unfolding analyze_loaded
  loaded-Cause request s meta n d h =
      let l = get_ocr_engine load s.cache in
      let (r, kept) =
        items-refused request.locale
          (engine_or_503 l.0 >>= (λ e. read_images (extract e) validate meta 0 request.images))
          s.world n d h in
      elim (bind-refused (engine_or_503 l.0) _ r) [
        | inl stopped ↦
            let (code, failed) = engine_or_503-refused l.0 n d stopped in
            no_engine (get_ocr_engine-Failed load s.cache failed) code kept
        | inr (e, loaded, read) ↦
            let (code, (image, m, big)) =
              read_images-refused (extract e) validate meta 0 request.images n d read in
            too_large image m big code kept
      ]

  parsed-Cause :
      (request : AnalyzeImages Token) (s : Server Engine) (m : Answer (List Value)) (n : ℕ)
      (d : Str)
      → ((m' : ℕ) (d' : Str) → m ≡ refused m' d' → Cause request s m' d' s)
      → (analyze_parsed backend request m s).0 ≡ refused n d
      → Cause request s n d (analyze_parsed backend request m s).1
  parsed-Cause request s (answer meta) n d f h = loaded-Cause request s meta n d h
  parsed-Cause request s (refused m' d') n d f h =
      let (same, told) = refused_inj h in f n d (rw (same, told) refl)
  parsed-Cause request s (uncaught e) n d f h = absurd (uncaught-refused h)

  -- If /v1/analyze refuses a request, then no call to the language model was made, and: the
  -- credentials were refused, with that status and detail; or the metadata are no JSON and the
  -- status is 400; or there was no engine, its construction failed once more and the status is 503;
  -- or an image that could be read is larger than 12 MB and the status is 413. Before the engine is
  -- asked for, the server is left as it was.
  pub analyze_images-Cause :
      (request : AnalyzeImages Token) (s : Server Engine) (status : ℕ) (detail : Str)
      → (analyze_images backend request s).0 ≡ refused status detail
      → Cause request s status detail (analyze_images backend request s).1
  unfolding analyze_images require_user
  analyze_images-Cause request s status detail h =
      let user = of_http (get_current_user cfg jwt rt.unicode request.now request.credentials) in
      parsed-Cause request s (user >>= (λ u. parse_metadata rt.json_loads request.metadata)) status
        detail
        (λ n d e. elim (bind-refused user _ e) [
          | inl r ↦ unauthenticated (of_http-refused _ n d r) refl
          | inr (u, a, bad) ↦
              let (code, (text, given, broken)) =
                parse_metadata-refused rt.json_loads request.metadata n d bad in
              bad_metadata text given broken code refl
        ])
        h
