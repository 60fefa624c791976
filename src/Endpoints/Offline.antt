-- ===== src/Endpoints/Offline.antt =====
-- When a request to /v1/analyze is answered, on a server without a language model.
use capturemate_ai.Prelude.{ℕ, ◌≡◌, sym, ap, subst, Option, none, List, Str}
use capturemate_ai.Prelude.Int.{ℤ}
use capturemate_ai.Json.{Value, Result, ok, raise, ok_inj, raise-ok}
use capturemate_ai.Models.{Settings, AnalyzeBatchItem, MemoGroup}
use capturemate_ai.Privacy.{Span}
use capturemate_ai.Service.{Runtime, Client, World}
use capturemate_ai.Auth.{AuthenticatedUser, get_current_user, success}
use capturemate_ai.Engine.{Loaded, engine, Cache, get_ocr_engine}
use capturemate_ai.Images.{Answer, answer, parse_metadata}
use capturemate_ai.Images.Collected.{IsItemModel, answers-bind}
use capturemate_ai.Images.Loop.{AllFine, read_images-answers}
use capturemate_ai.Batch.{Embedder, group_items, analyze_batch}
use capturemate_ai.Batch.Offline.{analyze_batch-offline}
use capturemate_ai.Endpoints.{
  Backend, Server, AnalyzeImages, of_http, engine_or_503, require_user, of_result, analyze_items,
  analyze_loaded, analyze_parsed, analyze_images,
}
use capturemate_ai.Endpoints.Answered.{IsAnswered, analyze_images-IsAnswered}

-- Whatever the texts and times, the grouping returns.
abbrev pub Groups : Runtime → Settings → Option Embedder → Type 0
Groups rt cfg embedding =
    (masked : List Str) (times : List (Option ℤ))
    → (groups : List (List ℕ)) × (group_items rt cfg embedding masked times ≡ ok groups)

batch-returns :
    (rt : Runtime) (cfg : Settings) (client : Option Client) (embedding : Option Embedder)
    (detect : Str → Option (List Span)) (locale : Str) (items : List AnalyzeBatchItem) (w : World)
    → client ≡ none
    → Groups rt cfg embedding
    → (gs : List MemoGroup) × ((analyze_batch rt cfg client locale detect embedding items w).0
        ≡ ok gs)
batch-returns rt cfg client embedding detect locale items w off grouping =
    let (groups, e) = grouping _ _ in
    let (gs, r, m) = analyze_batch-offline rt cfg locale detect embedding items w groups e in
    (
      gs,
      subst (λ c. (analyze_batch rt cfg c locale detect embedding items w).0 ≡ ok gs) (sym off) r,
    )

module _ {Engine Token : Type 0} (backend : Backend Engine Token) where
  open backend use {rt, cfg, jwt, client, embedding, detect, load, extract, validate}

  of_result-answers :
      (r : Result (List MemoGroup) × World) (gs : List MemoGroup)
      → r.0 ≡ ok gs
      → (of_result backend r).0 ≡ answer gs
  of_result-answers (ok hs, w) gs h = ap answer (ok_inj h)
  of_result-answers (raise e, w) gs h = absurd (raise-ok h)

  loaded-answers :
      (request : AnalyzeImages Token) (meta : List Value) (l : Loaded Engine) (c : Cache Engine)
      (w : World) (e : Engine)
      → l ≡ engine e
      → (model : IsItemModel validate) → AllFine (extract e) validate meta model 0 request.images
      → client ≡ none
      → Groups rt cfg embedding
      → (gs : List MemoGroup) × ((analyze_loaded backend request meta (l, c) w).0 ≡ answer gs)
  unfolding analyze_loaded engine_or_503 analyze_items
  loaded-answers request meta l c w e same model fine off grouping =
      let (items, read) =
        read_images-answers (extract e) validate meta model 0 request.images fine in
      let (gs, r) =
        batch-returns rt cfg client embedding detect request.locale items w off grouping in
      (
        gs,
        rw (same, read)
            (of_result-answers (analyze_batch rt cfg client request.locale detect embedding items w)
              gs r),
      )

  parsed-answers :
      (request : AnalyzeImages Token) (m : Answer (List Value)) (meta : List Value)
      (s : Server Engine) (gs : List MemoGroup)
      → m ≡ answer meta
      → (analyze_loaded backend request meta (get_ocr_engine load s.cache) s.world).0 ≡ answer gs
      → (analyze_parsed backend request m s).0 ≡ answer gs
  parsed-answers request m meta s gs e h = rw e h

  -- On a server without a language model whose grouping returns, /v1/analyze answers a request with
  -- memos, if the credentials name a user, the metadata are absent or JSON, the engine is there or
  -- can be constructed, and no image is too large and each has metadata that make an item: whatever
  -- images cannot be read and whatever texts cannot be extracted. The memos are as for every
  -- answered request. This supposes the documented behaviour of the item's model.
  pub analyze_images-answers :
      (model : IsItemModel validate) (request : AnalyzeImages Token) (s : Server Engine)
      (user : AuthenticatedUser) (meta : List Value) (e : Engine)
      → client ≡ none
      → Groups rt cfg embedding
      → get_current_user cfg jwt rt.unicode request.now request.credentials ≡ success user
      → parse_metadata rt.json_loads request.metadata ≡ answer meta
      → (get_ocr_engine load s.cache).0 ≡ engine e
      → AllFine (extract e) validate meta model 0 request.images
      → (groups : List MemoGroup) × ((analyze_images backend request s).0 ≡ answer groups)
        × IsAnswered backend request s groups
  unfolding analyze_images require_user
  analyze_images-answers model request s user meta e off grouping known parsed loaded fine =
      let (gs, r) =
        loaded-answers request meta (get_ocr_engine load s.cache).0 (get_ocr_engine load s.cache).1
          s.world e loaded model fine off grouping in
      let done : (analyze_images backend request s).0 ≡ answer gs =
        parsed-answers request _ meta s gs
          (answers-bind
            (of_http (get_current_user cfg jwt rt.unicode request.now request.credentials)) _
            (ap of_http known) parsed)
          r in
      (gs, done, analyze_images-IsAnswered backend model request s gs done)
