-- ===== src/Endpoints/Answered.antt =====
-- What an answered request has gone through, and when a request is answered.
use capturemate_ai.Prelude.{◌≡◌, refl, ap, ◌↔◌, List, map, Str, In}
use capturemate_ai.Json.{Value, Result, ok, raise}
use capturemate_ai.Models.{AnalyzeBatchItem, MemoGroup}
use capturemate_ai.Service.{World}
use capturemate_ai.Auth.{AuthenticatedUser, get_current_user, Http, success, http_error, exception}
use capturemate_ai.Engine.{Loaded, engine, import_error, load_failure, Cache, get_ocr_engine}
use capturemate_ai.Images.{Answer, answer, refused, uncaught, parse_metadata, read_images}
use capturemate_ai.Images.Collected.{
  Collected, IsItemModel, bind-answer, answer_inj, refused-answer, uncaught-answer,
}
use capturemate_ai.Images.Loop.{read_images-Collected}
use capturemate_ai.Places.Buckets.{HasMember}
use capturemate_ai.Batch.{analyze_batch}
use capturemate_ai.Batch.Coverage.{analyze_batch-HasMember}
use capturemate_ai.Endpoints.{
  Backend, Server, AnalyzeImages, of_http, engine_or_503, require_user, of_result, analyze_items,
  analyze_loaded, analyze_parsed, analyze_images,
}

pub of_http-success : {A : Type 0} (r : Http A) (a : A) → of_http r ≡ answer a → r ≡ success a
of_http-success (success x) a h = ap success (answer_inj h)
of_http-success (http_error n d) a h = absurd (refused-answer h)
of_http-success (exception e) a h = absurd (uncaught-answer h)

engine_or_503-engine :
    {Engine : Type 0} (l : Loaded Engine) (e : Engine) → engine_or_503 l ≡ answer e → l ≡ engine e
unfolding engine_or_503
engine_or_503-engine (engine x) e h = ap engine (answer_inj h)
engine_or_503-engine (import_error s) e h = absurd (refused-answer h)
engine_or_503-engine (load_failure s) e h = absurd (refused-answer h)

module _ {Engine Token : Type 0} (backend : Backend Engine Token) where
  open backend use {rt, cfg, jwt, client, embedding, detect, load, extract, validate}

  abbrev client_ids_of : List AnalyzeBatchItem → List Str
  client_ids_of items = map (λ (item : AnalyzeBatchItem). item.client_id) items

  -- What has happened to a request that is answered with some memos.
  pub record IsAnswered (request : AnalyzeImages Token) (s : Server Engine)
      (groups : List MemoGroup) : Type 0 where
    pub user : AuthenticatedUser
    pub authenticated :
        get_current_user cfg jwt rt.unicode request.now request.credentials ≡ success user
    pub meta : List Value
    pub parsed : parse_metadata rt.json_loads request.metadata ≡ answer meta
    pub ocr_engine : Engine
    pub loaded : (get_ocr_engine load s.cache).0 ≡ engine ocr_engine
    pub items : List AnalyzeBatchItem
    pub collected : Collected (extract ocr_engine) validate meta 0 request.images items
    pub members : (id : Str) → HasMember groups id ↔ In id (client_ids_of items)

  of_result-ok :
      (r : Result (List MemoGroup) × World) (gs : List MemoGroup)
      → (of_result backend r).0 ≡ answer gs
      → r.0 ≡ ok gs
  of_result-ok (ok hs, w) gs h = ap ok (answer_inj h)
  of_result-ok (raise e, w) gs h = absurd (uncaught-answer h)

  items-answer :
      (locale : Str) (r : Answer (List AnalyzeBatchItem)) (w : World) (gs : List MemoGroup)
      → (analyze_items backend locale r w).0 ≡ answer gs
      → (items : List AnalyzeBatchItem) × (r ≡ answer items)
        × ((analyze_batch rt cfg client locale detect embedding items w).0 ≡ ok gs)
  unfolding analyze_items
  items-answer locale (answer items) w gs h =
      (items, refl, of_result-ok (analyze_batch rt cfg client locale detect embedding items w) gs h)
  items-answer locale (refused n d) w gs h = absurd (refused-answer h)
  items-answer locale (uncaught e) w gs h = absurd (uncaught-answer h)

  parsed-answer :
      (request : AnalyzeImages Token) (m : Answer (List Value)) (s : Server Engine)
      (gs : List MemoGroup)
      → (analyze_parsed backend request m s).0 ≡ answer gs
      → (meta : List Value) × (m ≡ answer meta)
        × ((analyze_loaded backend request meta (get_ocr_engine load s.cache) s.world).0
            ≡ answer gs)
  parsed-answer request (answer meta) s gs h = (meta, refl, h)
  parsed-answer request (refused n d) s gs h = absurd (refused-answer h)
  parsed-answer request (uncaught e) s gs h = absurd (uncaught-answer h)

  loaded-answer :
      (request : AnalyzeImages Token) (meta : List Value) (l : Loaded Engine × Cache Engine)
      (w : World) (gs : List MemoGroup)
      → (analyze_loaded backend request meta l w).0 ≡ answer gs
      → (e : Engine) × (l.0 ≡ engine e)
        × ((items : List AnalyzeBatchItem) × (read_images (extract e) validate meta 0 request.images
              ≡ answer items)
            × ((analyze_batch rt cfg client request.locale detect embedding items w).0 ≡ ok gs))
  unfolding analyze_loaded
  loaded-answer request meta (l, c) w gs h =
      let (items, r, batch) = items-answer request.locale _ w gs h in
      let (e, le, read) = bind-answer (engine_or_503 l) _ r in
      (e, engine_or_503-engine l e le, (items, read, batch))

  -- Where /v1/analyze answers with memos: the credentials name a user, the metadata are absent or
  -- JSON, there is an engine, no image that could be read is larger than 12 MB, and a client id is
  -- a member of a memo exactly when it is the id of an image from which ten characters or more
  -- could be extracted. This supposes the documented behaviour of the item's model.
  pub analyze_images-IsAnswered :
      IsItemModel validate
      → (request : AnalyzeImages Token) (s : Server Engine) (groups : List MemoGroup)
      → (analyze_images backend request s).0 ≡ answer groups
      → IsAnswered request s groups
  unfolding analyze_images require_user
  analyze_images-IsAnswered model request s groups h =
      let (meta, m, h₁) = parsed-answer request _ s groups h in
      let (user, u, parsed) =
        bind-answer (of_http (get_current_user cfg jwt rt.unicode request.now request.credentials))
          _ m in
      let (e, loaded, (items, read, batch)) =
        loaded-answer request meta (get_ocr_engine load s.cache) s.world groups h₁ in
      record {
        user = user;
        authenticated = of_http-success _ user u;
        meta = meta;
        parsed = parsed;
        ocr_engine = e;
        loaded = loaded;
        items = items;
        collected =
            read_images-Collected (extract e) validate meta model 0 request.images items read;
        members =
            analyze_batch-HasMember rt cfg client request.locale detect embedding items s.world
              groups batch;
      }
