-- ===== src/Batch/Offline.antt =====
-- The batch without a client: each step returns, and so does the whole.
use capturemate_ai.Prelude.{
  ℕ, ◌<◌, ◌≡◌, refl, ap, inl, inr, ◌↔◌, Option, none, List, [], ◌∷◌, map, Str, In, here, there,
  length-map, get_elem?_of_lt, In-append_left, In-append_right, length, get_elem?, Bool-cases,
  arith, ◌==◌, str_eq,
}
use capturemate_ai.Prelude.Dict.{Dict}
use capturemate_ai.Text.{codes}
use capturemate_ai.Privacy.{MaskResult, Span}
use capturemate_ai.Json.{ok, bind-returns, or_arithmetic}
use capturemate_ai.Models.{AnalyzeResponse, AnalyzeBatchItem, MemoGroup, Settings}
use capturemate_ai.Service.{Runtime, World}
use capturemate_ai.Service.Offline.{IsPlain}
use capturemate_ai.Split.{split_restaurant_analysis}
use capturemate_ai.Places.Buckets.{HasMember}
use capturemate_ai.Restore.{restore_in_response}
use capturemate_ai.Restore.Returns.{restored_response}
use capturemate_ai.Batch.{
  mask_items, merge_mappings, group_items, client_ids, restore_groups, split_of, source_groups,
  analyze_merged, analyze_sources_individually, plain_group, group_memos, analyze_groups,
  masked_texts, captured_times, analyze_batch, Embedder,
}
use capturemate_ai.Batch.Members.{concat, group_items-AllBelow}
use capturemate_ai.Batch.Coverage.{client_id_of, length-mask_items, analyze_batch-HasMember}
use capturemate_ai.Batch.Returns.{
  Below, Returns, after-Returns, append_groups-Returns, merge_mappings-returns, client_ids-returns,
  analyze_merged-IsPlain, no_split,
}

module _ (rt : Runtime) (cfg : Settings) (locale : Str) where
  open rt use {unicode, floats}

  restore_alone :
      (mapping : Dict Str Str) (ids : List Str) (a : AnalyzeResponse)
      → IsPlain a
      → (gs : List MemoGroup) × (restore_groups rt cfg mapping
            (record { member_client_ids = ids; analysis = a } ∷ [])
          ≡ ok gs)
  unfolding restore_groups
  restore_alone mapping ids a p =
      let (a', e) = restored_response a mapping p.action_text in
      (_, bind-returns (restore_in_response a mapping) _ e refl)

  source_groups-returns :
      (items : List AnalyzeBatchItem) (results : List MaskResult) (i : ℕ) (a : AnalyzeResponse)
      → i < length items
      → i < length results
      → IsPlain a
      → (gs : List MemoGroup) × (source_groups rt cfg none locale items results i a ≡ ok gs)
  unfolding source_groups
  source_groups-returns items results i a li lr p =
      let (item, ei) = get_elem?_of_lt items i li in
      let (mr, em) = get_elem?_of_lt results i lr in
      let (gs, e) = restore_alone mr.mapping (item.client_id ∷ []) a p in
      (
        gs,
        bind-returns (or_arithmetic (get_elem? items i)) _ (ap or_arithmetic ei) (
            bind-returns (or_arithmetic (get_elem? results i)) _ (ap or_arithmetic em) (
              bind-returns (split_of rt cfg none locale a (i ∷ []) items) _ (unsplit item.client_id)
                e)),
      )
    where
      unsplit : Str → split_of rt cfg none locale a (i ∷ []) items ≡ ok none
      unsplit id = elim (Bool-cases (a.category == codes "restaurant")) [
        | inl eats ↦ rw eats (no_split rt cfg locale a (i ∷ []) items p)
        | inr other ↦ rw other refl
      ]

  sources-Returns :
      (items : List AnalyzeBatchItem) (masked : List Str) (results : List MaskResult) (xs : List ℕ)
      (w : World)
      → Below (length items) xs
      → Below (length masked) xs
      → Below (length results) xs
      → Returns rt cfg locale
          (analyze_sources_individually rt cfg none locale items masked results xs w)
  unfolding analyze_sources_individually
  sources-Returns items masked results [] w bi bm br = ([], refl)
  sources-Returns items masked results (i ∷ xs) w bi bm br =
      let one : Below (length masked) (i ∷ []) =
        λ j m. elim m [ here e ↦ bm j (here e) | there n ↦ elim n [ ] ] in
      let (a, ea, p) = analyze_merged-IsPlain rt cfg locale masked (i ∷ []) w one in
      let w₁ = (analyze_merged rt cfg none locale masked (i ∷ []) w).1 in
      let (gs, eg) =
        source_groups-returns items results i a (bi i (here refl)) (br i (here refl)) p in
      after-Returns rt cfg locale (analyze_merged rt cfg none locale masked (i ∷ []) w) _ ea (
        after-Returns rt cfg locale (source_groups rt cfg none locale items results i a, w₁) _ eg
          (append_groups-Returns rt cfg locale gs _ (
            sources-Returns items masked results xs w₁ (λ j m. bi j (there m))
              (λ j m. bm j (there m)) (λ j m. br j (there m)))))

  plain_group-returns :
      (items : List AnalyzeBatchItem) (xs : List ℕ) (mapping : Dict Str Str) (a : AnalyzeResponse)
      → Below (length items) xs
      → IsPlain a
      → (gs : List MemoGroup) × (plain_group rt cfg none locale items xs mapping a ≡ ok gs)
  plain_group-returns items xs mapping a b p =
      let (a', e) = restored_response a mapping p.action_text in
      let (ids, e') = client_ids-returns rt cfg locale items xs b in
      (
        _,
        bind-returns (restore_in_response a mapping) _ e (
            bind-returns (or_arithmetic (client_ids rt cfg items xs)) _ (ap or_arithmetic e') refl),
      )

  group_memos-Returns :
      (items : List AnalyzeBatchItem) (masked : List Str) (results : List MaskResult) (xs : List ℕ)
      (mapping : Dict Str Str) (a : AnalyzeResponse) (w : World)
      → Below (length items) xs
      → Below (length masked) xs
      → Below (length results) xs
      → IsPlain a
      → Returns rt cfg locale (group_memos rt cfg none locale items masked results xs mapping a w)
  unfolding group_memos
  group_memos-Returns items masked results xs mapping a w bi bm br p =
      elim (Bool-cases (a.category == codes "restaurant")) [
        | inr other ↦ rw other (plain_group-returns items xs mapping a bi p)
        | inl eats ↦ rw eats (
            after-Returns rt cfg locale
              (split_restaurant_analysis unicode floats rt.format a xs items, w) _
              (no_split rt cfg locale a xs items p)
              (sources-Returns items masked results xs w bi bm br))
      ]

  groups-Returns :
      (items : List AnalyzeBatchItem) (masked : List Str) (results : List MaskResult)
      (groups : List (List ℕ)) (w : World)
      → Below (length items) (concat groups)
      → Below (length masked) (concat groups)
      → Below (length results) (concat groups)
      → Returns rt cfg locale (analyze_groups rt cfg none locale items masked results groups w)
  unfolding analyze_groups
  groups-Returns items masked results [] w bi bm br = ([], refl)
  groups-Returns items masked results (xs ∷ groups) w bi bm br =
      let (mapping, e) =
        merge_mappings-returns rt cfg locale results xs []
          (λ j m. br j (In-append_left (concat groups) m)) in
      let (a, ea, p) =
        analyze_merged-IsPlain rt cfg locale masked xs w
          (λ j m. bm j (In-append_left (concat groups) m)) in
      let w₁ = (analyze_merged rt cfg none locale masked xs w).1 in
      let memos = group_memos rt cfg none locale items masked results xs mapping a w₁ in
      let (gs, eg) =
        group_memos-Returns items masked results xs mapping a w₁
          (λ j m. bi j (In-append_left (concat groups) m))
          (λ j m. bm j (In-append_left (concat groups) m))
          (λ j m. br j (In-append_left (concat groups) m)) p in
      after-Returns rt cfg locale (or_arithmetic (merge_mappings rt cfg results xs []), w) _
        (ap or_arithmetic e)
        (after-Returns rt cfg locale (analyze_merged rt cfg none locale masked xs w) _ ea (
          after-Returns rt cfg locale memos _ eg (
            append_groups-Returns rt cfg locale gs _ (
              groups-Returns items masked results groups memos.1
                (λ j m. bi j (In-append_right xs m)) (λ j m. bm j (In-append_right xs m))
                (λ j m. br j (In-append_right xs m))))))

  batch-Returns :
      (detect : Str → Option (List Span)) (embedding : Option Embedder)
      (items : List AnalyzeBatchItem) (w : World) (groups : List (List ℕ))
      → group_items rt cfg embedding
          (masked_texts rt cfg none locale (mask_items rt cfg detect 0 items))
          (captured_times rt cfg none locale items)
        ≡ ok groups
      → Returns rt cfg locale (analyze_batch rt cfg none locale detect embedding items w)
  unfolding analyze_batch
  batch-Returns detect embedding [] w groups h = ([], refl)
  batch-Returns detect embedding (item ∷ items) w groups h =
      let all = item ∷ items in
      let results = mask_items rt cfg detect 0 all in
      let masked = masked_texts rt cfg none locale results in
      let many : length results ≡ length all = length-mask_items rt cfg none locale detect 0 all in
      let texts : length masked ≡ length results =
        length-map (λ (mr : MaskResult). mr.text) results in
      let below = group_items-AllBelow rt cfg embedding masked _ groups h in
      after-Returns rt cfg locale
        (group_items rt cfg embedding masked (captured_times rt cfg none locale all), w) _ h
        (groups-Returns all masked results groups w
          (λ j m. let lt = (below j).0 m in omega (arith, texts, many)) (λ j m. (below j).0 m)
          (λ j m. let lt = (below j).0 m in omega (arith, texts)))

  -- Without a client, if the grouping of the masked texts returns, then analyze_batch returns
  -- memos, and a client id is a member of one of them exactly when an item of the batch has it.
  pub analyze_batch-offline :
      (detect : Str → Option (List Span)) (embedding : Option Embedder)
      (items : List AnalyzeBatchItem) (w : World) (groups : List (List ℕ))
      → group_items rt cfg embedding
          (masked_texts rt cfg none locale (mask_items rt cfg detect 0 items))
          (captured_times rt cfg none locale items)
        ≡ ok groups
      → (gs : List MemoGroup) × ((analyze_batch rt cfg none locale detect embedding items w).0
          ≡ ok gs)
        × ((id : Str) → HasMember gs id ↔ In id (map (client_id_of rt cfg none locale) items))
  analyze_batch-offline detect embedding items w groups h =
      let (gs, e) = batch-Returns detect embedding items w groups h in
      (gs, e, analyze_batch-HasMember rt cfg none locale detect embedding items w gs e)
