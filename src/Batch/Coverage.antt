-- ===== src/Batch/Coverage.antt =====
-- The members of the memos that `analyze_batch` returns: every item's client id, and no other.
use capturemate_ai.Prelude.{
  ℕ, suc, ◌≡◌, refl, ap, ◌∙◌, inl, inr, ◌↔◌, Option, List, [], ◌∷◌, map, Str, In, In-map,
  In-map-from, length-map, get_elem?-lt, get_elem?-In, In-get_elem?, length, Bool-cases,
  Option-cases, ◌==◌, str_eq,
}
use capturemate_ai.Prelude.Dict.{Dict}
use capturemate_ai.Text.{codes}
use capturemate_ai.Privacy.{MaskResult, Span}
use capturemate_ai.Json.{ok, bind-ok, ok_inj, or_arithmetic, or_arithmetic-ok}
use capturemate_ai.Models.{AnalyzeResponse, AnalyzeBatchItem, MemoGroup, Settings}
use capturemate_ai.Places.Refs.{IsSource}
use capturemate_ai.Service.{Runtime, Client, World}
use capturemate_ai.Split.{split_restaurant_analysis}
use capturemate_ai.Places.Buckets.{Covers, HasMember}
use capturemate_ai.Split.Members.{split_restaurant_analysis-Covers}
use capturemate_ai.Restore.{restore_in_response}
use capturemate_ai.Batch.{
  mask_items, merge_mappings, group_items, client_ids, source_groups, analyze_merged,
  analyze_sources_individually, plain_group, group_memos, analyze_groups, masked_texts,
  captured_times, analyze_batch, Embedder,
}
use capturemate_ai.Batch.Members.{AllBelow, concat, group_items-AllBelow, client_ids-Members}
use capturemate_ai.Batch.Steps.{
  Covers-append, Covers-nil, ids-Covers, after-ok, append_groups-ok, restored-Covers,
  source_groups-Covers,
}

module _ (rt : Runtime) (cfg : Settings) (client : Option Client) (locale : Str) where
  open rt use {unicode, floats}

  sources-Covers :
      (items : List AnalyzeBatchItem) (masked : List Str) (mask_results : List MaskResult)
      (xs : List ℕ) (w : World) (gs : List MemoGroup)
      → (analyze_sources_individually rt cfg client locale items masked mask_results xs w).0 ≡ ok gs
      → Covers items xs gs
  unfolding analyze_sources_individually
  sources-Covers items masked mask_results [] w gs h = rw (ok_inj h) at (Covers-nil items)
  sources-Covers items masked mask_results (i ∷ xs) w gs h =
      let (a, ea, h₁) =
        after-ok rt cfg client locale (analyze_merged rt cfg client locale masked (i ∷ []) w) _ h in
      let w₁ = (analyze_merged rt cfg client locale masked (i ∷ []) w).1 in
      let (one, eo, h₂) =
        after-ok rt cfg client locale
          (source_groups rt cfg client locale items mask_results i a, w₁) _ h₁ in
      let rest =
        analyze_sources_individually rt cfg client locale items masked mask_results xs w₁ in
      let (hs, er, e) = append_groups-ok rt cfg client locale one rest h₂ in
      rw e at (
        Covers-append items (i ∷ []) xs one hs
          (source_groups-Covers rt cfg client locale items mask_results i a one eo)
          (sources-Covers items masked mask_results xs w₁ hs er))

  plain_group-Covers :
      (items : List AnalyzeBatchItem) (xs : List ℕ) (mapping : Dict Str Str) (a : AnalyzeResponse)
      (gs : List MemoGroup)
      → plain_group rt cfg client locale items xs mapping a ≡ ok gs
      → Covers items xs gs
  plain_group-Covers items xs mapping a gs h =
      let (restored, er, h₁) = bind-ok (restore_in_response a mapping) _ h in
      let (ids, ei, h₂) = bind-ok (or_arithmetic (client_ids rt cfg items xs)) _ h₁ in
      let members = client_ids-Members rt cfg items xs ids (or_arithmetic-ok _ ei) in
      rw (ok_inj h₂) at (ids-Covers items xs ids restored members)

  group_memos-Covers :
      (items : List AnalyzeBatchItem) (masked : List Str) (mask_results : List MaskResult)
      (xs : List ℕ) (mapping : Dict Str Str) (a : AnalyzeResponse) (w : World) (gs : List MemoGroup)
      → (group_memos rt cfg client locale items masked mask_results xs mapping a w).0 ≡ ok gs
      → Covers items xs gs
  unfolding group_memos
  group_memos-Covers items masked mask_results xs mapping a w gs h =
      elim (Bool-cases (a.category == codes "restaurant")) [
        | inr other ↦ plain_group-Covers items xs mapping a gs (rw other at h)
        | inl eats ↦
            let (split, es, h₁) =
              after-ok rt cfg client locale
                (split_restaurant_analysis unicode floats rt.format a xs items, w) _
                (rw eats at h) in
            elim (Option-cases split) [
              | inl e ↦ sources-Covers items masked mask_results xs w gs (rw e at h₁)
              | inr (found, e) ↦
                  restored-Covers rt cfg client locale items xs mapping found gs (rw e at h₁) (
                    split_restaurant_analysis-Covers unicode floats rt.format a xs items found
                      (es ∙ ap ok e))
            ]
      ]

  groups-Covers :
      (items : List AnalyzeBatchItem) (masked : List Str) (mask_results : List MaskResult)
      (groups : List (List ℕ)) (w : World) (gs : List MemoGroup)
      → (analyze_groups rt cfg client locale items masked mask_results groups w).0 ≡ ok gs
      → Covers items (concat groups) gs
  unfolding analyze_groups
  groups-Covers items masked mask_results [] w gs h = rw (ok_inj h) at (Covers-nil items)
  groups-Covers items masked mask_results (xs ∷ groups) w gs h =
      let (mapping, em, h₀) =
        after-ok rt cfg client locale (or_arithmetic (merge_mappings rt cfg mask_results xs []), w)
          _ h in
      let (a, ea, h₁) =
        after-ok rt cfg client locale (analyze_merged rt cfg client locale masked xs w) _ h₀ in
      let w₁ = (analyze_merged rt cfg client locale masked xs w).1 in
      let memos = group_memos rt cfg client locale items masked mask_results xs mapping a w₁ in
      let (one, eo, h₂) = after-ok rt cfg client locale memos _ h₁ in
      let rest = analyze_groups rt cfg client locale items masked mask_results groups memos.1 in
      let (hs, er, e') = append_groups-ok rt cfg client locale one rest h₂ in
      rw e' at (
        Covers-append items xs (concat groups) one hs
          (group_memos-Covers items masked mask_results xs mapping a w₁ one eo)
          (groups-Covers items masked mask_results groups memos.1 hs er))

  pub length-mask_items :
      (detect : Str → Option (List Span)) (i : ℕ) (items : List AnalyzeBatchItem)
      → length (mask_items rt cfg detect i items) ≡ length items
  unfolding mask_items
  length-mask_items detect i [] = refl
  length-mask_items detect i (item ∷ items) = ap suc (length-mask_items detect (suc i) items)

  -- Indices that are those of the items name the client ids of the items.
  abbrev pub client_id_of : AnalyzeBatchItem → Str
  client_id_of item = item.client_id

  all_sources :
      (items : List AnalyzeBatchItem) (groups : List (List ℕ)) (id : Str)
      → AllBelow (length items) groups
      → IsSource items (concat groups) id ↔ In id (map client_id_of items)
  all_sources items groups id all = (
    λ s. rw s.same_id (In-map client_id_of (get_elem?-In items s.index s.at_index)),
    λ i.
        let (item, j, e) = In-map-from client_id_of items i in
        let (k, at_k) = In-get_elem? items j in
        record {
          index = k;
          item = item;
          listed = (all k).1 (get_elem?-lt items k at_k);
          at_index = at_k;
          same_id = e;
        },
  )

  -- Where analyze_batch returns memos, a client id is a member of one of them exactly when an item
  -- of the batch has it.
  pub analyze_batch-HasMember :
      (detect : Str → Option (List Span)) (embedding : Option Embedder)
      (items : List AnalyzeBatchItem) (w : World) (gs : List MemoGroup)
      → (analyze_batch rt cfg client locale detect embedding items w).0 ≡ ok gs
      → (id : Str) → HasMember gs id ↔ In id (map client_id_of items)
  unfolding analyze_batch
  analyze_batch-HasMember detect embedding [] w gs h id =
      (λ (g, i, m). elim (rw (← ok_inj h) at i) [ ], λ i. elim i [ ])
  analyze_batch-HasMember detect embedding (item ∷ items) w gs h id =
      let all = item ∷ items in
      let mask_results = mask_items rt cfg detect 0 all in
      let masked = masked_texts rt cfg client locale mask_results in
      let size : length masked ≡ length all =
        length-map (λ (mr : MaskResult). mr.text) mask_results ∙ length-mask_items detect 0 all in
      let (groups, r, h') =
        after-ok rt cfg client locale
          (group_items rt cfg embedding masked (captured_times rt cfg client locale all), w) _ h in
      let covers = groups-Covers all masked mask_results groups w gs h' in
      let below = rw size at (group_items-AllBelow rt cfg embedding masked _ groups r) in
      let (to, back) = all_sources all groups id below in
      (λ m. to (covers.sound id m), λ i. covers.complete id (back i))
