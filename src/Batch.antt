-- ===== src/Batch.antt =====
-- app/analysis/batch.py: masking, grouping and analysis of a batch of items.
pub mod Members
pub mod Steps
pub mod Coverage
pub mod Returns
pub mod Offline
use capturemate_ai.Prelude.{
  ℕ, zero, suc, Option, none, some, List, [], ◌∷◌, ◌++◌, map, Str, if◌then◌else◌, length, get_elem?,
  take, eqb, ◌==◌, str_eq,
}
use capturemate_ai.Prelude.Int.{ℤ}
use capturemate_ai.Prelude.Float.{Float}
use capturemate_ai.Prelude.Dict.{Dict, update}
use capturemate_ai.Prelude.Options
use capturemate_ai.Text.{codes, decimal, join, nonempty, or_text}
use capturemate_ai.Json.{Result, ok, raise, arithmetic_error, or_arithmetic, ◌>>=◌}
use capturemate_ai.Models.{Settings, AnalyzeResponse, AnalyzeBatchItem, MemoGroup}
use capturemate_ai.Preprocess.{preprocess_for_embedding}
use capturemate_ai.Privacy.{MaskResult, Span, mask_text}
use capturemate_ai.Grouping.{group_indices}
use capturemate_ai.Service.{Runtime, Client, World, analyze}
use capturemate_ai.Restore.{restore_in_response}
use capturemate_ai.Split.{split_restaurant_analysis}

-- [[i] for i in range(start, start + n)]
unfoldable pub singles : ℕ → ℕ → List (List ℕ)
singles start zero = []
singles start (suc n) = (start ∷ []) ∷ singles (suc start) n

-- What the embedding client gives for the texts; `none` is EmbeddingError.
abbrev pub Embedder : Type 0
Embedder = List Str → Option (List (List Float))

-- `_merge_with_source_refs`; source_index counts the members, `none` is an index out of range.
unfoldable pub source_parts : List Str → ℕ → List ℕ → Option (List Str)
unfolding decimal
source_parts masked source_index [] = some []
source_parts masked source_index (item_index ∷ idx_list) =
    Options.◌>>=◌ (get_elem? masked item_index) (λ text.
      Options.◌>>=◌ (source_parts masked (suc source_index) idx_list) (λ parts.
        if nonempty text
        then some (
            (codes "[SOURCE S"
              ++ (decimal source_index ++ (codes "]\n" ++ (text ++ codes "\n[/SOURCE]"))))
            ∷ parts)
        else some parts))

unfoldable pub merge_with_source_refs : List Str → List ℕ → Option Str
unfolding source_parts join
merge_with_source_refs masked idx_list =
    Options.◌>>=◌ (source_parts masked 0 idx_list) (λ parts. some (join (codes "\n\n") parts))

module _ (rt : Runtime) (cfg : Settings) where
  open rt use {unicode, floats}

  abbrev pub embed_input : Str → Str
  embed_input m = take 2000 (or_text (preprocess_for_embedding unicode m) m)

  -- `_group`, of the results of the embedding call.
  unfoldable pub group_embedded :
      List Str → List (Option ℤ) → Option (List (List Float)) → Result (List (List ℕ))
  unfolding singles group_indices
  group_embedded masked timestamps none = ok (singles 0 (length masked))
  group_embedded masked timestamps (some embeddings) =
      if eqb (length embeddings) (length masked)
      then or_arithmetic (
          group_indices floats embeddings timestamps cfg.grouping_threshold cfg.grouping_tau_seconds
            cfg.grouping_w_min)
      else ok (singles 0 (length masked))

  unfoldable pub group_items : Option Embedder → List Str → List (Option ℤ) → Result (List (List ℕ))
  unfolding singles group_embedded preprocess_for_embedding
  group_items none masked timestamps = ok (singles 0 (length masked))
  group_items (some embed) masked timestamps =
      group_embedded masked timestamps (embed (map embed_input masked))

  -- mask_text(item.maskedText, namespace=f"{i}_")
  unfoldable pub mask_items :
      (Str → Option (List Span)) → ℕ → List AnalyzeBatchItem → List MaskResult
  unfolding mask_text decimal
  mask_items detect i [] = []
  mask_items detect i (item ∷ items) =
      mask_text unicode cfg.use_presidio detect item.masked_text (decimal i ++ codes "_")
      ∷ mask_items detect (suc i) items

  -- The loop that merges the mappings of a group.
  unfoldable pub merge_mappings : List MaskResult → List ℕ → Dict Str Str → Option (Dict Str Str)
  unfolding update
  merge_mappings results [] merged = some merged
  merge_mappings results (i ∷ idx_list) merged =
      Options.◌>>=◌ (get_elem? results i)
        (λ mr. merge_mappings results idx_list (update merged mr.mapping))

  unfoldable pub client_ids : List AnalyzeBatchItem → List ℕ → Option (List Str)
  client_ids items [] = some []
  client_ids items (i ∷ idx_list) =
      Options.◌>>=◌ (get_elem? items i)
        (λ item. Options.◌>>=◌ (client_ids items idx_list) (λ ids. some (item.client_id ∷ ids)))

  -- MemoGroup(..., analysis=restore_in_response(group.analysis, mapping)) for each group
  unfoldable pub restore_groups : Dict Str Str → List MemoGroup → Result (List MemoGroup)
  unfolding restore_in_response
  restore_groups mapping [] = ok []
  restore_groups mapping (group ∷ groups) = do
    analysis ← restore_in_response group.analysis mapping
    restored ← restore_groups mapping groups
    ok (record group { analysis = analysis } ∷ restored)

  module _ (client : Option Client) (locale : Str) where
    abbrev or_alone : AnalyzeResponse → Str → Option (List MemoGroup) → List MemoGroup
    or_alone analysis client_id none =
        record { member_client_ids = client_id ∷ []; analysis = analysis } ∷ []
    or_alone analysis client_id (some groups) = groups

    abbrev split_of :
        AnalyzeResponse → List ℕ → List AnalyzeBatchItem → Result (Option (List MemoGroup))
    split_of analysis idx_list items =
        if analysis.category == codes "restaurant"
        then split_restaurant_analysis unicode floats rt.format analysis idx_list items
        else ok none

    -- The memos of one source, from its analysis.
    unfoldable pub source_groups :
        List AnalyzeBatchItem → List MaskResult → ℕ → AnalyzeResponse → Result (List MemoGroup)
    unfolding split_restaurant_analysis restore_groups
    source_groups items mask_results item_index analysis = do
      item ← or_arithmetic (get_elem? items item_index)
      mr ← or_arithmetic (get_elem? mask_results item_index)
      split ← split_of analysis (item_index ∷ []) items
      restore_groups mr.mapping (or_alone analysis item.client_id split)

    abbrev after {ℓ} :
        {A : Type ℓ}
        → Result A × World
        → (A → World → Result (List MemoGroup) × World)
        → Result (List MemoGroup) × World
    after (ok a, w) f = f a w
    after (raise e, w) f = (raise e, w)

    abbrev append_groups :
        List MemoGroup → Result (List MemoGroup) × World → Result (List MemoGroup) × World
    append_groups gs (ok gs', w) = (ok (gs ++ gs'), w)
    append_groups gs (raise e, w) = (raise e, w)

    abbrev analyze_of : Option Str → World → Result AnalyzeResponse × World
    analyze_of none w = (raise arithmetic_error, w)
    analyze_of (some merged) w = analyze rt cfg client merged locale w

    -- analyze(_merge_with_source_refs(masked, idx_list), locale)
    unfoldable pub analyze_merged : List Str → List ℕ → World → Result AnalyzeResponse × World
    unfolding merge_with_source_refs analyze
    analyze_merged masked idx_list w = analyze_of (merge_with_source_refs masked idx_list) w

    -- `_analyze_restaurant_sources_individually`
    unfoldable pub analyze_sources_individually :
        List AnalyzeBatchItem
        → List Str
        → List MaskResult
        → List ℕ
        → World
        → Result (List MemoGroup) × World
    unfolding analyze_merged source_groups
    analyze_sources_individually items masked mask_results [] w = (ok [], w)
    analyze_sources_individually items masked mask_results (i ∷ idx_list) w =
        after (analyze_merged masked (i ∷ []) w) (λ analysis w'.
          after (source_groups items mask_results i analysis, w')
            (λ groups w''.
              append_groups groups
                (analyze_sources_individually items masked mask_results idx_list w'')))

    abbrev plain_group :
        List AnalyzeBatchItem → List ℕ → Dict Str Str → AnalyzeResponse → Result (List MemoGroup)
    plain_group items idx_list mapping analysis = do
      restored ← restore_in_response analysis mapping
      ids ← or_arithmetic (client_ids items idx_list)
      ok (record { member_client_ids = ids; analysis = restored } ∷ [])

    -- The loop body after the analysis of the group.
    unfoldable pub group_memos :
        List AnalyzeBatchItem
        → List Str
        → List MaskResult
        → List ℕ
        → Dict Str Str
        → AnalyzeResponse
        → World
        → Result (List MemoGroup) × World
    unfolding split_restaurant_analysis restore_groups restore_in_response client_ids
        analyze_sources_individually
    group_memos items masked mask_results idx_list mapping analysis w =
        let individually = analyze_sources_individually items masked mask_results idx_list w in
        if analysis.category == codes "restaurant"
        then after (split_restaurant_analysis unicode floats rt.format analysis idx_list items, w)
            (λ split w'. elim split [
              | none ↦ individually
              | some groups ↦ (restore_groups mapping groups, w')
            ])
        else (plain_group items idx_list mapping analysis, w)

    -- The loop over the groups.
    unfoldable pub analyze_groups :
        List AnalyzeBatchItem
        → List Str
        → List MaskResult
        → List (List ℕ)
        → World
        → Result (List MemoGroup) × World
    unfolding merge_mappings analyze_merged group_memos
    analyze_groups items masked mask_results [] w = (ok [], w)
    analyze_groups items masked mask_results (idx_list ∷ groups) w =
        after (or_arithmetic (merge_mappings mask_results idx_list []), w)
          (λ mapping w₀. after (analyze_merged masked idx_list w₀) (λ analysis w₁.
            after (group_memos items masked mask_results idx_list mapping analysis w₁) (λ memos w₂.
              append_groups memos (analyze_groups items masked mask_results groups w₂))))

    abbrev masked_texts : List MaskResult → List Str
    masked_texts = map (λ mr. mr.text)

    abbrev captured_times : List AnalyzeBatchItem → List (Option ℤ)
    captured_times = map (λ item. item.captured_at)

    -- `BatchAnalyzer.analyze_batch`
    unfoldable pub analyze_batch :
        (Str → Option (List Span))
        → Option Embedder
        → List AnalyzeBatchItem
        → World
        → Result (List MemoGroup) × World
    unfolding mask_items group_items analyze_groups
    analyze_batch detect embedding [] w = (ok [], w)
    analyze_batch detect embedding (item ∷ items) w =
        let all = item ∷ items in
        let mask_results = mask_items detect 0 all in
        let masked = masked_texts mask_results in
        after (group_items embedding masked (captured_times all), w)
          (λ groups w'. analyze_groups all masked mask_results groups w')
