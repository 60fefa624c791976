-- ===== src/Split.antt =====
-- `_split_restaurant_analysis` of app/analysis/batch.py: from the buckets to the memo groups.
pub mod Members
use capturemate_ai.Prelude.{
  ℕ, ◌&&◌, Option, none, some, List, [], ◌∷◌, Str, if◌then◌else◌, length, take,
}
use capturemate_ai.Prelude.Float.{FloatOps}
use capturemate_ai.Prelude.Dict.{values}
use capturemate_ai.Text.{Unicode, codes, join, fromkeys, nonempty}
use capturemate_ai.Json.{Value, Fields, list, end, Result, ok, ◌>>=◌, get, to_list}
use capturemate_ai.Models.{AnalyzeResponse, AnalyzeBatchItem, MemoGroup}
use capturemate_ai.Places.{
  Place, Bucket, Scan, source_refs, all_in, scan_entries, build_restaurant_server_memo_id,
  build_comparison_server_memo_id,
}
use capturemate_ai.Comparison.{combine_comparison_details}

-- The summaries of the entries that have one.
unfoldable pub summaries : List Place → List Str
summaries [] = []
summaries (e ∷ es) =
    let rest = summaries es in if nonempty e.summary then e.summary ∷ rest else rest

abbrev first_topic : List Str → Option Str
first_topic [] = none
first_topic (t ∷ ts) = some t

abbrev topic_or : List Str → Str → Str
topic_or [] title = title
topic_or (t ∷ ts) title = t

module _ (unicode : Unicode) (ops : FloatOps) (format : Value → Str)
    (analysis : AnalyzeResponse) where
  abbrev memo : Option Str → Str → Str → Value → Fields → AnalyzeResponse
  memo server_memo_id title summary action details = record analysis {
    server_memo_id = server_memo_id;
    title = take 40 title;
    summary = summary;
    recommended_action = action;
    details = some details;
  }

  abbrev single_memo : Place → AnalyzeResponse
  single_memo e =
      memo (build_restaurant_server_memo_id unicode e.details e.title) e.title e.summary
        e.recommended_action e.details

  abbrev comparison_memo : Bucket → Result AnalyzeResponse
  comparison_memo b = do
    details ← combine_comparison_details ops format b.entries
    ok (
        memo (build_comparison_server_memo_id unicode (first_topic b.topic_keys) b.source_keys)
          (topic_or b.topic_keys analysis.title) (join (codes " ") (fromkeys (summaries b.entries)))
          analysis.recommended_action details)

  abbrev bucket_memo : Bucket → List Place → Result AnalyzeResponse
  bucket_memo b (e ∷ []) = ok (single_memo e)
  bucket_memo b _ = comparison_memo b

  -- One bucket gives one memo group.
  unfoldable pub bucket_group : Bucket → Result MemoGroup
  unfolding combine_comparison_details build_restaurant_server_memo_id
      build_comparison_server_memo_id summaries join fromkeys
  bucket_group b = do
    analysis' ← bucket_memo b b.entries
    ok (record { member_client_ids = fromkeys b.member_ids; analysis = analysis' })

  unfoldable pub bucket_groups : List Bucket → Result (List MemoGroup)
  unfolding bucket_group
  bucket_groups [] = ok []
  bucket_groups (b ∷ bs) = do g ← bucket_group b; gs ← bucket_groups bs; ok (g ∷ gs)

  module _ (idx_list : List ℕ) (items : List AnalyzeBatchItem) where
    abbrev finish : Option Scan → Result (Option (List MemoGroup))
    finish none = ok none
    finish (some scan) =
        if all_in (source_refs 0 (length idx_list)) scan.covered
          && all_in scan.covered (source_refs 0 (length idx_list))
        then (bucket_groups (values scan.buckets) >>= λ gs. ok (some gs))
        else ok none

    abbrev split_list : List Value → Result (Option (List MemoGroup))
    split_list [] = ok none
    split_list (v ∷ vs) = do
      scan ←
          scan_entries unicode format analysis idx_list items
            (record { covered = []; buckets = [] }) (v ∷ vs)
      finish scan

    abbrev split_value : Value → Result (Option (List MemoGroup))
    split_value (list vs) = split_list (to_list vs)
    split_value _ = ok none

    abbrev details_or_empty : Option Fields → Fields
    details_or_empty none = end
    details_or_empty (some details) = details

    -- `_split_restaurant_analysis`; `ok none` is its `None`.
    unfoldable pub split_restaurant_analysis : Result (Option (List MemoGroup))
    unfolding get to_list scan_entries all_in source_refs bucket_groups
    split_restaurant_analysis =
        split_value (get (codes "restaurants") (details_or_empty analysis.details))
