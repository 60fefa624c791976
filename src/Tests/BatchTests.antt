-- ===== src/Tests/BatchTests.antt =====
-- Runs of a batch without a client.
use capturemate_ai.Prelude.{◌≡◌, refl, ◌↔◌, false, none, some, List, [], ◌∷◌, Str, In, map}
use capturemate_ai.Text.{codes}
use capturemate_ai.Json.{str, ok, list, dict, cons, nil, field, end}
use capturemate_ai.Split.{split_restaurant_analysis}
use capturemate_ai.Models.{AnalyzeBatchItem, AnalyzeResponse, MemoGroup}
use capturemate_ai.Places.Buckets.{Covers, HasMember}
use capturemate_ai.Split.Members.{split_restaurant_analysis-Covers}
use capturemate_ai.Batch.{analyze_batch, group_items, mask_items}
use capturemate_ai.Batch.Coverage.{client_id_of, analyze_batch-HasMember}
use capturemate_ai.Batch.Offline.{analyze_batch-offline}
use capturemate_ai.Restore.{restore_in_response}
use capturemate_ai.Restore.Kept.{IsRestored, restore_in_response-IsRestored}
use capturemate_ai.Categories.{category_stage2}
use capturemate_ai.Tests.Samples.{ascii, counting_floats, sample_runtime, sample_settings, fresh}

abbrev item_of : Str → Str → AnalyzeBatchItem
item_of id text = record { client_id = id; masked_text = text; captured_at = none }

abbrev two_items : List AnalyzeBatchItem
two_items = item_of (codes "one") (codes "x") ∷ item_of (codes "two") (codes "a@b.co") ∷ []

-- The fallback's response: its title and summary have the marks of the sources.
abbrev marked_response : Str → AnalyzeResponse
marked_response summary = record {
  server_memo_id = none;
  title = codes "[SOURCE S0]";
  summary = summary;
  category = codes "unknown";
  is_useful = false;
  recommended_action = str (codes "메모로 저장");
  reminder_at = none;
  details = none;
}

abbrev two_memos : List MemoGroup
two_memos =
    record {
      member_client_ids = codes "one" ∷ [];
      analysis = marked_response (codes "[SOURCE S0] x [/SOURCE]");
    }
    ∷ record {
      member_client_ids = codes "two" ∷ [];
      analysis = marked_response (codes "[SOURCE S0] a@b.co [/SOURCE]");
    }
    ∷ []

two_memos_run :
    (analyze_batch sample_runtime sample_settings none
      (codes "ko-KR")
      (λ s. none)
      none
      two_items
      fresh).0
    ≡ ok two_memos
unfolding analyze_batch category_stage2
two_memos_run = refl

analyze_batch-HasMember_example :
    HasMember two_memos (codes "two")
    ↔ In
        (codes "two")
        (map (client_id_of sample_runtime sample_settings none (codes "ko-KR")) two_items)
analyze_batch-HasMember_example =
    analyze_batch-HasMember sample_runtime sample_settings none (codes "ko-KR") (λ s. none) none
      two_items fresh two_memos two_memos_run (codes "two")

analyze_batch-offline_example :
    (gs : List MemoGroup) × ((analyze_batch sample_runtime sample_settings none
        (codes "ko-KR")
        (λ s. none)
        none
        two_items
        fresh).0
      ≡ ok gs)
    × ((id : Str)
        → HasMember gs id
          ↔ In id
              (map (client_id_of sample_runtime sample_settings none (codes "ko-KR")) two_items))
unfolding group_items mask_items
analyze_batch-offline_example =
    analyze_batch-offline sample_runtime sample_settings (codes "ko-KR") (λ s. none) none two_items
      fresh ((0 ∷ []) ∷ (1 ∷ []) ∷ []) refl

restore_in_response-IsRestored_example :
    (r' : AnalyzeResponse) × (restore_in_response
        (marked_response (codes "[EMAIL_1]"))
        ((codes "[EMAIL_1]", codes "a@b.co") ∷ [])
      ≡ ok r')
    × IsRestored ((codes "[EMAIL_1]", codes "a@b.co") ∷ []) (marked_response (codes "[EMAIL_1]")) r'
restore_in_response-IsRestored_example =
    restore_in_response-IsRestored (marked_response (codes "[EMAIL_1]"))
      ((codes "[EMAIL_1]", codes "a@b.co") ∷ []) (refl, tt) refl

abbrev cafe_response : AnalyzeResponse
cafe_response = record (marked_response (codes "cafe")) {
  category = codes "restaurant";
  details = some (
      field (codes "restaurants")
        (list (
          cons
            (dict (
              field (codes "sourceRefs")
                (list (cons (str (codes "S1")) (cons (str (codes "S0")) nil)))
                (field (codes "title") (str (codes "cafe")) end)))
            nil))
        end);
}

cafe_memos :
    (gs : List MemoGroup) × (split_restaurant_analysis ascii counting_floats
        (λ v. codes "None")
        cafe_response
        (1 ∷ 0 ∷ [])
        two_items
      ≡ ok (some gs))
unfolding split_restaurant_analysis
cafe_memos = (_, refl)

split_restaurant_analysis-Covers_example : Covers two_items (1 ∷ 0 ∷ []) cafe_memos.0
split_restaurant_analysis-Covers_example =
    split_restaurant_analysis-Covers ascii counting_floats (λ v. codes "None") cafe_response
      (1 ∷ 0 ∷ []) two_items cafe_memos.0 cafe_memos.1
