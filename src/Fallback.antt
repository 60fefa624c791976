-- ===== src/Fallback.antt =====
-- app/analysis/fallback.py: classification by keywords, and the categories of prompt.py.
pub mod Keywords
use capturemate_ai.Prelude.{
  Bool, true, false, ◌||◌, none, List, [], ◌∷◌, Str, if◌then◌else◌, take, str_eq,
}
use capturemate_ai.Prelude.Dict.{Dict, lookup}
use capturemate_ai.Text.{Unicode, codes, strip, split, splitlines, join, has_infix, or_text}
use capturemate_ai.Models.{LlmAnalysis}

abbrev pub unknown_category : Str
unknown_category = codes "unknown"

abbrev pub categories : List Str
categories =
    codes "schedule"
    ∷ codes "study"
    ∷ codes "life_info"
    ∷ codes "restaurant"
    ∷ codes "shopping"
    ∷ []

abbrev pub allowed_categories : List Str
allowed_categories =
    codes "schedule"
    ∷ codes "study"
    ∷ codes "life_info"
    ∷ codes "restaurant"
    ∷ codes "shopping"
    ∷ codes "unknown"
    ∷ []

unfoldable pub category_keywords : Dict Str (List Str)
category_keywords =
    (
      codes "schedule",
      codes "일정"
          ∷ codes "공지"
          ∷ codes "회의"
          ∷ codes "예약"
          ∷ codes "마감"
          ∷ codes "미팅"
          ∷ codes "신청"
          ∷ codes "모집"
          ∷ codes "채용"
          ∷ codes "지원"
          ∷ codes "면접"
          ∷ [],
    )
    ∷ (
      codes "study",
      codes "시험"
          ∷ codes "강의"
          ∷ codes "복습"
          ∷ codes "과제"
          ∷ codes "학습"
          ∷ codes "수업"
          ∷ codes "레포트"
          ∷ [],
    )
    ∷ (
      codes "restaurant",
      codes "맛집" ∷ codes "카페" ∷ codes "메뉴" ∷ codes "식당" ∷ codes "맛있" ∷ codes "방문" ∷ [],
    )
    ∷ (
      codes "shopping",
      codes "쇼핑"
          ∷ codes "구매"
          ∷ codes "할인"
          ∷ codes "쿠폰"
          ∷ codes "특가"
          ∷ codes "세일"
          ∷ codes "장바구니"
          ∷ codes "위시리스트"
          ∷ codes "상품"
          ∷ [],
    )
    ∷ (
      codes "life_info",
      codes "적금" ∷ codes "금융" ∷ codes "정책" ∷ codes "교통" ∷ codes "공공" ∷ codes "혜택" ∷ codes "생활" ∷ [],
    )
    ∷ []

unfoldable pub actions : Dict Str Str
actions =
    (codes "schedule", codes "캘린더에 일정 추가")
    ∷ (codes "study", codes "학습 노트로 저장")
    ∷ (codes "life_info", codes "생활정보로 저장")
    ∷ (codes "restaurant", codes "가볼 장소로 저장")
    ∷ (codes "shopping", codes "쇼핑 목록에 저장")
    ∷ (codes "unknown", codes "메모로 저장")
    ∷ []

abbrev first_line : List Str → Str
first_line [] = []
first_line (line ∷ lines) = line

module _ (unicode : Unicode) where
  unfoldable pub any_keyword : List Str → Str → Bool
  unfolding has_infix
  any_keyword [] lowered = false
  any_keyword (k ∷ ks) lowered = has_infix (unicode.lower k) lowered || any_keyword ks lowered

  -- The loop over `_CATEGORY_KEYWORDS`, which stops at the first category that matches.
  unfoldable pub classify_keywords : Dict Str (List Str) → Str → Str
  unfolding any_keyword
  classify_keywords [] lowered = unknown_category
  classify_keywords ((candidate, keywords) ∷ rest) lowered =
      let later = classify_keywords rest lowered in
      if any_keyword keywords lowered then candidate else later

  -- A stripped text that is not empty has a first line.
  unfoldable pub fallback_title : Str → Str
  unfolding strip splitlines
  fallback_title text =
      or_text (take 40 (first_line (splitlines (strip text)))) (codes "New capture")

  unfoldable pub fallback_analysis : Str → LlmAnalysis
  unfolding classify_keywords category_keywords actions lookup fallback_title split join
  fallback_analysis text =
      let category = classify_keywords category_keywords (unicode.lower text) in
      record {
        title = fallback_title text;
        summary =
            or_text (take 120 (join (codes " ") (split text))) (codes "No content to summarize.");
        category = category;
        is_useful = true;
        useful_reason = [];
        recommended_action = lookup category actions;
        reminder_at_iso = none;
      }
