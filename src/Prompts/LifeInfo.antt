-- ===== src/Prompts/LifeInfo.antt =====
-- `build_life_info_prompt` of app/analysis/categories/life_info.py.
use capturemate_ai.Prelude.{Str, [], ◌∷◌}
use capturemate_ai.Text.{codes, paste}
use capturemate_ai.Models.{LlmAnalysis}

pub build_life_info_prompt : Str → LlmAnalysis → Str → Str → Str
build_life_info_prompt text base locale today_iso = paste (
    codes "다음 텍스트는 '생활정보' 카테고리로 분류되었습니다.\n"
    ∷ codes "Android 앱이 \"핵심 정보\" 카드(혜택/대상/신청/마감 4개 고정 라벨)를 그대로 렌더링할 수 있도록\n"
    ∷ codes "아래 필드를 추출하세요.\n"
    ∷ codes "\n"
    ∷ codes "반드시 JSON 객체 하나만 출력하세요. 설명, 마크다운, 코드펜스는 출력하지 마세요.\n"
    ∷ codes "텍스트에 근거가 없거나 확신이 낮은 값은 null로 두세요.\n"
    ∷ codes "전화번호, 이메일, 계좌번호, 주민등록번호 같은 민감정보는 복원하거나 추측하지 마세요.\n"
    ∷ codes "\n"
    ∷ codes "오늘 날짜: "
    ∷ today_iso
    ∷ codes "\n"
    ∷ codes "사용자 로케일: "
    ∷ locale
    ∷ codes "\n"
    ∷ codes "\n"
    ∷ codes "JSON 스키마:\n"
    ∷ codes "{\n"
    ∷ codes
        "  \"benefit\": \"핵심 혜택 한 문장. 금액·배율·조건이 있으면 구체적으로 (예: '월 10만원 저축 시 정부 매칭 30만원 → 3년 후 1,440만원'). 없으면 null\",\n"
    ∷ codes "  \"target\": \"지원 대상/자격 조건 (예: '만 19~34세 근로·사업소득 있는 청년'), 없으면 null\",\n"
    ∷ codes "  \"applyMethod\": \"신청 방법/경로 (예: '복지로 또는 행복e음 사이트'), 없으면 null\",\n"
    ∷ codes "  \"deadlineText\": \"마감일을 사람이 읽기 좋은 문자열로 (예: '2026년 7월 31일'), 없으면 null\",\n"
    ∷ codes "  \"confidence\": 0.86,\n"
    ∷ codes "  \"needsUserReview\": false,\n"
    ∷ codes "  \"recommendedActions\": [\n"
    ∷ codes "    {\n"
    ∷ codes "      \"type\": \"set_reminder\",\n"
    ∷ codes "      \"title\": \"마감 3일 전 알림 설정\",\n"
    ∷ codes "      \"description\": \"신청 마감을 놓치지 않도록 미리 알림을 받으세요\"\n"
    ∷ codes "    }\n"
    ∷ codes "  ],\n"
    ∷ codes "  \"recommendedAction\": \"정보 저장 후 마감 전 알림 설정\"\n"
    ∷ codes "}\n"
    ∷ codes "\n"
    ∷ codes "추출 규칙:\n"
    ∷ codes "- benefit/target/applyMethod/deadlineText는 텍스트에 실제 근거가 있을 때만 채우세요.\n"
    ∷ codes "- deadlineText는 표시용 텍스트일 뿐입니다. 실제 알림 시각 계산은 다른 필드(reminderAtIso)에서\n"
    ∷ codes "  이미 처리하므로 여기서는 신경 쓰지 마세요.\n"
    ∷ codes "- benefit과 target 둘 다 근거가 없으면 needsUserReview를 true로, confidence를 0.6 이하로 두세요.\n"
    ∷ codes "- recommendedActions는 최대 3개로 제한하고, 마감이 있으면 \"set_reminder\" 액션을 우선 포함하세요.\n"
    ∷ codes "\n"
    ∷ codes "텍스트:\n"
    ∷ codes "\"\"\"\n"
    ∷ text
    ∷ codes "\n"
    ∷ codes "\"\"\"\n"
    ∷ [])
