-- ===== src/Prompts/Schedule.antt =====
-- `build_schedule_prompt` of app/analysis/categories/schedule.py.
use capturemate_ai.Prelude.{Str, [], ◌∷◌}
use capturemate_ai.Text.{codes, paste}
use capturemate_ai.Models.{LlmAnalysis}

pub build_schedule_prompt : Str → LlmAnalysis → Str → Str → Str
build_schedule_prompt text base locale today_iso = paste (
    codes "이 텍스트는 '일정/공지'로 분류되었습니다.\n"
    ∷ codes "Android 앱이 일정/공지 카드를 그대로 렌더링하고 캘린더 초안을 만들 수 있도록 아래 필드를 추출하세요.\n"
    ∷ codes "\n"
    ∷ codes "반드시 JSON 객체 하나만 출력하세요. 설명, 마크다운, 코드펜스는 출력하지 마세요.\n"
    ∷ codes "텍스트에 근거가 없거나 확신이 낮은 값은 null로 두세요. 없는 정보를 추측하지 마세요.\n"
    ∷ codes "전화번호, 이메일, 계좌번호, 주민등록번호 같은 민감정보는 복원하거나 추측하지 마세요.\n"
    ∷ codes "\n"
    ∷ codes "오늘 날짜: "
    ∷ today_iso
    ∷ codes "\n"
    ∷ codes "사용자 로케일: "
    ∷ locale
    ∷ codes "\n"
    ∷ codes "'내일', '이번 주 금요일' 같은 상대 표현은 오늘 날짜 기준으로 계산하세요.\n"
    ∷ codes "\n"
    ∷ codes "JSON 스키마:\n"
    ∷ codes "{\n"
    ∷ codes "  \"type\": \"schedule\",\n"
    ∷ codes "  \"title\": \"카드 제목. 모집/행사/공지명을 40자 이내로, 없으면 1단계 제목 기반\",\n"
    ∷ codes "  \"source\": \"AI 추출\",\n"
    ∷ codes "  \"deadline\": {\n"
    ∷ codes "    \"label\": \"마감\",\n"
    ∷ codes "    \"date\": \"마감일 YYYY-MM-DD, 없으면 null\",\n"
    ∷ codes "    \"time\": \"마감 시각 HH:mm, 없으면 null\",\n"
    ∷ codes "    \"displayText\": \"사람이 읽기 좋은 마감 표시. 예: '2026년 7월 10일 23:59', 없으면 null\"\n"
    ∷ codes "  },\n"
    ∷ codes "  \"eventDate\": {\n"
    ∷ codes "    \"date\": \"행사/시작일 YYYY-MM-DD, 없으면 null\",\n"
    ∷ codes "    \"dayOfWeek\": \"월 | 화 | 수 | 목 | 금 | 토 | 일, 없으면 null\",\n"
    ∷ codes "    \"displayText\": \"사람이 읽기 좋은 일정 표시. 예: '2026년 7월 10일 (금)', 없으면 null\"\n"
    ∷ codes "  },\n"
    ∷ codes "  \"location\": \"장소, 없으면 null\",\n"
    ∷ codes "  \"calendarAction\": {\n"
    ∷ codes "    \"label\": \"구글 캘린더에 추가\",\n"
    ∷ codes "    \"enabled\": true\n"
    ∷ codes "  },\n"
    ∷ codes "  \"startAtIso\": \"캘린더 초안용 시작 일시 ISO 8601 문자열, 없으면 null\",\n"
    ∷ codes "  \"endAtIso\": \"캘린더 초안용 종료 일시 ISO 8601 문자열, 없으면 null\",\n"
    ∷ codes "  \"recommendedAction\": \"추천 다음 행동. 예: '7월 10일 마감 알림 설정'\"\n"
    ∷ codes "}\n"
    ∷ codes "\n"
    ∷ codes "작성 규칙:\n"
    ∷ codes "- deadline은 신청/모집/제출 마감이 있을 때 채우세요.\n"
    ∷ codes "- eventDate는 실제 행사일, 수업 시작일, 설명회 일시가 있을 때 채우세요.\n"
    ∷ codes "- 같은 날짜가 마감일이자 행사일인 경우 둘 다 채울 수 있습니다.\n"
    ∷ codes
        "- calendarAction.enabled는 startAtIso 또는 deadline.date 또는 eventDate.date 중 하나라도 있으면 true, 모두 없으면 false로 두세요.\n"
    ∷ codes "- title이 애매하면 1단계 제목 \""
    ∷ base.title
    ∷ codes "\"을 사용하세요.\n"
    ∷ codes "\n"
    ∷ codes "텍스트:\n"
    ∷ codes "\"\"\"\n"
    ∷ text
    ∷ codes "\n"
    ∷ codes "\"\"\"\n"
    ∷ [])
