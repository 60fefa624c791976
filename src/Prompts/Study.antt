-- ===== src/Prompts/Study.antt =====
-- `build_study_prompt` of app/analysis/categories/study.py.
use capturemate_ai.Prelude.{Str, [], ◌∷◌}
use capturemate_ai.Text.{codes, paste}
use capturemate_ai.Models.{LlmAnalysis}

pub build_study_prompt : Str → LlmAnalysis → Str → Str → Str
build_study_prompt text base locale today_iso = paste (
    codes "이 텍스트는 '학습'으로 분류되었습니다.\n"
    ∷ codes "Android 앱이 학습 카드를 그대로 렌더링하고 복습 메모로 저장할 수 있도록 아래 필드를 추출하세요.\n"
    ∷ codes "\n"
    ∷ codes "반드시 JSON 객체 하나만 출력하세요. 설명, 마크다운, 코드펜스는 출력하지 마세요.\n"
    ∷ codes "텍스트에 근거가 없거나 확신이 낮은 값은 null 또는 빈 배열로 두세요. 없는 정보를 추측하지 마세요.\n"
    ∷ codes "전화번호, 이메일, 계좌번호, 주민등록번호 같은 민감정보는 복원하거나 추측하지 마세요.\n"
    ∷ codes "\n"
    ∷ codes "오늘 날짜: "
    ∷ today_iso
    ∷ codes "\n"
    ∷ codes "사용자 로케일: "
    ∷ locale
    ∷ codes "\n"
    ∷ codes "\n"
    ∷ codes "JSON 스키마:\n"
    ∷ codes "{\n"
    ∷ codes "  \"type\": \"study\",\n"
    ∷ codes "  \"title\": \"학습 카드 제목. 예: '알고리즘 스터디 계획'\",\n"
    ∷ codes "  \"summary\": \"학습 내용 요약 한 문장\",\n"
    ∷ codes "  \"keyPoints\": [\"기존 클라이언트 호환용 핵심 정리 문자열1\", \"핵심 정리 문자열2\"],\n"
    ∷ codes "  \"keyPointItems\": [\n"
    ∷ codes "    {\n"
    ∷ codes "      \"order\": 1,\n"
    ∷ codes "      \"text\": \"화·목 오후 8시 디스코드 채널 접속\"\n"
    ∷ codes "    },\n"
    ∷ codes "    {\n"
    ∷ codes "      \"order\": 2,\n"
    ∷ codes "      \"text\": \"BFS/DFS → DP → 그리디 → 분할정복 순\"\n"
    ∷ codes "    }\n"
    ∷ codes "  ],\n"
    ∷ codes "  \"recommendedAction\": \"추천 다음 행동. 예: '알고리즘 문제 10개 풀기'\"\n"
    ∷ codes "}\n"
    ∷ codes "\n"
    ∷ codes "작성 규칙:\n"
    ∷ codes "- title이 애매하면 1단계 제목 \""
    ∷ base.title
    ∷ codes "\"을 사용하세요.\n"
    ∷ codes "- summary가 애매하면 1단계 요약 \""
    ∷ base.summary
    ∷ codes "\"을 바탕으로 짧게 작성하세요.\n"
    ∷ codes "- keyPoints와 keyPointItems는 같은 내용을 담되, keyPointItems에는 1부터 시작하는 order를 붙이세요.\n"
    ∷ codes "- 학습 시간/장소/채널, 커리큘럼 순서, 필수 과제/문제 풀이, 시험 범위를 우선 정리하세요.\n"
    ∷ codes "- keyPoints는 3~7개를 권장하되, 근거가 적으면 더 적게 작성해도 됩니다.\n"
    ∷ codes "- recommendedAction은 사용자가 바로 할 수 있는 행동으로 작성하세요.\n"
    ∷ codes "\n"
    ∷ codes "텍스트:\n"
    ∷ codes "\"\"\"\n"
    ∷ text
    ∷ codes "\n"
    ∷ codes "\"\"\"\n"
    ∷ [])
