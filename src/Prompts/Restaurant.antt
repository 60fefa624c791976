-- ===== src/Prompts/Restaurant.antt =====
-- `build_restaurant_prompt` of app/analysis/categories/restaurant.py.
use capturemate_ai.Prelude.{Str, [], ◌∷◌}
use capturemate_ai.Text.{codes, paste}
use capturemate_ai.Models.{LlmAnalysis}

pub build_restaurant_prompt : Str → LlmAnalysis → Str → Str → Str
build_restaurant_prompt text base locale today_iso = paste (
    codes "다음 OCR 텍스트는 '맛집' 카테고리로 분류되었습니다.\n"
    ∷ codes "Android 앱이 맛집 상세 화면, 지도 화면, 동네 그룹 카드를 만들 수 있도록 장소 정보를 추출하세요.\n"
    ∷ codes "\n"
    ∷ codes "반드시 JSON 객체 하나만 출력하세요. 설명, 마크다운, 코드펜스는 출력하지 마세요.\n"
    ∷ codes "텍스트에 근거가 없거나 확신이 낮은 값은 null 또는 빈 배열로 두세요.\n"
    ∷ codes "전화번호, 이메일, 계좌번호, 주민등록번호 같은 민감정보는 복원하거나 추측하지 마세요.\n"
    ∷ codes "\n"
    ∷ codes "오늘 날짜: "
    ∷ today_iso
    ∷ codes "\n"
    ∷ codes "사용자 로케일: "
    ∷ locale
    ∷ codes "\n"
    ∷ codes "\n"
    ∷ codes "입력에는 각 원본 스크린샷이 [SOURCE S0] ... [/SOURCE] 형식으로 구분되어 있습니다.\n"
    ∷ codes "각 SOURCE에 가게가 하나만 있으면 SOURCE마다 restaurants 항목을 하나씩 따로 만드세요.\n"
    ∷ codes "한 SOURCE가 여러 가게의 메뉴나 가격을 비교하면 가게별로 나누지 말고 비교 메모 항목 하나만 만드세요.\n"
    ∷ codes "\n"
    ∷ codes "JSON 스키마:\n"
    ∷ codes "{\n"
    ∷ codes "  \"restaurants\": [\n"
    ∷ codes "    {\n"
    ∷ codes "      \"sourceRefs\": [\"S0\"],\n"
    ∷ codes "      \"title\": \"가게명 중심의 40자 이내 메모 제목\",\n"
    ∷ codes "      \"topicKey\": null,\n"
    ∷ codes "      \"summary\": \"이 가게만 설명하는 1~2문장 요약\",\n"
    ∷ codes "      \"restaurant\": {\n"
    ∷ codes "        \"name\": \"가게명 또는 장소명, 없으면 null\",\n"
    ∷ codes "        \"address\": \"주소, 없으면 null\",\n"
    ∷ codes "        \"roadAddress\": \"도로명 주소, 없으면 null\",\n"
    ∷ codes "        \"neighborhood\": \"동네명 예: 성수동, 없으면 null\",\n"
    ∷ codes "        \"latitude\": null,\n"
    ∷ codes "        \"longitude\": null,\n"
    ∷ codes "        \"mapProvider\": null,\n"
    ∷ codes "        \"mapProviderPlaceId\": null,\n"
    ∷ codes
        "        \"menus\": [{\"name\": \"에그베네딕트\", \"price\": 18000, \"currency\": \"KRW\"}],\n"
    ∷ codes "        \"estimatedPricePerPersonMin\": 20000,\n"
    ∷ codes "        \"estimatedPricePerPersonMax\": 30000,\n"
    ∷ codes "        \"tags\": [\"데이트\", \"브런치\", \"혼밥\"],\n"
    ∷ codes "        \"features\": [\"주말 웨이팅 가능성 높음\", \"평일 방문 추천\"],\n"
    ∷ codes "        \"recommendedActions\": [\n"
    ∷ codes "          {\n"
    ∷ codes "            \"type\": \"visit_time\",\n"
    ∷ codes "            \"title\": \"평일 오전 방문\",\n"
    ∷ codes "            \"description\": \"웨이팅을 줄이려면 평일 오픈 시간대 방문을 추천\"\n"
    ∷ codes "          }\n"
    ∷ codes "        ]\n"
    ∷ codes "      },\n"
    ∷ codes "      \"group\": {\n"
    ∷ codes "        \"id\": \"seongsu-restaurant\",\n"
    ∷ codes "        \"title\": \"성수동 맛집\",\n"
    ∷ codes "        \"neighborhood\": \"성수동\"\n"
    ∷ codes "      },\n"
    ∷ codes "      \"confidence\": 0.86,\n"
    ∷ codes "      \"needsUserReview\": false,\n"
    ∷ codes "      \"recommendedAction\": \"지도에서 위치 확인 후 방문 리스트에 저장\"\n"
    ∷ codes "    }\n"
    ∷ codes "  ]\n"
    ∷ codes "}\n"
    ∷ codes "\n"
    ∷ codes "추출 규칙:\n"
    ∷ codes "- 가게명은 상호명으로 보이는 가장 구체적인 이름을 사용하세요.\n"
    ∷ codes "- sourceRefs에는 해당 가게의 근거가 실제로 존재하는 SOURCE 식별자만 정확히 복사하세요.\n"
    ∷ codes "- 모든 SOURCE를 최소 한 항목에 포함하고, 존재하지 않는 SOURCE 식별자는 만들지 마세요.\n"
    ∷ codes "- 가게가 하나뿐인 SOURCE는 다른 SOURCE와 주제나 가게가 같아도 반드시 별도 항목으로 만드세요.\n"
    ∷ codes "- 단일 가게 항목의 topicKey는 null로 두고 title과 summary에 다른 가게 정보를 섞지 마세요.\n"
    ∷ codes "- 한 SOURCE에 여러 가게의 메뉴·가격 비교가 있으면 비교 전체를 항목 하나로 만드세요.\n"
    ∷ codes "- 비교 항목은 title을 비교 주제 중심으로 쓰고 topicKey를 짧게 정규화하세요. 예: \"수박주스 비교\".\n"
    ∷ codes "- 동네명은 숫자를 제거한 기본형으로 정규화하세요. 예: \"상도1동\" -> \"상도동\".\n"
    ∷ codes "- 비교 항목의 restaurant.name, 주소, 좌표, group은 null로 두세요.\n"
    ∷ codes "- 비교 항목의 menus에는 \"가게명 · 메뉴명\" 형식으로 가게를 구분하여 모든 비교 메뉴를 넣으세요.\n"
    ∷ codes "- 여러 SOURCE가 같은 비교 주제를 이어서 다루면 하나의 비교 항목에 SOURCE들을 모두 포함하세요.\n"
    ∷ codes "- 같은 비교 주제가 여러 항목으로 불가피하게 나뉘면 topicKey를 완전히 동일하게 작성하세요.\n"
    ∷ codes "- 메뉴 가격은 정수 원화로 변환하세요. 예: \"18,000원\" -> 18000.\n"
    ∷ codes "- 1인 예상 금액은 메뉴/가격 근거가 있을 때만 채우세요.\n"
    ∷ codes "- 태그는 최대 5개, features는 최대 5개, recommendedActions는 최대 3개로 제한하세요.\n"
    ∷ codes "- 주소가 없으면 needsUserReview를 true로 두세요.\n"
    ∷ codes "- 좌표와 지도 제공자 정보는 서버가 Kakao API로 확인합니다. latitude, longitude,\n"
    ∷ codes "  mapProvider, mapProviderPlaceId는 OCR 텍스트에 값이 있어도 반드시 null로 출력하세요.\n"
    ∷ codes "- neighborhood가 있으면 group을 만들고, title은 \"<동네명> 맛집\" 형식으로 작성하세요.\n"
    ∷ codes "- 정보가 가게명뿐이면 name만 채우고 나머지는 null/빈 배열, confidence는 0.6 이하로 두세요.\n"
    ∷ codes "\n"
    ∷ codes "OCR 텍스트:\n"
    ∷ codes "\"\"\"\n"
    ∷ text
    ∷ codes "\n"
    ∷ codes "\"\"\"\n"
    ∷ [])
