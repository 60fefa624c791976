-- ===== src/Tests/KakaoTests.antt =====
-- Runs of the place search and of the enrichment.
use capturemate_ai.Prelude.{◌≡◌, refl, none, some, Option, Str, if◌then◌else◌, ◌==◌, str_eq}
use capturemate_ai.Text.{codes}
use capturemate_ai.Json.{Value, Fields, str, list, dict, cons, nil, field, end, ok, opt_str}
use capturemate_ai.Kakao.{KakaoPlace, clean_string, search_best_place, fill_place}
use capturemate_ai.Kakao.Choice.{Chosen, search_best_place-Chosen}
use capturemate_ai.Kakao.Filled.{IsFilled, fill_place-IsFilled}
use capturemate_ai.Tests.Samples.{counting_floats}

abbrev document : Fields
document =
    field (codes "id") (str (codes "7")) (field (codes "place_name") (str (codes "Cafe")) end)

abbrev payload : Value
payload = dict (field (codes "documents") (list (cons (dict document) nil)) end)

-- Only the search with the neighborhood finds the place.
abbrev answer : Str → Option Str → Option Value
answer query code = if query == codes "Cafe Mapo" then some payload else none

abbrev cafe : KakaoPlace
cafe = record {
  id = some (codes "7");
  name = some (codes "Cafe");
  address = none;
  road_address = none;
  longitude = none;
  latitude = none;
  category_name = none;
}

cafe_found :
    search_best_place counting_floats answer (codes " Cafe") (some (codes "Mapo")) ≡ ok (some cafe)
unfolding search_best_place
cafe_found = refl

search_best_place-Chosen_example :
    (cleaned : Str) × (clean_string (str (codes " Cafe")) ≡ some cleaned)
    × Chosen counting_floats answer cleaned (clean_string (opt_str (some (codes "Mapo")))) cafe
search_best_place-Chosen_example =
    search_best_place-Chosen counting_floats answer (codes " Cafe") (some (codes "Mapo")) cafe_found

fill_place-IsFilled_example :
    IsFilled counting_floats answer cafe document (fill_place counting_floats answer cafe document)
fill_place-IsFilled_example = fill_place-IsFilled counting_floats answer cafe document
