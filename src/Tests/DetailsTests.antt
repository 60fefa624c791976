-- ===== src/Tests/DetailsTests.antt =====
-- Runs of the validators of the details.
use capturemate_ai.Prelude.{◌≡◌, refl, false, none, some, [], ◌∷◌, Str, In}
use capturemate_ai.Prelude.Int.{pos}
use capturemate_ai.Prelude.Float.{one_float}
use capturemate_ai.Text.{codes}
use capturemate_ai.Json.{Values, int, str, list, cons, nil, ok, to_list}
use capturemate_ai.Regex.Deletion.{reduced}
use capturemate_ai.Details.{
  Integers, normalize_price, normalize_string_list, RestaurantPlaceDetails, RestaurantExtraction,
  LifeInfoDetails, is_suffix, without_number, fill_derived_flags, fill_life_info_flags,
}
use capturemate_ai.Details.Neighborhoods.{IsKorean, none_suffix, without_number-reduced}
use capturemate_ai.Details.Flags.{IsFlagged, fill_derived_flags-IsFlagged}
use capturemate_ai.Details.LifeInfo.{IsReviewed, fill_life_info_flags-IsReviewed}
use capturemate_ai.Details.Texts.{IsEntry, list_value, normalize_string_list-IsEntry}
use capturemate_ai.Tests.Samples.{ascii, counting_floats, sample_runtime}

abbrev ascii_integers : Integers
ascii_integers = record {
  is_digit = ascii.is_decimal;
  int_of_text = λ s. some (pos 18000);
  int_of_float = λ x. ok (pos 0);
}

-- "18,000원"
price_run : normalize_price ascii_integers (str (codes "18,000원")) ≡ ok (int (pos 18000))
unfolding normalize_price
price_run = refl

without_number_run : without_number ascii (codes "상도1동") ≡ codes "상도동"
unfolding without_number
without_number_run = refl

ascii-IsKorean : IsKorean ascii
ascii-IsKorean = none_suffix ascii.is_decimal (refl, refl, refl, refl, refl)

without_number-reduced_example :
    without_number ascii (codes "상도1동") ≡ reduced ascii ascii.is_decimal is_suffix (codes "상도1동")
without_number-reduced_example = without_number-reduced ascii ascii-IsKorean (codes "상도1동")

-- Without an address, of a neighborhood with a number.
abbrev nowhere : RestaurantPlaceDetails
nowhere = record {
  name = some (codes "cafe");
  address = none;
  road_address = none;
  neighborhood = some (codes " 상도1동");
  latitude = none;
  longitude = none;
  map_provider = none;
  map_provider_place_id = none;
  menus = [];
  estimated_price_per_person_min = none;
  estimated_price_per_person_max = none;
  tags = [];
  features = [];
  recommended_actions = [];
}

abbrev extraction : RestaurantExtraction
extraction = record {
  source_refs = codes "S0" ∷ [];
  title = none;
  topic_key = none;
  summary = none;
  restaurant = nowhere;
  group = none;
  confidence = one_float;
  needs_user_review = false;
  recommended_action = none;
}

fill_derived_flags-IsFlagged_example :
    IsFlagged ascii counting_floats (fill_derived_flags ascii counting_floats extraction)
    × (fill_derived_flags ascii counting_floats
          (fill_derived_flags ascii counting_floats extraction)
        ≡ fill_derived_flags ascii counting_floats extraction)
fill_derived_flags-IsFlagged_example =
    fill_derived_flags-IsFlagged ascii counting_floats ascii-IsKorean refl extraction

abbrev no_info : LifeInfoDetails
no_info = record {
  benefit = none;
  target = some [];
  apply_method = none;
  deadline_text = none;
  confidence = one_float;
  needs_user_review = false;
  recommended_actions = [];
  recommended_action = none;
}

fill_life_info_flags-IsReviewed_example :
    IsReviewed ascii counting_floats refl (fill_life_info_flags ascii counting_floats no_info)
    × (fill_life_info_flags ascii counting_floats
          (fill_life_info_flags ascii counting_floats no_info)
        ≡ fill_life_info_flags ascii counting_floats no_info)
fill_life_info_flags-IsReviewed_example =
    fill_life_info_flags-IsReviewed ascii counting_floats refl no_info

abbrev two_tags : Values
two_tags = cons (str (codes " brunch ")) (cons (str (codes "  ")) nil)

normalize_string_list-IsEntry_example :
    ((s : Str)
      → In s (normalize_string_list ascii_integers sample_runtime.format (list two_tags))
      → IsEntry ascii_integers sample_runtime.format (to_list two_tags) s)
    × (normalize_string_list ascii_integers sample_runtime.format
          (list_value (normalize_string_list ascii_integers sample_runtime.format (list two_tags)))
        ≡ normalize_string_list ascii_integers sample_runtime.format (list two_tags))
normalize_string_list-IsEntry_example =
    normalize_string_list-IsEntry ascii_integers sample_runtime.format two_tags
