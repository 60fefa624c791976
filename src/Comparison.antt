-- ===== src/Comparison.antt =====
-- `_combine_comparison_details` of app/analysis/batch.py: the details of several entries in one.
use capturemate_ai.Prelude.{true, List, [], ◌∷◌, ◌++◌, Str, if◌then◌else◌, take}
use capturemate_ai.Prelude.Float.{Float, FloatOps, half}
use capturemate_ai.Text.{codes, fromkeys}
use capturemate_ai.Json.{
  Value, Fields, null, bool, int, float, str, list, dict, nil, end, field, Result, ok, raise, ◌>>=◌,
  get, put, truthy, or_else, iterate, to_str, of_list, to_float,
}
use capturemate_ai.Places.{Place}

pub record Combined : Type 0 where
  pub menus : List Value
  pub tags : List Str
  pub features : List Str
  pub actions : List Value
  pub confidences : List Float

abbrev pub nothing_combined : Combined
nothing_combined = record { menus = []; tags = []; features = []; actions = []; confidences = [] }

-- for value in v or []
abbrev iterate_or_empty : Value → Result (List Value)
iterate_or_empty v = iterate (or_else v (list nil))

module _ (ops : FloatOps) (format : Value → Str) where
  -- A menu under the name of its restaurant.
  abbrev named_menu : Value → Fields → Fields
  named_menu restaurant_name menu =
      let menu_name = to_str format (or_else (get (codes "name") menu) (str (codes "메뉴"))) in
      if truthy restaurant_name
      then put (codes "name") (str (to_str format restaurant_name ++ (codes " · " ++ menu_name)))
          menu
      else menu

  unfoldable pub named_menus : Value → List Value → List Value
  unfolding get put truthy or_else to_str
  named_menus restaurant_name [] = []
  named_menus restaurant_name (dict menu ∷ vs) =
      dict (named_menu restaurant_name menu) ∷ named_menus restaurant_name vs
  named_menus restaurant_name (v ∷ vs) = named_menus restaurant_name vs

  -- str(value) for value in values if value
  unfoldable pub truthy_texts : List Value → List Str
  unfolding truthy to_str
  truthy_texts [] = []
  truthy_texts (v ∷ vs) =
      let rest = truthy_texts vs in if truthy v then to_str format v ∷ rest else rest

  unfoldable pub only_dicts : List Value → List Value
  only_dicts [] = []
  only_dicts (dict fs ∷ vs) = dict fs ∷ only_dicts vs
  only_dicts (v ∷ vs) = only_dicts vs

  abbrev one : Result Float → Result (List Float)
  one (ok x) = ok (x ∷ [])
  one (raise e) = raise e

  -- isinstance(confidence, (int, float)); a bool is an int.
  unfoldable pub number_of : Value → Result (List Float)
  unfolding to_float
  number_of (int n) = one (to_float ops (int n))
  number_of (float x) = one (to_float ops (float x))
  number_of (bool b) = one (to_float ops (bool b))
  number_of _ = ok []

  -- The body of the loop for an entry whose restaurant is a dict.
  unfoldable pub combine_restaurant : Combined → Fields → Fields → Result Combined
  unfolding iterate or_else get named_menus truthy_texts only_dicts number_of
  combine_restaurant c details restaurant = do
    menus ← iterate_or_empty (get (codes "menus") restaurant)
    tags ← iterate_or_empty (get (codes "tags") restaurant)
    features ← iterate_or_empty (get (codes "features") restaurant)
    actions ← iterate_or_empty (get (codes "recommendedActions") restaurant)
    confidence ← number_of (get (codes "confidence") details)
    ok (record {
      menus = c.menus ++ named_menus (get (codes "name") restaurant) menus;
      tags = c.tags ++ truthy_texts tags;
      features = c.features ++ truthy_texts features;
      actions = c.actions ++ only_dicts actions;
      confidences = c.confidences ++ confidence;
    })

  abbrev combine_value : Combined → Fields → Value → Result Combined
  combine_value c details (dict restaurant) = combine_restaurant c details restaurant
  combine_value c details _ = ok c

  unfoldable pub combine_entries : Combined → List Place → Result Combined
  unfolding combine_restaurant get
  combine_entries c [] = ok c
  combine_entries c (e ∷ es) = do
    c' ← combine_value c e.details (get (codes "restaurant") e.details)
    combine_entries c' es

  -- min(confidences, default=0.5)
  unfoldable pub min_of : Float → List Float → Float
  min_of x [] = x
  min_of x (y ∷ ys) = min_of (if ops.lt y x then y else x) ys

  abbrev min_confidence : List Float → Float
  min_confidence [] = half
  min_confidence (x ∷ xs) = min_of x xs

  unfoldable pub str_values : List Str → List Value
  str_values [] = []
  str_values (s ∷ ss) = str s ∷ str_values ss

  abbrev text_list : List Str → Value
  text_list ss = list (of_list (str_values ss))

  -- The dict that is returned.
  unfoldable pub comparison_details : Combined → Fields
  unfolding of_list fromkeys str_values min_of
  comparison_details c =
      field (codes "restaurant")
        (dict (
          field (codes "name") null (
            field (codes "address") null (
              field (codes "roadAddress") null (
                field (codes "neighborhood") null (
                  field (codes "latitude") null (
                    field (codes "longitude") null (
                      field (codes "mapProvider") null (
                        field (codes "mapProviderPlaceId") null (
                          field (codes "menus") (list (of_list c.menus)) (
                            field (codes "estimatedPricePerPersonMin") null (
                              field (codes "estimatedPricePerPersonMax") null (
                                field (codes "tags") (text_list (take 5 (fromkeys c.tags))) (
                                  field (codes "features")
                                    (text_list (take 5 (fromkeys c.features)))
                                    (field (codes "recommendedActions")
                                      (list (of_list (take 3 c.actions))) end)))))))))))))))
        (field (codes "group") null (
          field (codes "confidence") (float (min_confidence c.confidences))
            (field (codes "needsUserReview") (bool true) end)))

  unfoldable pub combine_comparison_details : List Place → Result Fields
  unfolding combine_entries comparison_details
  combine_comparison_details entries = do
    c ← combine_entries nothing_combined entries
    ok (comparison_details c)
