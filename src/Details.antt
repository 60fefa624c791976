-- ===== src/Details.antt =====
-- app/analysis/categories/restaurant.py and life_info.py: the detail models, the validators of their
-- fields, and the flags that are derived after validation.
pub mod Flags
pub mod LifeInfo
pub mod Neighborhoods
pub mod Texts
use capturemate_ai.Prelude.{
  ℕ, Bool, true, false, ◌&&◌, ◌||◌, not, Option, none, some, List, [], ◌∷◌, ◌++◌, Str, eqb,
  if◌then◌else◌,
}
use capturemate_ai.Prelude.Int.{ℤ}
use capturemate_ai.Prelude.Float.{Float, FloatOps, half, three_fifths}
use capturemate_ai.Text.{Unicode, codes, strip, nonempty}
use capturemate_ai.Json.{
  Value, null, bool, int, float, str, list, dict, Result, ok, raise, value_error, ◌>>=◌, truthy,
  to_list, to_str,
}
use capturemate_ai.Regex.{Re, chr, cat, ahead, finish, some_of, sub}
use capturemate_ai.Kakao.{slugify_korean_safe}

-- What Python's int() and str.isdigit give; int() of a text is `none` where it raises ValueError.
pub record Integers : Type 0 where
  pub is_digit : ℕ → Bool
  pub int_of_text : Str → Option ℤ
  pub int_of_float : Float → Result ℤ

abbrev digits_of : (ℕ → Bool) → Str → Str
digits_of p [] = []
digits_of p (c ∷ s) = if p c then c ∷ digits_of p s else digits_of p s

module _ (ints : Integers) where
  abbrev int_value : Option ℤ → Result Value
  int_value none = raise value_error
  int_value (some n) = ok (int n)

  abbrev price_of : Str → Result Value
  price_of [] = ok null
  price_of (c ∷ s) = int_value (ints.int_of_text (c ∷ s))

  -- `normalize_price`, and `normalize_price_range`, which is the same. A bool is an int in Python.
  unfoldable pub normalize_price : Value → Result Value
  normalize_price null = ok null
  normalize_price (bool b) = ok (bool b)
  normalize_price (int n) = ok (int n)
  normalize_price (float x) = ints.int_of_float x >>= (λ n. ok (int n))
  normalize_price (str s) = price_of (digits_of ints.is_digit s)
  normalize_price (list vs) = ok null
  normalize_price (dict fs) = ok null

  -- [str(item).strip() for item in value if str(item).strip()]
  unfoldable pub stripped_texts : (Value → Str) → List Value → List Str
  unfolding to_str strip
  stripped_texts format [] = []
  stripped_texts format (v ∷ vs) =
      let s = strip (to_str format v) in
      let rest = stripped_texts format vs in if nonempty s then s ∷ rest else rest

  -- `normalize_string_list`
  unfoldable pub normalize_string_list : (Value → Str) → Value → List Str
  unfolding stripped_texts to_list strip
  normalize_string_list format (str s) = if nonempty (strip s) then s ∷ [] else []
  normalize_string_list format (list vs) = stripped_texts format (to_list vs)
  normalize_string_list format _ = []

pub record RestaurantMenuItem : Type 0 where
  pub name : Str
  pub price : Option ℤ
  pub currency : Str

pub record RestaurantRecommendedAction : Type 0 where
  pub kind : Str
  pub title : Str
  pub description : Option Str

pub record RestaurantPlaceDetails : Type 0 where
  pub name : Option Str
  pub address : Option Str
  pub road_address : Option Str
  pub neighborhood : Option Str
  pub latitude : Option Float
  pub longitude : Option Float
  pub map_provider : Option Str
  pub map_provider_place_id : Option Str
  pub menus : List RestaurantMenuItem
  pub estimated_price_per_person_min : Option ℤ
  pub estimated_price_per_person_max : Option ℤ
  pub tags : List Str
  pub features : List Str
  pub recommended_actions : List RestaurantRecommendedAction

pub record RestaurantGroup : Type 0 where
  pub id : Option Str
  pub title : Option Str
  pub neighborhood : Option Str

pub record RestaurantExtraction : Type 0 where
  pub source_refs : List Str
  pub title : Option Str
  pub topic_key : Option Str
  pub summary : Option Str
  pub restaurant : RestaurantPlaceDetails
  pub group : Option RestaurantGroup
  pub confidence : Float
  pub needs_user_review : Bool
  pub recommended_action : Option Str

pub record LifeInfoDetails : Type 0 where
  pub benefit : Option Str
  pub target : Option Str
  pub apply_method : Option Str
  pub deadline_text : Option Str
  pub confidence : Float
  pub needs_user_review : Bool
  pub recommended_actions : List RestaurantRecommendedAction
  pub recommended_action : Option Str

-- 동, 가, 읍, 면, 리
unfoldable pub is_suffix : ℕ → Bool
is_suffix c = eqb c 0xb3d9 || eqb c 0xac00 || eqb c 0xc74d || eqb c 0xba74 || eqb c 0xb9ac

-- Truth of a text or None, and of a coordinate or None.
abbrev pub has_text : Option Str → Bool
has_text none = false
has_text (some s) = nonempty s

abbrev pub has_coordinate : Option Float → Bool
has_coordinate none = false
has_coordinate (some x) = truthy (float x)

abbrev text_or_none : Str → Option Str
text_or_none [] = none
text_or_none (c ∷ s) = some (c ∷ s)

module _ (unicode : Unicode) where
  -- \d+(?=(동|가|읍|면|리)$)
  unfoldable pub number_before_suffix : Re
  number_before_suffix = cat (some_of unicode.is_decimal) (ahead (cat (chr is_suffix) finish))

  unfoldable pub without_number : Str → Str
  unfolding sub number_before_suffix is_suffix
  without_number s =
      (sub unicode {S = Unit {0}} number_before_suffix (λ original st. ([], st)) s tt).0

  -- `_normalize_neighborhood`
  unfoldable pub normalize_neighborhood : Option Str → Option Str
  unfolding without_number strip
  normalize_neighborhood none = none
  normalize_neighborhood (some s) =
      let normalized = without_number (strip s) in
      if nonempty s then text_or_none normalized else none

  module _ (ops : FloatOps) where
    -- min(confidence, 0.6)
    unfoldable pub capped : Float → Float
    capped x = if ops.lt three_fifths x then three_fifths else x

    unfoldable pub has_location : RestaurantPlaceDetails → Bool
    unfolding truthy
    has_location r =
        has_text r.address
        || has_text r.road_address
        || (has_coordinate r.latitude && has_coordinate r.longitude)

    abbrev reviewed : Bool → RestaurantExtraction → RestaurantExtraction
    reviewed true e = e
    reviewed false e = record e { needs_user_review = true; confidence = capped e.confidence }

    abbrev group_of : Str → RestaurantGroup
    group_of n = record {
      id = some (slugify_korean_safe unicode (n ++ codes "-restaurant"));
      title = some (n ++ codes " 맛집");
      neighborhood = some n;
    }

    abbrev regrouped : Option Str → RestaurantExtraction → RestaurantExtraction
    regrouped none e = e
    regrouped (some n) e = record e {
      restaurant = record e.restaurant { neighborhood = some n };
      group = some (group_of n);
    }

    -- RestaurantExtraction.fill_derived_flags
    unfoldable pub fill_derived_flags : RestaurantExtraction → RestaurantExtraction
    unfolding has_location capped normalize_neighborhood slugify_korean_safe
    fill_derived_flags e =
        regrouped (normalize_neighborhood e.restaurant.neighborhood)
          (reviewed (has_text e.restaurant.name && has_location e.restaurant) e)

    abbrev life_reviewed : Bool → LifeInfoDetails → LifeInfoDetails
    life_reviewed true d = d
    life_reviewed false d = record d { needs_user_review = true; confidence = capped d.confidence }

    -- LifeInfoDetails.fill_derived_flags
    unfoldable pub fill_life_info_flags : LifeInfoDetails → LifeInfoDetails
    unfolding capped
    fill_life_info_flags d = life_reviewed (has_text d.benefit || has_text d.target) d
