-- ===== src/Kakao.antt =====
-- app/integrations/kakao_local.py: the place search and the details that it fills in.
pub mod Choice
pub mod Filled
use capturemate_ai.Prelude.{
  ℕ, Bool, true, false, ◌||◌, ◌&&◌, not, Option, none, some, List, [], ◌∷◌, ◌++◌, Str, eqb,
  if◌then◌else◌,
}
use capturemate_ai.Prelude.Float.{Float, FloatOps, half, three_fifths, three_quarters}
use capturemate_ai.Text.{Unicode, codes, strip, split, replace, nonempty, or_text}
use capturemate_ai.Json.{
  Value, Fields, null, bool, float, str, list, dict, Values, nil, cons, end, field, Result, ok,
  raise, type_error, value_error, attribute_error, ◌>>=◌, get, has, put, truthy, or_else, to_str,
  to_float, opt_str, opt_float,
}

pub record KakaoPlace : Type 0 where
  pub id : Option Str
  pub name : Option Str
  pub address : Option Str
  pub road_address : Option Str
  pub longitude : Option Float
  pub latitude : Option Float
  pub category_name : Option Str

-- `_clean_string`
unfoldable pub clean_string : Value → Option Str
unfolding strip
clean_string (str s) = let t = strip s in if nonempty t then some t else none
clean_string _ = none

-- The last character is one of 동 가 읍 면 리, and not 시 or 구.
last_of : (ℕ → Bool) → Str → Bool
last_of p [] = false
last_of p (c ∷ []) = p c
last_of p (c ∷ d ∷ s) = last_of p (d ∷ s)

abbrev dong_suffix : ℕ → Bool
dong_suffix c = eqb c 0xb3d9 || eqb c 0xac00 || eqb c 0xc74d || eqb c 0xba74 || eqb c 0xb9ac

abbrev city_suffix : ℕ → Bool
city_suffix c = eqb c 0xc2dc || eqb c 0xad6c

first_neighborhood : List Str → Option Str
unfolding last_of
first_neighborhood [] = none
first_neighborhood (token ∷ tokens) =
    let later = first_neighborhood tokens in
    if last_of dong_suffix token && not (last_of city_suffix token) then some token else later

-- `_extract_neighborhood`
unfoldable pub extract_neighborhood : Option Str → Option Str
unfolding first_neighborhood split
extract_neighborhood none = none
extract_neighborhood (some address) =
    if nonempty address then first_neighborhood (split address) else none

keep_slug : (ℕ → Bool) → Str → Str
keep_slug p [] = []
keep_slug p (c ∷ s) = let rest = keep_slug p s in if p c || eqb c b'-' then c ∷ rest else rest

-- `_slugify_korean_safe`, which categories/restaurant.py has as well.
unfoldable pub slugify_korean_safe : Unicode → Str → Str
unfolding keep_slug strip replace
slugify_korean_safe unicode value =
    or_text
      (keep_slug unicode.is_alnum (replace (codes " ") (codes "-") (unicode.lower (strip value))))
      (codes "restaurant-group")

-- except (TypeError, ValueError)
abbrev conversion : Result Float → Result (Option Float)
conversion (ok x) = ok (some x)
conversion (raise type_error) = ok none
conversion (raise value_error) = ok none
conversion (raise e) = raise e

module _ (ops : FloatOps) where
  -- `_to_float`: a TypeError or ValueError is None; an OverflowError is not caught.
  unfoldable pub float_or_none : Value → Result (Option Float)
  unfolding to_float
  float_or_none null = ok none
  float_or_none v = conversion (to_float ops v)

  -- `_place_from_document`
  unfoldable pub place_from_document : Fields → Result KakaoPlace
  unfolding float_or_none clean_string get
  place_from_document document = do
    x ← float_or_none (get (codes "x") document)
    y ← float_or_none (get (codes "y") document)
    ok (record {
      id = clean_string (get (codes "id") document);
      name = clean_string (get (codes "place_name") document);
      address = clean_string (get (codes "address_name") document);
      road_address = clean_string (get (codes "road_address_name") document);
      longitude = x;
      latitude = y;
      category_name = clean_string (get (codes "category_name") document);
    })

  unfoldable pub places_from_documents : Values → Result (List KakaoPlace)
  unfolding place_from_document
  places_from_documents nil = ok []
  places_from_documents (cons (dict document) vs) = do
    place ← place_from_document document
    places ← places_from_documents vs
    ok (place ∷ places)
  places_from_documents (cons v vs) = places_from_documents vs

  abbrev documents_of : Fields → Value
  documents_of payload =
      if has (codes "documents") payload then get (codes "documents") payload else list nil

  -- What `_search_keyword` makes of the parsed payload.
  unfoldable pub read_payload : Value → Result (List KakaoPlace)
  unfolding places_from_documents get has
  read_payload (dict payload) = elim (documents_of payload) [
    | list vs ↦ places_from_documents vs
    | _ ↦ ok []
  ]
  read_payload _ = raise attribute_error

  -- The request: the query and the category code give the parsed payload, or `none` where the
  -- request or the JSON fails.
  module _ (fetch : Str → Option Str → Option Value) where
    -- `_search_keyword`
    unfoldable pub search_keyword : Str → Option Str → Result (List KakaoPlace)
    unfolding read_payload
    search_keyword query category_code = elim (fetch query category_code) [
      | none ↦ ok []
      | some payload ↦ read_payload payload
    ]

    -- The loop over the category codes, left at the first that finds something.
    unfoldable pub search_codes : List Str → Str → Result (List KakaoPlace)
    unfolding search_keyword
    search_codes [] query = search_keyword query none
    search_codes (code ∷ codes) query = do
      found ← search_keyword query (some code)
      let later = search_codes codes query
      elim found [ [] ↦ later | place ∷ places ↦ ok (place ∷ places) ]

    -- `_search_candidates`
    unfoldable pub search_candidates : Str → Result (List KakaoPlace)
    unfolding search_codes
    search_candidates = search_codes (codes "FD6" ∷ codes "CE7" ∷ [])

    abbrev only : List KakaoPlace → Option KakaoPlace
    only (place ∷ []) = some place
    only _ = none

    -- The second search, with the neighborhood added.
    unfoldable pub refine : Str → Option Str → Result (Option KakaoPlace)
    unfolding search_candidates
    refine cleaned_name none = ok none
    refine cleaned_name (some neighborhood) = do
      refined ← search_candidates (cleaned_name ++ (codes " " ++ neighborhood))
      ok (only refined)

    abbrev settle : Str → Option Str → Option KakaoPlace → Result (Option KakaoPlace)
    settle cleaned_name neighborhood none = refine cleaned_name neighborhood
    settle cleaned_name neighborhood (some place) = ok (some place)

    -- The search by a name that is not blank.
    unfoldable pub search_named : Option Str → Option Str → Result (Option KakaoPlace)
    unfolding search_candidates refine
    search_named none neighborhood = ok none
    search_named (some cleaned_name) neighborhood = do
      candidates ← search_candidates cleaned_name
      settle cleaned_name neighborhood (only candidates)

    -- `search_best_place`; the address is not used.
    unfoldable pub search_best_place : Str → Option Str → Result (Option KakaoPlace)
    unfolding search_named clean_string opt_str
    search_best_place name neighborhood =
        search_named (clean_string (str name)) (clean_string (opt_str neighborhood))

    abbrev confidence_of : Fields → Result Float
    confidence_of details = to_float ops (or_else (get (codes "confidence") details) (float half))

    abbrev smaller : Float → Float → Float
    smaller a b = if ops.lt b a then b else a

    abbrev larger : Float → Float → Float
    larger a b = if ops.lt a b then b else a

    -- No single place was found.
    unfoldable pub mark_unverified : Fields → Result Fields
    unfolding to_float or_else get put
    mark_unverified details = do
      let reviewed = put (codes "needsUserReview") (bool true) details
      c ← confidence_of reviewed
      ok (put (codes "confidence") (float (smaller c three_fifths)) reviewed)

    -- A value that is there stays.
    abbrev keep : Str → Option Str → Fields → Fields
    keep key found r = put key (or_else (get key r) (opt_str found)) r

    -- The fields of the place.
    unfoldable pub fill_fields : KakaoPlace → Fields → Fields
    unfolding or_else get put opt_str opt_float
    fill_fields place r₀ =
        let r₁ = keep (codes "name") place.name r₀ in
        let r₂ = keep (codes "address") place.address r₁ in
        let r₃ = keep (codes "roadAddress") place.road_address r₂ in
        let r₄ = put (codes "latitude") (opt_float place.latitude) r₃ in
        let r₅ = put (codes "longitude") (opt_float place.longitude) r₄ in
        let r₆ = put (codes "mapProvider") (str (codes "kakao")) r₅ in
        put (codes "mapProviderPlaceId") (opt_str place.id) r₆

    -- The neighborhood, where there was none.
    unfoldable pub fill_neighborhood : KakaoPlace → Fields → Fields
    unfolding or_else get put opt_str extract_neighborhood truthy
    fill_neighborhood place r =
        if truthy (get (codes "neighborhood") r)
        then r
        else put (codes "neighborhood")
            (or_else (opt_str (extract_neighborhood place.address))
              (opt_str (extract_neighborhood place.road_address)))
            r

    unfoldable pub fill_place : KakaoPlace → Fields → Fields
    unfolding fill_fields fill_neighborhood
    fill_place place r = fill_neighborhood place (fill_fields place r)

    abbrev lift_confidence : Fields → Result Fields
    lift_confidence settled = do
      c ← confidence_of settled
      ok (put (codes "confidence") (float (larger c three_quarters)) settled)

    -- An address settles the review and lifts the confidence.
    unfoldable pub mark_located : Fields → Fields → Result Fields
    unfolding truthy get put to_float or_else
    mark_located restaurant details =
        if truthy (get (codes "address") restaurant)
          || truthy (get (codes "roadAddress") restaurant)
        then lift_confidence (put (codes "needsUserReview") (bool false) details)
        else ok details

    module _ (unicode : Unicode) (format : Value → Str) where
      unfoldable pub regroup : Fields → Fields → Fields
      unfolding truthy get put to_str slugify_korean_safe
      regroup restaurant details =
          let value = get (codes "neighborhood") restaurant in
          let text = to_str format value in
          if truthy value
          then put (codes "group")
              (dict (
                field (codes "id") (str (slugify_korean_safe unicode (text ++ codes "-restaurant")))
                  (field (codes "title") (str (text ++ codes " 맛집"))
                    (field (codes "neighborhood") value end))))
              details
          else details

      unfoldable pub apply_place : KakaoPlace → Fields → Fields → Result Fields
      unfolding fill_place mark_located regroup put
      apply_place place restaurant details = do
        let filled = fill_place place restaurant
        located ← mark_located filled (put (codes "restaurant") (dict filled) details)
        ok (regroup filled located)

      abbrev enrich_named : Str → Fields → Fields → Result Fields
      enrich_named name restaurant details = do
        found ← search_best_place name (clean_string (get (codes "neighborhood") restaurant))
        elim found [
          | none ↦ mark_unverified details
          | some place ↦ apply_place place restaurant details
        ]

      abbrev enrich_restaurant : Value → Fields → Result Fields
      enrich_restaurant (dict restaurant) details =
          elim (clean_string (get (codes "name") restaurant)) [
            | none ↦ ok details
            | some name ↦ enrich_named name restaurant details
          ]
      enrich_restaurant v details = ok details

      -- `enrich_restaurant_details_with_kakao`
      unfoldable pub enrich_restaurant_details_with_kakao : Fields → Result Fields
      unfolding get clean_string search_best_place mark_unverified apply_place
      enrich_restaurant_details_with_kakao details =
          enrich_restaurant (get (codes "restaurant") details) details
