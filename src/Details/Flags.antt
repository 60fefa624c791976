-- ===== src/Details/Flags.antt =====
-- What the derived flags of a restaurant promise.
use capturemate_ai.Prelude.{
  ◌≡◌, refl, sym, ap, subst, ◌∙◌, some_inj, none-some, true, false, Bool, ◌&&◌, Bool-cases, inl,
  inr, Option, none, some, Str,
}
use capturemate_ai.Prelude.Float.{Float, FloatOps, three_fifths}
use capturemate_ai.Text.{Unicode}
use capturemate_ai.Details.{
  has_text, capped, has_location, RestaurantPlaceDetails, RestaurantExtraction,
  normalize_neighborhood, reviewed, group_of, regrouped, fill_derived_flags,
}
use capturemate_ai.Details.Neighborhoods.{IsKorean, normalize_neighborhood-twice}

module _ (unicode : Unicode) (ops : FloatOps) where
  -- The place has a name and a location.
  abbrev pub complete : RestaurantPlaceDetails → Bool
  complete r = has_text r.name && has_location unicode ops r

  pub capped-le :
      ops.lt three_fifths three_fifths ≡ false
      → (x : Float) → ops.lt three_fifths (capped unicode ops x) ≡ false
  unfolding capped
  capped-le irr x = elim (Bool-cases (ops.lt three_fifths x)) [
    | inl y ↦ rw y irr
    | inr n ↦ rw (n, n) refl
  ]

  pub capped-twice :
      ops.lt three_fifths three_fifths ≡ false
      → (x : Float) → capped unicode ops (capped unicode ops x) ≡ capped unicode ops x
  unfolding capped
  capped-twice irr x = elim (Bool-cases (ops.lt three_fifths x)) [
    | inl y ↦ rw (y, irr) refl
    | inr n ↦ rw (n, n) refl
  ]

  abbrev flagged : Option Str → Bool → RestaurantExtraction → RestaurantExtraction
  flagged o b e = regrouped unicode ops o (reviewed unicode ops b e)

  -- What an extraction with its flags promises.
  pub record IsFlagged (e : RestaurantExtraction) : Type 0 where
    pub reviewed_or_complete : e.needs_user_review ≡ false → complete e.restaurant ≡ true
    pub doubted : complete e.restaurant ≡ false → ops.lt three_fifths e.confidence ≡ false
    pub grouped :
        (n : Str)
        → normalize_neighborhood unicode e.restaurant.neighborhood ≡ some n
        → e.group ≡ some (group_of unicode ops n)

  complete-flagged :
      (o : Option Str) (b : Bool) (e : RestaurantExtraction)
      → complete (flagged o b e).restaurant ≡ complete e.restaurant
  unfolding has_location
  complete-flagged none true e = refl
  complete-flagged none false e = refl
  complete-flagged (some n) true e = refl
  complete-flagged (some n) false e = refl

  needs_review :
      (o : Option Str) (b : Bool) (e : RestaurantExtraction)
      → (flagged o b e).needs_user_review ≡ false
      → b ≡ true
  needs_review o true e h = refl
  needs_review none false e h = cc
  needs_review (some n) false e h = cc

  doubted_lem :
      ops.lt three_fifths three_fifths ≡ false
      → (o : Option Str) (e : RestaurantExtraction)
      → ops.lt three_fifths (flagged o false e).confidence ≡ false
  doubted_lem irr none e = capped-le irr e.confidence
  doubted_lem irr (some n) e = capped-le irr e.confidence

  grouped_lem :
      (o : Option Str) (b : Bool) (e : RestaurantExtraction) (n : Str)
      → o ≡ some n
      → (flagged o b e).group ≡ some (group_of unicode ops n)
  grouped_lem none b e n h = absurd (none-some h)
  grouped_lem (some m) true e n h = ap (λ x. some (group_of unicode ops x)) (some_inj h)
  grouped_lem (some m) false e n h = ap (λ x. some (group_of unicode ops x)) (some_inj h)

  flagged-twice :
      ops.lt three_fifths three_fifths ≡ false
      → (o : Option Str) (b : Bool) (e : RestaurantExtraction)
      → flagged o b (flagged o b e) ≡ flagged o b e
  flagged-twice irr none true e = refl
  flagged-twice irr (some n) true e = refl
  flagged-twice irr none false e =
      ap (λ x. record e { needs_user_review = true; confidence = x })
        (capped-twice irr e.confidence)
  flagged-twice irr (some n) false e =
      ap
        (λ x.
          regrouped unicode ops (some n) (record e { needs_user_review = true; confidence = x }))
        (capped-twice irr e.confidence)

  module _ (korean : IsKorean unicode) (irr : ops.lt three_fifths three_fifths ≡ false) where
    named :
        (e : RestaurantExtraction) (n : Str)
        → normalize_neighborhood unicode e.restaurant.neighborhood ≡ some n
        → normalize_neighborhood unicode (some n) ≡ some n
    named e n h =
        ap (normalize_neighborhood unicode) (sym h)
        ∙ (normalize_neighborhood-twice unicode korean e.restaurant.neighborhood ∙ h)

    name-flagged :
        (o : Option Str) (b : Bool) (e : RestaurantExtraction)
        → normalize_neighborhood unicode e.restaurant.neighborhood ≡ o
        → normalize_neighborhood unicode (flagged o b e).restaurant.neighborhood ≡ o
    name-flagged none true e h = h
    name-flagged none false e h = h
    name-flagged (some n) true e h = named e n h
    name-flagged (some n) false e h = named e n h

    fill_shape :
        (e : RestaurantExtraction)
        → fill_derived_flags unicode ops e
          ≡ flagged
              (normalize_neighborhood unicode e.restaurant.neighborhood)
              (complete e.restaurant)
              e
    unfolding fill_derived_flags
    fill_shape e = refl

    flagged-IsFlagged :
        (o : Option Str) (b : Bool) (e : RestaurantExtraction)
        → normalize_neighborhood unicode e.restaurant.neighborhood ≡ o
        → complete e.restaurant ≡ b
        → IsFlagged (flagged o b e)
    flagged-IsFlagged o b e h k = record {
      reviewed_or_complete = λ q. complete-flagged o b e ∙ (k ∙ needs_review o b e q);
      doubted = λ q. doubt b (sym k ∙ (sym (complete-flagged o b e) ∙ q));
      grouped = λ n q. grouped_lem o b e n (sym (name-flagged o b e h) ∙ q);
    }
      where
        doubt : (b' : Bool) → b' ≡ false → ops.lt three_fifths (flagged o b' e).confidence ≡ false
        doubt true q = cc
        doubt false q = doubted_lem irr o e

    -- After the validation of a restaurant: one that needs no review has a name and a location; one
    -- without a name or a location has a confidence of 0.6 at most; one with a neighborhood has the
    -- group of that neighborhood, whatever group the model made up; and validating again changes
    -- nothing. This supposes that the five syllables are no digits and that 0.6 < 0.6 is false.
    pub fill_derived_flags-IsFlagged :
        (e : RestaurantExtraction)
        → IsFlagged (fill_derived_flags unicode ops e)
          × (fill_derived_flags unicode ops (fill_derived_flags unicode ops e)
              ≡ fill_derived_flags unicode ops e)
    fill_derived_flags-IsFlagged e =
        let o = normalize_neighborhood unicode e.restaurant.neighborhood in
        let b = complete e.restaurant in
        let f = flagged o b e in
        (
          subst IsFlagged (sym (fill_shape e)) (flagged-IsFlagged o b e refl refl),
          ap (fill_derived_flags unicode ops) (fill_shape e)
              ∙ (fill_shape f
                  ∙ (ap (λ x. flagged x (complete f.restaurant) f) (name-flagged o b e refl)
                      ∙ (ap (λ x. flagged o x f) (complete-flagged o b e)
                          ∙ (flagged-twice irr o b e ∙ sym (fill_shape e))))),
        )
