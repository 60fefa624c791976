-- ===== src/Details/LifeInfo.antt =====
-- What the derived flags of a life info promise.
use capturemate_ai.Prelude.{◌≡◌, refl, sym, ap, ◌∙◌, true, false, Bool, ◌||◌}
use capturemate_ai.Prelude.Float.{FloatOps, three_fifths}
use capturemate_ai.Text.{Unicode}
use capturemate_ai.Details.{has_text, LifeInfoDetails, life_reviewed, fill_life_info_flags}
use capturemate_ai.Details.Flags.{capped-le, capped-twice}

module _ (unicode : Unicode) (ops : FloatOps) where
  module _ (irr : ops.lt three_fifths three_fifths ≡ false) where
    life-twice :
        (b : Bool) (d : LifeInfoDetails)
        → life_reviewed unicode ops b (life_reviewed unicode ops b d)
          ≡ life_reviewed unicode ops b d
    life-twice true d = refl
    life-twice false d =
        ap (λ x. record d { needs_user_review = true; confidence = x })
          (capped-twice unicode ops irr d.confidence)

    -- What the details of a life info promise.
    pub record IsReviewed (d : LifeInfoDetails) : Type 0 where
      pub reviewed_or_informed :
          d.needs_user_review ≡ false → (has_text d.benefit || has_text d.target) ≡ true
      pub doubted_life :
          (has_text d.benefit || has_text d.target) ≡ false
          → ops.lt three_fifths d.confidence ≡ false

    life-IsReviewed :
        (b : Bool) (d : LifeInfoDetails)
        → (has_text d.benefit || has_text d.target) ≡ b
        → IsReviewed (life_reviewed unicode ops b d)
    life-IsReviewed true d h = record {
      reviewed_or_informed = λ q. h;
      doubted_life = λ q. let clash = sym h ∙ q in cc;
    }
    life-IsReviewed false d h = record {
      reviewed_or_informed = λ q. cc;
      doubted_life = λ q. capped-le unicode ops irr d.confidence;
    }

    life_kept :
        (b : Bool) (d : LifeInfoDetails)
        → (has_text (life_reviewed unicode ops b d).benefit
            || has_text (life_reviewed unicode ops b d).target)
          ≡ (has_text d.benefit || has_text d.target)
    life_kept true d = refl
    life_kept false d = refl

    -- After the validation of a life info: one that needs no review has a benefit or a target; one
    -- without either has a confidence of 0.6 at most; and validating again changes nothing. This
    -- supposes that 0.6 < 0.6 is false.
    pub fill_life_info_flags-IsReviewed :
        (d : LifeInfoDetails)
        → IsReviewed (fill_life_info_flags unicode ops d)
          × (fill_life_info_flags unicode ops (fill_life_info_flags unicode ops d)
              ≡ fill_life_info_flags unicode ops d)
    unfolding fill_life_info_flags
    fill_life_info_flags-IsReviewed d =
        let b = has_text d.benefit || has_text d.target in
        (
          life-IsReviewed b d refl,
          ap (λ x. life_reviewed unicode ops x (life_reviewed unicode ops b d)) (life_kept b d)
              ∙ life-twice b d,
        )
