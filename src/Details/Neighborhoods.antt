-- ===== src/Details/Neighborhoods.antt =====
-- The name of a neighborhood without its number.
use capturemate_ai.Prelude.{
  ℕ, ◌≡◌, refl, sym, ap, ◌∙◌, true, false, Bool, ◌||◌, Option, none, some, [], ◌∷◌, Str, eqb,
  eqb_iff,
}
use capturemate_ai.Text.{Unicode, strip, strip_by, is_space}
use capturemate_ai.Regex.Deletion.{reduced, sub-reduced}
use capturemate_ai.Regex.Twice.{red-twice}
use capturemate_ai.Regex.Ends.{strip-less}
use capturemate_ai.Details.{
  is_suffix, number_before_suffix, without_number, text_or_none, normalize_neighborhood,
}

-- What the Unicode database has of the five syllables: none is a decimal digit.
abbrev pub IsKorean : Unicode → Type 0
IsKorean unicode = (c : ℕ) → is_suffix c ≡ true → unicode.is_decimal c ≡ false

-- The substitution by the pattern, with all its backtracking, leaves out the digits between which
-- and the end stands one of the five syllables alone, and nothing else: it is one pass that looks
-- ahead. This supposes that the five syllables are no digits.
pub without_number-reduced :
    (unicode : Unicode)
    → IsKorean unicode
    → (s : Str) → without_number unicode s ≡ reduced unicode unicode.is_decimal is_suffix s
unfolding without_number number_before_suffix
without_number-reduced unicode korean s = sub-reduced unicode unicode.is_decimal is_suffix korean s

solid_suffix : is_suffix 10 ≡ false
unfolding is_suffix
solid_suffix = refl

any_of :
    (a b : ℕ) (f : ℕ → Bool) {r : Bool}
    → f b ≡ false
    → (r ≡ true → f a ≡ false)
    → (r || eqb a b) ≡ true
    → f a ≡ false
any_of a b f {r = true} h k e = k refl
any_of a b f {r = false} h k e = ap f ((eqb_iff a b).0 e) ∙ h

-- What is false of each of the five syllables is false of every suffix.
pub none_suffix :
    (f : ℕ → Bool)
    → (f 0xb3d9 ≡ false)
      × (f 0xac00 ≡ false)
      × (f 0xc74d ≡ false)
      × (f 0xba74 ≡ false)
      × (f 0xb9ac ≡ false)
    → (c : ℕ) → is_suffix c ≡ true
    → f c ≡ false
unfolding is_suffix
none_suffix f (h₁, h₂, h₃, h₄, h₅) c h =
    any_of c 0xb9ac f h₅
      (any_of c 0xba74 f h₄
        (any_of c 0xc74d f h₃ (any_of c 0xac00 f h₂ (λ e. ap f ((eqb_iff c 0xb3d9).0 e) ∙ h₁))))
      h

visible_suffix : (c : ℕ) → is_suffix c ≡ true → is_space c ≡ false
unfolding is_space
visible_suffix = none_suffix is_space (refl, refl, refl, refl, refl)

module _ (unicode : Unicode) (korean : IsKorean unicode) where
  abbrev less : Str → Str
  less s = reduced unicode unicode.is_decimal is_suffix s

  normalized_some :
      (c : ℕ) (s : Str)
      → normalize_neighborhood unicode (some (c ∷ s)) ≡ text_or_none (less (strip (c ∷ s)))
  unfolding normalize_neighborhood
  normalized_some c s = ap text_or_none (without_number-reduced unicode korean (strip (c ∷ s)))

  less-fixed : (s : Str) → less (strip (less (strip s))) ≡ less (strip s)
  unfolding strip
  less-fixed s =
      ap less (
        strip-less is_space unicode unicode.is_decimal is_suffix korean solid_suffix visible_suffix
          s)
      ∙ red-twice unicode unicode.is_decimal is_suffix korean solid_suffix (strip_by is_space s)

  again :
      (t r : Str)
      → r ≡ t
      → less (strip t) ≡ t
      → normalize_neighborhood unicode (text_or_none r) ≡ text_or_none r
  unfolding normalize_neighborhood
  again t [] e h = refl
  again t (c ∷ u) e h =
      normalized_some c u ∙ ap text_or_none (ap (λ x. less (strip x)) e ∙ (h ∙ sym e))

  nothing_normalized : normalize_neighborhood unicode none ≡ none
  unfolding normalize_neighborhood
  nothing_normalized = refl

  empty_normalized : normalize_neighborhood unicode (some []) ≡ none
  unfolding normalize_neighborhood
  empty_normalized = refl

  -- A name that is normalized is normalized already.
  pub normalize_neighborhood-twice :
      (o : Option Str)
      → normalize_neighborhood unicode (normalize_neighborhood unicode o)
        ≡ normalize_neighborhood unicode o
  normalize_neighborhood-twice none = ap (normalize_neighborhood unicode) nothing_normalized
  normalize_neighborhood-twice (some []) =
      ap (normalize_neighborhood unicode) empty_normalized
      ∙ (nothing_normalized ∙ sym empty_normalized)
  normalize_neighborhood-twice (some (c ∷ s)) =
      let r = less (strip (c ∷ s)) in
      ap (normalize_neighborhood unicode) (normalized_some c s)
      ∙ (again r r refl (less-fixed (c ∷ s)) ∙ sym (normalized_some c s))
