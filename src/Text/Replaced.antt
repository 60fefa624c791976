-- ===== src/Text/Replaced.antt =====
-- What str.replace gives, said without a scan.
use capturemate_ai.Prelude.{
  ℕ, zero, suc, ◌≡◌, refl, sym, ap₂, subst, inl, inr, true, [], ◌∷◌, ◌++◌, Str, length, drop, eqb,
  eqb_iff, Bool-cases, &&-left, &&-right, ◌-◌, arith,
}
use capturemate_ai.Text.{starts_with, replace_from, replace}
use capturemate_ai.Text.Search.{starts_with_complete}

-- The text with every `old` from the left replaced: where `old` stands, `new` stands instead, and
-- the reading goes on behind it; where it does not, the character is kept.
pub data Replaced (old new : Str) : Str → Str → Type 0 where
  at_end : Replaced old new [] []
  replaced : {s t : Str} → Replaced old new s t → Replaced old new (old ++ s) (new ++ t)
  kept :
      {c : ℕ} {s t : Str}
      → ((rest : Str) → ¬ (c ∷ s) ≡ (old ++ rest))
      → Replaced old new s t
      → Replaced old new (c ∷ s) (c ∷ t)

prefix_drop : (s t : Str) → starts_with s t ≡ true → t ++ drop (length t) s ≡ s
unfolding starts_with
prefix_drop s [] h = refl
prefix_drop [] (b ∷ t) h = cc
prefix_drop (a ∷ s) (b ∷ t) h =
    ap₂ ◌∷◌ (sym ((eqb_iff a b).0 (&&-left _ (starts_with s t) h)))
      (prefix_drop s t (&&-right (eqb a b) _ h))

pred : (n : ℕ) → suc n - 1 ≡ n
pred n = omega arith

module _ (o : ℕ) (os new : Str) where
  replace_from-Replaced :
      (skip : ℕ) (s : Str) → Replaced (o ∷ os) new (drop skip s) (replace_from (o ∷ os) new skip s)
  unfolding replace_from
  replace_from-Replaced zero [] = at_end
  replace_from-Replaced (suc skip) [] = at_end
  replace_from-Replaced (suc skip) (c ∷ s) = replace_from-Replaced skip s
  replace_from-Replaced zero (c ∷ s) = elim (Bool-cases (starts_with (c ∷ s) (o ∷ os))) [
    | inl hit ↦
        rw (hit, pred (length os))
          (subst (λ u. Replaced (o ∷ os) new u (new ++ replace_from (o ∷ os) new (length os) s))
            (prefix_drop (c ∷ s) (o ∷ os) hit) (replaced (replace_from-Replaced (length os) s)))
    | inr miss ↦ rw miss (
        kept
          (λ rest e. let found = starts_with_complete (o ∷ os) rest in let no = rw e at miss in cc)
          (replace_from-Replaced zero s))
  ]

  pub replace-Replaced : (s : Str) → Replaced (o ∷ os) new s (replace (o ∷ os) new s)
  unfolding replace
  replace-Replaced s = replace_from-Replaced zero s
