-- ===== src/Text/Strip.antt =====
-- That stripping twice is stripping once.
use capturemate_ai.Prelude.{
  ℕ, ◌≡◌, refl, ap, ◌∙◌, ◌⊎◌, inl, inr, Bool, false, Bool-cases, [], ◌∷◌, Str, if◌then◌else◌,
}
use capturemate_ai.Text.{drop_while, rstrip_by, strip_by, strip, is_space}

module _ (p : ℕ → Bool) where
  -- The last step of rstrip on a character and what is left of the rest.
  abbrev pub hung : ℕ → Str → Str
  hung c [] = if p c then [] else c ∷ []
  hung c (d ∷ t) = c ∷ d ∷ t

  pub rstrip_by-cons : (c : ℕ) (s : Str) → rstrip_by p (c ∷ s) ≡ hung c (rstrip_by p s)
  unfolding rstrip_by
  rstrip_by-cons c s = along (rstrip_by p s)
    where
      along :
          (rest : Str)
          → elim rest as (λ _. Str) [ [] ↦ if p c then [] else c ∷ [] | d ∷ t ↦ c ∷ d ∷ t ]
            ≡ hung c rest
      along [] = refl
      along (d ∷ t) = refl

  hung-rstrip_by :
      (c : ℕ) (rest : Str) → rstrip_by p rest ≡ rest → rstrip_by p (hung c rest) ≡ hung c rest
  hung-rstrip_by c [] h = elim (Bool-cases (p c)) [
    | inl y ↦ rw y h
    | inr n ↦ rw n (rstrip_by-cons c [] ∙ ap (hung c) h ∙ rw n refl)
  ]
  hung-rstrip_by c (d ∷ t) h = rstrip_by-cons c (d ∷ t) ∙ ap (hung c) h

  pub rstrip_by-twice : (s : Str) → rstrip_by p (rstrip_by p s) ≡ rstrip_by p s
  unfolding rstrip_by
  rstrip_by-twice [] = refl
  rstrip_by-twice (c ∷ s) =
      rw (rstrip_by-cons c s) (hung-rstrip_by c (rstrip_by p s) (rstrip_by-twice s))

  pub hung-headed : (c : ℕ) (rest : Str) → p c ≡ false → (t : Str) × (hung c rest ≡ c ∷ t)
  hung-headed c [] h = ([], rw h refl)
  hung-headed c (d ∷ t) h = (d ∷ t, refl)

  -- A text that does not begin with a character of p, as it is left by the stripping of both ends.
  drop_while-rstrip_by :
      (c : ℕ) (s : Str) → p c ≡ false → drop_while p (rstrip_by p (c ∷ s)) ≡ rstrip_by p (c ∷ s)
  unfolding drop_while
  drop_while-rstrip_by c s h =
      let (t, e) = hung-headed c (rstrip_by p s) h in rw (rstrip_by-cons c s, e, h) refl

  pub drop_while-headed :
      (s : Str)
      → (drop_while p s ≡ []) ⊎ ((c : ℕ) × (t : Str) × (drop_while p s ≡ c ∷ t) × (p c ≡ false))
  unfolding drop_while
  drop_while-headed [] = inl refl
  drop_while-headed (c ∷ s) = elim (Bool-cases (p c)) [
    | inl y ↦ rw y (drop_while-headed s)
    | inr n ↦ rw n (inr (c, s, refl, n))
  ]

  pub strip_by-twice : (s : Str) → strip_by p (strip_by p s) ≡ strip_by p s
  unfolding strip_by drop_while rstrip_by
  strip_by-twice s = elim (drop_while-headed s) [
    | inl e ↦ rw e refl
    | inr (c, t, e, n) ↦ rw (e, drop_while-rstrip_by c t n) (rstrip_by-twice (c ∷ t))
  ]

pub strip-twice : (s : Str) → strip (strip s) ≡ strip s
unfolding strip
strip-twice s = strip_by-twice is_space s
