-- ===== src/Regex/Twice.antt =====
-- That deleting a run before a tail twice is deleting it once.
use capturemate_ai.Prelude.{
  ℕ, ◌≡◌, refl, sym, ap, ◌∙◌, Bool, true, false, ◌&&◌, Bool-cases, inl, inr, ◌⊎◌, [], ◌∷◌, Str, eqb,
  eqb_iff,
}
use capturemate_ai.Text.{Unicode, drop_while}
use capturemate_ai.Regex.{at_finish}
use capturemate_ai.Regex.Lookahead.{is_tail}
use capturemate_ai.Regex.Deletion.{
  reduced, reduced-keep, reduced-cut, drop_while-hit, drop_while-miss, no_tail-nil, and_false,
}

module _ (unicode : Unicode) (p q : ℕ → Bool) (apart : (c : ℕ) → q c ≡ true → p c ≡ false)
    (solid : q 10 ≡ false) where
  abbrev pub red : Str → Str
  red = reduced unicode p q

  abbrev pub tail : Str → Bool
  tail = is_tail unicode p q

  pub red-nil : red [] ≡ []
  unfolding reduced
  red-nil = refl

  -- What becomes of a text that does not end: its run is deleted, or its first character stays.
  pub red-cases :
      (c : ℕ) (s : Str)
      → ((p c ≡ true) × (tail (drop_while p s) ≡ true) × (red (c ∷ s) ≡ drop_while p s))
        ⊎ (((p c && tail (drop_while p s)) ≡ false) × (red (c ∷ s) ≡ c ∷ red s))
  red-cases c s = elim (Bool-cases (p c)) [
    | inr n ↦
        let off : (p c && tail (drop_while p s)) ≡ false = rw n refl in
        inr (off, reduced-keep unicode p q c s off)
    | inl y ↦ elim (Bool-cases (tail (drop_while p s))) [
      | inl t ↦ inl (y, t, reduced-cut unicode p q c s y t)
      | inr t ↦ let off = and_false (p c) t in inr (off, reduced-keep unicode p q c s off)
    ]
  ]

  pub tail-headed :
      (t : Str)
      → tail t ≡ true
      → (d : ℕ) × (u : Str) × (t ≡ d ∷ u) × (q d ≡ true) × (at_finish unicode u ≡ true)
  tail-headed [] h = cc
  tail-headed (d ∷ u) h = elim (Bool-cases (q d)) [
    | inl y ↦ (d, u, refl, y, rw y at h)
    | inr n ↦ let clash = rw n at h in cc
  ]

  pub red-one : (c : ℕ) → red (c ∷ []) ≡ c ∷ []
  red-one c =
      reduced-keep unicode p q c [] (and_false (p c) (no_tail-nil unicode p q)) ∙ ap (◌∷◌ c) red-nil

  red-finish : (u : Str) → at_finish unicode u ≡ true → red u ≡ u
  red-finish [] h = red-nil
  red-finish (c ∷ []) h = red-one c
  red-finish (c ∷ d ∷ u) h = cc

  red-tail : (t : Str) → tail t ≡ true → red t ≡ t
  red-tail t h =
      let (d, u, e, y, f) = tail-headed t h in
      ap red e
      ∙ (reduced-keep unicode p q d u (rw (apart d y) refl) ∙ (ap (◌∷◌ d) (red-finish u f) ∙ sym e))

  -- A tail is not at its end.
  tail-unfinished : (t : Str) → tail t ≡ true → at_finish unicode t ≡ false
  tail-unfinished t h = let (d, u, e, y, f) = tail-headed t h in rw e (along d u y)
    where
      along : (d : ℕ) (u : Str) → q d ≡ true → at_finish unicode (d ∷ u) ≡ false
      along d (x ∷ u) y = refl
      along d [] y = elim (Bool-cases (eqb d 10)) [
        | inr n ↦ n
        | inl same ↦ let at_ten = rw ((eqb_iff d 10).0 same) at y in cc
      ]

  pub red-headed : (c : ℕ) (s : Str) → (x : ℕ) × (u : Str) × (red (c ∷ s) ≡ x ∷ u)
  red-headed c s = elim (red-cases c s) [
    | inl (y, t, e) ↦ let (d, u, e', _, _) = tail-headed (drop_while p s) t in (d, u, e ∙ e')
    | inr (off, e) ↦ (c, red s, e)
  ]

  -- A text that is left at its end was so before.
  finish-red : (s : Str) → at_finish unicode (red s) ≡ true → at_finish unicode s ≡ true
  finish-red [] h = refl
  finish-red (c ∷ []) h = ap (at_finish unicode) (sym (red-one c)) ∙ h
  finish-red (c ∷ d ∷ s) h = elim (red-cases c (d ∷ s)) [
    | inl (y, t, e) ↦
        let no = ap (at_finish unicode) e ∙ tail-unfinished (drop_while p (d ∷ s)) t in cc
    | inr (off, e) ↦
        let (x, u, e') = red-headed d s in let no = ap (at_finish unicode) (e ∙ ap (◌∷◌ c) e') in cc
  ]

  tail-red : (s : Str) → tail (drop_while p (red s)) ≡ true → tail (drop_while p s) ≡ true
  tail-red [] h = ap (λ u. tail (drop_while p u)) (sym red-nil) ∙ h
  tail-red (c ∷ s) h = elim (red-cases c s) [
    | inl (y, t, e) ↦ ap tail (drop_while-hit p c s y) ∙ t
    | inr (off, e) ↦ elim (Bool-cases (p c)) [
      | inl y ↦
          let inner =
            ap tail (sym (drop_while-hit p c (red s) y) ∙ ap (drop_while p) (sym e)) ∙ h in
          ap tail (drop_while-hit p c s y) ∙ tail-red s inner
      | inr n ↦
          let inner : tail (c ∷ red s) ≡ true =
            ap tail (sym (drop_while-miss p c (red s) n) ∙ ap (drop_while p) (sym e)) ∙ h in
          let (d, u, e', y, f) = tail-headed (c ∷ red s) inner in
          ap tail (drop_while-miss p c s n) ∙ along inner
    ]
  ]
    where
      along : tail (c ∷ red s) ≡ true → tail (c ∷ s) ≡ true
      along i = elim (Bool-cases (q c)) [
        | inl y ↦ rw y (finish-red s (rw y at i))
        | inr n ↦ let clash = rw n at i in cc
      ]

  keep-red :
      (c : ℕ) (s : Str)
      → (p c && tail (drop_while p s)) ≡ false
      → (p c && tail (drop_while p (red s))) ≡ false
  keep-red c s off = elim (Bool-cases (tail (drop_while p (red s)))) [
    | inr n ↦ and_false (p c) n
    | inl y ↦ rw (y, sym (tail-red s y)) off
  ]

  pub red-twice : (s : Str) → red (red s) ≡ red s
  red-twice [] = ap red red-nil
  red-twice (c ∷ s) = elim (red-cases c s) [
    | inl (y, t, e) ↦ ap red e ∙ (red-tail (drop_while p s) t ∙ sym e)
    | inr (off, e) ↦
        ap red e
        ∙ (reduced-keep unicode p q c (red s) (keep-red c s off)
            ∙ (ap (◌∷◌ c) (red-twice s) ∙ sym e))
  ]
