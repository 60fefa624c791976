-- ===== src/Regex/Ends.antt =====
-- That deleting a run before a tail keeps a text stripped.
use capturemate_ai.Prelude.{
  ℕ, ◌≡◌, refl, sym, ap, ◌∙◌, true, false, Bool, Bool-cases, inl, inr, [], ◌∷◌, Str,
}
use capturemate_ai.Text.{Unicode, drop_while, strip_by, rstrip_by}
use capturemate_ai.Text.Strip.{
  hung, rstrip_by-cons, rstrip_by-twice, hung-headed, drop_while-headed,
}
use capturemate_ai.Regex.Deletion.{drop_while-hit, drop_while-miss}
use capturemate_ai.Regex.Twice.{red, red-nil, red-cases, red-one, red-headed, tail-headed}

module _ (blank : ℕ → Bool) where
  hung-inj : (c d : ℕ) (r s : Str) → hung blank c r ≡ c ∷ d ∷ s → r ≡ d ∷ s
  hung-inj c d [] s h = elim (Bool-cases (blank c)) [
    | inl y ↦ let clash : [] ≡ c ∷ d ∷ s = rw y at h in cc
    | inr n ↦ let clash : c ∷ [] ≡ c ∷ d ∷ s = rw n at h in cc
  ]
  hung-inj c d (x ∷ t) s h = cc

  rstrip-rest :
      (c d : ℕ) (s : Str)
      → rstrip_by blank (c ∷ d ∷ s) ≡ c ∷ d ∷ s
      → rstrip_by blank (d ∷ s) ≡ d ∷ s
  rstrip-rest c d s h = hung-inj c d _ s (sym (rstrip_by-cons blank c (d ∷ s)) ∙ h)

  rstrip-cons :
      (c : ℕ) (s : Str) (d : ℕ) (t : Str)
      → s ≡ d ∷ t
      → rstrip_by blank s ≡ s
      → rstrip_by blank (c ∷ s) ≡ c ∷ s
  rstrip-cons c s d t e h =
      rstrip_by-cons blank c s ∙ (ap (hung blank c) (h ∙ e) ∙ ap (◌∷◌ c) (sym e))

  rstrip-nil : rstrip_by blank [] ≡ []
  unfolding rstrip_by
  rstrip-nil = refl

  drop-nil : (p : ℕ → Bool) → drop_while p [] ≡ []
  unfolding drop_while
  drop-nil p = refl

  abbrev IsEnded : Str → Type 0
  IsEnded s = rstrip_by blank s ≡ s

  drop-IsEnded : (p : ℕ → Bool) (s : Str) → IsEnded s → IsEnded (drop_while p s)
  drop-IsEnded p [] h = rw (drop-nil p) rstrip-nil
  drop-IsEnded p (c ∷ []) h = elim (Bool-cases (p c)) [
    | inl y ↦ rw (drop_while-hit p c [] y, drop-nil p) rstrip-nil
    | inr n ↦ rw (drop_while-miss p c [] n) h
  ]
  drop-IsEnded p (c ∷ d ∷ s) h = elim (Bool-cases (p c)) [
    | inl y ↦ rw (drop_while-hit p c (d ∷ s) y) (drop-IsEnded p (d ∷ s) (rstrip-rest c d s h))
    | inr n ↦ rw (drop_while-miss p c (d ∷ s) n) h
  ]

  module _ (unicode : Unicode) (p q : ℕ → Bool) (apart : (c : ℕ) → q c ≡ true → p c ≡ false)
      (solid : q 10 ≡ false) (visible : (c : ℕ) → q c ≡ true → blank c ≡ false) where
    abbrev less : Str → Str
    less = red unicode p q apart solid

    less-IsEnded : (s : Str) → IsEnded s → IsEnded (less s)
    less-IsEnded [] h = rw (red-nil unicode p q apart solid) rstrip-nil
    less-IsEnded (c ∷ []) h = rw (red-one unicode p q apart solid c) h
    less-IsEnded (c ∷ d ∷ s) h = elim (red-cases unicode p q apart solid c (d ∷ s)) [
      | inl (y, t, e) ↦ rw e (drop-IsEnded p (d ∷ s) (rstrip-rest c d s h))
      | inr (off, e) ↦
          let (x, u, e') = red-headed unicode p q apart solid d s in
          rw e (rstrip-cons c (less (d ∷ s)) x u e' (less-IsEnded (d ∷ s) (rstrip-rest c d s h)))
    ]

    -- The text still begins with a character that is not blank.
    less-begins :
        (c : ℕ) (s : Str) → blank c ≡ false → drop_while blank (less (c ∷ s)) ≡ less (c ∷ s)
    less-begins c s h = elim (red-cases unicode p q apart solid c s) [
      | inl (y, t, e) ↦
          let (d, u, e', is_q, _) = tail-headed unicode p q apart solid (drop_while p s) t in
          rw (e ∙ e') (drop_while-miss blank d u (visible d is_q))
      | inr (off, e) ↦ rw e (drop_while-miss blank c (less s) h)
    ]

    pub strip-less : (s : Str) → strip_by blank (less (strip_by blank s)) ≡ less (strip_by blank s)
    unfolding strip_by
    strip-less s = elim (drop_while-headed blank s) [
      | inl e ↦ rw (e, rstrip-nil, red-nil unicode p q apart solid, drop-nil blank) rstrip-nil
      | inr (c, t, e, n) ↦
          let (u, e') = hung-headed blank c (rstrip_by blank t) n in
          let same = rstrip_by-cons blank c t ∙ e' in
          let ended : IsEnded (c ∷ u) = rw same at (rstrip_by-twice blank (c ∷ t)) in
          rw (e, same, less-begins c u n) (less-IsEnded (c ∷ u) ended)
    ]
