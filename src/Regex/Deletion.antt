-- ===== src/Regex/Deletion.antt =====
-- Deleting a run before a tail by the pattern, and directly.
use capturemate_ai.Prelude.{
  ℕ, zero, suc, ◌-◌, ◌≤◌, ◌≡◌, refl, sym, ap, ◌∙◌, Bool, true, false, ◌&&◌, Bool-cases, inl, inr,
  Option, none, some, some_inj, none-some, [], ◌∷◌, Str, if◌then◌else◌, length, arith,
}
use capturemate_ai.Text.{Unicode, drop_while}
use capturemate_ai.Regex.{Place, at_finish, many_from, sub_from, sub}
use capturemate_ai.Regex.Lookahead.{
  is_tail, run, rest_of, found, run_at, run_off, found-many, deleting, deleted, deleted-miss,
  deleted-hit,
}

length-drop_while : (p : ℕ → Bool) (s : Str) → length (drop_while p s) ≤ length s
unfolding drop_while
length-drop_while p [] = omega arith
length-drop_while p (c ∷ s) = ground (arith, length-drop_while p s)

nothing : (n : ℕ) → n - n ≡ 0
nothing n = omega arith

one_more : (n m : ℕ) → m ≤ n → suc n - m ≡ suc (n - m)
one_more n m h = omega arith

one_less : (n m : ℕ) → suc n - m - 1 ≡ n - m
one_less n m = omega arith

pub and_false : (a : Bool) {b : Bool} → b ≡ false → (a && b) ≡ false
and_false true h = h
and_false false h = refl

pub drop_while-hit :
    (p : ℕ → Bool) (c : ℕ) (s : Str) → p c ≡ true → drop_while p (c ∷ s) ≡ drop_while p s
unfolding drop_while
drop_while-hit p c s h = rw h refl

pub drop_while-miss : (p : ℕ → Bool) (c : ℕ) (s : Str) → p c ≡ false → drop_while p (c ∷ s) ≡ c ∷ s
unfolding drop_while
drop_while-miss p c s h = rw h refl

pub no_tail-nil :
    (unicode : Unicode) (p q : ℕ → Bool) → is_tail unicode p q (drop_while p []) ≡ false
unfolding drop_while
no_tail-nil unicode p q = refl

module _ (unicode : Unicode) (p q : ℕ → Bool) where
  -- A run before a tail at the end is left out.
  unfoldable pub reduced : Str → Str
  unfolding drop_while
  reduced [] = []
  reduced (c ∷ s) =
      let rest = reduced s in
      let tail = drop_while p s in if p c && is_tail unicode p q tail then tail else c ∷ rest

  pub reduced-keep :
      (c : ℕ) (s : Str)
      → (p c && is_tail unicode p q (drop_while p s)) ≡ false
      → reduced (c ∷ s) ≡ c ∷ reduced s
  unfolding reduced
  reduced-keep c s h = rw h refl

  pub reduced-cut :
      (c : ℕ) (s : Str)
      → p c ≡ true
      → is_tail unicode p q (drop_while p s) ≡ true
      → reduced (c ∷ s) ≡ drop_while p s
  unfolding reduced
  reduced-cut c s y t = rw (y, t) refl

module _ (unicode : Unicode) (p q : ℕ → Bool) (apart : (c : ℕ) → q c ≡ true → p c ≡ false) where
  abbrev cut : Option ℕ → ℕ → Str → Str
  cut = deleted unicode (run unicode p q)

  rest_of-none : (o : Option Place) → rest_of unicode o ≡ none → o ≡ none
  rest_of-none none h = refl
  rest_of-none (some pl) h = absurd (none-some (sym h))

  rest_of-some :
      (o : Option Place) (t : Str)
      → rest_of unicode o ≡ some t
      → (pl : Place) × (o ≡ some pl) × (pl.rest ≡ t)
  rest_of-some none t h = absurd (none-some h)
  rest_of-some (some pl) t h = (pl, refl, some_inj h)

  cut-off :
      (b : Option ℕ) (c : ℕ) (s : Str) → p c ≡ false → cut b zero (c ∷ s) ≡ c ∷ cut (some c) zero s
  cut-off b c s h = deleted-miss unicode (run unicode p q) b c s (run_off unicode p q b c s h)

  cut-miss :
      (b : Option ℕ) (c : ℕ) (s : Str)
      → is_tail unicode p q (drop_while p s) ≡ false
      → cut b zero (c ∷ s) ≡ c ∷ cut (some c) zero s
  cut-miss b c s h = elim (Bool-cases (p c)) [
    | inr n ↦ cut-off b c s n
    | inl y ↦ deleted-miss unicode (run unicode p q) b c s (
        run_at unicode p q b c s y
        ∙ rest_of-none _ (found-many unicode p q apart (some c) s ∙ rw h refl))
  ]

  cut-finish : (b : Option ℕ) (s : Str) → at_finish unicode s ≡ true → cut b zero s ≡ s
  unfolding sub_from drop_while
  cut-finish b [] h = refl
  cut-finish b (c ∷ []) h = cut-miss b c [] refl
  cut-finish b (c ∷ d ∷ s) h = cc

  cut-tail : (b : Option ℕ) (s : Str) → is_tail unicode p q s ≡ true → cut b zero s ≡ s
  cut-tail b [] h = cc
  cut-tail b (c ∷ s) h = elim (Bool-cases (q c)) [
    | inr n ↦ let clash = rw n at h in cc
    | inl y ↦ cut-off b c s (apart c y) ∙ ap (◌∷◌ c) (cut-finish (some c) s (rw y at h))
  ]

  cut-suc : (b : Option ℕ) (k c : ℕ) (s : Str) → cut b (suc k) (c ∷ s) ≡ cut (some c) k s
  unfolding sub_from
  cut-suc b k c s = refl

  -- The characters of the run are skipped.
  cut-skip :
      (b : Option ℕ) (s : Str)
      → is_tail unicode p q (drop_while p s) ≡ true
      → cut b (length s - length (drop_while p s)) s ≡ drop_while p s
  cut-skip b [] h = let no = no_tail-nil unicode p q in cc
  cut-skip b (c ∷ s) h = elim (Bool-cases (p c)) [
    | inr n ↦
        let same = drop_while-miss p c s n in
        ap (λ t. cut b (length (c ∷ s) - length t) (c ∷ s)) same
        ∙ (ap (λ k. cut b k (c ∷ s)) (nothing (length (c ∷ s)))
            ∙ (cut-tail b (c ∷ s) (rw same at h) ∙ sym same))
    | inl y ↦
        let same = drop_while-hit p c s y in
        let le = length-drop_while p s in
        ap (λ t. cut b (length (c ∷ s) - length t) (c ∷ s)) same
        ∙ (ap (λ k. cut b k (c ∷ s)) (one_more (length s) (length (drop_while p s)) le)
            ∙ (cut-suc b (length s - length (drop_while p s)) c s
                ∙ (cut-skip (some c) s (rw same at h) ∙ sym same)))
  ]

  cut-reduced-nil : (b : Option ℕ) → cut b zero [] ≡ reduced unicode p q []
  unfolding sub_from reduced
  cut-reduced-nil b = refl

  cut-reduced : (b : Option ℕ) (s : Str) → cut b zero s ≡ reduced unicode p q s
  cut-reduced b [] = cut-reduced-nil b
  cut-reduced b (c ∷ s) = elim (Bool-cases (is_tail unicode p q (drop_while p s))) [
    | inr left ↦
        cut-miss b c s left
        ∙ (ap (◌∷◌ c) (cut-reduced (some c) s)
            ∙ sym (reduced-keep unicode p q c s (and_false (p c) left)))
    | inl tail ↦ elim (Bool-cases (p c)) [
      | inr n ↦
          cut-off b c s n
          ∙ (ap (◌∷◌ c) (cut-reduced (some c) s) ∙ sym (reduced-keep unicode p q c s (rw n refl)))
      | inl y ↦
          let (pl, e, same) =
            rest_of-some (found unicode p q (many_from unicode p (some c) s)) (drop_while p s)
              (found-many unicode p q apart (some c) s ∙ rw tail refl) in
          deleted-hit unicode (run unicode p q) b c s pl (run_at unicode p q b c s y ∙ e)
          ∙ (ap (λ t. cut (some c) (suc (length s) - length t - 1) s) same
              ∙ (ap (λ k. cut (some c) k s) (one_less (length s) (length (drop_while p s)))
                  ∙ (cut-skip (some c) s tail ∙ sym (reduced-cut unicode p q c s y tail))))
    ]
  ]

  -- The pattern leaves out a run before a tail at the end, and nothing else.
  pub sub-reduced :
      (s : Str)
      → (sub unicode {S = Unit {0}} (run unicode p q) (deleting unicode (run unicode p q)) s tt).0
        ≡ reduced unicode p q s
  unfolding sub
  sub-reduced s = cut-reduced none s
