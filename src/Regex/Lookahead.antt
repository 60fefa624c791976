-- ===== src/Regex/Lookahead.antt =====
-- What deleting a run of one class before an end of another class does, without backtracking.
use capturemate_ai.Prelude.{
  ℕ, zero, suc, ◌-◌, ◌≡◌, refl, sym, ap, ◌∙◌, Bool, true, false, ◌&&◌, Bool-cases, inl, inr, Option,
  none, some, List, [], ◌∷◌, ◌++◌, Str, if◌then◌else◌, length, append_assoc, append-nil,
}
use capturemate_ai.Text.{Unicode, drop_while}
use capturemate_ai.Regex.{
  Re, chr, cat, ahead, finish, some_of, Place, step, many_from, flat, if_any, at_finish, ends,
  first, sub_from,
}

module _ (unicode : Unicode) where
  abbrev pub rest_of : Option Place → Option Str
  rest_of none = none
  rest_of (some pl) = some pl.rest

  first_or : Option Place → Option Place → Option Place
  first_or none o = o
  first_or (some pl) o = some pl

  first-append :
      (xs ys : List Place)
      → first unicode (xs ++ ys) ≡ first_or (first unicode xs) (first unicode ys)
  unfolding first_or
  first-append [] ys = refl
  first-append (x ∷ xs) ys = refl

  flat-append :
      (f : Place → List Place) (xs ys : List Place)
      → flat unicode f (xs ++ ys) ≡ flat unicode f xs ++ flat unicode f ys
  unfolding flat
  flat-append f [] ys = refl
  flat-append f (x ∷ xs) ys =
      ap (λ zs. f x ++ zs) (flat-append f xs ys) ∙ sym (append_assoc (f x) _ _)

  module _ (p q : ℕ → Bool) where
    -- A text of one character of q that ends the text.
    abbrev pub is_tail : Str → Bool
    is_tail [] = false
    is_tail (c ∷ s) = q c && at_finish unicode s

    abbrev pub tail_ahead : Re
    tail_ahead = ahead (cat (chr q) finish)

    -- p+ where a tail follows
    abbrev pub run : Re
    run = cat (some_of p) tail_ahead

    tail_text :
        (pl : Place) (s : Str)
        → if_any unicode (flat unicode (ends unicode finish) (step unicode q s)) pl
          ≡ (if is_tail s then pl ∷ [] else [])
    unfolding ends
    tail_text pl [] = refl
    tail_text pl (c ∷ s) = elim (Bool-cases (q c)) [
      | inr n ↦ rw n refl
      | inl y ↦ elim (Bool-cases (at_finish unicode s)) [
        | inl f ↦ rw (y, f) refl
        | inr f ↦ rw (y, f) refl
      ]
    ]

    -- The first end of a tail, after what has been tried.
    abbrev pub found : List Place → Option Place
    found pls = first unicode (flat unicode (ends unicode tail_ahead) pls)

    found-append : (xs ys : List Place) → found (xs ++ ys) ≡ first_or (found xs) (found ys)
    found-append xs ys =
        ap (first unicode) (flat-append (ends unicode tail_ahead) xs ys)
        ∙ first-append (flat unicode (ends unicode tail_ahead) xs) _

    found-alone : (pl : Place) → found (pl ∷ []) ≡ (if is_tail pl.rest then some pl else none)
    unfolding ends flat
    found-alone pl =
        ap (first unicode) (append-nil (ends unicode tail_ahead pl))
        ∙ (ap (first unicode) (tail_text pl pl.rest) ∙ chosen (is_tail pl.rest))
      where
        chosen :
            (b : Bool) → first unicode (if b then pl ∷ [] else []) ≡ (if b then some pl else none)
        chosen true = refl
        chosen false = refl

    abbrev pub target : Str → Option Str
    target t = if is_tail t then some t else none

    rest_of-alone : (pl : Place) → rest_of (found (pl ∷ [])) ≡ target pl.rest
    rest_of-alone pl = ap rest_of (found-alone pl) ∙ chosen (is_tail pl.rest)
      where
        chosen :
            (b : Bool) → rest_of (if b then some pl else none) ≡ (if b then some pl.rest else none)
        chosen true = refl
        chosen false = refl

    pub run_at :
        (b : Option ℕ) (c : ℕ) (s : Str)
        → p c ≡ true
        → first unicode (ends unicode run (record { before = b; rest = c ∷ s }))
          ≡ found (many_from unicode p (some c) s)
    unfolding ends flat
    run_at b c s h = rw h (ap found (append-nil (many_from unicode p (some c) s)))

    pub run_off :
        (b : Option ℕ) (c : ℕ) (s : Str)
        → p c ≡ false
        → first unicode (ends unicode run (record { before = b; rest = c ∷ s })) ≡ none
    unfolding ends flat
    run_off b c s h = rw h refl

    module _ (apart : (c : ℕ) → q c ≡ true → p c ≡ false) where
      no_tail : (c : ℕ) (s : Str) → p c ≡ true → is_tail (c ∷ s) ≡ false
      no_tail c s h = elim (Bool-cases (q c)) [
        | inl y ↦ let n = apart c y in cc
        | inr n ↦ rw n refl
      ]

      rest_of-first_or :
          (a : Option Place) (pl : Place)
          → is_tail pl.rest ≡ false
          → rest_of (first_or a (found (pl ∷ []))) ≡ rest_of a
      unfolding first_or
      rest_of-first_or none pl h = rest_of-alone pl ∙ rw h refl
      rest_of-first_or (some x) pl h = refl

      -- The preferred end of p*: the longest run, where a tail follows it.
      pub found-many :
          (b : Option ℕ) (s : Str)
          → rest_of (found (many_from unicode p b s)) ≡ target (drop_while p s)
      unfolding many_from drop_while
      found-many b [] = rest_of-alone (record { before = b; rest = [] })
      found-many b (c ∷ s) = elim (Bool-cases (p c)) [
        | inr n ↦ rw n (rest_of-alone (record { before = b; rest = c ∷ s }))
        | inl y ↦
            let stop : Place = record { before = b; rest = c ∷ s } in
            rw y (
              ap rest_of (found-append (many_from unicode p (some c) s) (stop ∷ []))
              ∙ (rest_of-first_or (found (many_from unicode p (some c) s)) stop (no_tail c s y)
                  ∙ found-many (some c) s))
      ]

module _ (unicode : Unicode) (r : Re) where
  abbrev pub deleting : Str → Unit {0} → Str × Unit {0}
  deleting original st = ([], st)

  abbrev pub deleted : Option ℕ → ℕ → Str → Str
  deleted b skip s = (sub_from unicode r deleting b skip s tt).0

  pub deleted-miss :
      (b : Option ℕ) (c : ℕ) (s : Str)
      → first unicode (ends unicode r (record { before = b; rest = c ∷ s })) ≡ none
      → deleted b zero (c ∷ s) ≡ c ∷ deleted (some c) zero s
  unfolding sub_from
  deleted-miss b c s h = rw (h, deleted, sub_from) refl

  pub deleted-hit :
      (b : Option ℕ) (c : ℕ) (s : Str) (pl : Place)
      → first unicode (ends unicode r (record { before = b; rest = c ∷ s })) ≡ some pl
      → deleted b zero (c ∷ s) ≡ deleted (some c) (suc (length s) - length pl.rest - 1) s
  unfolding sub_from
  deleted-hit b c s pl h = rw (h, deleted, sub_from) refl
