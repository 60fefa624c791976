-- ===== src/Text/Search.antt =====
-- The text searches of Text.antt against the positions that they look for.
use capturemate_ai.Prelude.{
  ◌≡◌, refl, sym, ap, ap₂, inl, inr, true, List, [], ◌∷◌, ◌++◌, Str, In, here, there, eqb, eqb_iff,
  arith, Bool-cases, &&-left, &&-right, ◌==◌, str_eq, str_eqb_iff,
}
use capturemate_ai.Text.{starts_with, has_infix, contains}

-- The text t stands somewhere in the text s.
abbrev pub Occurs : Str → Str → Type 0
Occurs t s = (before after : Str) × (s ≡ before ++ (t ++ after))

starts_with_sound : (s t : Str) → starts_with s t ≡ true → (after : Str) × (s ≡ t ++ after)
unfolding starts_with
starts_with_sound s [] h = (s, refl)
starts_with_sound [] (b ∷ t) h = cc
starts_with_sound (a ∷ s) (b ∷ t) h =
    let (after, e) = starts_with_sound s t (&&-right (eqb a b) _ h) in
    (after, ap₂ ◌∷◌ ((eqb_iff a b).0 (&&-left _ (starts_with s t) h)) e)

pub starts_with_complete : (t after : Str) → starts_with (t ++ after) t ≡ true
unfolding starts_with
starts_with_complete [] after = refl
starts_with_complete (a ∷ t) after = ground (arith, starts_with_complete t after)

pub has_infix_sound : (t s : Str) → has_infix t s ≡ true → Occurs t s
unfolding has_infix
has_infix_sound t [] h = let (after, e) = starts_with_sound [] t h in ([], after, e)
has_infix_sound t (c ∷ s) h = elim (Bool-cases (starts_with (c ∷ s) t)) [
  | inl hit ↦ let (after, e) = starts_with_sound (c ∷ s) t hit in ([], after, e)
  | inr miss ↦
      let (before, after, e) = has_infix_sound t s (rw miss at h) in
      (c ∷ before, after, ap (λ u. c ∷ u) e)
]

infix_at : (t before after : Str) → has_infix t (before ++ (t ++ after)) ≡ true
unfolding has_infix
infix_at t (c ∷ before) after = ground (arith, infix_at t before after)
infix_at [] [] [] = refl
infix_at [] [] (c ∷ after) = refl
infix_at (c ∷ t) [] after = rw (starts_with_complete (c ∷ t) after) refl

pub has_infix_complete : (t s : Str) → Occurs t s → has_infix t s ≡ true
has_infix_complete t s (before, after, e) = rw e (infix_at t before after)

pub contains_sound : (s : Str) (ts : List Str) → contains s ts ≡ true → In s ts
unfolding contains
contains_sound s [] h = cc
contains_sound s (t ∷ ts) h = elim (Bool-cases (t == s)) [
  | inl e ↦ here (sym ((str_eqb_iff t s).0 e))
  | inr n ↦ there (contains_sound s ts (rw n at h))
]

pub contains_complete : (s : Str) (ts : List Str) → In s ts → contains s ts ≡ true
unfolding contains
contains_complete s [] h = elim h [ ]
contains_complete s (t ∷ ts) (here e) = rw ((str_eqb_iff t s).1 (sym e)) refl
contains_complete s (t ∷ ts) (there h) = ground (arith, contains_complete s ts h)
