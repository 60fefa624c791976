-- ===== src/Grouping/Members.antt =====
-- The dictionary of groups that grouping.py collects: `add_member` and its reads.
use capturemate_ai.Prelude.{
  ℕ, ◌+◌, ◌≡◌, refl, ap, ◌∙◌, ◌⊎◌, inl, inr, some, List, [], ◌∷◌, ◌++◌, In, here, there,
  In-append_left, In-append_right, In-append, arith, eqb, eqb_iff, Bool-cases, if◌then◌else◌,
  nat_eq,
}
use capturemate_ai.Prelude.Dict.{Dict, values, lookup}
use capturemate_ai.Grouping.{add_member}

-- How often a number stands in a list.
abbrev pub occurrences : ℕ → List ℕ → ℕ
occurrences n (x ∷ xs) = occurrences n xs + (if eqb x n then 1 else 0)
occurrences n [] = 0

abbrev pub occurrences_all : ℕ → List (List ℕ) → ℕ
occurrences_all a [] = 0
occurrences_all a (g ∷ gs) = occurrences a g + occurrences_all a gs

occurrences-append :
    (n : ℕ) (xs ys : List ℕ) → occurrences n xs + occurrences n ys ≡ occurrences n (xs ++ ys)
occurrences-append n (x ∷ xs) ys = omega (arith, occurrences-append n xs ys)
occurrences-append n [] ys = omega arith

pub occurrences_all-add_member :
    (a k i : ℕ) (d : Dict ℕ (List ℕ))
    → occurrences_all a (values (add_member k i d))
      ≡ occurrences_all a (values d) + (if eqb i a then 1 else 0)
unfolding add_member
occurrences_all-add_member a k i [] = omega arith
occurrences_all-add_member a k i ((j, l) ∷ d) =
    ground (arith, occurrences-append a l (i ∷ []), occurrences_all-add_member a k i d)

In-single : {x i : ℕ} → In x (i ∷ []) → x ≡ i
In-single (here e) = e
In-single (there h) = elim h [ ]

abbrev Entry : Type 0
Entry = ℕ × List ℕ

-- Where a member x of the entry of j comes from: an old entry of j, or the call itself.
abbrev pub Origin : ℕ → ℕ → Dict ℕ (List ℕ) → ℕ → ℕ → Type 0
Origin k i d j x = ((l : List ℕ) × In (j, l) d × In x l) ⊎ ((x ≡ i) × (j ≡ k))

grown :
    (k i j x j₀ : ℕ) (l m₀ : List ℕ) (d : Dict ℕ (List ℕ))
    → j₀ ≡ k
    → In x l
    → In (j, l) ((j₀, m₀ ++ (i ∷ [])) ∷ d)
    → Origin k i ((j₀, m₀) ∷ d) j x
grown k i j x j₀ l m₀ d jk m (here e) = elim (In-append m₀ (rw (ap (λ (t : Entry). t.1) e) at m)) [
  | inl q ↦ inl (m₀, here (ap (λ (t : Entry). (t.0, m₀)) e), q)
  | inr q ↦ inr (In-single q, ap (λ (t : Entry). t.0) e ∙ jk)
]
grown k i j x j₀ l m₀ d jk m (there q) = inl (l, there q, m)

Origin-there :
    (k i j x : ℕ) (e : Entry) (d : Dict ℕ (List ℕ)) → Origin k i d j x → Origin k i (e ∷ d) j x
Origin-there k i j x e d (inl (l, q, m)) = inl (l, there q, m)
Origin-there k i j x e d (inr o) = inr o

kept :
    (k i j x j₀ : ℕ) (l m₀ : List ℕ) (d : Dict ℕ (List ℕ))
    → (In (j, l) (add_member k i d) → Origin k i d j x)
    → In x l
    → In (j, l) ((j₀, m₀) ∷ add_member k i d)
    → Origin k i ((j₀, m₀) ∷ d) j x
kept k i j x j₀ l m₀ d ih m (here e) = inl (l, here e, m)
kept k i j x j₀ l m₀ d ih m (there q) = Origin-there k i j x (j₀, m₀) d (ih q)

pub add_member-entry :
    (k i j x : ℕ) (l : List ℕ) (d : Dict ℕ (List ℕ))
    → In (j, l) (add_member k i d)
    → In x l
    → Origin k i d j x
unfolding add_member
add_member-entry k i j x l [] (here e) m =
    inr (In-single (rw (ap (λ (t : Entry). t.1) e) at m), ap (λ (t : Entry). t.0) e)
add_member-entry k i j x l [] (there h) m = elim h [ ]
add_member-entry k i j x l ((j₀, m₀) ∷ d) h m = elim (Bool-cases (eqb j₀ k)) [
  | inl jk ↦ grown k i j x j₀ l m₀ d ((eqb_iff j₀ k).0 jk) m (rw jk at h)
  | inr jk ↦ kept k i j x j₀ l m₀ d (λ q. add_member-entry k i j x l d q m) m (rw jk at h)
]

-- What `add_member` does to the lookups.
pub lookup-add_member_old :
    (r k i a : ℕ) (d : Dict ℕ (List ℕ)) (l : List ℕ)
    → lookup r d ≡ some l
    → In a l
    → (l' : List ℕ) × (lookup r (add_member k i d) ≡ some l') × In a l'
unfolding add_member lookup
lookup-add_member_old r k i a [] l e h = cc
lookup-add_member_old r k i a ((j, m) ∷ d) l e h = elim (Bool-cases (eqb j k)) [
  | inl jk ↦ elim (Bool-cases (eqb j r)) [
    | inl jr ↦
        let q : m ≡ l = ground arith in
        (m ++ (i ∷ []), rw (jk, jr), In-append_left (i ∷ []) (rw q h))
    | inr jr ↦ (l, rw (jk, jr) (ground arith), h)
  ]
  | inr jk ↦ elim (Bool-cases (eqb j r)) [
    | inl jr ↦ (l, rw (jk, jr) (ground arith), h)
    | inr jr ↦
        let (l', e', h') = lookup-add_member_old r k i a d l (ground arith) h in
        (l', rw (jk, jr) e', h')
  ]
]

pub lookup-add_member_new :
    (k i : ℕ) (d : Dict ℕ (List ℕ)) → (l : List ℕ) × (lookup k (add_member k i d) ≡ some l) × In i l
unfolding add_member lookup
lookup-add_member_new k i [] = (i ∷ [], ground arith, here refl)
lookup-add_member_new k i ((j, m) ∷ d) = elim (Bool-cases (eqb j k)) [
  | inl jk ↦ (m ++ (i ∷ []), rw (jk, jk), In-append_right m (here refl))
  | inr jk ↦ let (l, e, h) = lookup-add_member_new k i d in (l, rw (jk, jk) e, h)
]

pub In-values : {k : ℕ} {l : List ℕ} {d : Dict ℕ (List ℕ)} → In (k, l) d → In l (values d)
In-values {d = []} h = elim h [ ]
In-values {d = (j, m) ∷ d} (here e) = here (ap (λ (t : ℕ × List ℕ). t.1) e)
In-values {d = (j, m) ∷ d} (there h) = there (In-values h)

pub values-In : (l : List ℕ) (d : Dict ℕ (List ℕ)) → In l (values d) → (k : ℕ) × In (k, l) d
values-In l [] h = elim h [ ]
values-In l ((j, m) ∷ d) (here e) = (j, here (ap (λ (t : List ℕ). (j, t)) e))
values-In l ((j, m) ∷ d) (there h) = let (k, h') = values-In l d h in (k, there h')

pub lookup-In : (k : ℕ) (l : List ℕ) (d : Dict ℕ (List ℕ)) → lookup k d ≡ some l → In (k, l) d
unfolding lookup
lookup-In k l [] e = cc
lookup-In k l ((j, m) ∷ d) e = elim (Bool-cases (eqb j k)) [
  | inl jk ↦ here (ground (arith, (eqb_iff j k).0 jk))
  | inr jk ↦ there (lookup-In k l d (ground arith))
]
