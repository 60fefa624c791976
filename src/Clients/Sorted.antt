-- ===== src/Clients/Sorted.antt =====
-- That the vectors of OpenAI are put in the order of their indices, however they came.
use capturemate_ai.Prelude.{
  ℕ, suc, ◌≡◌, ◌≤◌, ◌<◌, refl, sym, ap, ◌∙◌, List, [], ◌∷◌, map, In, here, there, length, arith,
  dec_lt,
}
use mathlib.Core.List.{Permᴰ}
use capturemate_ai.Prelude.Float.{Float}
use capturemate_ai.Clients.{Indexed, insert_indexed, sort_indexed}

-- The vectors with their indices, from one on.
abbrev pub enumerate : ℕ → List (List Float) → List Indexed
enumerate k [] = []
enumerate k (v ∷ vs) = record { index = k; embedding = v } ∷ enumerate (suc k) vs

pub vectors-enumerate :
    (k : ℕ) (vs : List (List Float)) → map (λ (d : Indexed). d.embedding) (enumerate k vs) ≡ vs
vectors-enumerate k [] = refl
vectors-enumerate k (v ∷ vs) = ap (◌∷◌ v) (vectors-enumerate (suc k) vs)

enumerate-le : (k : ℕ) (vs : List (List Float)) {d : Indexed} → In d (enumerate k vs) → k ≤ d.index
enumerate-le k [] m = elim m [ ]
enumerate-le k (v ∷ vs) (here e) = let same = ap (λ (d : Indexed). d.index) e in omega (arith, same)
enumerate-le k (v ∷ vs) (there m) = omega (arith, enumerate-le (suc k) vs m)

-- An index stands for one vector.
abbrev Determined : List Indexed → Type 0
Determined xs = (d e : Indexed) → In d xs → In e xs → d.index ≡ e.index → d ≡ e

enumerate-Determined : (k : ℕ) (vs : List (List Float)) → Determined (enumerate k vs)
enumerate-Determined k [] d e m n h = elim m [ ]
enumerate-Determined k (v ∷ vs) d e (here p) (here q) h = p ∙ sym q
enumerate-Determined k (v ∷ vs) d e (here p) (there n) h =
    let same = ap (λ (d : Indexed). d.index) p in
    let le = enumerate-le (suc k) vs n in absurd (omega arith)
enumerate-Determined k (v ∷ vs) d e (there m) (here q) h =
    let same = ap (λ (d : Indexed). d.index) q in
    let le = enumerate-le (suc k) vs m in absurd (omega arith)
enumerate-Determined k (v ∷ vs) d e (there m) (there n) h =
    enumerate-Determined (suc k) vs d e m n h

-- The cases of an insertion.
insert_indexed-le :
    (d e : Indexed) (es : List Indexed) → d.index ≤ e.index → insert_indexed d (e ∷ es) ≡ d ∷ e ∷ es
unfolding insert_indexed
insert_indexed-le d e es h = ground arith

insert_indexed-lt :
    (d e : Indexed) (es : List Indexed)
    → e.index < d.index
    → insert_indexed d (e ∷ es) ≡ e ∷ insert_indexed d es
unfolding insert_indexed
insert_indexed-lt d e es h = ground arith

insert_indexed-nil : (d : Indexed) → insert_indexed d [] ≡ d ∷ []
unfolding insert_indexed
insert_indexed-nil d = refl

-- Two insertions change places.
insert_indexed-swap_lt :
    (d e : Indexed) (xs : List Indexed)
    → d.index < e.index
    → insert_indexed d (insert_indexed e xs) ≡ insert_indexed e (insert_indexed d xs)
insert_indexed-swap_lt d e [] h =
    rw
      (
        insert_indexed-nil e,
        insert_indexed-nil d,
        insert_indexed-le d e [] (omega arith),
        insert_indexed-lt e d [] h,
        insert_indexed-nil e,
      )
      refl
insert_indexed-swap_lt d e (x ∷ xs) h = elim (dec_lt x.index e.index) [
  | no big ↦
      rw
        (
          insert_indexed-le e x xs (omega arith),
          insert_indexed-le d x xs (omega arith),
          insert_indexed-le d e (x ∷ xs) (omega arith),
          insert_indexed-lt e d (x ∷ xs) h,
          insert_indexed-le e x xs (omega arith),
        )
        refl
  | yes small ↦ elim (dec_lt x.index d.index) [
    | no between ↦
        rw
          (
            insert_indexed-lt e x xs small,
            insert_indexed-le d x xs (omega arith),
            insert_indexed-le d x (insert_indexed e xs) (omega arith),
            insert_indexed-lt e d (x ∷ xs) h,
            insert_indexed-lt e x xs small,
          )
          refl
    | yes smaller ↦
        rw
          (
            insert_indexed-lt e x xs small,
            insert_indexed-lt d x xs smaller,
            insert_indexed-lt d x (insert_indexed e xs) smaller,
            insert_indexed-lt e x (insert_indexed d xs) small,
          )
          (ap (◌∷◌ x) (insert_indexed-swap_lt d e xs h))
  ]
]

insert_indexed-swap :
    (d e : Indexed) (xs : List Indexed)
    → (d.index ≡ e.index → d ≡ e)
    → insert_indexed d (insert_indexed e xs) ≡ insert_indexed e (insert_indexed d xs)
insert_indexed-swap d e xs f = elim (dec_lt d.index e.index) [
  | yes lt ↦ insert_indexed-swap_lt d e xs lt
  | no ge ↦ elim (dec_lt e.index d.index) [
    | yes gt ↦ sym (insert_indexed-swap_lt e d xs gt)
    | no le ↦
        let same = f (omega arith) in
        ap (λ c. insert_indexed c (insert_indexed e xs)) same
        ∙ ap (λ c. insert_indexed e (insert_indexed c xs)) (sym same)
  ]
]

In-Permᴰ : {xs ys : List Indexed} {d : Indexed} → Permᴰ xs ys → In d ys → In d xs
In-Permᴰ Permᴰ.nil m = m
In-Permᴰ (Permᴰ.cons e p) (here q) = here (q ∙ sym e)
In-Permᴰ (Permᴰ.cons e p) (there m) = there (In-Permᴰ p m)
In-Permᴰ (Permᴰ.swap e e') (here q) = there (here (q ∙ sym e'))
In-Permᴰ (Permᴰ.swap e e') (there (here q)) = here (q ∙ sym e)
In-Permᴰ (Permᴰ.swap e e') (there (there m)) = there (there m)
In-Permᴰ (Permᴰ.trans p q) m = In-Permᴰ p (In-Permᴰ q m)

sort_indexed-Permᴰ :
    {xs ys : List Indexed} → Determined xs → Permᴰ xs ys → sort_indexed xs ≡ sort_indexed ys
unfolding sort_indexed
sort_indexed-Permᴰ f Permᴰ.nil = refl
sort_indexed-Permᴰ f (Permᴰ.cons {a} {b} {l₁} {l₂} e p) =
    ap (λ c. insert_indexed c (sort_indexed l₁)) e
    ∙ ap (insert_indexed b) (sort_indexed-Permᴰ (λ d e m n. f d e (there m) (there n)) p)
sort_indexed-Permᴰ f (Permᴰ.swap {a} {b} {a'} {b'} {l} e e') =
    insert_indexed-swap a b (sort_indexed l) (f a b (here refl) (there (here refl)))
    ∙ (ap (λ c. insert_indexed c (insert_indexed a (sort_indexed l))) e'
        ∙ ap (λ c. insert_indexed a' (insert_indexed c (sort_indexed l))) e)
sort_indexed-Permᴰ f (Permᴰ.trans p q) =
    sort_indexed-Permᴰ f p ∙ sort_indexed-Permᴰ (λ d e m n. f d e (In-Permᴰ p m) (In-Permᴰ p n)) q

insert-enumerate :
    (d : Indexed) (k : ℕ) (vs : List (List Float))
    → d.index ≤ k
    → insert_indexed d (enumerate k vs) ≡ d ∷ enumerate k vs
insert-enumerate d k [] h = insert_indexed-nil d
insert-enumerate d k (v ∷ vs) h = insert_indexed-le d _ (enumerate (suc k) vs) h

sort-enumerate : (k : ℕ) (vs : List (List Float)) → sort_indexed (enumerate k vs) ≡ enumerate k vs
unfolding sort_indexed
sort-enumerate k [] = refl
sort-enumerate k (v ∷ vs) =
    let d : Indexed = record { index = k; embedding = v } in
    ap (insert_indexed d) (sort-enumerate (suc k) vs) ∙ insert-enumerate d (suc k) vs (omega arith)

-- Sorting puts indexed vectors in their order, however they are permuted.
pub sort_indexed-enumerate :
    (data_ : List Indexed) (vs : List (List Float))
    → Permᴰ (enumerate 0 vs) data_
    → sort_indexed data_ ≡ enumerate 0 vs
sort_indexed-enumerate data_ vs p =
    sym (sort_indexed-Permᴰ (enumerate-Determined 0 vs) p) ∙ sort-enumerate 0 vs

length-insert_indexed :
    (d : Indexed) (es : List Indexed) → length (insert_indexed d es) ≡ suc (length es)
unfolding insert_indexed
length-insert_indexed d [] = refl
length-insert_indexed d (e ∷ es) = ground (arith, length-insert_indexed d es)

pub length-sort_indexed : (ds : List Indexed) → length (sort_indexed ds) ≡ length ds
unfolding sort_indexed
length-sort_indexed [] = refl
length-sort_indexed (d ∷ ds) =
    length-insert_indexed d (sort_indexed ds) ∙ ap suc (length-sort_indexed ds)
