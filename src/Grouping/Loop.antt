-- ===== src/Grouping/Loop.antt =====
-- The pair loop of grouping.py: after it two indices have one root exactly when links join them.
use capturemate_ai.Prelude.{
  ℕ, zero, suc, ◌+◌, ◌<◌, ◌≡◌, refl, sym, ap, ◌∙◌, ◌⊎◌, inl, inr, Bool, true, false, Option, some,
  List, length, get_elem?, get_elem?-lt, arith, dec_lt,
}
use capturemate_ai.Grouping.{join_if, link_row, link_rows, range_from}
use capturemate_ai.Grouping.Forest.{Root, roots}
use capturemate_ai.Grouping.Find.{IsForest, HasRoot}
use capturemate_ai.Grouping.Links.{same, Tracks, Tracks-iff, Tracks-join, union_lem}

pub length-range_from : (s n : ℕ) → length (range_from s n) ≡ n
unfolding range_from
length-range_from s zero = refl
length-range_from s (suc n) = ap suc (length-range_from (suc s) n)

get_elem?-range_from : (s n x : ℕ) → x < n → get_elem? (range_from s n) x ≡ some (s + x)
unfolding range_from
get_elem?-range_from s zero x lt = elim lt [ ]
get_elem?-range_from s (suc n) zero lt = ap some (omega arith)
get_elem?-range_from s (suc n) (suc x) lt =
    get_elem?-range_from (suc s) n x (omega arith) ∙ ap some (omega arith)

roots-range_from : (s n : ℕ) → roots s (range_from s n) ≡ n
unfolding range_from
roots-range_from s zero = refl
roots-range_from s (suc n) = ground (arith, roots-range_from (suc s) n)

-- At the start every index is its own root.
Root-range_from : (n k x r : ℕ) → Root (range_from 0 n) k x r → x ≡ r
Root-range_from n zero x r (f, e) = e
Root-range_from n (suc k) x r (y, f, ne, h) =
    let lt : x < n = omega (arith, get_elem?-lt (range_from 0 n) x f, length-range_from 0 n) in
    absurd (ne (ground (arith, get_elem?-range_from 0 n x lt)))

IsForest-range_from : (n : ℕ) → IsForest n (range_from 0 n)
IsForest-range_from n = record {
  size = length-range_from 0 n;
  height = 0;
  room = omega (arith, roots-range_from 0 n);
  reach =
      λ x lt. (0, x, omega arith, (get_elem?-range_from 0 n x lt ∙ ap some (omega arith), refl));
}

module _ (link? : ℕ → ℕ → Option Bool) (n : ℕ) where
  -- A pair that the loop links.
  pub record Linked (a b : ℕ) : Type 0 where
    pub linked : link? a b ≡ some true
    pub up : a < b
    pub within : b < n

  -- A pair that is linked before the loop comes to (i, j).
  pub record Done (i j a b : ℕ) : Type 0 where
    pub is : Linked a b
    pub before : (a < i) ⊎ ((a ≡ i) × (b < j))

  -- Every link test returns.
  abbrev pub Total : Type 0
  Total = (i j : ℕ) → i < j → j < n → (b : Bool) × (link? i j ≡ some b)

  Done-next : (i j a b : ℕ) → Done i j a b → Done i (suc j) a b
  Done-next i j a b d = record { is = d.is; before = ground arith }

  Done-prev : (i j a b : ℕ) → Done i (suc j) a b → Done i j a b ⊎ ((a ≡ i) × (b ≡ j))
  Done-prev i j a b d = elim d.before [
    | inl lt ↦ inl (record { is = d.is; before = inl lt })
    | inr (e, lt) ↦ elim (dec_lt b j) [
      | yes h ↦ inl (record { is = d.is; before = inr (e, h) })
      | no h ↦ inr (e, omega arith)
    ]
  ]

  Done-here : (i j : ℕ) → Linked i j → Done i (suc j) i j
  Done-here i j l = record { is = l; before = inr (refl, omega arith) }

  Done-skip : (i j : ℕ) → link? i j ≡ some false → (a b : ℕ) → Done i (suc j) a b → Done i j a b
  Done-skip i j off a b d = elim (Done-prev i j a b d) [
    | inl h ↦ h
    | inr (ea, eb) ↦ let on = d.is.linked in absurd (cc (rw (ea, eb) at on, off))
  ]

  join_if_lem :
      (i j : ℕ) (p : List ℕ) (b : Bool)
      → i < j
      → j < n
      → link? i j ≡ some b
      → Tracks n (Done i j) p
      → (p' : List ℕ) × (join_if link? n b p i j ≡ some p') × Tracks n (Done i (suc j)) p'
  unfolding join_if
  join_if_lem i j p false lt lj off t = (p, refl, Tracks-iff (Done-next i j) (Done-skip i j off) t)
  join_if_lem i j p true lt lj on t =
      let li : i < n = omega arith in
      let (p', run, J) = union_lem n p i j t.forest li lj in
      let pair = Done-here i j (record { linked = on; up = lt; within = lj }) in
      (p', run, Tracks-join li lj (Done-next i j) (Done-prev i j) pair J t)

  link_row_lem :
      (left i j : ℕ) (p : List ℕ)
      → Total
      → i < j
      → j + left ≡ n
      → Tracks n (Done i j) p
      → (p' : List ℕ) × (link_row link? n left i j p ≡ some p') × Tracks n (Done i n) p'
  unfolding link_row
  link_row_lem zero i j p total lt e t = let q : j ≡ n = omega arith in (p, refl, rw q at t)
  link_row_lem (suc left) i j p total lt e t =
      let (b, tested) = total i j lt (omega arith) in
      let (p₁, run₁, t₁) = join_if_lem i j p b lt (omega arith) tested t in
      let (p₂, run₂, t₂) = link_row_lem left i (suc j) p₁ total (omega arith) (omega arith) t₁ in
      (p₂, rw (tested, run₁, run₂), t₂)

  Done-row : (i a b : ℕ) → Done i n a b → Done (suc i) (suc (suc i)) a b
  Done-row i a b d = record { is = d.is; before = inl (ground arith) }

  Done-unrow : (i a b : ℕ) → Done (suc i) (suc (suc i)) a b → Done i n a b
  Done-unrow i a b d = record {
    is = d.is;
    before = elim (dec_lt a i) [ yes h ↦ inl h | no h ↦ inr (grind (arith, d.is.up, d.is.within)) ];
  }

  link_rows_lem :
      (left i : ℕ) (p : List ℕ)
      → Total
      → i + left ≡ n
      → Tracks n (Done i (suc i)) p
      → (p' : List ℕ) × (link_rows link? n left i p ≡ some p') × Tracks n (Done n (suc n)) p'
  unfolding link_rows
  link_rows_lem zero i p total e t = let q : i ≡ n = omega arith in (p, refl, rw q at t)
  link_rows_lem (suc left) i p total e t =
      let (p₁, run₁, t₁) = link_row_lem left i (suc i) p total (omega arith) (omega arith) t in
      let t₂ = Tracks-iff (Done-row i) (Done-unrow i) t₁ in
      let (p₂, run₂, t₃) = link_rows_lem left (suc i) p₁ total (omega arith) t₂ in
      (p₂, rw (run₁, run₂), t₃)

  -- The pair loop returns a forest whose trees are the classes of the linked pairs.
  pub pair_loop :
      Total
      → (p' : List ℕ) × (link_rows link? n n 0 (range_from 0 n) ≡ some p') × Tracks n Linked p'
  pair_loop total =
      let (p', run, t) = link_rows_lem n 0 (range_from 0 n) total (omega arith) start in
      (p', run, Tracks-iff (λ a b d. d.is) ended t)
    where
      ended : (a b : ℕ) → Linked a b → Done n (suc n) a b
      ended a b l = record { is = l; before = inl (omega (arith, l.up, l.within)) }

      own : (a r : ℕ) → HasRoot (range_from 0 n) a r → a ≡ r
      own a r h = Root-range_from n h.depth a r h.path

      start : Tracks n (Done 0 1) (range_from 0 n)
      start = record {
        forest = IsForest-range_from n;
        sound = λ a b r la lb ha hb. same (own a r ha ∙ sym (own b r hb));
        complete = λ a b r d h. absurd (grind (arith, d.before, d.is.up));
      }
