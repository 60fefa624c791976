-- ===== src/Grouping/Forest.antt =====
-- The parent list of grouping.py as a forest: roots, depths, and the writes that keep them.
use capturemate_ai.Prelude.{
  ℕ, zero, suc, ◌+◌, ◌≤◌, ◌<◌, ◌≡◌, refl, sym, ap, ◌∙◌, ◌≢◌, inl, inr, some, List, [], ◌∷◌, length,
  get_elem?, set, get_elem?-set_self, get_elem?-set_ne, get_elem?-lt, arith, eqb, Bool-cases,
  eqb_iff, if◌then◌else◌,
}

-- Following `parent` from x for k steps, the first index that is its own parent is r.
abbrev pub Root : List ℕ → ℕ → ℕ → ℕ → Type 0
Root p zero x r = (get_elem? p x ≡ some x) × (x ≡ r)
Root p (suc k) x r = (y : ℕ) × (get_elem? p x ≡ some y) × (y ≢ x) × Root p k y r

pub Root-unique : (p : List ℕ) (k l x r s : ℕ) → Root p k x r → Root p l x s → (k ≡ l) × (r ≡ s)
Root-unique p zero zero x r s (_, e) (_, e') = (refl, sym e ∙ e')
Root-unique p zero (suc l) x r s (f, e) (y, g, ne, h) = absurd (ne (ground arith))
Root-unique p (suc k) zero x r s (y, g, ne, h) (f, e) = absurd (ne (ground arith))
Root-unique p (suc k) (suc l) x r s (y, g, ne, h) (y', g', ne', h') =
    let same : y' ≡ y = ground arith in
    let (a, b) = Root-unique p k l y r s h (rw same at h') in (ap suc a, b)

pub Root-top : (p : List ℕ) (k x r : ℕ) → Root p k x r → get_elem? p r ≡ some r
Root-top p zero x r (f, e) = rw e at f
Root-top p (suc k) x r (y, g, ne, h) = Root-top p k y r h

-- To point x at g, an index nearer to the same root, leaves every root and deepens nothing.
module _ (p : List ℕ) (x g kx kg rx : ℕ) (hx : Root p kx x rx) (hg : Root p kg g rx)
    (near : kg < kx) where
  -- Paths from indices nearer to their root than x do not pass through x.
  Root-set_below : (k z r : ℕ) → k < kx → Root p k z r → Root (set p x g) k z r
  Root-set_below zero z r lt (f, e) =
      let apart : x ≢ z =
        λ q. absurd (omega (arith, (Root-unique p kx zero x rx r hx (rw q (f, e))).0)) in
      (rw (get_elem?-set_ne p g apart) f, e)
  Root-set_below (suc k) z r lt (y, f, ne, h) =
      let apart : x ≢ z =
        λ q. absurd (omega (arith, (Root-unique p kx (suc k) x rx r hx (rw q (y, f, ne, h))).0)) in
      (y, rw (get_elem?-set_ne p g apart) f, ne, Root-set_below k y r (omega arith) h)

  in_range : x < length p
  in_range = inside kx hx
    where
      inside : (k : ℕ) → Root p k x rx → x < length p
      inside zero (f, _) = get_elem?-lt p x f
      inside (suc k) (y, f, _, _) = get_elem?-lt p x f

  pub g-ne-x : g ≢ x
  g-ne-x q = absurd (omega (arith, (Root-unique p kx kg x rx rx hx (rw (← q) hg)).0))

  at_x : Root (set p x g) (suc kg) x rx
  at_x = (g, get_elem?-set_self p x g in_range, g-ne-x, Root-set_below kg g rx near hg)

  -- A path from x, or one that is settled if it does not start at x.
  from_x :
      (k z r : ℕ)
      → Root p k z r
      → (x ≢ z → (k' : ℕ) × (k' ≤ k) × Root (set p x g) k' z r)
      → (k' : ℕ) × (k' ≤ k) × Root (set p x g) k' z r
  from_x k z r h otherwise = elim (Bool-cases (eqb x z)) [
    | inl same ↦
        let q : x ≡ z = (eqb_iff x z).0 same in
        let (depth, root) = Root-unique p kx k x rx r hx (rw q h) in
        (suc kg, omega arith, rw (← q, ← root) at_x)
    | inr other ↦ otherwise (λ q. ground (arith, (eqb_iff x z).1 q))
  ]

  pub Root-set_near : (k z r : ℕ) → Root p k z r → (k' : ℕ) × (k' ≤ k) × Root (set p x g) k' z r
  Root-set_near zero z r (f, e) =
      from_x zero z r (f, e) (λ apart. (0, omega arith, (rw (get_elem?-set_ne p g apart) f, e)))
  Root-set_near (suc k) z r (y, f, ne, h) =
      let (k', le, h') = Root-set_near k y r h in
      from_x (suc k) z r (y, f, ne, h)
        (λ apart. (suc k', omega arith, (y, rw (get_elem?-set_ne p g apart) f, ne, h')))

-- To hang the root b under another root a moves b's tree, one step deeper, to a.
module _ (p : List ℕ) (a b : ℕ) (ha : get_elem? p a ≡ some a) (hb : get_elem? p b ≡ some b)
    (ne : a ≢ b) where
  a_stays : get_elem? (set p b a) a ≡ some a
  a_stays = rw (get_elem?-set_ne p a (λ q. ne (sym q))) ha

  b_moves : get_elem? (set p b a) b ≡ some a
  b_moves = get_elem?-set_self p b a (get_elem?-lt p b hb)

  pub Root-set_tree :
      (k z r : ℕ)
      → Root p k z r
      → (k' : ℕ) × (k' ≤ suc k) × Root (set p b a) k' z (if eqb r b then a else r)
  Root-set_tree zero z r (f, e) = elim (Bool-cases (eqb r b)) [
    | inl same ↦
        let q : z ≡ b = e ∙ (eqb_iff r b).0 same in
        (1, omega arith, rw (same, q) (a, b_moves, ne, (a_stays, refl)))
    | inr other ↦
        let apart : b ≢ z = λ q. cc (other, (eqb_iff r b).1 (sym e ∙ sym q)) in
        (0, omega arith, rw other (rw (get_elem?-set_ne p a apart) f, e))
  ]
  Root-set_tree (suc k) z r (y, f, off, h) =
      let (k', le, h') = Root-set_tree k y r h in
      (suc k', omega arith, (y, rw (get_elem?-set_ne p a (λ q. off (root_of z y f q))) f, off, h'))
    where
      root_of : (z y : ℕ) → get_elem? p z ≡ some y → b ≡ z → y ≡ z
      root_of z y f q = ground arith

-- How many indices are their own parent, the first index being i.
abbrev pub roots : ℕ → List ℕ → ℕ
roots i [] = 0
roots i (v ∷ p) = (if eqb v i then 1 else 0) + roots (suc i) p

pub roots-set :
    (i : ℕ) (p : List ℕ) (x u v : ℕ)
    → get_elem? p x ≡ some u
    → roots i (set p x v) + (if eqb u (i + x) then 1 else 0)
      ≡ roots i p + (if eqb v (i + x) then 1 else 0)
roots-set i [] x u v h = cc
roots-set i (w ∷ p) zero u v h = ground arith
roots-set i (w ∷ p) (suc x) u v h = ground (arith, roots-set (suc i) p x u v h)

pub roots-pos : (i : ℕ) (p : List ℕ) (x : ℕ) → get_elem? p x ≡ some (i + x) → 0 < roots i p
roots-pos i [] x h = cc
roots-pos i (w ∷ p) zero h = ground arith
roots-pos i (w ∷ p) (suc x) h = ground (arith, roots-pos (suc i) p x (h ∙ ap some (omega arith)))
