-- ===== src/Grouping/Find.antt =====
-- `find` and `union` of grouping.py on a forest: they return, and what they leave.
use capturemate_ai.Prelude.{
  ℕ, zero, suc, ◌+◌, ◌≤◌, ◌<◌, ◌≡◌, refl, ap, ◌∙◌, ◌≢◌, some, List, length, get_elem?, set,
  length-set, arith,
}
use capturemate_ai.Grouping.{find}
use capturemate_ai.Grouping.Forest.{
  Root, Root-unique, Root-top, Root-set_near, g-ne-x, roots, roots-set, roots-pos,
}

-- Path halving: every path keeps its root and gets no longer.
pub record Keeps (p p' : List ℕ) : Type 0 where
  pub size : length p' ≡ length p
  pub roots : roots 0 p' ≡ roots 0 p
  pub paths : (k z r : ℕ) → Root p k z r → (k' : ℕ) × (k' ≤ k) × Root p' k' z r

pub Keeps-refl : (p : List ℕ) → Keeps p p
Keeps-refl p = record { size = refl; roots = refl; paths = λ k z r h. (k, omega arith, h) }

pub Keeps-trans : {p q s : List ℕ} → Keeps p q → Keeps q s → Keeps p s
Keeps-trans a b = record {
  size = b.size ∙ a.size;
  roots = b.roots ∙ a.roots;
  paths = λ k z r h.
      let (k', le, h') = a.paths k z r h in
      let (l, le', h'') = b.paths k' z r h' in (l, omega arith, h'');
}

module _ (p : List ℕ) (x y g kx kg r : ℕ) (fx : get_elem? p x ≡ some y) (ne : y ≢ x)
    (hx : Root p kx x r) (hg : Root p kg g r) (near : kg < kx) where
  Keeps-set : Keeps p (set p x g)
  Keeps-set =
      let apart : g ≢ x = g-ne-x p x g kx kg r hx hg near in
      record {
        size = length-set p x g;
        roots = ground (arith, roots-set 0 p x y g fx);
        paths = Root-set_near p x g kx kg r hx hg near;
      }

-- With more fuel than the depth of x, `find` returns the root of x.
pub find_lem :
    (fuel : ℕ) (p : List ℕ) (k x r : ℕ)
    → Root p k x r
    → k < fuel
    → (p' : List ℕ) × (find fuel p x ≡ some (r, p')) × Keeps p p'
unfolding find
find_lem zero p k x r h lt = elim lt [ ]
find_lem (suc fuel) p zero x r (f, e) lt = (p, ground arith, Keeps-refl p)
find_lem (suc fuel) p (suc zero) x r (y, f, ne, (f', e)) lt =
    let keep = Keeps-set p x y y 1 0 r f ne (y, f, ne, (f', e)) (f', e) (omega arith) in
    let (k', le, h') = keep.paths 0 y r (f', e) in
    let (p', run, keep') = find_lem fuel (set p x y) k' y r h' (omega arith) in
    (p', ground arith, Keeps-trans keep keep')
find_lem (suc fuel) p (suc (suc k)) x r (y, f, ne, (g, f', ne', h)) lt =
    let keep =
      Keeps-set p x y g (suc (suc k)) k r f ne (y, f, ne, (g, f', ne', h)) h (omega arith) in
    let (k', le, h') = keep.paths k g r h in
    let (p', run, keep') = find_lem fuel (set p x g) k' g r h' (omega arith) in
    (p', ground arith, Keeps-trans keep keep')

pub record IsForest (n : ℕ) (p : List ℕ) : Type 0 where
  pub size : length p ≡ n
  pub height : ℕ
  pub room : height + roots 0 p ≤ n
  pub reach : (x : ℕ) → x < n → (k : ℕ) × (r : ℕ) × (k ≤ height) × Root p k x r

-- x is in the tree of the root r.
pub record HasRoot (p : List ℕ) (x r : ℕ) : Type 0 where
  pub depth : ℕ
  pub path : Root p depth x r

pub HasRoot-unique : {p : List ℕ} {x r s : ℕ} → HasRoot p x r → HasRoot p x s → r ≡ s
HasRoot-unique {p} {x} {r} {s} a b = (Root-unique p a.depth b.depth x r s a.path b.path).1

pub HasRoot-Keeps : {p p' : List ℕ} {x r : ℕ} → Keeps p p' → HasRoot p x r → HasRoot p' x r
HasRoot-Keeps {x} {r} keep h =
    let (k', le, h') = keep.paths h.depth x r h.path in record { depth = k'; path = h' }

pub IsForest-Keeps : {n : ℕ} {p p' : List ℕ} → Keeps p p' → IsForest n p → IsForest n p'
IsForest-Keeps keep w = record {
  size = keep.size ∙ w.size;
  height = w.height;
  room = omega (arith, keep.roots, w.room);
  reach = λ x lt.
      let (k, r, le, h) = w.reach x lt in
      let (k', le', h') = keep.paths k x r h in (k', r, omega arith, h');
}

-- In a forest of n indices n units of fuel are enough.
pub find_forest :
    (n : ℕ) (p : List ℕ) (x : ℕ)
    → IsForest n p
    → x < n
    → (r : ℕ) × (p' : List ℕ) × (find n p x ≡ some (r, p')) × HasRoot p x r × Keeps p p'
find_forest n p x w lt =
    let (k, r, le, h) = w.reach x lt in
    let pos : 0 < roots 0 p = roots-pos 0 p r (Root-top p k x r h ∙ ap some (omega arith)) in
    let (p', run, keep) = find_lem n p k x r h (omega (arith, w.room)) in
    (r, p', run, record { depth = k; path = h }, keep)
