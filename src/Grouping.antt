-- ===== src/Grouping.antt =====
-- app/analysis/grouping.py: the similarity test and the union-find over the item indices.
pub mod Forest
pub mod Find
pub mod Links
pub mod Loop
pub mod Members
pub mod Partition
pub mod Returned
use capturemate_ai.Prelude.{
  ℕ, zero, suc, ◌+◌, Bool, true, false, ◌||◌, Option, none, some, List, [], ◌∷◌, ◌++◌,
  if◌then◌else◌, get_elem?, set, length, ◌==◌, nat_eq,
}
use capturemate_ai.Prelude.Int.{ℤ, pos, abs_diff}
use capturemate_ai.Prelude.Float.{Float, FloatOps, zero_float, one_float, thousand}
use capturemate_ai.Prelude.Dict.{Dict, values}
use capturemate_ai.Prelude.Options.{◌>>=◌}

module _ (ops : FloatOps) where
  open ops use {mul, sum, sqrt, exp, neg, div, of_int, eq, lt, le}

  -- x * y for x, y in zip(a, b)
  unfoldable pub products : List Float → List Float → List Float
  products (x ∷ a) (y ∷ b) = mul x y ∷ products a b
  products _ _ = []

  -- `_cosine`. A product of two tiny norms can be zero: the division then raises.
  unfoldable pub cosine : List Float → List Float → Option Float
  unfolding products
  cosine a b =
      let dot = sum (products a b) in
      let norm_a = sqrt (sum (products a a)) in
      let norm_b = sqrt (sum (products b b)) in
      if eq norm_a zero_float || eq norm_b zero_float
      then some zero_float
      else div dot (mul norm_a norm_b)

  -- `_time_weight`. `max` keeps its first argument unless the second is greater.
  unfoldable pub time_weight : Float → Float → Float → Option Float
  time_weight dt_seconds tau_seconds w_min =
      if le tau_seconds zero_float then some one_float else do
        ratio ← div (neg dt_seconds) tau_seconds
        let decay = exp ratio
        some (if lt w_min decay then decay else w_min)

  -- The weight of a pair of capture times; without one of them there is no penalty.
  unfoldable pub pair_weight : Option ℤ → Option ℤ → Float → Float → Option Float
  unfolding time_weight
  pair_weight (some ti) (some tj) tau_seconds w_min = do
    ms ← of_int (pos (abs_diff ti tj))
    dt ← div ms thousand
    time_weight dt tau_seconds w_min
  pair_weight _ _ tau_seconds w_min = some one_float

  -- The body of the pair loop up to `union(i, j)`: whether the pair is linked.
  unfoldable pub linked :
      List (List Float) → List (Option ℤ) → Float → Float → Float → ℕ → ℕ → Option Bool
  unfolding cosine pair_weight
  linked embeddings timestamps_ms threshold tau_seconds w_min i j = do
    a ← get_elem? embeddings i
    b ← get_elem? embeddings j
    sim ← cosine a b
    let rest = do
      ti ← get_elem? timestamps_ms i
      tj ← get_elem? timestamps_ms j
      weight ← pair_weight ti tj tau_seconds w_min
      some (le threshold (mul sim weight))
    if le sim zero_float then some false else rest

-- `find` with path halving. Each round costs one unit of fuel; `none` is a round too many, or an
-- index out of range.
pub find : ℕ → List ℕ → ℕ → Option (ℕ × List ℕ)
find zero parent x = none
find (suc fuel) parent x = do
  y ← get_elem? parent x
  let rest = do g ← get_elem? parent y; find fuel (set parent x g) g
  if y == x then some (x, parent) else rest

pub union : ℕ → List ℕ → ℕ → ℕ → Option (List ℕ)
union fuel parent a b = do
  (root_a, parent₁) ← find fuel parent a
  (root_b, parent₂) ← find fuel parent₁ b
  some (if root_a == root_b then parent₂ else set parent₂ root_b root_a)

-- list(range(start, start + n))
pub range_from : ℕ → ℕ → List ℕ
range_from start zero = []
range_from start (suc n) = start ∷ range_from (suc start) n

-- groups.setdefault(root, []).append(i)
pub add_member : ℕ → ℕ → Dict ℕ (List ℕ) → Dict ℕ (List ℕ)
add_member root i [] = (root, i ∷ []) ∷ []
add_member root i ((k, members) ∷ groups) =
    if k == root then (k, members ++ (i ∷ [])) ∷ groups else (k, members) ∷ add_member root i groups

-- The loop that collects the groups, with `left` indices to go.
pub collect : ℕ → ℕ → ℕ → List ℕ → Dict ℕ (List ℕ) → Option (Dict ℕ (List ℕ))
collect n zero i parent groups = some groups
collect n (suc left) i parent groups = do
  (root, parent') ← find n parent i
  collect n left (suc i) parent' (add_member root i groups)

module _ (link : ℕ → ℕ → Option Bool) (n : ℕ) where
  pub join_if : Bool → List ℕ → ℕ → ℕ → Option (List ℕ)
  join_if b parent i j = if b then union n parent i j else some parent

  -- for j in range(i + 1, n), with `left` columns to go.
  pub link_row : ℕ → ℕ → ℕ → List ℕ → Option (List ℕ)
  link_row zero i j parent = some parent
  link_row (suc left) i j parent = do
    b ← link i j
    parent' ← join_if b parent i j
    link_row left i (suc j) parent'

  -- for i in range(n), with `left` rows to go: n - i is `left`.
  pub link_rows : ℕ → ℕ → List ℕ → Option (List ℕ)
  link_rows zero i parent = some parent
  link_rows (suc left) i parent = do
    parent' ← link_row left i (suc i) parent
    link_rows left (suc i) parent'

  unfoldable pub group_by_links : Option (List (List ℕ))
  unfolding find union range_from add_member collect join_if link_row link_rows
  group_by_links = do
    parent ← link_rows n 0 (range_from 0 n)
    groups ← collect n n 0 parent []
    some (values groups)

unfoldable pub group_indices :
    FloatOps → List (List Float) → List (Option ℤ) → Float → Float → Float → Option (List (List ℕ))
unfolding group_by_links linked
group_indices ops embeddings timestamps_ms threshold tau_seconds w_min =
    group_by_links (linked ops embeddings timestamps_ms threshold tau_seconds w_min)
      (length embeddings)
