-- ===== src/Grouping/Returned.antt =====
-- What a return of grouping.py tells: each link test has returned, and the groups are the partition.
use capturemate_ai.Prelude.{
  ℕ, zero, suc, ◌+◌, ◌<◌, ◌≤◌, ◌≡◌, sym, ◌∙◌, Bool, Option, some, List, some_inj, arith, dec_lt,
}
use capturemate_ai.Prelude.Options.{bind-some}
use capturemate_ai.Grouping.{group_by_links, link_row, link_rows, join_if, range_from}
use capturemate_ai.Grouping.Loop.{Total}
use capturemate_ai.Grouping.Partition.{IsPartition, group_by_links-IsPartition}

module _ (link? : ℕ → ℕ → Option Bool) (n : ℕ) where
  link_row-some :
      (left i j : ℕ) (parent p : List ℕ)
      → link_row link? n left i j parent ≡ some p
      → (k : ℕ) → j ≤ k
      → k < j + left
      → (b : Bool) × (link? i k ≡ some b)
  unfolding link_row
  link_row-some zero i j parent p h k le lt = absurd (omega arith)
  link_row-some (suc left) i j parent p h k le lt =
      let (b, eb, h') = bind-some (link? i j) _ h in
      let (parent', ep, h'') = bind-some (join_if link? n b parent i j) _ h' in
      elim (dec_lt j k) [
        | yes more ↦ link_row-some left i (suc j) parent' p h'' k (omega arith) (omega arith)
        | no least ↦ let here : k ≡ j = omega arith in rw here (b, eb)
      ]

  link_rows-some :
      (left i : ℕ) (parent p : List ℕ)
      → i + left ≡ n
      → link_rows link? n left i parent ≡ some p
      → (a b : ℕ) → i ≤ a
      → a < b
      → b < n
      → (t : Bool) × (link? a b ≡ some t)
  unfolding link_rows
  link_rows-some zero i parent p e h a b le up lt = absurd (omega arith)
  link_rows-some (suc left) i parent p e h a b le up lt =
      let (parent', ep, h') = bind-some (link_row link? n left i (suc i) parent) _ h in
      elim (dec_lt i a) [
        | yes more ↦ link_rows-some left (suc i) parent' p (omega arith) h' a b (omega arith) up lt
        | no least ↦
            let here : a ≡ i = omega arith in
            rw here (link_row-some left i (suc i) parent parent' ep b (omega arith) (omega arith))
      ]

  -- If the grouping returns, then each of its link tests has.
  pub group_by_links-Total : (gs : List (List ℕ)) → group_by_links link? n ≡ some gs → Total link? n
  unfolding group_by_links
  group_by_links-Total gs h i j up lt =
      let (p, ep, h') = bind-some (link_rows link? n n 0 (range_from 0 n)) _ h in
      link_rows-some n 0 (range_from 0 n) p (omega arith) ep i j (omega arith) up lt

  -- The same partition, for groups that the code has returned.
  pub group_by_links-returned :
      (gs : List (List ℕ)) → group_by_links link? n ≡ some gs → IsPartition link? n gs
  group_by_links-returned gs h =
      let (gs', run, p) = group_by_links-IsPartition link? n (group_by_links-Total gs h) in
      rw (some_inj (sym run ∙ h)) at p
