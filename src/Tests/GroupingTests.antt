-- ===== src/Tests/GroupingTests.antt =====
-- Runs of the grouping.
use capturemate_ai.Prelude.{ℕ, zero, suc, ◌≡◌, refl, true, false, none, some, List, [], ◌∷◌, arith}
use capturemate_ai.Prelude.Float.{Float}
use capturemate_ai.Grouping.{group_indices, linked}
use capturemate_ai.Grouping.Loop.{Total}
use capturemate_ai.Grouping.Partition.{IsPartition, group_indices-IsPartition}
use capturemate_ai.Tests.Samples.{counting_floats, count_float}

abbrev vectors : List (List Float)
vectors = (count_float 1 ∷ []) ∷ (count_float 0 ∷ []) ∷ (count_float 1 ∷ []) ∷ []

group_three :
    group_indices counting_floats vectors
      (none ∷ none ∷ none ∷ [])
      (count_float 1)
      (count_float 300)
      (count_float 0)
    ≡ some ((0 ∷ 2 ∷ []) ∷ (1 ∷ []) ∷ [])
unfolding group_indices
group_three = refl

group_indices-IsPartition_example :
    (gs : List (List ℕ)) × (group_indices counting_floats vectors
        (none ∷ none ∷ none ∷ [])
        (count_float 1)
        (count_float 300)
        (count_float 0)
      ≡ some gs)
    × IsPartition
        (linked counting_floats vectors
          (none ∷ none ∷ none ∷ [])
          (count_float 1)
          (count_float 300)
          (count_float 0))
        3
        gs
unfolding linked
group_indices-IsPartition_example =
    group_indices-IsPartition counting_floats vectors (none ∷ none ∷ none ∷ []) (count_float 1)
      (count_float 300) (count_float 0) total
  where
    total :
        Total
          (linked counting_floats vectors
            (none ∷ none ∷ none ∷ [])
            (count_float 1)
            (count_float 300)
            (count_float 0))
          3
    total zero zero lt h = absurd (omega arith)
    total zero (suc zero) lt h = (false, refl)
    total zero (suc (suc zero)) lt h = (true, refl)
    total zero (suc (suc (suc j))) lt h = absurd (omega arith)
    total (suc zero) zero lt h = absurd (omega arith)
    total (suc zero) (suc zero) lt h = absurd (omega arith)
    total (suc zero) (suc (suc zero)) lt h = (false, refl)
    total (suc zero) (suc (suc (suc j))) lt h = absurd (omega arith)
    total (suc (suc i)) j lt h = absurd (omega arith)
