-- ===== src/Tests/Search.antt =====
-- Combinations of two values in two places, and subsets.
use llreve.Prelude.{ℕ, ◌≡◌, refl, [], ◌∷◌, ok, err, undefined, arith}
use llreve.Dynamic.Combinations.{combinations}
use llreve.Dynamic.Subsets.{k_subset}
use llreve.Dynamic.Combinations.Overrun.{combinations-undefined}

combinations-undefined_example : combinations 4 2 2 ≡ err undefined
combinations-undefined_example =
    combinations-undefined 4 2 2 (omega arith) (omega arith) (omega arith)

-- The subsets of two of four values.
k_subset_run :
    k_subset {T = ℕ} 10 0 (1 ∷ 2 ∷ 3 ∷ 4 ∷ []) 2
    ≡ ok (
        (1 ∷ 2 ∷ [])
        ∷ (1 ∷ 3 ∷ [])
        ∷ (2 ∷ 3 ∷ [])
        ∷ (1 ∷ 4 ∷ [])
        ∷ (2 ∷ 4 ∷ [])
        ∷ (3 ∷ 4 ∷ [])
        ∷ [])
unfolding k_subset
k_subset_run = refl

-- There is no subset of no values: the zeros of 0 are counted.
k_subset_empty : k_subset {T = ℕ} 10 0 (1 ∷ 2 ∷ []) 0 ≡ err undefined
unfolding k_subset
k_subset_empty = refl
