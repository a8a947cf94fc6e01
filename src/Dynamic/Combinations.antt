-- ===== src/Dynamic/Combinations.antt =====
-- `kCombinationsWithRepetitionsInt` of
-- `reve/dynamic/llreve-dynamic/lib/llreve/dynamic/Permutation.cpp`.
pub mod Overrun
use llreve.Prelude.{
  ℕ, zero, suc, ◌-◌, Bool, true, List, [], ◌∷◌, ◌++◌, Option, none, some, ◌||◌, if◌then◌else◌,
  nat_eq,
}
use llreve.Prelude.{Result, ok, err, undefined, out_of_fuel}

-- `vector<size_t> current(k, 0)`
unfoldable pub zero_vector : ℕ → List ℕ
zero_vector zero = []
zero_vector (suc k) = 0 ∷ zero_vector k

-- The next vector: the first entry that is not the greatest is counted up, and those before it
-- begin again. If all are the greatest, the search reads behind the end of the vector.
unfoldable pub next_vector : ℕ → List ℕ → Option (List ℕ)
next_vector n [] = none
next_vector n (c ∷ cs) =
    let rest = next_vector n cs in
    if nat_eq c (n - 1)
    then (elim rest [ none ↦ none | some ds ↦ some (0 ∷ ds) ])
    else some (suc c ∷ cs)

-- The endless loop; nothing is ever added to `alreadyAdded`, so every vector is kept.
unfoldable pub combine : ℕ → ℕ → List ℕ → List (List ℕ) → Result (List (List ℕ))
unfolding next_vector
combine n zero current result = err out_of_fuel
combine n (suc fuel) current result = elim (next_vector n current) [
  | none ↦ err undefined
  | some next ↦ combine n fuel next (result ++ (current ∷ []))
]

unfoldable pub combinations : ℕ → ℕ → ℕ → Result (List (List ℕ))
unfolding combine zero_vector
combinations fuel n k =
    if nat_eq n 0 || nat_eq k 0 then ok [] else combine n fuel (zero_vector k) []
