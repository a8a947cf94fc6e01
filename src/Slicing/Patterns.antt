-- ===== src/Slicing/Patterns.antt =====
-- `for_each_pattern` of `slicing/src/slicingMethods/BruteForce.cpp`, with what it uses of the
-- standard library on vectors of Booleans.

pub mod Chosen
pub mod Every
pub mod First
pub mod Starts
pub mod Visited
use llreve.Prelude.{
  ℕ, zero, suc, ◌-◌, Bool, true, false, not, ◌&&◌, if◌then◌else◌, ltb, List, [], ◌∷◌, ◌++◌, reverse,
  Option, none, some, Result, ok, err, undefined, out_of_fuel, ◌>>=◌,
}

-- `vector<bool>(n, b)`
unfoldable pub repeated : Bool → ℕ → List Bool
repeated b zero = []
repeated b (suc n) = b ∷ repeated b n

-- `std::sort`
unfoldable pub sort_bits : List Bool → List Bool
sort_bits [] = []
sort_bits (false ∷ bs) = false ∷ sort_bits bs
sort_bits (true ∷ bs) = sort_bits bs ++ (true ∷ [])

-- The last entry that is greater than a value, with the value in its place.
unfoldable pub swap_last : Bool → List Bool → Option (Bool × List Bool)
swap_last a [] = none
swap_last a (b ∷ bs) = elim (swap_last a bs) [
  | some r ↦ some (r.0, b ∷ r.1)
  | none ↦ if not a && b then some (b, a ∷ bs) else none
]

-- `std::next_permutation`: the last entry that is smaller than a later one changes places with the
-- last such, and what follows it is reversed. The last permutation has none.
unfoldable pub next_permutation : List Bool → Option (List Bool)
unfolding swap_last
next_permutation [] = none
next_permutation (b ∷ bs) = elim (next_permutation bs) [
  | some cs ↦ some (b ∷ cs)
  | none ↦ elim (swap_last b bs) [ some r ↦ some (r.0 ∷ reverse r.1) | none ↦ none ]
]

-- `pattern[i] = b`
unfoldable pub set_entry : ℕ → Bool → List Bool → Result (List Bool)
set_entry i b [] = err undefined
set_entry zero b (c ∷ cs) = ok (b ∷ cs)
set_entry (suc i) b (c ∷ cs) = set_entry i b cs >>= (λ r. ok (c ∷ r))

-- The first pattern with so many zeros, from the last pattern before.
unfoldable pub first_pattern : ℕ → List Bool → Result (List Bool)
unfolding sort_bits set_entry
first_pattern unset bs =
    if ltb 0 unset then set_entry (unset - 1) false (sort_bits bs) else ok (sort_bits bs)

module _ {S : Type 0} (lambda : List Bool → S → Result (S × Bool)) where
  -- The inner loop; `after` is what follows it where it has not been left by `break`, with the
  -- pattern that `next_permutation` leaves behind.
  unfoldable pub permute : ℕ → (List Bool → S → Result S) → List Bool → S → Result S
  unfolding next_permutation
  permute zero after bs s = err out_of_fuel
  permute (suc fuel) after bs s = do
    r ← lambda bs s
    elim r.1 [
      | true ↦ ok r.0
      | false ↦ elim (next_permutation bs) [
        | some cs ↦ permute fuel after cs r.0
        | none ↦ after (reverse bs) r.0
      ]
    ]

  -- The outer loop, with the number of rounds that are left.
  unfoldable pub add_zeros : ℕ → ℕ → ℕ → List Bool → S → Result S
  unfolding first_pattern permute
  add_zeros fuel zero unset bs s = ok s
  add_zeros fuel (suc rounds) unset bs s = do
    cs ← first_pattern unset bs
    permute fuel (add_zeros fuel rounds (suc unset)) cs s

  unfoldable pub for_each_pattern : ℕ → ℕ → S → Result S
  unfolding add_zeros repeated
  for_each_pattern fuel num_instructions s =
      add_zeros fuel (suc num_instructions) 0 (repeated true num_instructions) s
