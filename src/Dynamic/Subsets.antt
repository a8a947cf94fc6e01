-- ===== src/Dynamic/Subsets.antt =====
-- `kSubset` of `reve/dynamic/llreve-dynamic/include/llreve/dynamic/Permutation.h`, and the template
-- `kCombinationsWithRepetitions` of that file.
use Prim.Native.Nat.{bit_and, bit_or}
use llreve.Prelude.{
  ℕ, zero, suc, ◌+◌, ◌-◌, ◌/◌, ◌%◌, ◌^◌, true, false, ◌||◌, ltb, nat_eq, if◌then◌else◌, length,
  List, [], ◌∷◌, ◌++◌, Result, ok, err, assertion, undefined, out_of_range, out_of_fuel, ◌>>=◌,
}
use llreve.Dynamic.Combinations.{combinations}

-- `1 << i` on `int`, as a `uint64_t`: bit 31 is the sign, which is extended.
unfoldable pub shifted_one : ℕ → Result ℕ
shifted_one i =
    if ltb i 31 then ok (2 ^ i) else if nat_eq i 31 then ok (2 ^ 64 - 2 ^ 31) else err undefined

-- `(1 << k) - 1`, which overflows for the sign bit
unfoldable pub first_bits : ℕ → Result ℕ
first_bits k = if ltb k 31 then ok (2 ^ k - 1) else err undefined

-- `__builtin_ctzl` of a number that is not zero, of at most so many bits
unfoldable pub trailing_zeros : ℕ → ℕ → ℕ
trailing_zeros zero v = 0
trailing_zeros (suc bits) v =
    let rest = trailing_zeros bits (v / 2) in if nat_eq (v % 2) 1 then 0 else suc rest

-- `t | (t - 1)` for the vector `t`
unfoldable pub filled : ℕ → ℕ
filled v = bit_or v ((v + 2 ^ 64 - 1) % 2 ^ 64)

-- `((~t & -~t) - 1)`, the ones below the lowest zero of `t`
unfoldable pub below_zero : ℕ → ℕ
below_zero t = (bit_and (2 ^ 64 - 1 - t) ((t + 1) % 2 ^ 64) + 2 ^ 64 - 1) % 2 ^ 64

-- The next number with the same number of bits. Counting the zeros of 0, and a shift by 64, are
-- undefined.
unfoldable pub next_bits : ℕ → Result ℕ
unfolding filled below_zero trailing_zeros
next_bits v =
    let zeros_below = trailing_zeros 64 v in
    if nat_eq v 0 || nat_eq zeros_below 63
    then err undefined
    else ok (bit_or ((filled v + 1) % 2 ^ 64) (below_zero (filled v) / 2 ^ (zeros_below + 1)))

module _ {T : Type 0} where
  -- The entries of the input whose bits are set.
  unfoldable pub selected : ℕ → ℕ → List T → Result (List T)
  unfolding shifted_one
  selected v i [] = ok []
  selected v i (x ∷ xs) = do
    bit ← shifted_one i
    rest ← selected v (suc i) xs
    ok (if nat_eq (bit_and v bit) 0 then rest else x ∷ rest)

  -- Assignments to the places of a vector of a length; `at` throws behind its end.
  unfoldable pub assigned_to : T → ℕ → List T → Result (List T)
  assigned_to default zero [] = ok []
  assigned_to default zero (x ∷ xs) = err out_of_range
  assigned_to default (suc k) [] = do rest ← assigned_to default k []; ok (default ∷ rest)
  assigned_to default (suc k) (x ∷ xs) = do rest ← assigned_to default k xs; ok (x ∷ rest)

  -- The loop, up to the first vector with a bit behind the input's.
  unfoldable pub subsets_from : ℕ → T → List T → ℕ → ℕ → List (List T) → Result (List (List T))
  unfolding selected assigned_to next_bits shifted_one
  subsets_from zero default input k v output = err out_of_fuel
  subsets_from (suc fuel) default input k v output = do
    xs ← selected v 0 input
    subset ← assigned_to default k xs
    w ← next_bits v
    end ← shifted_one (length input)
    elim (nat_eq (bit_and w end) 0) [
      | true ↦ subsets_from fuel default input k w (output ++ (subset ∷ []))
      | false ↦ ok (output ++ (subset ∷ []))
    ]

  unfoldable pub k_subset : ℕ → T → List T → ℕ → Result (List (List T))
  unfolding subsets_from first_bits
  k_subset fuel default input k =
      if ltb (length input) k
      then ok []
      else if ltb (length input) 64
      then first_bits k >>= (λ v. subsets_from fuel default input k v [])
      else err assertion

  unfoldable pub entry_at : List T → ℕ → Result T
  entry_at [] i = err out_of_range
  entry_at (x ∷ xs) zero = ok x
  entry_at (x ∷ xs) (suc i) = entry_at xs i

  -- `vec[i]` for the places of a combination, which has as many
  unfoldable pub values_at : List T → List ℕ → Result (List T)
  unfolding entry_at
  values_at input [] = ok []
  values_at input (i ∷ is) = do x ← entry_at input i; xs ← values_at input is; ok (x ∷ xs)

  unfoldable pub values_of : List T → List (List ℕ) → Result (List (List T))
  unfolding values_at
  values_of input [] = ok []
  values_of input (v ∷ vs) = do xs ← values_at input v; rest ← values_of input vs; ok (xs ∷ rest)

  unfoldable pub combinations_of : ℕ → List T → ℕ → Result (List (List T))
  unfolding combinations values_of
  combinations_of fuel input k = do ints ← combinations fuel (length input) k; values_of input ints
