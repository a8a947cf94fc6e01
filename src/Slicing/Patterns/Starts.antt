-- ===== src/Slicing/Patterns/Starts.antt =====
-- The first pattern of each round of `for_each_pattern` in
-- `slicing/src/slicingMethods/BruteForce.cpp`, and how many patterns there are in a round.
use mathlib.Core.List.{append-nil}
use llreve.Prelude.{
  ℕ, zero, suc, ◌+◌, ◌-◌, ◌^◌, ◌≤◌, ◌≡◌, refl, ap, ◌∙◌, true, false, lt→ltb, length, length-append,
  List, [], ◌∷◌, ◌++◌, map, ok, ◌>>=◌, arith,
}
use llreve.Slicing.Patterns.{repeated, sort_bits, set_entry, first_pattern}
use llreve.Slicing.Patterns.Chosen.{choose, rising, repeated-append}

sort_bits-ones : (n : ℕ) → sort_bits (repeated true n) ≡ repeated true n
unfolding sort_bits repeated
sort_bits-ones zero = refl
sort_bits-ones (suc n) =
    ap (λ bs. bs ++ (true ∷ [])) (sort_bits-ones n)
    ∙ repeated-append true n []
    ∙ ap (◌∷◌ true) (append-nil (repeated true n))

sort_bits-rising : (n ones : ℕ) → sort_bits (rising n ones) ≡ rising n ones
unfolding sort_bits rising repeated
sort_bits-rising zero ones = sort_bits-ones ones
sort_bits-rising (suc n) ones = ap (◌∷◌ false) (sort_bits-rising n ones)

set_entry-rising : (n ones : ℕ) → set_entry n false (rising n (suc ones)) ≡ ok (rising (suc n) ones)
unfolding set_entry rising repeated
set_entry-rising zero ones = refl
set_entry-rising (suc n) ones = ap (λ m. m >>= λ r. ok (false ∷ r)) (set_entry-rising n ones)

pub first_pattern-zero : (n : ℕ) → first_pattern 0 (repeated true n) ≡ ok (rising 0 n)
unfolding first_pattern rising repeated
first_pattern-zero n = ap ok (sort_bits-ones n)

pred-suc : (n : ℕ) → suc n - 1 ≡ n
pred-suc n = omega arith

pub first_pattern-suc :
    (n ones : ℕ) → first_pattern (suc n) (rising n (suc ones)) ≡ ok (rising (suc n) ones)
unfolding first_pattern
first_pattern-suc n ones =
    rw (lt→ltb 0 (suc n) (omega arith), pred-suc n, sort_bits-rising n (suc ones))
      (set_entry-rising n ones)

length-map : {A B : Type 0} (f : A → B) (xs : List A) → length (map f xs) ≡ length xs
length-map f [] = refl
length-map f (x ∷ xs) = ap suc (length-map f xs)

power-pos : (n : ℕ) → 1 ≤ 2 ^ n
power-pos zero = omega arith
power-pos (suc n) = omega (arith, power-pos n)

pub power_same : (m n : ℕ) → m ≡ n → 2 ^ m ≡ 2 ^ n
power_same m n h = ap (λ k. 2 ^ k) h

power_double : (m n : ℕ) → m ≡ suc n → 2 ^ m ≡ 2 ^ n + 2 ^ n
power_double m n h = ap (λ k. 2 ^ k) h ∙ omega arith

pub length-choose : (n ones : ℕ) → length (choose n ones) ≤ 2 ^ (n + ones)
unfolding choose
length-choose zero ones = power-pos (zero + ones)
length-choose (suc n) zero = power-pos (suc n + zero)
length-choose (suc n) (suc ones) = omega (
  arith,
  length-append (map (◌∷◌ false) (choose n (suc ones))) (map (◌∷◌ true) (choose (suc n) ones)),
  length-map (◌∷◌ false) (choose n (suc ones)),
  length-map (◌∷◌ true) (choose (suc n) ones),
  length-choose n (suc ones),
  length-choose (suc n) ones,
  power_double (suc n + suc ones) (n + suc ones) (omega arith),
  power_same (suc n + ones) (n + suc ones) (omega arith),
)
