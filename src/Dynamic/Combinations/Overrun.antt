-- ===== src/Dynamic/Combinations/Overrun.antt =====
-- The enumeration ends, with a read behind the end of its vector.
use llreve.Prelude.{
  ℕ, zero, suc, ◌-◌, ◌+◌, ◌*◌, ◌^◌, ◌<◌, ◌≤◌, true, false, List, [], ◌∷◌, ◌++◌, ◌≡◌, refl, sym, ◌∙◌,
  none, some, nat_eq, nat_eq-eq, Bool-cases, inl, inr, All, arith, ◌⊎◌,
}
use native.Mathlib.Nat.{mul_comm, pow-suc, pow-zero}
use llreve.Prelude.{err, undefined}
use llreve.Dynamic.Combinations.{zero_vector, next_vector, combine, combinations}

-- How many vectors come after this one.
remaining : ℕ → List ℕ → ℕ
remaining n [] = 0
remaining n (c ∷ cs) = (n - 1 - c) + n * remaining n cs

-- The search runs over the end, or leads to a vector with one vector fewer to come.
Advances : ℕ → List ℕ → Type 0
Advances n cs =
    (next_vector n cs ≡ none)
    ⊎ ((ds : List ℕ) × (next_vector n cs ≡ some ds)
        × All (λ c. c < n) ds
        × (remaining n cs ≡ suc (remaining n ds)))

counted_up :
    (n c r : ℕ) → c < n → nat_eq c (n - 1) ≡ false → (n - 1 - c) + r ≡ suc ((n - 1 - suc c) + r)
counted_up n c r l h = ground arith

begun_again :
    (n c r r' : ℕ)
    → c < n
    → nat_eq c (n - 1) ≡ true
    → r ≡ suc r'
    → (n - 1 - c) + n * r ≡ suc ((n - 1 - 0) + n * r')
begun_again n c r r' l h e =
    let c_is : c ≡ n - 1 = nat_eq-eq c (n - 1) h in rw e (omega (arith, c_is, l))

not_last : (n c : ℕ) → c < n → nat_eq c (n - 1) ≡ false → suc c < n
not_last n c l h = ground arith

next_vector-Advances : (n : ℕ) (cs : List ℕ) → All (λ c. c < n) cs → Advances n cs
unfolding next_vector Advances remaining
next_vector-Advances n [] a = inl refl
next_vector-Advances n (c ∷ cs) a = elim (Bool-cases (nat_eq c (n - 1))) [
  | inl h ↦ elim (next_vector-Advances n cs a.1) [
    | inl e ↦ inl (rw (h, e) refl)
    | inr (ds, e, b, r) ↦ inr (
      0 ∷ ds,
      rw (h, e) refl,
      (omega (arith, a.0), b),
      begun_again n c (remaining n cs) (remaining n ds) a.0 h r,
    )
  ]
  | inr h ↦
      inr (
        suc c ∷ cs,
        rw h refl,
        (not_last n c a.0 h, a.1),
        counted_up n c (n * remaining n cs) a.0 h,
      )
]

combine-undefined :
    (n fuel : ℕ) (cs : List ℕ) (result : List (List ℕ))
    → All (λ c. c < n) cs
    → remaining n cs < fuel
    → combine n fuel cs result ≡ err undefined
unfolding combine Advances
combine-undefined n zero cs result a l = absurd (omega (arith, l))
combine-undefined n (suc fuel) cs result a l = elim (next_vector-Advances n cs a) [
  | inl e ↦ rw (e, combine) refl
  | inr (ds, e, b, r) ↦
      rw (e, combine) (combine-undefined n fuel ds (result ++ (cs ∷ [])) b (omega (arith, l, r)))
]

zero_vector-below : (n k : ℕ) → 0 < n → All (λ c. c < n) (zero_vector k)
unfolding zero_vector
zero_vector-below n zero h = tt
zero_vector-below n (suc k) h = (h, zero_vector-below n k h)

power_step : (n r p : ℕ) → 0 < n → suc r ≡ p → suc ((n - 1 - 0) + n * r) ≡ p * n
power_step n r p h e = rw (← e) (omega (arith, h, mul_comm n r))

remaining-zero_vector : (n k : ℕ) → 0 < n → suc (remaining n (zero_vector k)) ≡ n ^ k
unfolding zero_vector remaining
remaining-zero_vector n zero h = sym (pow-zero n)
remaining-zero_vector n (suc k) h =
    power_step n (remaining n (zero_vector k)) (n ^ k) h (remaining-zero_vector n k h)
    ∙ sym (pow-suc n k)

-- For at least one value and at least one place, as many rounds as there are vectors are enough for
-- the enumeration to read behind the end of its vector: it never returns the combinations.
pub combinations-undefined :
    (fuel n k : ℕ) → 0 < n → 0 < k → n ^ k ≤ fuel → combinations fuel n k ≡ err undefined
unfolding combinations
combinations-undefined fuel n k h l e =
    let some_values : nat_eq n 0 ≡ false = ground arith in
    let some_places : nat_eq k 0 ≡ false = ground arith in
    rw (some_values, some_places)
      (combine-undefined n fuel (zero_vector k) [] (zero_vector-below n k h)
        (omega (arith, e, remaining-zero_vector n k h)))
