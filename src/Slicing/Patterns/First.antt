-- ===== src/Slicing/Patterns/First.antt =====
-- Which pattern the search of `slicing/src/slicingMethods/BruteForce.cpp` finds first: one with more
-- ones stands before one with fewer.
use mathlib.Core.Path.{subst}
use llreve.Prelude.{
  ℕ, zero, suc, ◌+◌, ◌≤◌, ◌≡◌, ◌⊎◌, inl, inr, refl, sym, ◌∙◌, Bool, true, false, Bool-cases, nat_eq,
  nat_eq-eq, length, List, [], ◌∷◌, ◌++◌, Option, none, some, All, arith,
}
use llreve.Slicing.Patterns.Chosen.{choose}
use llreve.Slicing.Patterns.Visited.{patterns_from}
use llreve.Slicing.Patterns.Every.{
  count_zeros, count_ones, count_zeros-count_ones, Counted, choose-Counted, choose-All,
}

module _ (f : List Bool → Bool) where
  -- The first pattern of a list that passes a test.
  unfoldable pub first_of : List (List Bool) → Option (List Bool)
  first_of [] = none
  first_of (p ∷ ps) = elim (f p) [ true ↦ some p | false ↦ first_of ps ]

  pub first_of-true :
      (p : List Bool) (ps : List (List Bool)) → f p ≡ true → first_of (p ∷ ps) ≡ some p
  unfolding first_of
  first_of-true p ps h = rw (first_of, h) refl

  pub first_of-false :
      (p : List Bool) (ps : List (List Bool)) → f p ≡ false → first_of (p ∷ ps) ≡ first_of ps
  unfolding first_of
  first_of-false p ps h = rw (first_of, h) refl

  -- No pattern passes, or the first one does and has what all have.
  first_of-cases :
      (P : List Bool → Type 0) (ps : List (List Bool))
      → All P ps
      → ((first_of ps ≡ none) × All (λ p. f p ≡ false) ps)
        ⊎ ((p : List Bool) × (first_of ps ≡ some p) × (f p ≡ true) × P p)
  unfolding first_of
  first_of-cases P [] h = inl (refl, tt)
  first_of-cases P (p ∷ ps) h = elim (Bool-cases (f p)) [
    | inl e ↦ inr (p, first_of-true p ps e, e, h.0)
    | inr e ↦ elim (first_of-cases P ps h.1) [
      | inl k ↦ inl (first_of-false p ps e ∙ k.0, (e, k.1))
      | inr k ↦ inr (k.0, first_of-false p ps e ∙ k.1, k.2, k.3)
    ]
  ]

  first_of-append_none :
      (ps qs : List (List Bool)) → All (λ p. f p ≡ false) ps → first_of (ps ++ qs) ≡ first_of qs
  first_of-append_none [] qs h = refl
  first_of-append_none (p ∷ ps) qs h =
      first_of-false p (ps ++ qs) h.0 ∙ first_of-append_none ps qs h.1

  first_of-append_some :
      (ps qs : List (List Bool)) {r : List Bool}
      → first_of ps ≡ some r
      → first_of (ps ++ qs) ≡ some r
  unfolding first_of
  first_of-append_some [] qs h = cc
  first_of-append_some (p ∷ ps) qs h = elim (Bool-cases (f p)) [
    | inl e ↦ first_of-true p (ps ++ qs) e ∙ sym (first_of-true p ps e) ∙ h
    | inr e ↦
        first_of-false p (ps ++ qs) e ∙ first_of-append_some ps qs (sym (first_of-false p ps e) ∙ h)
  ]

  -- No pattern of a length with at least so many zeros passes, or the one that is given passes and
  -- has the most ones of all that do.
  unfoldable pub IsMost : ℕ → ℕ → Option (List Bool) → Type 0
  unfolding count_zeros count_ones
  IsMost size n none = (q : List Bool) → length q ≡ size → n ≤ count_zeros q → f q ≡ false
  IsMost size n (some p) =
      (f p ≡ true)
      × (length p ≡ size)
      × ((q : List Bool)
          → length q ≡ size
          → n ≤ count_zeros q
          → f q ≡ true
          → count_ones q ≤ count_ones p)

  fewest_zeros :
      (n ones : ℕ) (q : List Bool)
      → length q ≡ n + ones
      → n ≤ count_zeros q
      → Counted n ones q ⊎ (suc n ≤ count_zeros q)
  unfolding Counted
  fewest_zeros n ones q l z = elim (Bool-cases (nat_eq (count_zeros q) n)) [
    | inl e ↦ inl (
      nat_eq-eq (count_zeros q) n e,
      omega (arith, nat_eq-eq (count_zeros q) n e, count_zeros-count_ones q, l),
    )
    | inr e ↦ inr (ground (arith, z, e))
  ]

  -- A pattern with the fewest zeros that is found has the most ones.
  found-IsMost :
      (n ones : ℕ) (p : List Bool) → f p ≡ true → Counted n ones p → IsMost (n + ones) n (some p)
  unfolding IsMost Counted
  found-IsMost n ones p e c = (
    e,
    omega (arith, c.0, c.1, count_zeros-count_ones p),
    λ q l z g. omega (arith, c.1, count_zeros-count_ones q, l, z),
  )

  both : {q : List Bool} → f q ≡ true → f q ≡ false → ⊥
  both g h = cc

  more_zeros-IsMost :
      (n ones : ℕ) (r : Option (List Bool))
      → All (λ p. f p ≡ false) (choose n (suc ones))
      → IsMost (suc n + ones) (suc n) r
      → IsMost (n + suc ones) n r
  unfolding IsMost
  more_zeros-IsMost n ones none h m = λ q l z. elim (fewest_zeros n (suc ones) q l z) [
    | inl c ↦ choose-All (λ p. f p ≡ false) n (suc ones) q h c
    | inr k ↦ m q (omega (arith, l)) k
  ]
  more_zeros-IsMost n ones (some p) h m = (
    m.0,
    omega (arith, m.1),
    λ q l z g. elim (fewest_zeros n (suc ones) q l z) [
      | inl c ↦ absurd (both g (choose-All (λ p. f p ≡ false) n (suc ones) q h c))
      | inr k ↦ m.2 q (omega (arith, l)) k g
    ],
  )

  none-IsMost : (n : ℕ) → All (λ p. f p ≡ false) (choose n zero) → IsMost (n + zero) n none
  unfolding IsMost Counted
  none-IsMost n h = λ q l z.
      choose-All (λ p. f p ≡ false) n zero q h
        (
          omega (arith, count_zeros-count_ones q, l, z),
          omega (arith, count_zeros-count_ones q, l, z),
        )

  patterns_from-IsMost : (ones n : ℕ) → IsMost (n + ones) n (first_of (patterns_from ones n))
  unfolding patterns_from
  patterns_from-IsMost zero n =
      elim (first_of-cases (Counted n zero) (choose n zero) (choose-Counted n zero)) [
        | inl k ↦ subst (IsMost (n + zero) n) (sym k.0) (none-IsMost n k.1)
        | inr k ↦ subst (IsMost (n + zero) n) (sym k.1) (found-IsMost n zero k.0 k.2 k.3)
      ]
  patterns_from-IsMost (suc ones) n =
      elim (first_of-cases (Counted n (suc ones)) (choose n (suc ones))
        (choose-Counted n (suc ones))) [
          | inl k ↦
              subst (IsMost (n + suc ones) n)
                (sym (first_of-append_none (choose n (suc ones)) (patterns_from ones (suc n)) k.1))
                (more_zeros-IsMost n ones _ k.1 (patterns_from-IsMost ones (suc n)))
          | inr k ↦
              subst (IsMost (n + suc ones) n)
                (sym (first_of-append_some (choose n (suc ones)) (patterns_from ones (suc n)) k.1))
                (found-IsMost n (suc ones) k.0 k.2 k.3)
        ]

  pub patterns_from-IsMost_zero : (n : ℕ) → IsMost n 0 (first_of (patterns_from n 0))
  patterns_from-IsMost_zero n =
      subst (λ m. IsMost m 0 (first_of (patterns_from n 0))) (omega arith)
        (patterns_from-IsMost n 0)
