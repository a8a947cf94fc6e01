-- ===== src/Slicing/Patterns/Visited.antt =====
-- `for_each_pattern` of `slicing/src/slicingMethods/BruteForce.cpp` as a walk along a list of
-- patterns that is given beforehand.
use llreve.Prelude.{
  ℕ, zero, suc, ◌+◌, ◌^◌, ◌≤◌, ◌≡◌, refl, sym, ap, ◌∙◌, Bool, true, false, length, List, [], ◌∷◌,
  ◌++◌, reverse, none, some, Result, ok, err, ◌>>=◌, arith,
}
use llreve.Slicing.Patterns.{
  repeated, first_pattern, next_permutation, permute, add_zeros, for_each_pattern,
}
use llreve.Slicing.Patterns.Chosen.{
  choose, rising, falling, Through, there, further, choose-Through, next_permutation-falling,
  reverse-falling,
}
use llreve.Slicing.Patterns.Starts.{
  first_pattern-zero, first_pattern-suc, length-choose, power_same,
}

-- The patterns with at least so many zeros, those with fewer zeros first.
unfoldable pub patterns_from : ℕ → ℕ → List (List Bool)
unfolding choose
patterns_from zero n = choose n zero
patterns_from (suc ones) n = choose n (suc ones) ++ patterns_from ones (suc n)

module _ {S : Type 0} (lambda : List Bool → S → Result (S × Bool)) where
  -- The function on the patterns of a list, up to the first at which it says that it is done.
  unfoldable pub visit : List (List Bool) → (S → Result S) → S → Result S
  visit [] after s = after s
  visit (p ∷ ps) after s = do
    r ← lambda p s
    elim r.1 [ true ↦ ok r.0 | false ↦ visit ps after r.0 ]

  pub visit-done :
      (p : List Bool) (ps : List (List Bool)) (after : S → Result S) (s : S) {s' : S}
      → lambda p s ≡ ok (s', true)
      → visit (p ∷ ps) after s ≡ ok s'
  unfolding visit
  visit-done p ps after s h = rw (h) refl

  pub visit-onward :
      (p : List Bool) (ps : List (List Bool)) (after : S → Result S) (s : S) {s' : S}
      → lambda p s ≡ ok (s', false)
      → visit (p ∷ ps) after s ≡ visit ps after s'
  unfolding visit
  visit-onward p ps after s h = rw (h) refl

  visit-cong :
      (p : List Bool) (s : S) {f g : S → Result S}
      → ((s' : S) → f s' ≡ g s')
      → (lambda p s >>= λ r. elim r.1 as (λ _. Result S) [ true ↦ ok r.0 | false ↦ f r.0 ])
        ≡ (lambda p s >>= λ r. elim r.1 as (λ _. Result S) [ true ↦ ok r.0 | false ↦ g r.0 ])
  visit-cong p s h = visit_step (lambda p s) h
    where
      visit_step :
          (m : Result (S × Bool)) {f g : S → Result S}
          → ((s' : S) → f s' ≡ g s')
          → (m >>= λ r. elim r.1 as (λ _. Result S) [ true ↦ ok r.0 | false ↦ f r.0 ])
            ≡ (m >>= λ r. elim r.1 as (λ _. Result S) [ true ↦ ok r.0 | false ↦ g r.0 ])
      visit_step (err e) h = refl
      visit_step (ok (s', true)) h = refl
      visit_step (ok (s', false)) h = h s'

  visit-append :
      (ps qs : List (List Bool)) (after : S → Result S) (s : S)
      → visit (ps ++ qs) after s ≡ visit ps (visit qs after) s
  unfolding visit
  visit-append [] qs after s = refl
  visit-append (p ∷ ps) qs after s = visit-cong p s (visit-append ps qs after)

  visit-same :
      (ps : List (List Bool)) {f g : S → Result S} (s : S)
      → ((s' : S) → f s' ≡ g s')
      → visit ps f s ≡ visit ps g s
  unfolding visit
  visit-same [] s h = h s
  visit-same (p ∷ ps) s h = visit-cong p s (λ s'. visit-same ps s' h)

  permute-some :
      (fuel : ℕ) (after : List Bool → S → Result S) (p : List Bool) {q : List Bool} (s : S)
      → next_permutation p ≡ some q
      → permute lambda (suc fuel) after p s ≡ (
          lambda p s >>= λ r. elim r.1 as (λ _. Result S) [
            | true ↦ ok r.0
            | false ↦ permute lambda fuel after q r.0
          ])
  unfolding permute
  permute-some fuel after p {q} s h =
      visit-cong p s
        {f = λ s'. elim (next_permutation p) as (λ _. Result S) [
          | some cs ↦ permute lambda fuel after cs s'
          | none ↦ after (reverse p) s'
        ]}
        {g = permute lambda fuel after q} (λ s'. rw (h) refl)

  permute-none :
      (fuel : ℕ) (after : List Bool → S → Result S) (p : List Bool) (s : S)
      → next_permutation p ≡ none
      → permute lambda (suc fuel) after p s ≡ visit (p ∷ []) (after (reverse p)) s
  unfolding permute visit
  permute-none fuel after p s h =
      visit-cong p s
        {f = λ s'. elim (next_permutation p) as (λ _. Result S) [
          | some cs ↦ permute lambda fuel after cs s'
          | none ↦ after (reverse p) s'
        ]}
        {g = after (reverse p)} (λ s'. rw (h) refl)

  -- The inner loop visits what `next_permutation` steps through.
  permute-visit :
      (fuel : ℕ) (after : List Bool → S → Result S) {p q : List Bool} {ps : List (List Bool)}
      (s : S)
      → Through p ps q
      → next_permutation q ≡ none
      → length ps ≤ fuel
      → permute lambda fuel after p s ≡ visit ps (after (reverse q)) s
  unfolding visit
  permute-visit zero after s (there p) last enough = absurd (omega (arith, enough))
  permute-visit (suc fuel) after s (there p) last enough = permute-none fuel after p s last
  permute-visit zero after s (further h t) last enough = absurd (omega (arith, enough))
  permute-visit (suc fuel) after s (further {p} h t) last enough =
      permute-some fuel after p s h
      ∙ visit-cong p s (λ s'. permute-visit fuel after s' t last (omega (arith, enough)))

module _ {S : Type 0} (lambda : List Bool → S → Result (S × Bool)) where
  add_zeros-suc :
      (fuel rounds n : ℕ) (p : List Bool) {q : List Bool} (s : S)
      → first_pattern n p ≡ ok q
      → add_zeros lambda fuel (suc rounds) n p s
        ≡ permute lambda fuel (add_zeros lambda fuel rounds (suc n)) q s
  unfolding add_zeros
  add_zeros-suc fuel rounds n p s h = rw (h) refl

  add_zeros-end : (fuel n : ℕ) (p : List Bool) (s : S) → add_zeros lambda fuel zero n p s ≡ ok s
  unfolding add_zeros
  add_zeros-end fuel n p s = refl

  -- The patterns with one number of zeros, and then the others.
  add_zeros-choose :
      (fuel rounds n ones : ℕ) (p : List Bool) (s : S)
      → first_pattern n p ≡ ok (rising n ones)
      → 2 ^ (n + ones) ≤ fuel
      → add_zeros lambda fuel (suc rounds) n p s
        ≡ visit lambda
            (choose n ones)
            (add_zeros lambda fuel rounds (suc n) (reverse (falling ones n)))
            s
  add_zeros-choose fuel rounds n ones p s h enough =
      add_zeros-suc fuel rounds n p s h
      ∙ permute-visit lambda fuel (add_zeros lambda fuel rounds (suc n)) s (choose-Through n ones)
          (next_permutation-falling ones n) (omega (arith, length-choose n ones, enough))

  add_zeros-visit :
      (fuel n ones : ℕ) (p : List Bool) (s : S)
      → first_pattern n p ≡ ok (rising n ones)
      → 2 ^ (n + ones) ≤ fuel
      → add_zeros lambda fuel (suc ones) n p s ≡ visit lambda (patterns_from ones n) ok s
  unfolding patterns_from
  add_zeros-visit fuel n zero p s h enough =
      add_zeros-choose fuel zero n zero p s h enough
      ∙ visit-same lambda (choose n zero) s (add_zeros-end fuel (suc n) (reverse (falling zero n)))
  add_zeros-visit fuel n (suc ones) p s h enough =
      add_zeros-choose fuel (suc ones) n (suc ones) p s h enough
      ∙ visit-same lambda (choose n (suc ones)) s (λ s'.
        add_zeros-visit fuel (suc n) ones (reverse (falling (suc ones) n)) s'
          (ap (first_pattern (suc n)) (reverse-falling (suc ones) n) ∙ first_pattern-suc n ones)
          (omega (arith, power_same (suc n + ones) (n + suc ones) (omega arith), enough)))
      ∙ sym (visit-append lambda (choose n (suc ones)) (patterns_from ones (suc n)) ok s)

  -- With as many rounds for each number of zeros as there are patterns, `for_each_pattern` calls its
  -- function on the patterns in the order of their numbers of zeros, those with the same number in
  -- lexicographic order, up to the first at which the function says that it is done.
  pub for_each_pattern-visit :
      (fuel n : ℕ) (s : S)
      → 2 ^ n ≤ fuel
      → for_each_pattern lambda fuel n s ≡ visit lambda (patterns_from n 0) ok s
  unfolding for_each_pattern
  for_each_pattern-visit fuel n s enough =
      add_zeros-visit fuel 0 n (repeated true n) s (first_pattern-zero n)
        (omega (arith, power_same (0 + n) n (omega arith), enough))
