-- ===== src/Slicing/BruteForce/Best.antt =====
-- What `computeSlice` of `slicing/src/slicingMethods/BruteForce.cpp` finds.
use mathlib.Core.Path.{subst}
use llreve.Prelude.{
  ℕ, ◌^◌, ◌≤◌, ◌<◌, ◌≡◌, refl, sym, ap, ◌∙◌, Bool, true, false, lt→ltb, length, List, Option, none,
  some, ok, arith,
}
use llreve.Slicing.Criterion.{Criterion, Function, relevant_instructions}
use llreve.Slicing.Patterns.Visited.{patterns_from, visit, for_each_pattern-visit}
use llreve.Slicing.Patterns.Every.{patterns_from-length_zero}
use llreve.Slicing.Patterns.First.{IsMost, patterns_from-IsMost_zero}
use llreve.Slicing.BruteForce.{
  Checks, Search, try_pattern, no_search, search_patterns, compute_slice,
}
use llreve.Slicing.BruteForce.Parts.{cut_of, length-chosen, Part, chosen-Part, Part-chosen}
use llreve.Slicing.BruteForce.Tries.{is_slice, accepted, visit-first_of}

module _ (checks : Checks) where
  -- No part of the instructions is a slice, or the given one is and none is longer.
  unfoldable pub IsLargest : List ℕ → Option (List ℕ) → Type 0
  unfolding is_slice
  IsLargest is none = (cut : List ℕ) → Part cut is → is_slice checks cut ≡ false
  IsLargest is (some best) =
      Part best is
      × (is_slice checks best ≡ true)
      × ((cut : List ℕ) → Part cut is → is_slice checks cut ≡ true → length cut ≤ length best)

  IsMost-IsLargest :
      (is : List ℕ) (r : Option (List Bool))
      → IsMost (accepted checks is) (length is) 0 r
      → IsLargest is (cut_of is r)
  unfolding IsMost IsLargest cut_of accepted
  IsMost-IsLargest is none m =
      λ cut t. let p = Part-chosen t in ap (is_slice checks) (sym p.2) ∙ m p.0 p.1 (omega arith)
  IsMost-IsLargest is (some bs) m = (
    chosen-Part bs is m.1,
    m.0,
    λ cut t e.
        let p = Part-chosen t in
        omega (
          arith,
          m.2 p.0 p.1 (omega arith) (ap (is_slice checks) p.2 ∙ e),
          length-chosen p.0 is p.1,
          length-chosen bs is m.1,
          ap length p.2,
        ),
  )

  compute_slice-visit :
      (fuel : ℕ) (c : Criterion) (program : List Function) {relevant : List ℕ}
      → relevant_instructions c program ≡ ok relevant
      → length relevant < 32
      → 2 ^ length relevant ≤ fuel
      → compute_slice checks fuel c program
        ≡ visit (try_pattern checks relevant) (patterns_from (length relevant) 0) ok no_search
  unfolding compute_slice search_patterns
  compute_slice-visit fuel c program {relevant} h small enough =
      rw (compute_slice, h, lt→ltb (length relevant) 32 small)
        (for_each_pattern-visit (try_pattern checks relevant) fuel (length relevant) no_search
          enough)

  -- If the instructions that may be sliced are found without a failed assertion and are fewer
  -- than 32, then `computeSlice` returns, in as many rounds as they have patterns: its best
  -- candidate slices a part of these instructions, all of which the slicing pass removes and the
  -- validation finds valid, and no such part is longer; there is no best candidate only where no
  -- part is such.
  pub compute_slice-IsLargest :
      (fuel : ℕ) (c : Criterion) (program : List Function) {relevant : List ℕ}
      → relevant_instructions c program ≡ ok relevant
      → length relevant < 32
      → 2 ^ length relevant ≤ fuel
      → (s : Search) × (compute_slice checks fuel c program ≡ ok s)
        × IsLargest relevant s.best_candidate
  unfolding no_search
  compute_slice-IsLargest fuel c program {relevant} h small enough =
      let r =
        visit-first_of checks relevant (patterns_from (length relevant) 0) no_search
          (patterns_from-length_zero (length relevant)) refl refl in
      (
        r.0,
        compute_slice-visit fuel c program h small enough ∙ r.1,
        subst (IsLargest relevant) (sym r.2) (
            IsMost-IsLargest relevant _
              (patterns_from-IsMost_zero (accepted checks relevant) (length relevant))),
      )
