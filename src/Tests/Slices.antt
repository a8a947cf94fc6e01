-- ===== src/Tests/Slices.antt =====
-- Runs of the search for a slice, and what the results say at them.
use llreve.Prelude.{
  ℕ, ◌≡◌, refl, Bool, true, false, ◌&&◌, not, nat_eq, List, [], ◌∷◌, none, some, Result, suc, pos,
  if◌then◌else◌, ok, err, assertion, arith,
}
use llreve.Slicing.Criterion.{Instruction, Function, return_value, present, relevant_instructions}
use llreve.Slicing.Patterns.{next_permutation, for_each_pattern}
use llreve.Slicing.Patterns.Visited.{patterns_from, visit, for_each_pattern-visit}
use llreve.Slicing.BruteForce.{Checks, Search, valid, invalid, compute_slice}
use llreve.Slicing.BruteForce.Best.{IsLargest, compute_slice-IsLargest}

abbrev plain : ℕ → Instruction
plain n = record { name = n; returns = false; called = none }

abbrev returning : ℕ → Instruction
returning n = record { name = n; returns = true; called = none }

abbrev calling : ℕ → Instruction
calling n = record { name = n; returns = false; called = some "__criterion" }

-- A function of three instructions and a return, and the function that marks a criterion.
abbrev program : List Function
program =
    (record { name = "main"; instructions = plain 1 ∷ plain 2 ∷ plain 3 ∷ returning 4 ∷ [] })
    ∷ (record { name = "__criterion"; instructions = returning 9 ∷ [] })
    ∷ []

abbrev marked_program : List Function
marked_program =
    (record { name = "main"; instructions = plain 1 ∷ calling 2 ∷ calling 3 ∷ [] }) ∷ []

relevant_run : relevant_instructions return_value program ≡ ok (1 ∷ 2 ∷ 3 ∷ [])
unfolding relevant_instructions
relevant_run = refl

present_run : relevant_instructions present program ≡ ok (1 ∷ 2 ∷ 3 ∷ 4 ∷ [])
unfolding relevant_instructions
present_run = refl

-- Two calls of the criterion fail the assertion.
marked_run : relevant_instructions present marked_program ≡ err assertion
unfolding relevant_instructions
marked_run = refl

next_permutation_run :
    next_permutation (false ∷ true ∷ true ∷ false ∷ []) ≡ some (true ∷ false ∷ false ∷ true ∷ [])
unfolding next_permutation
next_permutation_run = refl

abbrev is_cut : List ℕ → ℕ → Bool
is_cut [] n = false
is_cut (m ∷ ms) n = if nat_eq m n then true else is_cut ms n

-- Instruction 2 is needed, and 1 cannot be removed without 3.
abbrev checks : Checks
checks = record {
  has_unsliced_instructions = λ cut. is_cut cut 1 && not (is_cut cut 3);
  validate = λ cut. if is_cut cut 2 then invalid else valid;
}

compute_slice_run :
    compute_slice checks 8 return_value program
    ≡ ok (record {
      best_candidate = some (1 ∷ 3 ∷ []);
      max_sliced = pos 2;
      calls_to_reve = 3;
      number_of_tries = 3;
    })
unfolding compute_slice
compute_slice_run = refl

compute_slice-IsLargest_example :
    (s : Search) × (compute_slice checks 8 return_value program ≡ ok s)
    × IsLargest checks (1 ∷ 2 ∷ 3 ∷ []) s.best_candidate
compute_slice-IsLargest_example =
    compute_slice-IsLargest checks 8 return_value program relevant_run (omega arith) (omega arith)

-- Counts the patterns, up to one whose first entry is a zero.
abbrev counting : List Bool → ℕ → Result (ℕ × Bool)
counting [] n = ok (suc n, false)
counting (b ∷ bs) n = ok (suc n, not b)

for_each_pattern-visit_example :
    for_each_pattern counting 8 3 0 ≡ visit counting (patterns_from 3 0) ok 0
for_each_pattern-visit_example = for_each_pattern-visit counting 8 3 0 (omega arith)
