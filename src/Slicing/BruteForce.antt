-- ===== src/Slicing/BruteForce.antt =====
-- `computeSlice` of `slicing/src/slicingMethods/BruteForce.cpp`, without its progress bar. The bar's
-- `int` counter, which is left out with it, overflows only at the last of the 2 ^ 31 patterns of 31
-- instructions; more instructions are undefined before that.

pub mod Best
pub mod Parts
pub mod Tries
use llreve.Prelude.{
  ℕ, ◌+◌, ◌%◌, ◌^◌, Bool, true, false, if◌then◌else◌, ltb, length, List, [], ◌∷◌, Option, none,
  some, ℤ, pos, negsuc, Result, ok, err, assertion, undefined, ◌>>=◌,
}
use llreve.Slicing.Criterion.{Criterion, Function, relevant_instructions}
use llreve.Slicing.Patterns.{for_each_pattern}

pub data ValidationResult : Type 0 where
  valid invalid unknown : ValidationResult

-- What the slicing pass and the validation answer for a copy of the program in which some
-- instructions are to be sliced.
pub record Checks : Type 0 where
  pub has_unsliced_instructions : List ℕ → Bool
  pub validate : List ℕ → ValidationResult

-- The slicer's counters and the best candidate, which is the list of the sliced instructions.
pub record Search : Type 0 where
  pub best_candidate : Option (List ℕ)
  pub max_sliced : ℤ
  pub calls_to_reve : ℕ
  pub number_of_tries : ℕ

-- The instructions that a pattern marks; the pattern's entries are not checked to be there.
unfoldable pub to_be_sliced : List Bool → List ℕ → Result (List ℕ)
to_be_sliced pattern [] = ok []
to_be_sliced [] (i ∷ is) = err undefined
to_be_sliced (b ∷ bs) (i ∷ is) = do rest ← to_be_sliced bs is; ok (if b then i ∷ rest else rest)

-- `sliced >= maxSliced`
unfoldable pub at_least : ℕ → ℤ → Bool
at_least n (pos m) = if ltb n m then false else true
at_least n (negsuc m) = true

unfoldable pub count_up : ℕ → ℕ
count_up n = (n + 1) % 2 ^ 32

-- The state at the start.
unfoldable pub no_search : Search
no_search = record {
  best_candidate = none;
  max_sliced = negsuc 0;
  calls_to_reve = 0;
  number_of_tries = 0;
}

module _ (checks : Checks) where
  open checks use {has_unsliced_instructions, validate}

  -- the candidate's validation, with whether the search is done
  unfoldable pub validated : List ℕ → Search → Search × Bool
  unfolding count_up
  validated cut s = elim (validate cut) [
    | valid ↦ (
      record {
        best_candidate = some cut;
        max_sliced = pos (length cut);
        calls_to_reve = count_up s.calls_to_reve;
        number_of_tries = count_up s.number_of_tries;
      },
      true,
    )
    | _ ↦ (
      record s {
        calls_to_reve = count_up s.calls_to_reve;
        number_of_tries = count_up s.number_of_tries;
      },
      false,
    )
  ]

  unfoldable pub try_candidate : List ℕ → Search → Result (Search × Bool)
  unfolding at_least count_up validated
  try_candidate cut s = elim (has_unsliced_instructions cut) [
    | true ↦ ok (record s { number_of_tries = count_up s.number_of_tries }, false)
    | false ↦ elim (at_least (length cut) s.max_sliced) [
      | false ↦ err assertion
      | true ↦ ok (validated cut s)
    ]
  ]

  unfoldable pub try_pattern : List ℕ → List Bool → Search → Result (Search × Bool)
  unfolding to_be_sliced try_candidate
  try_pattern relevant pattern s = do cut ← to_be_sliced pattern relevant; try_candidate cut s

  unfoldable pub search_patterns : ℕ → List ℕ → Result Search
  unfolding for_each_pattern try_pattern no_search
  search_patterns fuel relevant =
      for_each_pattern (try_pattern relevant) fuel (length relevant) no_search

  -- `1 << numInstructions` is undefined from the width of an `int` on.
  unfoldable pub compute_slice : ℕ → Criterion → List Function → Result Search
  unfolding search_patterns relevant_instructions
  compute_slice fuel c program = do
    relevant ← relevant_instructions c program
    if ltb (length relevant) 32 then search_patterns fuel relevant else err undefined
