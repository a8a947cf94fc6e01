-- ===== src/Paths.antt =====
-- Paths between marks: `reve/reve/include/PathAnalysis.h` and `reve/reve/lib/PathAnalysis.cpp`.
-- `C` stands for `const llvm::Value *`, the conditions of terminators, and `I` for `llvm::APInt`.
pub mod Find
pub mod Filed
pub mod Feasible
pub mod Conditions
pub mod Memo
pub mod Segments
pub mod Rounds
pub mod Loops
pub mod Total
use llreve.Prelude.{
  ℕ, zero, suc, Bool, true, false, not, List, [], ◌∷◌, ◌++◌, map, Option, none, some, ◌&&◌, ◌||◌,
  if◌then◌else◌, nat_eq,
}
use llreve.Prelude.{Result, ok, err, exit_one, out_of_range, out_of_fuel, ◌>>=◌}
use llreve.Marks.{
  Mark, exit_mark, unreachable_mark, mark_eq, has_mark, BidirBlockMarkMap, find_marks, member,
}

-- `Condition` and its subclasses
pub data Condition (C I : Type 0) : Type 0 where
  boolean : C → Bool → Condition C I
  switch_case : C → I → Condition C I
  switch_default : C → List I → Condition C I

-- `Edge`; an unconditional edge has a null pointer as its condition.
pub record Edge (C I : Type 0) : Type 0 where
  pub condition : Option (Condition C I)
  pub block : ℕ

-- `Path`
pub record BlockPath (C I : Type 0) : Type 0 where
  pub start : ℕ
  pub edges : List (Edge C I)

-- The terminators that `traverse` tells apart.
pub data Terminator (C I : Type 0) : Type 0 where
  branch : ℕ → Terminator C I
  cond_branch : C → ℕ → ℕ → Terminator C I
  switch : C → List (I × ℕ) → ℕ → Terminator C I
  unreachable : Terminator C I
  unknown : Terminator C I

unfoldable pub case_values {ℓ} : {I : Type ℓ} → List (I × ℕ) → List I
case_values [] = []
case_values ((v, b) ∷ cases) = v ∷ case_values cases

module _ {C I : Type 0} where
  unfoldable pub case_edges : C → List (I × ℕ) → List (Edge C I)
  case_edges c [] = []
  case_edges c ((v, b) ∷ cases) =
      record { condition = some (switch_case c v); block = b } ∷ case_edges c cases

  -- The edges that `traverse` follows from a block, in its order.
  unfoldable pub outgoing : Terminator C I → List (Edge C I)
  unfolding case_edges case_values
  outgoing (branch b) = record { condition = none; block = b } ∷ []
  outgoing (cond_branch c b₀ b₁) =
      record { condition = some (boolean c true); block = b₀ }
      ∷ record { condition = some (boolean c false); block = b₁ }
      ∷ []
  outgoing (switch c cases b) =
      case_edges c cases
      ++ (record { condition = some (switch_default c (case_values cases)); block = b } ∷ [])
  outgoing unreachable = []
  outgoing unknown = []

  unfoldable pub is_unreachable : Terminator C I → Bool
  is_unreachable unreachable = true
  is_unreachable t = false

  -- `P.insert(P.begin(), edge)` for all paths of a successor, the successors one after the other
  unfoldable pub follow :
      (ℕ → Result (List (List (Edge C I)))) → List (Edge C I) → Result (List (List (Edge C I)))
  follow next [] = ok []
  follow next (e ∷ es) = do ps ← next e.block; qs ← follow next es; ok (map (λ p. e ∷ p) ps ++ qs)

module _ {C I : Type 0} (terminator : ℕ → Terminator C I) (marked : BidirBlockMarkMap) where
  abbrev pub marks_of : ℕ → Option (List Mark)
  marks_of b = find_marks marked.block_to_marks b

  unfoldable pub is_marked : ℕ → Bool
  is_marked b = elim (marks_of b) [ none ↦ false | some [] ↦ false | some (m ∷ ms) ↦ true ]

  unfoldable pub is_return : ℕ → Bool
  is_return b = elim (marks_of b) [
    | none ↦ false
    | some ms ↦ has_mark ms exit_mark || is_unreachable (terminator b)
  ]

  -- The test with which `traverse` begins.
  unfoldable pub stops : Bool → ℕ → Bool
  unfolding is_marked is_return
  stops first b = (not first && is_marked b) || is_return b

  -- The recursion visits a block once at most, so rounds above the number of blocks are enough.
  unfoldable pub traverse : ℕ → ℕ → Bool → List ℕ → Result (List (List (Edge C I)))
  unfolding follow
  traverse zero b first visited = err out_of_fuel
  traverse (suc fuel) b first visited =
      let onward = follow (λ b'. traverse fuel b' false (b ∷ visited)) (outgoing (terminator b)) in
      if stops first b then ok ([] ∷ []) else if member visited b then err exit_one else onward
