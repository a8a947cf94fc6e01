-- ===== src/Tests/Graph.antt =====
-- A function with a loop: block 0 leads to the loop head 1, which has the mark 1 and either repeats
-- through block 2 or leaves to block 3, which returns.
use llreve.Prelude.{
  ℕ, zero, suc, Bool, true, false, List, [], ◌∷◌, ◌≡◌, ◌≢◌, ◌↔◌, refl, none, some, ok, err,
  exit_one, out_of_fuel, is_ok, arith, nat_eq, nat_eq-eq, eq-nat_eq, pos, ◌<◌,
}
use llreve.Marks.{Mark, exit_mark, entry_mark, BidirBlockMarkMap, find_marks, has_mark, member}
use llreve.Paths.{
  boolean, Edge, BlockPath, Terminator, branch, cond_branch, unknown, traverse, stops, follow,
  outgoing, is_marked, is_return, is_unreachable,
}
use llreve.Paths.Find.{
  find_paths, paths_to, FoundPaths, find_paths_starting_at, add_paths, indices, add_indices,
  allowed, append_paths, last_block, find_from_marks, find_from_blocks, add_found, insert_paths,
}
use llreve.Paths.Filed.Ends.{BelongsTo, find_paths_starting_at-IsSegment}
use llreve.Paths.Feasible.{Execution, IsTerminated, known, count_feasible, traverse-count_feasible}
use llreve.Paths.Segments.{IsSegment, Member, traverse-IsSegment}
use llreve.Paths.Rounds.{IsClosed, traverse-rounds}
use llreve.Paths.Loops.{IsCut, traverse-is_ok}
use llreve.Paths.Total.{find_paths-is_ok}

abbrev loop_mark : Mark
loop_mark = record { index = pos 1 }

abbrev graph : ℕ → Terminator Bool ℕ
graph zero = branch 1
graph (suc zero) = cond_branch true 2 3
graph (suc (suc zero)) = branch 1
graph (suc (suc (suc zero))) = unknown
graph (suc (suc (suc (suc b)))) = branch 3

abbrev marks : BidirBlockMarkMap
marks = record {
  block_to_marks = (0, entry_mark ∷ []) ∷ (1, loop_mark ∷ []) ∷ (3, exit_mark ∷ []) ∷ [];
  mark_to_blocks = (exit_mark, 3 ∷ []) ∷ (entry_mark, 0 ∷ []) ∷ (loop_mark, 1 ∷ []) ∷ [];
}

abbrev edge_to : ℕ → Edge Bool ℕ
edge_to b = record { condition = none; block = b }

abbrev edge_if : Bool → ℕ → Edge Bool ℕ
edge_if truth b = record { condition = some (boolean true truth); block = b }

abbrev loop_paths : List (List (Edge Bool ℕ))
loop_paths = (edge_if true 2 ∷ edge_to 1 ∷ []) ∷ (edge_if false 3 ∷ []) ∷ []

traverse_loop : traverse graph marks 5 1 true [] ≡ ok loop_paths
unfolding traverse stops is_marked is_return find_marks has_mark member outgoing follow
    is_unreachable
traverse_loop = refl

-- Without the mark of the loop, the search reports it.
traverse_endless :
    traverse graph (record { block_to_marks = []; mark_to_blocks = [] }) 5 1 true [] ≡ err exit_one
unfolding traverse stops is_marked is_return find_marks has_mark member outgoing follow
    is_unreachable
traverse_endless = refl

abbrev ran : Execution Bool ℕ
ran = record {
  truth = λ c. c;
  value = λ c. 0;
  same = nat_eq;
  same_iff = λ v w. (nat_eq-eq v w, eq-nat_eq v w);
}

graph_terminated : IsTerminated ran graph marks
unfolding is_return find_marks has_mark known is_unreachable
graph_terminated zero r = refl
graph_terminated (suc zero) r = refl
graph_terminated (suc (suc zero)) r = refl
graph_terminated (suc (suc (suc zero))) r = cc
graph_terminated (suc (suc (suc (suc b)))) r = refl

traverse-count_feasible_example : count_feasible ran loop_paths ≡ 1
traverse-count_feasible_example =
    traverse-count_feasible ran graph marks 5 1 true [] loop_paths graph_terminated traverse_loop

traverse-IsSegment_example :
    Member (edge_if false 3 ∷ []) loop_paths ↔ IsSegment graph marks true 1 (edge_if false 3 ∷ [])
traverse-IsSegment_example =
    traverse-IsSegment graph marks 5 1 true [] loop_paths traverse_loop (edge_if false 3 ∷ [])

abbrev blocks : List ℕ
blocks = 0 ∷ 1 ∷ 2 ∷ 3 ∷ []

graph_closed : IsClosed graph marks blocks
unfolding member outgoing
graph_closed zero m = (refl, tt)
graph_closed (suc zero) m = (refl, (refl, tt))
graph_closed (suc (suc zero)) m = (refl, tt)
graph_closed (suc (suc (suc zero))) m = tt
graph_closed (suc (suc (suc (suc b)))) m = (refl, tt)

traverse-rounds_example : traverse graph marks 5 1 true [] ≢ err out_of_fuel
unfolding member
traverse-rounds_example =
    traverse-rounds graph marks blocks graph_closed 5 1 true refl (omega arith)

abbrev height : ℕ → ℕ
height zero = 0
height (suc zero) = 0
height (suc (suc zero)) = 1
height (suc (suc (suc zero))) = 0
height (suc (suc (suc (suc b)))) = 1

graph_cut : IsCut graph marks height
unfolding is_marked find_marks outgoing
graph_cut zero u = cc
graph_cut (suc zero) u = cc
graph_cut (suc (suc zero)) u = (omega arith, tt)
graph_cut (suc (suc (suc zero))) u = cc
graph_cut (suc (suc (suc (suc b)))) u = (omega arith, tt)

height_below : (b : ℕ) → height b < 2
height_below zero = omega arith
height_below (suc zero) = omega arith
height_below (suc (suc zero)) = omega arith
height_below (suc (suc (suc zero))) = omega arith
height_below (suc (suc (suc (suc b)))) = omega arith

traverse-is_ok_example : is_ok (traverse graph marks 5 1 true []) ≡ true
traverse-is_ok_example =
    traverse-is_ok graph marks height graph_cut 2 height_below 5 1 (omega arith)

abbrev repeating : BlockPath Bool ℕ
repeating = record { start = 1; edges = edge_if true 2 ∷ edge_to 1 ∷ [] }

abbrev leaving : BlockPath Bool ℕ
leaving = record { start = 1; edges = edge_if false 3 ∷ [] }

abbrev loop_found : FoundPaths Bool ℕ
loop_found = (loop_mark, repeating ∷ []) ∷ (exit_mark, leaving ∷ []) ∷ []

find_loop_paths : find_paths_starting_at graph marks 5 loop_mark 1 ≡ ok loop_found
unfolding find_paths_starting_at add_paths indices add_indices allowed append_paths last_block
    traverse stops is_marked is_return find_marks has_mark member outgoing follow is_unreachable
find_loop_paths = refl

-- The paths of the whole function: from the entry to the loop, around the loop, and out of it.
find_all_paths :
    find_paths graph marks 5
    ≡ ok (
        (entry_mark, (loop_mark, record { start = 0; edges = edge_to 1 ∷ [] } ∷ []) ∷ [])
        ∷ (loop_mark, loop_found)
        ∷ [])
unfolding find_paths find_from_marks find_from_blocks find_paths_starting_at add_found insert_paths
    add_paths indices add_indices allowed append_paths last_block traverse stops is_marked is_return
    find_marks has_mark member outgoing follow is_unreachable
find_all_paths = refl

find_paths_starting_at-IsSegment_example : Member leaving (paths_to loop_found exit_mark) ↔ (
    (p : List (Edge Bool ℕ)) × IsSegment graph marks true 1 p
    × BelongsTo marks loop_mark 1 exit_mark p
    × (leaving ≡ record { start = 1; edges = p }))
find_paths_starting_at-IsSegment_example =
    find_paths_starting_at-IsSegment graph marks loop_mark 1 exit_mark leaving 5 loop_found
      find_loop_paths

-- A block with the entry mark and the exit mark: the segment without edges is filed under the exit
-- mark, and not under the mark that the search is for.
find_single_block :
    find_paths_starting_at {C = Bool} {I = ℕ}
      (λ b. unknown)
      (record { block_to_marks = (0, entry_mark ∷ exit_mark ∷ []) ∷ []; mark_to_blocks = [] })
      2
      entry_mark
      0
    ≡ ok ((exit_mark, record { start = 0; edges = [] } ∷ []) ∷ [])
unfolding find_paths_starting_at add_paths indices add_indices allowed append_paths last_block
    traverse stops is_marked is_return find_marks has_mark member outgoing follow is_unreachable
find_single_block = refl

find_paths-is_ok_example : is_ok (find_paths graph marks 5) ≡ true
find_paths-is_ok_example =
    find_paths-is_ok graph marks height graph_cut 2 height_below 5 (omega arith)
