-- ===== src/Paths/Find.antt =====
-- `findPathsStartingAt`, `findPaths` and `lastBlock` of `reve/reve/lib/PathAnalysis.cpp`.
use llreve.Prelude.{
  ℕ, Bool, true, not, List, [], ◌∷◌, ◌++◌, none, some, ◌&&◌, ◌||◌, if◌then◌else◌, nat_eq, Result,
  ok, err, out_of_range, ◌>>=◌,
}
use llreve.Marks.{Mark, exit_mark, unreachable_mark, mark_eq, BidirBlockMarkMap}
use llreve.Paths.{Edge, BlockPath, Terminator, traverse, marks_of}

module _ {C I : Type 0} where
  unfoldable pub last_block : ℕ → List (Edge C I) → ℕ
  last_block start [] = start
  last_block start (e ∷ es) = last_block e.block es

-- `std::map<Mark, Paths>`
abbrev pub FoundPaths : Type 0 → Type 0 → Type 0
FoundPaths C I = List (Mark × List (BlockPath C I))

-- `std::map<Mark, std::map<Mark, Paths>>`, the `PathMap`
abbrev pub PathMap : Type 0 → Type 0 → Type 0
PathMap C I = List (Mark × FoundPaths C I)

module _ {C I : Type 0} where
  -- `map[m].insert(end, ps)`, which makes an empty entry first if there is none
  unfoldable pub append_paths : Mark → List (BlockPath C I) → FoundPaths C I → FoundPaths C I
  append_paths m ps [] = (m, ps) ∷ []
  append_paths m ps ((n, qs) ∷ rest) =
      if mark_eq n m then (n, qs ++ ps) ∷ rest else (n, qs) ∷ append_paths m ps rest

  unfoldable pub paths_to : FoundPaths C I → Mark → List (BlockPath C I)
  paths_to [] m = []
  paths_to ((n, qs) ∷ rest) m = if mark_eq n m then qs else paths_to rest m

  -- the body of the loop over the paths that one block gives
  unfoldable pub insert_paths : Mark → Mark → List (BlockPath C I) → PathMap C I → PathMap C I
  unfolding append_paths
  insert_paths m index ps [] = (m, append_paths index ps []) ∷ []
  insert_paths m index ps ((n, found) ∷ rest) =
      if mark_eq n m
      then (n, append_paths index ps found) ∷ rest
      else (n, found) ∷ insert_paths m index ps rest

  unfoldable pub add_found : Mark → FoundPaths C I → PathMap C I → PathMap C I
  unfolding insert_paths
  add_found m [] found = found
  add_found m ((index, ps) ∷ new) found = add_found m new (insert_paths m index ps found)

  -- `PathMap::at`, then `at` of the entry
  unfoldable pub paths_between : PathMap C I → Mark → Mark → List (BlockPath C I)
  unfolding paths_to
  paths_between [] m index = []
  paths_between ((n, found) ∷ rest) m index =
      if mark_eq n m then paths_to found index else paths_between rest m index

  -- Paths to the node of the start, but with another mark, are not allowed.
  unfoldable pub allowed : Mark → ℕ → List (Edge C I) → Mark → Bool
  unfolding last_block
  allowed for b [] index = true
  allowed for b (e ∷ es) index = not (nat_eq (last_block b (e ∷ es)) b && not (mark_eq index for))

  unfoldable pub add_indices :
      Mark → ℕ → List (Edge C I) → List Mark → FoundPaths C I → FoundPaths C I
  unfolding allowed append_paths
  add_indices for b p [] found = found
  add_indices for b p (index ∷ is) found = add_indices for b p is (
      if allowed for b p index
      then append_paths index (record { start = b; edges = p } ∷ []) found
      else found)

module _ {C I : Type 0} (terminator : ℕ → Terminator C I) (marked : BidirBlockMarkMap) where
  -- `Indices`; `at` throws if the last block has no entry.
  unfoldable pub indices : ℕ → List (Edge C I) → Result (List Mark)
  unfolding last_block
  indices b [] = ok (exit_mark ∷ [])
  indices b (e ∷ es) = elim (marks_of terminator marked (last_block b (e ∷ es))) [
    | none ↦ err out_of_range
    | some ms ↦ ok ms
  ]

  unfoldable pub add_paths :
      Mark → ℕ → List (List (Edge C I)) → FoundPaths C I → Result (FoundPaths C I)
  unfolding indices add_indices
  add_paths for b [] found = ok found
  add_paths for b (p ∷ ps) found = do
    is ← indices b p
    add_paths for b ps (add_indices for b p is found)

  unfoldable pub find_paths_starting_at : ℕ → Mark → ℕ → Result (FoundPaths C I)
  unfolding add_paths
  find_paths_starting_at fuel for b = do
    ps ← traverse terminator marked fuel b true []
    add_paths for b ps []

  unfoldable pub find_from_blocks : ℕ → Mark → List ℕ → PathMap C I → Result (PathMap C I)
  unfolding find_paths_starting_at add_found
  find_from_blocks fuel m [] found = ok found
  find_from_blocks fuel m (b ∷ bs) found = do
    new ← find_paths_starting_at fuel m b
    find_from_blocks fuel m bs (add_found m new found)

  -- the loop over the marks, without those of return instructions and of unreachable blocks
  unfoldable pub find_from_marks : ℕ → List (Mark × List ℕ) → PathMap C I → Result (PathMap C I)
  unfolding find_from_blocks
  find_from_marks fuel [] found = ok found
  find_from_marks fuel ((m, bs) ∷ rest) found = do
    found' ←
        (if mark_eq m exit_mark || mark_eq m unreachable_mark
          then ok found
          else find_from_blocks fuel m bs found)
    find_from_marks fuel rest found'

  unfoldable pub find_paths : ℕ → Result (PathMap C I)
  unfolding find_from_marks
  find_paths fuel = find_from_marks fuel marked.mark_to_blocks []
