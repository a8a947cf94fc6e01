-- ===== src/FreeVars/Gather.antt =====
-- `freeVarsOnPaths`, `addMemoryLocations` and `addMemoryArrays` of
-- `reve/reve/lib/FreeVariables.cpp`.
pub mod Recorded
use llreve.Prelude.{
  ℕ, String, Bool, true, false, List, [], ◌∷◌, ◌++◌, Option, none, some, ◌&&◌, if◌then◌else◌,
  Result, ok, ◌>>=◌,
}
use llreve.Smt.Sort.{SortedVar, bool_type, pointer_type, memory_type}
use llreve.Marks.{Mark, mark_eq}
use llreve.Paths.{Edge, BlockPath}
use llreve.Paths.Find.{FoundPaths}
use llreve.FreeVars.Names.{
  Program, on_stack_name, program_index, heap_variable_name, stack_variable_name,
  stack_pointer_variable_name,
}
use llreve.FreeVars.Instructions.{
  FreeVar, Instr, Reads, free_name, sorted_name, has_name, insert_named, free_vars_in_block,
}

-- `std::map<Mark, ...>`, whose `insert` keeps an entry that is there
abbrev pub MarkMap : Type 0 → Type 0
MarkMap A = List (Mark × A)

module _ {A : Type 0} where
  unfoldable pub find_at : MarkMap A → Mark → Option A
  find_at [] m = none
  find_at ((n, a) ∷ rest) m = if mark_eq n m then some a else find_at rest m

  unfoldable pub insert_at : Mark → A → MarkMap A → MarkMap A
  insert_at m a [] = (m, a) ∷ []
  insert_at m a ((n, b) ∷ rest) = if mark_eq n m then (n, b) ∷ rest else (n, b) ∷ insert_at m a rest

unfoldable pub intersection : List FreeVar → List FreeVar → List FreeVar
unfolding has_name
intersection [] ws = []
intersection (v ∷ vs) ws =
    let rest = intersection vs ws in if has_name free_name ws (free_name v) then v ∷ rest else rest

-- The end of the loop body: an entry that is there is computed anew, but not replaced.
unfoldable pub record_constructed :
    Mark → List FreeVar → MarkMap (List FreeVar) → MarkMap (List FreeVar)
unfolding find_at insert_at intersection
record_constructed m constructed found = elim (find_at found m) [
  | none ↦ insert_at m constructed found
  | some before ↦ insert_at m (intersection constructed before) found
]

-- `VariablesResult`
pub record VariablesResult : Type 0 where
  pub accessed : List FreeVar
  pub constructed : MarkMap (List FreeVar)

module _ {C I : Type 0} (instructions : ℕ → List Instr) where
  unfoldable pub edge_reads : ℕ → List (Edge C I) → Reads → Result Reads
  unfolding free_vars_in_block
  edge_reads prev [] r = ok r
  edge_reads prev (e ∷ es) r = do
    r' ← free_vars_in_block (instructions e.block) (some prev) r
    edge_reads e.block es r'

  unfoldable pub path_reads : BlockPath C I → List FreeVar → Result Reads
  unfolding free_vars_in_block edge_reads
  path_reads p accessed = do
    r ←
        free_vars_in_block (instructions p.start) none
          (record { accessed = accessed; constructed = [] })
    edge_reads p.start p.edges r

  unfoldable pub on_paths : Mark → List (BlockPath C I) → VariablesResult → Result VariablesResult
  unfolding path_reads record_constructed
  on_paths m [] found = ok found
  on_paths m (p ∷ ps) found = do
    r ← path_reads p found.accessed
    on_paths m ps (record {
      accessed = r.accessed;
      constructed = record_constructed m r.constructed found.constructed;
    })

  unfoldable pub on_found : FoundPaths C I → VariablesResult → Result VariablesResult
  unfolding on_paths
  on_found [] found = ok found
  on_found ((m, ps) ∷ rest) found = do found' ← on_paths m ps found; on_found rest found'

  unfoldable pub free_vars_on_paths : FoundPaths C I → Result VariablesResult
  unfolding on_found
  free_vars_on_paths paths = on_found paths (record { accessed = []; constructed = [] })

-- What the functions read of `SMTGenerationOpts`.
pub record MemoryOptions : Type 0 where
  pub heap : Bool
  pub stack : Bool
  pub pass_input_through : Bool

unfoldable pub add_memory_locations : MemoryOptions → List FreeVar → List SortedVar → List SortedVar
unfolding insert_named on_stack_name
add_memory_locations opts [] new = new
add_memory_locations opts (v ∷ vs) new =
    let new' = insert_named sorted_name v.var new in
    add_memory_locations opts vs (
      if opts.stack && v.is_pointer
      then insert_named sorted_name (record { name = on_stack_name v.var.name; sort = bool_type })
          new'
      else new')

unfoldable pub add_memory_arrays : MemoryOptions → List SortedVar → Program → List SortedVar
unfolding program_index heap_variable_name stack_variable_name stack_pointer_variable_name
add_memory_arrays opts vars prog =
    let index = program_index prog in
    let heap =
      if opts.heap
      then record { name = heap_variable_name index; sort = memory_type } ∷ []
      else [] in
    let stack =
      if opts.stack
      then record { name = stack_pointer_variable_name index; sort = pointer_type }
        ∷ record { name = stack_variable_name index; sort = memory_type }
        ∷ []
      else [] in
    vars ++ (heap ++ stack)
