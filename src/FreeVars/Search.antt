-- ===== src/FreeVars/Search.antt =====
-- `freeVars` of `reve/reve/lib/FreeVariables.cpp`: what every path gives, and the search for a
-- least fixpoint. `X` stands for the paths between two marks, which the search does not read.
pub mod Sets
pub mod Needed
pub mod Keeps
pub mod Least
pub mod Entries
pub mod Missing
pub mod Total
use llreve.Prelude.{
  ℕ, zero, suc, Bool, true, false, not, List, [], ◌∷◌, Option, none, some, ◌||◌, if◌then◌else◌,
  Result, ok, err, out_of_range, out_of_fuel, ◌>>=◌,
}
use llreve.Smt.Sort.{SortedVar}
use llreve.Marks.{Mark, mark_eq, entry_mark, exit_mark, unreachable_mark}
use llreve.Paths.Find.{PathMap}
use llreve.FreeVars.Instructions.{FreeVar, Instr, has_name, insert_named, sorted_name}
use llreve.FreeVars.Names.{Program}
use llreve.FreeVars.Gather.{
  MarkMap, find_at, insert_at, free_vars_on_paths, MemoryOptions, add_memory_locations,
  add_memory_arrays,
}

module _ {A : Type 0} where
  -- `at`, which throws if there is no entry
  unfoldable pub at : MarkMap A → Mark → Result A
  unfolding find_at
  at map m = elim (find_at map m) [ none ↦ err out_of_range | some a ↦ ok a ]

  -- an assignment to the entry of a mark, which is made if there is none
  unfoldable pub assign_at : Mark → A → MarkMap A → MarkMap A
  assign_at m a [] = (m, a) ∷ []
  assign_at m a ((n, b) ∷ rest) = if mark_eq n m then (n, a) ∷ rest else (n, b) ∷ assign_at m a rest

abbrev pub VarSets : Type 0
VarSets = MarkMap (List SortedVar)

-- `freeVarsMap`, and whether the round has changed it
pub record Round : Type 0 where
  pub sets : VarSets
  pub changed : Bool

-- `freeVarsMap.at(start).insert(var)`
unfoldable pub add : Mark → SortedVar → Round → Result Round
unfolding at assign_at has_name insert_named
add start v r = do
  vars ← at r.sets start
  ok (record {
    sets = assign_at start (insert_named sorted_name v vars) r.sets;
    changed = r.changed || not (has_name sorted_name vars v.name);
  })

module _ (constructed : MarkMap VarSets) where
  -- The body of the innermost loop. A set that is inserted into while its own members are gone
  -- through gains none.
  unfoldable pub offer : Mark → Mark → SortedVar → Round → Result Round
  unfolding at has_name add
  offer start end v r = do
    from_start ← at constructed start
    built ← at from_start end
    let added = add start v r
    if has_name sorted_name built v.name then ok r else added

  unfoldable pub offer_all : Mark → Mark → List SortedVar → Round → Result Round
  unfolding offer
  offer_all start end [] r = ok r
  offer_all start end (v ∷ vs) r = do r' ← offer start end v r; offer_all start end vs r'

  module _ {X : Type 0} where
    unfoldable pub visit_ends : Mark → MarkMap X → Round → Result Round
    unfolding at offer_all
    visit_ends start [] r = ok r
    visit_ends start ((end, paths) ∷ rest) r = do
      vars ← at r.sets end
      r' ← offer_all start end vars r
      visit_ends start rest r'

    unfoldable pub visit_starts : MarkMap (MarkMap X) → Round → Result Round
    unfolding visit_ends
    visit_starts [] r = ok r
    visit_starts ((start, ends) ∷ rest) r = do r' ← visit_ends start ends r; visit_starts rest r'

    -- `while (changed)`
    unfoldable pub search_sets : ℕ → MarkMap (MarkMap X) → VarSets → Result VarSets
    unfolding visit_starts
    search_sets zero map sets = err out_of_fuel
    search_sets (suc fuel) map sets = do
      r ← visit_starts map (record { sets = sets; changed = false })
      elim r.changed [ true ↦ search_sets fuel map r.sets | false ↦ ok r.sets ]

-- What the loop over the marks gathers: the variables accessed, and those constructed on the ways
-- to other marks.
pub record Gathered : Type 0 where
  pub accessed : VarSets
  pub constructed : MarkMap VarSets

unfoldable pub locations_at : MemoryOptions → MarkMap (List FreeVar) → VarSets
unfolding add_memory_locations
locations_at opts [] = []
locations_at opts ((m, vs) ∷ rest) = (m, add_memory_locations opts vs []) ∷ locations_at opts rest

unfoldable pub insert_args : List SortedVar → List SortedVar → List SortedVar
unfolding insert_named
insert_args [] vars = vars
insert_args (a ∷ args) vars = insert_args args (insert_named sorted_name a vars)

-- The sets at the marks without paths.
unfoldable pub with_ends : MemoryOptions → List SortedVar → VarSets → VarSets
unfolding assign_at insert_args
with_ends opts args sets =
    let at_exit = if opts.pass_input_through then insert_args args [] else [] in
    assign_at unreachable_mark [] (assign_at exit_mark at_exit sets)

unfoldable pub with_arrays : MemoryOptions → Program → VarSets → VarSets
unfolding add_memory_arrays
with_arrays opts prog [] = []
with_arrays opts prog ((m, vars) ∷ rest) =
    (m, add_memory_arrays opts vars prog) ∷ with_arrays opts prog rest

module _ {C I : Type 0} (instructions : ℕ → List Instr) (opts : MemoryOptions) where
  unfoldable pub gather : PathMap C I → Gathered → Result Gathered
  unfolding free_vars_on_paths add_memory_locations insert_at locations_at
  gather [] g = ok g
  gather ((m, paths) ∷ rest) g = do
    found ← free_vars_on_paths instructions paths
    gather rest (record {
      accessed = insert_at m (add_memory_locations opts found.accessed []) g.accessed;
      constructed = insert_at m (locations_at opts found.constructed) g.constructed;
    })

  unfoldable pub free_vars : ℕ → PathMap C I → List SortedVar → Program → Result VarSets
  unfolding gather with_ends search_sets with_arrays assign_at add_memory_arrays
  free_vars fuel map args prog = do
    g ← gather map (record { accessed = []; constructed = [] })
    sets ← search_sets g.constructed fuel map (with_ends opts args g.accessed)
    ok (assign_at entry_mark (add_memory_arrays opts args prog) (with_arrays opts prog sets))
