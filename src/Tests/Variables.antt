-- ===== src/Tests/Variables.antt =====
-- Free variables of a loop that reads `n` in its block, and `r` behind it.
use llreve.Prelude.{
  ℕ, zero, suc, String, true, false, List, [], ◌∷◌, some, none, ◌≡◌, refl, ◌↔◌, arith, ok, is_ok,
  pos,
}
use llreve.Smt.Sort.{SortedVar, int_type}
use llreve.Marks.{Mark, exit_mark}
use llreve.Paths.{BlockPath}
use llreve.FreeVars.Instructions.{Value, ValueKind, instruction, argument, Instr, plain, Reads}
use llreve.FreeVars.Gather.{MarkMap, find_at, VariablesResult, path_reads, on_paths}
use llreve.FreeVars.Gather.Recorded.{on_paths-path_reads}
use llreve.FreeVars.Search.{VarSets, search_sets}
use llreve.FreeVars.Search.Sets.{held}
use llreve.FreeVars.Search.Needed.{Needed}
use llreve.FreeVars.Search.Least.{search_sets-Needed}
use llreve.FreeVars.Search.Entries.{all_names, has_entry, has_way}
use llreve.FreeVars.Search.Total.{search_sets-is_ok}

abbrev variable : String → SortedVar
variable x = record { name = x; sort = int_type 32 }

abbrev loop_mark : Mark
loop_mark = record { index = pos 1 }

abbrev loop_ways : MarkMap (MarkMap (Unit {0}))
loop_ways = (loop_mark, (loop_mark, tt) ∷ (exit_mark, tt) ∷ []) ∷ []

abbrev loop_constructed : MarkMap VarSets
loop_constructed =
    (loop_mark, (loop_mark, variable "i" ∷ []) ∷ (exit_mark, variable "s" ∷ []) ∷ []) ∷ []

abbrev loop_sets : VarSets
loop_sets = (loop_mark, variable "n" ∷ []) ∷ (exit_mark, variable "r" ∷ variable "s" ∷ []) ∷ []

abbrev loop_found : VarSets
loop_found =
    (loop_mark, variable "n" ∷ variable "r" ∷ [])
    ∷ (exit_mark, variable "r" ∷ variable "s" ∷ [])
    ∷ []

loop_search : search_sets loop_constructed 7 loop_ways loop_sets ≡ ok loop_found
unfolding search_sets
loop_search = refl

search_sets-Needed_example :
    (held loop_found loop_mark "r" ≡ true)
    ↔ Needed loop_ways loop_constructed loop_sets loop_mark "r"
search_sets-Needed_example =
    search_sets-Needed loop_ways loop_constructed loop_sets loop_found 7 loop_search loop_mark "r"

search_sets-is_ok_example : is_ok (search_sets loop_constructed 7 loop_ways loop_sets) ≡ true
unfolding has_entry has_way all_names
search_sets-is_ok_example =
    search_sets-is_ok loop_ways loop_constructed loop_sets 7
      (refl, (refl, refl, (refl, refl, tt)), tt) (omega arith)

abbrev local_value : ValueKind → String → Value
local_value kind x = record {
  kind = kind;
  free_var = record { var = variable x; is_pointer = false };
}

-- Block 1 adds `n` to `i`; block 2 does so too, and adds `s`.
abbrev adds : ℕ → List Instr
adds zero = []
adds (suc zero) =
    record {
      result = local_value instruction "j";
      operands = plain (local_value instruction "i" ∷ local_value argument "n" ∷ []);
    }
    ∷ []
adds (suc (suc b)) =
    record {
      result = local_value instruction "s";
      operands = plain (local_value instruction "j" ∷ local_value argument "n" ∷ []);
    }
    ∷ []

abbrev block_path : ℕ → BlockPath (Unit {0}) ℕ
block_path b = record { start = b; edges = record { condition = none; block = 2 } ∷ [] }

abbrev nothing_found : VariablesResult
nothing_found = record { accessed = []; constructed = [] }

abbrev both_found : VariablesResult
both_found = record {
  accessed =
      (local_value instruction "i").free_var
      ∷ (local_value instruction "j").free_var
      ∷ (local_value argument "n").free_var
      ∷ [];
  constructed =
      (
        exit_mark,
        (local_value instruction "j").free_var ∷ (local_value instruction "s").free_var ∷ [],
      )
      ∷ [];
}

-- The second path constructs no `j`.
both_paths :
    on_paths adds exit_mark (block_path 1 ∷ block_path 2 ∷ []) nothing_found ≡ ok both_found
unfolding on_paths
both_paths = refl

on_paths-path_reads_example :
    (r : Reads) × (path_reads adds (block_path 1) [] ≡ ok r)
    × (find_at both_found.constructed exit_mark ≡ some r.constructed)
unfolding find_at
on_paths-path_reads_example =
    on_paths-path_reads adds exit_mark (block_path 1) (block_path 2 ∷ []) nothing_found both_found
      refl both_paths
