-- ===== src/FreeVars/Names.antt =====
-- The names of heaps and stacks: `reve/reve/lib/Helper.cpp`, with `reve/reve/include/Program.h`.
use Prim.Native.String.{◌++◌}
use llreve.Prelude.{ℕ, String}
use llreve.Smt.Options.{to_string}

-- `Program`
pub data Program : Type 0 where
  first second : Program

unfoldable pub program_index : Program → ℕ
program_index first = 1
program_index second = 2

unfoldable pub heap_variable_name : ℕ → String
unfolding to_string
heap_variable_name index = "HEAP$" ++ to_string index

unfoldable pub stack_variable_name : ℕ → String
unfolding to_string
stack_variable_name index = "STACK$" ++ to_string index

unfoldable pub stack_pointer_variable_name : ℕ → String
unfolding to_string
stack_pointer_variable_name index = "SP$" ++ to_string index

unfoldable pub on_stack_name : String → String
on_stack_name name = name ++ "_OnStack"
