-- ===== src/Smt/Sort.antt =====
-- SMT sorts and sorted variables: `reve/reve/include/Type.h` and `SortedVar` of
-- `reve/reve/include/SMT.h`.
use llreve.Prelude.{ℕ, String, Bool, true, false}

-- A `Type` is one of the four classes behind `Type::Concept`.
pub data Sort : Type 0 where
  bool_type : Sort
  int_type : ℕ → Sort
  float_type : ℕ → ℕ → Sort
  array_type : Sort → Sort → Sort

pub record SortedVar : Type 0 where
  pub name : String
  pub sort : Sort

abbrev pub int64_type : Sort
int64_type = int_type 64

abbrev pub pointer_type : Sort
pointer_type = int_type 64

abbrev pub memory_type : Sort
memory_type = array_type int64_type (int_type 8)

unfoldable pub is_array : Sort → Bool
is_array (array_type d t) = true
is_array _ = false
