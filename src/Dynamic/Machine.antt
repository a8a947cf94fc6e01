-- ===== src/Dynamic/Machine.antt =====
-- The state of the interpreter and what it reads of LLVM functions:
-- `reve/dynamic/llreve-dynamic/include/llreve/dynamic/Interpreter.h`. A value of LLVM, a block and
-- a function are numbers; 0 is the null pointer.
use llreve.Prelude.{
  ℕ, Bool, List, [], ◌∷◌, Option, none, some, if◌then◌else◌, nat_eq, Result, ok, err, undefined,
}
use llreve.Dynamic.Integers.{Arithmetic, Integer}
use llreve.Dynamic.Integers.Compare.{same_key}

-- Operands that `resolveValue` tells apart.
pub data Operand (W : Type 0) : Type 0 where
  local : ℕ → Operand W
  constant_int : W → Operand W
  null_pointer : Operand W
  other_operand : Operand W

pub data BinaryOp : Type 0 where
  add_op sub_op mul_op sdiv_op udiv_op srem_op urem_op : BinaryOp
  shl_op lshr_op ashr_op and_op or_op xor_op other_op : BinaryOp

pub data IntPredicate : Type 0 where
  eq_pred ne_pred sge_pred sgt_pred sle_pred slt_pred : IntPredicate
  uge_pred ugt_pred ule_pred ult_pred other_pred : IntPredicate

pub data CastKind : Type 0 where
  zext_cast sext_cast trunc_cast ptr_to_int_cast int_to_ptr_cast other_cast : CastKind

-- Instructions that are neither phis nor terminators. A number before the operands is the width of
-- the result; `store` has the width of the value. A cast says whether its source is an `i1`, an
-- index of `gep` comes with the size of the type that it indexes.
pub data Instruction (W : Type 0) : Type 0 where
  bin_op : BinaryOp → ℕ → Operand W → Operand W → Instruction W
  icmp : IntPredicate → Operand W → Operand W → Instruction W
  cast : CastKind → Bool → ℕ → Operand W → Instruction W
  gep : Operand W → List (ℕ × Operand W) → Instruction W
  load : ℕ → Operand W → Instruction W
  store : ℕ → Operand W → Operand W → Instruction W
  select : Operand W → Operand W → Operand W → Instruction W
  call : ℕ → List (Operand W) → Instruction W
  unsupported : Instruction W

pub data Terminator (W : Type 0) : Type 0 where
  return : ℕ → Option (Operand W) → Terminator W
  branch : ℕ → Terminator W
  cond_branch : Operand W → ℕ → ℕ → Terminator W
  switch : Operand W → List (W × ℕ) → ℕ → Terminator W
  other_terminator : Terminator W

-- A phi has a value for each block before.
pub record Block (W : Type 0) : Type 0 where
  pub phis : List (ℕ × List (ℕ × Operand W))
  pub body : List (ℕ × Instruction W)
  pub terminator : Terminator W

-- `return_instruction` is what `analysisResults` has for the function, if it has the function.
pub record Function : Type 0 where
  pub arguments : List ℕ
  pub entry_block : ℕ
  pub return_instruction : Option ℕ

-- `Heap`
pub record Heap (W Z : Type 0) : Type 0 where
  pub assigned_values : List (Integer W Z × Integer W Z)
  pub background : Integer W Z

-- `FastVarMap`
abbrev pub VarMap : Type 0 → Type 0 → Type 0
VarMap W Z = List (ℕ × Integer W Z)

-- `FastState`
pub record State (W Z : Type 0) : Type 0 where
  pub variables : VarMap W Z
  pub heap : Heap W Z

module _ {W Z : Type 0} where
  unfoldable pub insert_or_replace : ℕ → Integer W Z → VarMap W Z → VarMap W Z
  insert_or_replace k v [] = (k, v) ∷ []
  insert_or_replace k v ((j, w) ∷ vars) =
      if nat_eq j k then (k, v) ∷ vars else (j, w) ∷ insert_or_replace k v vars

  -- `find(k)->second`, which is undefined if there is none
  unfoldable pub find_variable : VarMap W Z → ℕ → Result (Integer W Z)
  find_variable [] k = err undefined
  find_variable ((j, v) ∷ vars) k = if nat_eq j k then ok v else find_variable vars k

  unfoldable pub set_variable : ℕ → Integer W Z → State W Z → State W Z
  unfolding insert_or_replace
  set_variable k v s = record s { variables = insert_or_replace k v s.variables }

module _ {W Z : Type 0} (lib : Arithmetic W Z) where
  unfoldable pub find_cell : List (Integer W Z × Integer W Z) → Integer W Z → Option (Integer W Z)
  unfolding same_key
  find_cell [] a = none
  find_cell ((b, v) ∷ cells) a = if same_key lib b a then some v else find_cell cells a

  -- `assignedValues[a] = v`
  unfoldable pub write_cell :
      Integer W Z
      → Integer W Z
      → List (Integer W Z × Integer W Z)
      → List (Integer W Z × Integer W Z)
  unfolding same_key
  write_cell a v [] = (a, v) ∷ []
  write_cell a v ((b, w) ∷ cells) =
      if same_key lib b a then (b, v) ∷ cells else (b, w) ∷ write_cell a v cells

  -- What a heap holds at an address.
  unfoldable pub heap_value : Heap W Z → Integer W Z → Integer W Z
  unfolding find_cell
  heap_value h a = elim (find_cell h.assigned_values a) [ none ↦ h.background | some v ↦ v ]

  -- `assignedValues.insert({a, v}).first->second`, with the heap after it
  unfoldable pub read_or_insert : Integer W Z → Integer W Z → Heap W Z → Integer W Z × Heap W Z
  unfolding find_cell write_cell
  read_or_insert a v h = elim (find_cell h.assigned_values a) [
    | none ↦ (v, record h { assigned_values = write_cell a v h.assigned_values })
    | some w ↦ (w, h)
  ]

-- `Call` and `BlockStep`; a call has its entry and return states, its steps, whether it ended
-- early, and the blocks visited.
mutual
  pub data Call (W Z : Type 0) : Type 0 where
    made : ℕ → State W Z → State W Z → Steps W Z → Bool → ℕ → Call W Z

  pub data Steps (W Z : Type 0) : Type 0 where
    no_steps : Steps W Z
    step : ℕ → State W Z → Calls W Z → Steps W Z → Steps W Z

  pub data Calls (W Z : Type 0) : Type 0 where
    no_calls : Calls W Z
    called : Call W Z → Calls W Z → Calls W Z

module _ {W Z : Type 0} where
  -- `steps.emplace_back`
  unfoldable pub add_step : Steps W Z → ℕ → State W Z → Calls W Z → Steps W Z
  add_step no_steps b s cs = step b s cs no_steps
  add_step (step b' s' cs' steps) b s cs = step b' s' cs' (add_step steps b s cs)

  unfoldable pub add_call : Calls W Z → Call W Z → Calls W Z
  add_call no_calls c = called c no_calls
  add_call (called c' cs) c = called c' (add_call cs c)

  abbrev pub return_state : Call W Z → State W Z
  return_state (made f s t steps early visited) = t

  abbrev pub early_exit : Call W Z → Bool
  early_exit (made f s t steps early visited) = early

  abbrev pub blocks_visited : Call W Z → ℕ
  blocks_visited (made f s t steps early visited) = visited

  abbrev pub call_steps : Call W Z → Steps W Z
  call_steps (made f s t steps early visited) = steps

-- `BlockUpdate`
pub record BlockUpdate (W Z : Type 0) : Type 0 where
  pub state_after_phis : State W Z
  pub end_state : State W Z
  pub next_block : Option ℕ
  pub calls : Calls W Z
  pub stopped_early : Bool
  pub visited : ℕ
