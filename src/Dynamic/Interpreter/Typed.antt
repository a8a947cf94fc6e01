-- ===== src/Dynamic/Interpreter/Typed.antt =====
-- Kinds of values in integer mode, for
-- `reve/dynamic/llreve-dynamic/lib/llreve/dynamic/Interpreter.cpp`: a truth value is a word of one bit, and
-- every other value is a number without a width.
pub mod Values
pub mod Accesses
pub mod Heaps
pub mod Instructions
pub mod Blocks
pub mod Bodies
pub mod Runs
use llreve.Prelude.{
  ℕ, ◌≡◌, Bool, true, false, nat_eq, ltb, ◌&&◌, if◌then◌else◌, List, [], ◌∷◌, Option, none, some,
  All, Result, ok, err,
}
use llreve.Dynamic.Integers.{Arithmetic, ApInt, Integer, unbounded, bounded}
use llreve.Dynamic.Machine.{
  Operand, local, constant_int, null_pointer, other_operand, Instruction, bin_op, icmp, cast, gep,
  load, store, select, call, unsupported, Terminator, return, Block, Function, Heap, State, VarMap,
}
use llreve.Dynamic.Interpreter.Operators.{cast_key}

-- What a computation returns has a property.
unfoldable pub Gives : {A : Type 0} → (A → Type 0) → Result A → Type 0
Gives P (ok a) = P a
Gives P (err e) = Unit

module _ {W Z : Type 0} (lib : Arithmetic W Z) where
  open lib use {words}

  unfoldable pub HasKind : Bool → Integer W Z → Type 0
  HasKind true (bounded w) = words.width w ≡ 1
  HasKind true (unbounded n) = ⊥
  HasKind false (bounded w) = ⊥
  HasKind false (unbounded n) = Unit

  unfoldable pub IsTypedHeap : Heap W Z → Type 0
  unfolding HasKind
  IsTypedHeap h = HasKind false h.background × All (λ c. HasKind false c.1) h.assigned_values

  -- `is_flag` says which values are truth values.
  module _ (is_flag : ℕ → Bool) where
    unfoldable pub IsTypedMap : VarMap W Z → Type 0
    unfolding HasKind
    IsTypedMap vars = All (λ e. HasKind (is_flag e.0) e.1) vars

    unfoldable pub IsTypedState : State W Z → Type 0
    unfolding IsTypedMap IsTypedHeap
    IsTypedState s = IsTypedMap s.variables × IsTypedHeap s.heap

    -- The null pointer has no kind: it is a word of 64 bits.
    unfoldable pub IsTypedOperand : Bool → Operand W → Type 0
    IsTypedOperand b (local v) = is_flag v ≡ b
    IsTypedOperand b (constant_int w) = nat_eq (words.width w) 1 ≡ b
    IsTypedOperand b null_pointer = ⊥
    IsTypedOperand b other_operand = Unit

    unfoldable pub AreTypedArguments : List ℕ → List (Operand W) → Type 0
    unfolding IsTypedOperand
    AreTypedArguments (a ∷ args) (x ∷ xs) = IsTypedOperand (is_flag a) x × AreTypedArguments args xs
    AreTypedArguments args xs = Unit

    -- A call gives what the function returns, if that is known.
    unfoldable pub IsReturnKind : Bool → Option ℕ → Type 0
    IsReturnKind b none = Unit
    IsReturnKind b (some r) = is_flag r ≡ b

    -- Only comparisons, operations of width 1 and selections make truth values; a truncation to one
    -- bit and a load of one bit do not.
    unfoldable pub IsTypedInstruction : (ℕ → Function) → ℕ → Instruction W → Type 0
    unfolding IsTypedOperand AreTypedArguments IsReturnKind cast_key
    IsTypedInstruction functions key (bin_op op width x y) =
        (is_flag key ≡ nat_eq width 1)
        × IsTypedOperand (nat_eq width 1) x
        × IsTypedOperand (nat_eq width 1) y
    IsTypedInstruction functions key (icmp pred x y) = is_flag key ≡ true
    IsTypedInstruction functions key (cast kind from_bool width x) =
        (is_flag key ≡ false)
        × (is_flag (cast_key kind key) ≡ false)
        × ((from_bool && ltb 1 width) ≡ false → IsTypedOperand false x)
    IsTypedInstruction functions key (gep x indices) =
        (is_flag key ≡ false) × IsTypedOperand false x
    IsTypedInstruction functions key (load width x) = is_flag key ≡ false
    IsTypedInstruction functions key (store width x y) = IsTypedOperand false y
    IsTypedInstruction functions key (select c x y) =
        IsTypedOperand (is_flag key) x × IsTypedOperand (is_flag key) y
    IsTypedInstruction functions key (call f xs) =
        IsReturnKind (is_flag key) (functions f).return_instruction
        × AreTypedArguments (functions f).arguments xs
    IsTypedInstruction functions key unsupported = Unit

    unfoldable pub IsTypedTerminator : Terminator W → Type 0
    unfolding IsTypedOperand
    IsTypedTerminator (return key none) = is_flag key ≡ false
    IsTypedTerminator (return key (some x)) = IsTypedOperand (is_flag key) x
    IsTypedTerminator t = Unit

    unfoldable pub IsTypedBlock : (ℕ → Function) → Block W → Type 0
    unfolding IsTypedInstruction IsTypedTerminator IsTypedOperand
    IsTypedBlock functions b =
        All (λ phi. All (λ x. IsTypedOperand (is_flag phi.0) x.1) phi.1) b.phis
        × All (λ i. IsTypedInstruction functions i.0 i.1) b.body
        × IsTypedTerminator b.terminator
