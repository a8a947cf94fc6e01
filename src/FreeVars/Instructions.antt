-- ===== src/FreeVars/Instructions.antt =====
-- `FreeVar`, `freeVarsInBlock` and sets of variables of `reve/reve/lib/FreeVariables.cpp`.
use Prim.Native.Nat.{Ordering}
use Prim.Native.String.{compare}
use llreve.Prelude.{
  ℕ, String, Bool, true, false, not, List, [], ◌∷◌, Option, none, some, ◌&&◌, ◌||◌, if◌then◌else◌,
  ◌==◌, nat_eq, Result, ok, err, assertion, ◌>>=◌,
}
use llreve.Smt.Sort.{SortedVar}

pub record FreeVar : Type 0 where
  pub var : SortedVar
  pub is_pointer : Bool

-- The classes of `llvm::Value` that the function tells apart.
pub data ValueKind : Type 0 where
  instruction argument basic_block global_value constant : ValueKind

-- A value, with its name and the variable that `llvmValToFreeVar` makes of it.
pub record Value : Type 0 where
  pub kind : ValueKind
  pub free_var : FreeVar

abbrev pub value_name : Value → String
value_name v = v.free_var.var.name

-- A phi has a value for each block before; any other instruction has its operands.
pub data Operands : Type 0 where
  phi : List (ℕ × Value) → Operands
  plain : List Value → Operands

pub record Instr : Type 0 where
  pub result : Value
  pub operands : Operands

-- A `std::set` that compares its members by name only. The order of the members is that of names.
module _ {A : Type 0} (name_of : A → String) where
  unfoldable pub has_name : List A → String → Bool
  has_name [] x = false
  has_name (a ∷ rest) x = (name_of a == x) || has_name rest x

  unfoldable pub put_in_order : A → List A → List A
  put_in_order a [] = a ∷ []
  put_in_order a (b ∷ bs) = elim (compare (name_of a) (name_of b)) [
    | Ordering.lt ↦ a ∷ b ∷ bs
    | _ ↦ b ∷ put_in_order a bs
  ]

  -- `insert`, which keeps a member of the same name
  unfoldable pub insert_named : A → List A → List A
  unfolding has_name put_in_order
  insert_named a members = if has_name members (name_of a) then members else put_in_order a members

abbrev pub free_name : FreeVar → String
free_name v = v.var.name

abbrev pub sorted_name : SortedVar → String
sorted_name v = v.name

-- The two sets that `freeVarsInBlock` changes.
pub record Reads : Type 0 where
  pub accessed : List FreeVar
  pub constructed : List FreeVar

unfoldable pub is_constructed : Reads → Value → Bool
unfolding has_name
is_constructed r v = has_name free_name r.constructed (value_name v)

unfoldable pub access : Value → Reads → Reads
unfolding insert_named
access v r = record r { accessed = insert_named free_name v.free_var r.accessed }

abbrev pub is_block : ValueKind → Bool
is_block basic_block = true
is_block kind = false

abbrev pub is_local : ValueKind → Bool
is_local instruction = true
is_local argument = true
is_local kind = false

-- the value of a phi for the block before
unfoldable pub incoming_read : Value → Reads → Bool
unfolding is_constructed
incoming_read v r = not (is_constructed r v) && (not (value_name v == "") && not (is_block v.kind))

-- an operand of any other instruction
unfoldable pub operand_read : Value → Reads → Bool
unfolding is_constructed
operand_read v r = is_local v.kind && (not (is_constructed r v) && not (value_name v == ""))

unfoldable pub read_operands : List Value → Reads → Reads
unfolding operand_read access
read_operands [] r = r
read_operands (v ∷ vs) r = read_operands vs (if operand_read v r then access v r else r)

-- `getIncomingValueForBlock`, which asserts that the block is one of the phi's
unfoldable pub incoming_value : List (ℕ × Value) → ℕ → Result Value
incoming_value [] prev = err assertion
incoming_value ((b, v) ∷ rest) prev = if nat_eq b prev then ok v else incoming_value rest prev

unfoldable pub read_instruction : Option ℕ → Value → Operands → Reads → Result Reads
unfolding incoming_value read_operands incoming_read access
read_instruction none result (phi values) r = ok (access result r)
read_instruction (some prev) result (phi values) r = do
  v ← incoming_value values prev
  ok (if incoming_read v r then access v r else r)
read_instruction prev result (plain vs) r = ok (read_operands vs r)

unfoldable pub construct : Value → Reads → Reads
unfolding insert_named
construct v r = record r { constructed = insert_named free_name v.free_var r.constructed }

unfoldable pub free_vars_in_block : List Instr → Option ℕ → Reads → Result Reads
unfolding read_instruction construct
free_vars_in_block [] prev r = ok r
free_vars_in_block (i ∷ is) prev r = do
  r' ← read_instruction prev i.result i.operands (construct i.result r)
  free_vars_in_block is prev r'
