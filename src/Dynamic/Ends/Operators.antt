-- ===== src/Dynamic/Ends/Operators.antt =====
-- Operands, operators, comparisons and casts of the interpreter end.
use llreve.Prelude.{ℕ, Bool, ◌&&◌, not, ltb, nat_eq, [], ◌∷◌}
use llreve.Dynamic.Integers.{Arithmetic, Integer, unbounded, bounded, NumberOptions}
use llreve.Dynamic.Integers.Compare.{eq, ne, slt, sle, sgt, sge, ult, ule, ugt, uge}
use llreve.Dynamic.Machine.{
  Operand, local, constant_int, null_pointer, other_operand, BinaryOp, add_op, sub_op, mul_op,
  sdiv_op, udiv_op, srem_op, urem_op, shl_op, lshr_op, ashr_op, and_op, or_op, xor_op, other_op,
  IntPredicate, eq_pred, ne_pred, sge_pred, sgt_pred, sle_pred, slt_pred, uge_pred, ugt_pred,
  ule_pred, ult_pred, other_pred, CastKind, zext_cast, sext_cast, trunc_cast, ptr_to_int_cast,
  int_to_ptr_cast, other_cast, State, VarMap, find_variable,
}
use llreve.Dynamic.Interpreter.Operators.{
  unsafe_bool, on_bools, int_bin_op, resolve_value, int_predicate, interpret_icmp, interpret_bin_op,
  bool_operand, cast_value, assign_cast, cast_number, cast_flag, interpret_cast,
}
use llreve.Dynamic.Ends.{Ends, returned, exit_one-Ends, undefined-Ends, if-Ends, >>=-Ends}
use llreve.Dynamic.Ends.Integers.{
  plus-Ends, minus-Ends, times-Ends, sdiv-Ends, udiv-Ends, srem-Ends, urem-Ends, shl-Ends,
  lshr-Ends, ashr-Ends, and_-Ends, or_-Ends, xor_-Ends, zext-Ends, sext-Ends, compare_by-Ends,
  sext_number-Ends,
}

pub find_variable-Ends : {W Z : Type 0} (vars : VarMap W Z) (k : ℕ) → Ends (find_variable vars k)
unfolding find_variable
find_variable-Ends [] k = undefined-Ends
find_variable-Ends ((j, v) ∷ vars) k = if-Ends (nat_eq j k) (returned v) (find_variable-Ends vars k)

bool_operand-Ends : {W Z : Type 0} (x : Operand W) (s : State W Z) → Ends (bool_operand x s)
unfolding bool_operand
bool_operand-Ends (local v) s = find_variable-Ends s.variables v
bool_operand-Ends (constant_int w) s = undefined-Ends
bool_operand-Ends null_pointer s = undefined-Ends
bool_operand-Ends other_operand s = undefined-Ends

module _ {W Z : Type 0} (lib : Arithmetic W Z) where
  open lib use {words, numbers}

  pub unsafe_bool-Ends : (a : Integer W Z) → Ends (unsafe_bool lib a)
  unfolding unsafe_bool
  unsafe_bool-Ends (unbounded a) = exit_one-Ends
  unsafe_bool-Ends (bounded a) = if-Ends (nat_eq (words.width a) 1) (returned _) exit_one-Ends

  on_bools-Ends : (op : BinaryOp) (a b : Integer W Z) → Ends (on_bools lib op a b)
  unfolding on_bools
  on_bools-Ends op a b =
      >>=-Ends (unsafe_bool-Ends a) (λ p. >>=-Ends (unsafe_bool-Ends b) (λ q. returned _))

  int_bin_op-Ends : (op : BinaryOp) (a b : Integer W Z) → Ends (int_bin_op lib op a b)
  unfolding int_bin_op
  int_bin_op-Ends add_op a b = plus-Ends lib a b
  int_bin_op-Ends sub_op a b = minus-Ends lib a b
  int_bin_op-Ends mul_op a b = times-Ends lib a b
  int_bin_op-Ends sdiv_op a b = sdiv-Ends lib a b
  int_bin_op-Ends udiv_op a b = udiv-Ends lib a b
  int_bin_op-Ends srem_op a b = srem-Ends lib a b
  int_bin_op-Ends urem_op a b = urem-Ends lib a b
  int_bin_op-Ends shl_op a b = shl-Ends lib a b
  int_bin_op-Ends lshr_op a b = lshr-Ends lib a b
  int_bin_op-Ends ashr_op a b = ashr-Ends lib a b
  int_bin_op-Ends and_op a b = and_-Ends lib a b
  int_bin_op-Ends or_op a b = or_-Ends lib a b
  int_bin_op-Ends xor_op a b = xor_-Ends lib a b
  int_bin_op-Ends other_op a b = returned _

  module _ (opts : NumberOptions) where
    pub resolve_value-Ends : (x : Operand W) (s : State W Z) → Ends (resolve_value lib opts x s)
    unfolding resolve_value
    resolve_value-Ends (local v) s = find_variable-Ends s.variables v
    resolve_value-Ends (constant_int w) s = if-Ends (nat_eq (words.width w) 1) (returned _) (
        if-Ends (not opts.bit_vect) (>>=-Ends (sext_number-Ends lib w) (λ n. returned _))
          (returned _))
    resolve_value-Ends null_pointer s = returned _
    resolve_value-Ends other_operand s = exit_one-Ends

    int_predicate-Ends :
        (pred : IntPredicate) (a b : Integer W Z) → Ends (int_predicate lib opts pred a b)
    unfolding int_predicate
    int_predicate-Ends eq_pred a b = unfold eq in (compare_by-Ends lib _ _ a b)
    int_predicate-Ends ne_pred a b = unfold ne in (compare_by-Ends lib _ _ a b)
    int_predicate-Ends sge_pred a b = unfold sge in (compare_by-Ends lib _ _ a b)
    int_predicate-Ends sgt_pred a b = unfold sgt in (compare_by-Ends lib _ _ a b)
    int_predicate-Ends sle_pred a b = unfold sle in (compare_by-Ends lib _ _ a b)
    int_predicate-Ends slt_pred a b = unfold slt in (compare_by-Ends lib _ _ a b)
    int_predicate-Ends uge_pred a b = unfold uge in (compare_by-Ends lib _ _ a b)
    int_predicate-Ends ugt_pred a b = unfold ugt in (compare_by-Ends lib _ _ a b)
    int_predicate-Ends ule_pred a b = unfold ule in (compare_by-Ends lib _ _ a b)
    int_predicate-Ends ult_pred a b = unfold ult in (compare_by-Ends lib _ _ a b)
    int_predicate-Ends other_pred a b = returned _

    pub interpret_icmp-Ends :
        (key : ℕ) (pred : IntPredicate) (x y : Operand W) (s : State W Z)
        → Ends (interpret_icmp lib opts key pred x y s)
    unfolding interpret_icmp
    interpret_icmp-Ends key pred x y s = >>=-Ends (resolve_value-Ends x s) (λ a.
        >>=-Ends (resolve_value-Ends y s)
          (λ b. >>=-Ends (int_predicate-Ends pred a b) (λ c. returned _)))

    pub interpret_bin_op-Ends :
        (key : ℕ) (op : BinaryOp) (width : ℕ) (x y : Operand W) (s : State W Z)
        → Ends (interpret_bin_op lib opts key op width x y s)
    unfolding interpret_bin_op
    interpret_bin_op-Ends key op width x y s = >>=-Ends (resolve_value-Ends x s) (λ a.
        >>=-Ends (resolve_value-Ends y s) (λ b.
          >>=-Ends (if-Ends (nat_eq width 1) (on_bools-Ends op a b) (int_bin_op-Ends op a b))
            (λ c. returned _)))

    cast_value-Ends :
        (kind : CastKind) (width : ℕ) (a : Integer W Z) → Ends (cast_value lib opts kind width a)
    unfolding cast_value
    cast_value-Ends zext_cast width a = zext-Ends lib width a
    cast_value-Ends sext_cast width a = sext-Ends lib width a
    cast_value-Ends trunc_cast width a = returned _
    cast_value-Ends ptr_to_int_cast width a = returned _
    cast_value-Ends int_to_ptr_cast width a = returned _
    cast_value-Ends other_cast width a = exit_one-Ends

    assign_cast-Ends :
        (key : ℕ) (kind : CastKind) (width : ℕ) (x : Operand W) (s : State W Z)
        → Ends (assign_cast lib opts key kind width x s)
    unfolding assign_cast
    assign_cast-Ends key kind width x s =
        >>=-Ends (resolve_value-Ends x s)
          (λ a. >>=-Ends (cast_value-Ends kind width a) (λ c. returned _))

    cast_number-Ends :
        (key : ℕ) (kind : CastKind) (width : ℕ) (x : Operand W) (s : State W Z)
        → Ends (cast_number lib opts key kind width x s)
    unfolding cast_number
    cast_number-Ends key other_cast width x s = exit_one-Ends
    cast_number-Ends key zext_cast width x s = assign_cast-Ends key zext_cast width x s
    cast_number-Ends key sext_cast width x s = assign_cast-Ends key sext_cast width x s
    cast_number-Ends key trunc_cast width x s = assign_cast-Ends key trunc_cast width x s
    cast_number-Ends key ptr_to_int_cast width x s = assign_cast-Ends key ptr_to_int_cast width x s
    cast_number-Ends key int_to_ptr_cast width x s = assign_cast-Ends key int_to_ptr_cast width x s

    pub interpret_cast-Ends :
        (key : ℕ) (kind : CastKind) (from_bool : Bool) (width : ℕ) (x : Operand W) (s : State W Z)
        → Ends (interpret_cast lib opts key kind from_bool width x s)
    unfolding interpret_cast cast_flag
    interpret_cast-Ends key kind from_bool width x s =
        if-Ends (from_bool && ltb 1 width)
          (>>=-Ends (bool_operand-Ends x s) (λ a. >>=-Ends (unsafe_bool-Ends a) (λ b. returned _)))
          (cast_number-Ends key kind width x s)
