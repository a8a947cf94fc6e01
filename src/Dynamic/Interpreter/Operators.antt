-- ===== src/Dynamic/Interpreter/Operators.antt =====
-- Operands, operators, comparisons and casts of the interpreter.
use llreve.Prelude.{
  ℕ, Bool, true, false, ◌&&◌, ◌||◌, not, if◌then◌else◌, nat_eq, ltb, pos, Result, ok, err, exit_one,
  undefined, ◌>>=◌,
}
use llreve.Dynamic.Integers.{
  Arithmetic, Integer, unbounded, bounded, NumberOptions, sext_number, make_bounded_int, plus,
  minus, times, sdiv, udiv, srem, urem, shl, lshr, ashr, and_, or_, xor_, zext, sext, zext_or_trunc,
}
use llreve.Dynamic.Integers.Compare.{eq, ne, slt, sle, sgt, sge, ult, ule, ugt, uge}
use llreve.Dynamic.Machine.{
  Operand, local, constant_int, null_pointer, other_operand, BinaryOp, add_op, sub_op, mul_op,
  sdiv_op, udiv_op, srem_op, urem_op, shl_op, lshr_op, ashr_op, and_op, or_op, xor_op, other_op,
  IntPredicate, eq_pred, ne_pred, sge_pred, sgt_pred, sle_pred, slt_pred, uge_pred, ugt_pred,
  ule_pred, ult_pred, other_pred, CastKind, zext_cast, sext_cast, trunc_cast, ptr_to_int_cast,
  int_to_ptr_cast, other_cast, State, find_variable, set_variable,
}

unfoldable pub bool_bin_op : BinaryOp → Bool → Bool → Bool
bool_bin_op or_op a b = a || b
bool_bin_op and_op a b = a && b
bool_bin_op xor_op true b = not b
bool_bin_op xor_op false b = b
bool_bin_op op a b = false

-- A cast of an `i1` reads the variables, also where its operand is no variable.
unfoldable pub bool_operand : {W Z : Type 0} → Operand W → State W Z → Result (Integer W Z)
unfolding find_variable
bool_operand (local v) s = find_variable s.variables v
bool_operand x s = err undefined

-- The key that a cast assigns to: for a cast to a pointer it is the null pointer, since the
-- code reads the variable of the test that failed before.
unfoldable pub cast_key : CastKind → ℕ → ℕ
cast_key int_to_ptr_cast key = 0
cast_key kind key = key

module _ {W Z : Type 0} (lib : Arithmetic W Z) where
  open lib use {words, numbers}

  -- `Integer(bool)`
  unfoldable pub of_bool : Bool → Integer W Z
  of_bool true = bounded (words.word 1 1)
  of_bool false = bounded (words.word 1 0)

  unfoldable pub unsafe_bool : Integer W Z → Result Bool
  unsafe_bool (unbounded a) = err exit_one
  unsafe_bool (bounded a) =
      if nat_eq (words.width a) 1 then ok (words.bool_value a) else err exit_one

  unfoldable pub on_bools : BinaryOp → Integer W Z → Integer W Z → Result (Integer W Z)
  unfolding unsafe_bool bool_bin_op of_bool
  on_bools op a b = do p ← unsafe_bool a; q ← unsafe_bool b; ok (of_bool (bool_bin_op op p q))

  -- An operator that is not known leaves `Integer()`, the unbounded zero.
  unfoldable pub int_bin_op : BinaryOp → Integer W Z → Integer W Z → Result (Integer W Z)
  unfolding plus minus times sdiv udiv srem urem shl lshr ashr and_ or_ xor_
  int_bin_op add_op a b = plus lib a b
  int_bin_op sub_op a b = minus lib a b
  int_bin_op mul_op a b = times lib a b
  int_bin_op sdiv_op a b = sdiv lib a b
  int_bin_op udiv_op a b = udiv lib a b
  int_bin_op srem_op a b = srem lib a b
  int_bin_op urem_op a b = urem lib a b
  int_bin_op shl_op a b = shl lib a b
  int_bin_op lshr_op a b = lshr lib a b
  int_bin_op ashr_op a b = ashr lib a b
  int_bin_op and_op a b = and_ lib a b
  int_bin_op or_op a b = or_ lib a b
  int_bin_op xor_op a b = xor_ lib a b
  int_bin_op other_op a b = ok (unbounded (numbers.of_int (pos 0)))

  module _ (opts : NumberOptions) where
    unfoldable pub resolve_value : Operand W → State W Z → Result (Integer W Z)
    unfolding find_variable make_bounded_int sext_number
    resolve_value (local v) s = find_variable s.variables v
    resolve_value (constant_int w) s =
        if nat_eq (words.width w) 1
        then ok (bounded w)
        else if not opts.bit_vect
        then sext_number lib w >>= (λ n. ok (unbounded n))
        else ok (bounded w)
    resolve_value null_pointer s = ok (bounded (make_bounded_int words 64 (pos 0)))
    resolve_value other_operand s = err exit_one

    unfoldable pub int_predicate : IntPredicate → Integer W Z → Integer W Z → Result Bool
    unfolding eq ne slt sle sgt sge ult ule ugt uge
    int_predicate eq_pred a b = eq lib a b
    int_predicate ne_pred a b = ne lib a b
    int_predicate sge_pred a b = sge lib a b
    int_predicate sgt_pred a b = sgt lib a b
    int_predicate sle_pred a b = sle lib a b
    int_predicate slt_pred a b = slt lib a b
    int_predicate uge_pred a b = uge lib opts a b
    int_predicate ugt_pred a b = ugt lib opts a b
    int_predicate ule_pred a b = ule lib opts a b
    int_predicate ult_pred a b = ult lib opts a b
    int_predicate other_pred a b = ok false

    unfoldable pub interpret_icmp :
        ℕ → IntPredicate → Operand W → Operand W → State W Z → Result (State W Z)
    unfolding resolve_value int_predicate of_bool set_variable
    interpret_icmp key pred x y s = do
      a ← resolve_value x s
      b ← resolve_value y s
      c ← int_predicate pred a b
      ok (set_variable key (of_bool c) s)

    unfoldable pub interpret_bin_op :
        ℕ → BinaryOp → ℕ → Operand W → Operand W → State W Z → Result (State W Z)
    unfolding resolve_value on_bools int_bin_op set_variable
    interpret_bin_op key op width x y s = do
      a ← resolve_value x s
      b ← resolve_value y s
      c ← (if nat_eq width 1 then on_bools op a b else int_bin_op op a b)
      ok (set_variable key c s)

    unfoldable pub of_flag : ℕ → Bool → Integer W Z
    unfolding make_bounded_int
    of_flag width b =
        if opts.bit_vect
        then bounded (make_bounded_int words width (if b then pos 1 else pos 0))
        else unbounded (numbers.of_int (if b then pos 1 else pos 0))

    unfoldable pub cast_value : CastKind → ℕ → Integer W Z → Result (Integer W Z)
    unfolding zext sext zext_or_trunc
    cast_value zext_cast width a = zext lib width a
    cast_value sext_cast width a = sext lib width a
    cast_value trunc_cast width a = ok (zext_or_trunc lib width a)
    cast_value ptr_to_int_cast width a = ok (zext_or_trunc lib width a)
    cast_value int_to_ptr_cast width a = ok (zext_or_trunc lib 64 a)
    cast_value other_cast width a = err exit_one

    unfoldable pub assign_cast : ℕ → CastKind → ℕ → Operand W → State W Z → Result (State W Z)
    unfolding resolve_value cast_value cast_key set_variable
    assign_cast key kind width x s = do
      a ← resolve_value x s
      c ← cast_value kind width a
      ok (set_variable (cast_key kind key) c s)

    unfoldable pub cast_number : ℕ → CastKind → ℕ → Operand W → State W Z → Result (State W Z)
    unfolding assign_cast
    cast_number key other_cast width x s = err exit_one
    cast_number key kind width x s = assign_cast key kind width x s

    unfoldable pub cast_flag : ℕ → ℕ → Operand W → State W Z → Result (State W Z)
    unfolding bool_operand unsafe_bool of_flag set_variable
    cast_flag key width x s = do
      a ← bool_operand x s
      b ← unsafe_bool a
      ok (set_variable key (of_flag width b) s)

    unfoldable pub interpret_cast :
        ℕ → CastKind → Bool → ℕ → Operand W → State W Z → Result (State W Z)
    unfolding cast_flag cast_number
    interpret_cast key kind from_bool width x s =
        if from_bool && ltb 1 width then cast_flag key width x s else cast_number key kind width x s
