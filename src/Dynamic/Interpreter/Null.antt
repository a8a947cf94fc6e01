-- ===== src/Dynamic/Interpreter/Null.antt =====
-- Comparisons with the null pointer in integer mode.
use llreve.Prelude.{ℕ, Bool, true, false, ◌≡◌, refl, err, assertion, ok}
use llreve.Dynamic.Integers.{
  Arithmetic, unbounded, bounded, NumberOptions, make_bounded_int, to_uint64,
}
use llreve.Dynamic.Integers.Compare.{eq, ne, slt, sle, sgt, sge, ult, ule, ugt, uge}
use llreve.Dynamic.Machine.{
  Operand, null_pointer, IntPredicate, eq_pred, ne_pred, sge_pred, sgt_pred, sle_pred, slt_pred,
  uge_pred, ugt_pred, ule_pred, ult_pred, other_pred, State,
}
use llreve.Dynamic.Interpreter.Operators.{resolve_value, int_predicate, interpret_icmp}

unfoldable pub is_supported : IntPredicate → Bool
is_supported other_pred = false
is_supported pred = true

module _ {W Z : Type 0} (lib : Arithmetic W Z) (opts : NumberOptions) where
  open lib use {words}

  int_predicate-mixed :
      (pred : IntPredicate) (a : Z) (w : W)
      → is_supported pred ≡ true
      → int_predicate lib opts pred (unbounded a) (bounded w) ≡ err assertion
  unfolding int_predicate is_supported eq ne slt sle sgt sge ult ule ugt uge
  int_predicate-mixed eq_pred a w h = refl
  int_predicate-mixed ne_pred a w h = refl
  int_predicate-mixed sge_pred a w h = refl
  int_predicate-mixed sgt_pred a w h = refl
  int_predicate-mixed sle_pred a w h = refl
  int_predicate-mixed slt_pred a w h = refl
  int_predicate-mixed uge_pred a w h = refl
  int_predicate-mixed ugt_pred a w h = refl
  int_predicate-mixed ule_pred a w h = refl
  int_predicate-mixed ult_pred a w h = refl
  int_predicate-mixed other_pred a w h = cc

  -- A comparison of a number without a width, as pointers are in integer mode, with the null
  -- pointer fails an assertion, by whatever supported predicate.
  pub interpret_icmp-null_pointer :
      (key : ℕ) (pred : IntPredicate) (x : Operand W) (s : State W Z) (a : Z)
      → is_supported pred ≡ true
      → resolve_value lib opts x s ≡ ok (unbounded a)
      → interpret_icmp lib opts key pred x null_pointer s ≡ err assertion
  unfolding interpret_icmp resolve_value make_bounded_int to_uint64
  interpret_icmp-null_pointer key pred x s a known at_x =
      rw (interpret_icmp, at_x, int_predicate-mixed pred a (words.word 64 0) known) refl
