-- ===== src/Dynamic/Interpreter/Typed/Instructions.antt =====
-- Instructions of the interpreter in integer mode keep the kinds of variables and of heap cells.
use mathlib.Core.Path.{subst}
use llreve.Prelude.{
  ℕ, ◌≡◌, sym, refl, Bool, true, false, ◌&&◌, nat_eq, ltb, if◌then◌else◌, Result, ok, exit_one,
  ◌>>=◌,
}
use llreve.Dynamic.Integers.{Arithmetic, Integer, NumberOptions}
use llreve.Dynamic.Machine.{
  Operand, BinaryOp, IntPredicate, CastKind, zext_cast, sext_cast, trunc_cast, ptr_to_int_cast,
  int_to_ptr_cast, other_cast, Instruction, bin_op, icmp, cast, gep, load, store, select, call,
  unsupported, Function, State, set_variable,
}
use llreve.Dynamic.Interpreter.Operators.{
  of_bool, unsafe_bool, bool_bin_op, on_bools, int_bin_op, resolve_value, int_predicate,
  interpret_icmp, interpret_bin_op, bool_operand, of_flag, cast_key, assign_cast, cast_number,
  cast_flag, interpret_cast,
}
use llreve.Dynamic.Interpreter.Memory.{resolve_gep}
use llreve.Dynamic.Interpreter.Blocks.{interpret_select, interpret_instruction}
use llreve.Dynamic.Interpreter.Typed.{
  Gives, HasKind, IsTypedState, IsTypedOperand, IsTypedInstruction,
}
use llreve.Dynamic.Interpreter.Typed.Values.{
  Gives-bind, Gives-after, Gives-err, int_bin_op-HasKind, cast_value-HasKind,
}
use llreve.Dynamic.Interpreter.Typed.Heaps.{
  resolve_value-HasKind, set_variable-IsTypedState, resolve_gep-HasKind,
}
use llreve.Dynamic.Interpreter.Typed.Accesses.{
  interpret_load-IsTypedState, interpret_store-IsTypedState,
}

-- a test whose second branch may use that it failed
Gives-test :
    {B : Type 0} (Q : B → Type 0) (b : Bool) (m n : Result B)
    → Gives Q m
    → (b ≡ false → Gives Q n)
    → Gives Q (if b then m else n)
Gives-test Q true m n p q = p
Gives-test Q false m n p q = q refl

module _ {W Z : Type 0} (lib : Arithmetic W Z) (opts : NumberOptions) (is_flag : ℕ → Bool)
    (whole : opts.bit_vect ≡ false)
    (one_bit : (n : ℕ) → lib.words.width (lib.words.word 1 n) ≡ 1) where
  of_bool-HasKind : (b : Bool) → HasKind lib true (of_bool lib b)
  unfolding HasKind of_bool
  of_bool-HasKind true = one_bit 1
  of_bool-HasKind false = one_bit 0

  of_flag-HasKind : (width : ℕ) (b : Bool) → HasKind lib false (of_flag lib opts width b)
  unfolding HasKind of_flag
  of_flag-HasKind width b = rw (of_flag, whole) tt

  -- A value that an instruction computes is assigned to a variable of its kind.
  assigned :
      (key : ℕ) (kind : Bool) (m : Result (Integer W Z)) (s : State W Z)
      → is_flag key ≡ kind
      → Gives (HasKind lib kind) m
      → IsTypedState lib is_flag s
      → Gives (IsTypedState lib is_flag) (m >>= λ v. ok (set_variable key v s))
  unfolding Gives
  assigned key kind m s e h t =
      Gives-bind (HasKind lib kind) (IsTypedState lib is_flag) m (λ v. ok (set_variable key v s)) h
        (λ v k.
          set_variable-IsTypedState lib is_flag key v s (subst (λ b. HasKind lib b v) (sym e) k) t)

  operator-HasKind :
      (b : Bool) (op : BinaryOp) (x y : Integer W Z)
      → HasKind lib b x
      → HasKind lib b y
      → Gives (HasKind lib b) (if b then on_bools lib op x y else int_bin_op lib op x y)
  unfolding on_bools Gives
  operator-HasKind true op x y h k = Gives-after (HasKind lib true) (unsafe_bool lib x) _ (λ p.
      Gives-after (HasKind lib true) (unsafe_bool lib y)
        (λ q. ok (of_bool lib (bool_bin_op op p q))) (λ q. of_bool-HasKind (bool_bin_op op p q)))
  operator-HasKind false op x y h k = int_bin_op-HasKind lib op x y h k

  interpret_bin_op-IsTypedState :
      (key : ℕ) (op : BinaryOp) (width : ℕ) (x y : Operand W) (s : State W Z)
      → is_flag key ≡ nat_eq width 1
      → IsTypedOperand lib is_flag (nat_eq width 1) x
      → IsTypedOperand lib is_flag (nat_eq width 1) y
      → IsTypedState lib is_flag s
      → Gives (IsTypedState lib is_flag) (interpret_bin_op lib opts key op width x y s)
  unfolding interpret_bin_op
  interpret_bin_op-IsTypedState key op width x y s e h k t =
      Gives-bind (HasKind lib (nat_eq width 1)) (IsTypedState lib is_flag)
        (resolve_value lib opts x s) _
        (resolve_value-HasKind lib opts is_flag whole (nat_eq width 1) x s t h)
        (λ a p.
          Gives-bind (HasKind lib (nat_eq width 1)) (IsTypedState lib is_flag)
            (resolve_value lib opts y s) _
            (resolve_value-HasKind lib opts is_flag whole (nat_eq width 1) y s t k)
            (λ b q.
              assigned key (nat_eq width 1) _ s e (operator-HasKind (nat_eq width 1) op a b p q) t))

  interpret_icmp-IsTypedState :
      (key : ℕ) (pred : IntPredicate) (x y : Operand W) (s : State W Z)
      → is_flag key ≡ true
      → IsTypedState lib is_flag s
      → Gives (IsTypedState lib is_flag) (interpret_icmp lib opts key pred x y s)
  unfolding interpret_icmp Gives
  interpret_icmp-IsTypedState key pred x y s e t =
      Gives-after (IsTypedState lib is_flag) (resolve_value lib opts x s) _ (λ a.
        Gives-after (IsTypedState lib is_flag) (resolve_value lib opts y s) _ (λ b.
          Gives-after (IsTypedState lib is_flag) (int_predicate lib opts pred a b) _
            (λ c. assigned key true (ok (of_bool lib c)) s e (of_bool-HasKind c) t)))

  cast_flag-IsTypedState :
      (key width : ℕ) (x : Operand W) (s : State W Z)
      → is_flag key ≡ false
      → IsTypedState lib is_flag s
      → Gives (IsTypedState lib is_flag) (cast_flag lib opts key width x s)
  unfolding cast_flag Gives
  cast_flag-IsTypedState key width x s e t =
      Gives-after (IsTypedState lib is_flag) (bool_operand x s) _ (λ a.
        Gives-after (IsTypedState lib is_flag) (unsafe_bool lib a) _
          (λ b. assigned key false (ok (of_flag lib opts width b)) s e (of_flag-HasKind width b) t))

  assign_cast-IsTypedState :
      (key : ℕ) (kind : CastKind) (width : ℕ) (x : Operand W) (s : State W Z)
      → is_flag (cast_key kind key) ≡ false
      → IsTypedOperand lib is_flag false x
      → IsTypedState lib is_flag s
      → Gives (IsTypedState lib is_flag) (assign_cast lib opts key kind width x s)
  unfolding assign_cast
  assign_cast-IsTypedState key kind width x s e h t =
      Gives-bind (HasKind lib false) (IsTypedState lib is_flag) (resolve_value lib opts x s) _
        (resolve_value-HasKind lib opts is_flag whole false x s t h)
        (λ a p.
          assigned (cast_key kind key) false _ s e (cast_value-HasKind lib opts kind width a p) t)

  cast_number-IsTypedState :
      (key : ℕ) (kind : CastKind) (width : ℕ) (x : Operand W) (s : State W Z)
      → is_flag (cast_key kind key) ≡ false
      → IsTypedOperand lib is_flag false x
      → IsTypedState lib is_flag s
      → Gives (IsTypedState lib is_flag) (cast_number lib opts key kind width x s)
  unfolding cast_number
  cast_number-IsTypedState key zext_cast width x s e h t =
      assign_cast-IsTypedState key zext_cast width x s e h t
  cast_number-IsTypedState key sext_cast width x s e h t =
      assign_cast-IsTypedState key sext_cast width x s e h t
  cast_number-IsTypedState key trunc_cast width x s e h t =
      assign_cast-IsTypedState key trunc_cast width x s e h t
  cast_number-IsTypedState key ptr_to_int_cast width x s e h t =
      assign_cast-IsTypedState key ptr_to_int_cast width x s e h t
  cast_number-IsTypedState key int_to_ptr_cast width x s e h t =
      assign_cast-IsTypedState key int_to_ptr_cast width x s e h t
  cast_number-IsTypedState key other_cast width x s e h t =
      Gives-err (IsTypedState lib is_flag) exit_one

  chosen-IsTypedOperand :
      (kind b : Bool) (x y : Operand W)
      → IsTypedOperand lib is_flag kind x
      → IsTypedOperand lib is_flag kind y
      → IsTypedOperand lib is_flag kind (if b then x else y)
  chosen-IsTypedOperand kind true x y h k = h
  chosen-IsTypedOperand kind false x y h k = k

  interpret_select-IsTypedState :
      (key : ℕ) (c x y : Operand W) (s : State W Z)
      → IsTypedOperand lib is_flag (is_flag key) x
      → IsTypedOperand lib is_flag (is_flag key) y
      → IsTypedState lib is_flag s
      → Gives (IsTypedState lib is_flag) (interpret_select lib opts key c x y s)
  unfolding interpret_select
  interpret_select-IsTypedState key c x y s h k t =
      Gives-after (IsTypedState lib is_flag) (resolve_value lib opts c s) _ (λ cond.
        Gives-after (IsTypedState lib is_flag) (unsafe_bool lib cond) _ (λ b.
          assigned key (is_flag key) (resolve_value lib opts (if b then x else y) s) s refl
            (resolve_value-HasKind lib opts is_flag whole (is_flag key) (if b then x else y) s t
              (chosen-IsTypedOperand (is_flag key) b x y h k))
            t))

  pub interpret_instruction-IsTypedState :
      (functions : ℕ → Function) (key : ℕ) (i : Instruction W) (s : State W Z)
      → IsTypedInstruction lib is_flag functions key i
      → IsTypedState lib is_flag s
      → Gives (IsTypedState lib is_flag) (interpret_instruction lib opts key i s)
  unfolding interpret_instruction IsTypedInstruction interpret_cast Gives
  interpret_instruction-IsTypedState functions key (bin_op op width x y) s h t =
      interpret_bin_op-IsTypedState key op width x y s h.0 h.1 h.2 t
  interpret_instruction-IsTypedState functions key (icmp pred x y) s h t =
      interpret_icmp-IsTypedState key pred x y s h t
  interpret_instruction-IsTypedState functions key (cast kind from_bool width x) s h t =
      Gives-test (IsTypedState lib is_flag) (from_bool && ltb 1 width) _ _
        (cast_flag-IsTypedState key width x s h.0 t)
        (λ e. cast_number-IsTypedState key kind width x s h.1 (h.2 e) t)
  interpret_instruction-IsTypedState functions key (gep x indices) s h t =
      assigned key false (resolve_gep lib opts x indices s) s h.0
        (resolve_gep-HasKind lib opts is_flag whole x indices s t h.1) t
  interpret_instruction-IsTypedState functions key (load width x) s h t =
      interpret_load-IsTypedState lib opts is_flag whole key width x s h t
  interpret_instruction-IsTypedState functions key (store width x y) s h t =
      interpret_store-IsTypedState lib opts is_flag whole width x y s h t
  interpret_instruction-IsTypedState functions key (select c x y) s h t =
      interpret_select-IsTypedState key c x y s h.0 h.1 t
  interpret_instruction-IsTypedState functions key (call f xs) s h t = t
  interpret_instruction-IsTypedState functions key unsupported s h t = t
