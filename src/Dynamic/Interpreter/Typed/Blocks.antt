-- ===== src/Dynamic/Interpreter/Typed/Blocks.antt =====
-- Phis, terminators and arguments of calls in integer mode have the kinds of their variables.
use mathlib.Core.Path.{subst}
use llreve.Prelude.{
  ℕ, ◌≡◌, sym, Bool, true, false, nat_eq, List, [], ◌∷◌, Option, none, some, All, pos, Result, ok,
}
use llreve.Dynamic.Integers.{Arithmetic, Integer, unbounded, NumberOptions}
use llreve.Dynamic.Machine.{
  Operand, Terminator, return, branch, cond_branch, switch, other_terminator, State, set_variable,
}
use llreve.Dynamic.Interpreter.Operators.{unsafe_bool, resolve_value}
use llreve.Dynamic.Interpreter.Blocks.{
  incoming_operand, interpret_phis, case_successor, interpret_terminator, bind_arguments,
}
use llreve.Dynamic.Interpreter.Typed.{
  Gives, HasKind, IsTypedMap, IsTypedState, IsTypedOperand, AreTypedArguments, IsTypedTerminator,
}
use llreve.Dynamic.Interpreter.Typed.Values.{Gives-bind, Gives-after, Gives-if}
use llreve.Dynamic.Interpreter.Typed.Heaps.{resolve_value-HasKind, set_variable-IsTypedState}

-- a branch that waits for its test
pub Gives-branch :
    {B : Type 0} (Q : B → Type 0) (b : Bool) (m n : Result B)
    → Gives Q m
    → Gives Q n
    → Gives Q (elim b [ true ↦ m | false ↦ n ])
Gives-branch Q true m n p q = p
Gives-branch Q false m n p q = q

module _ {W Z : Type 0} (lib : Arithmetic W Z) (opts : NumberOptions) (is_flag : ℕ → Bool)
    (whole : opts.bit_vect ≡ false)
    (one_bit : (n : ℕ) → lib.words.width (lib.words.word 1 n) ≡ 1) where
  incoming_operand-IsTypedOperand :
      (kind : Bool) (xs : List (ℕ × Operand W)) (prev : Option ℕ)
      → All (λ x. IsTypedOperand lib is_flag kind x.1) xs
      → Gives (IsTypedOperand lib is_flag kind) (incoming_operand xs prev)
  unfolding incoming_operand Gives
  incoming_operand-IsTypedOperand kind xs none h = no_block xs
    where
      no_block :
          (xs : List (ℕ × Operand W))
          → Gives (IsTypedOperand lib is_flag kind) (incoming_operand xs none)
      no_block [] = tt
      no_block (x ∷ xs) = tt
  incoming_operand-IsTypedOperand kind [] (some b) h = tt
  incoming_operand-IsTypedOperand kind (x ∷ xs) (some b) h =
      Gives-if (IsTypedOperand lib is_flag kind) (nat_eq x.0 b) (ok x.1)
        (incoming_operand xs (some b)) h.0 (incoming_operand-IsTypedOperand kind xs (some b) h.1)

  pub interpret_phis-IsTypedState :
      (prev : Option ℕ) (phis : List (ℕ × List (ℕ × Operand W))) (s : State W Z)
      → All (λ phi. All (λ x. IsTypedOperand lib is_flag (is_flag phi.0) x.1) phi.1) phis
      → IsTypedState lib is_flag s
      → Gives (IsTypedState lib is_flag) (interpret_phis lib opts prev phis s)
  unfolding interpret_phis Gives
  interpret_phis-IsTypedState prev [] s h t = t
  interpret_phis-IsTypedState prev (phi ∷ phis) s h t =
      Gives-bind (IsTypedOperand lib is_flag (is_flag phi.0)) (IsTypedState lib is_flag)
        (incoming_operand phi.1 prev) _
        (incoming_operand-IsTypedOperand (is_flag phi.0) phi.1 prev h.0)
        (λ x k.
          Gives-bind (HasKind lib (is_flag phi.0)) (IsTypedState lib is_flag)
            (resolve_value lib opts x s) _
            (resolve_value-HasKind lib opts is_flag whole (is_flag phi.0) x s t k)
            (λ v r.
              interpret_phis-IsTypedState prev phis (set_variable phi.0 v s) h.1
                (set_variable-IsTypedState lib is_flag phi.0 v s r t)))

  -- what a function returns that has no value to return
  abbrev zero_value : Integer W Z
  zero_value = unbounded (lib.numbers.of_int (pos 0))

  pub interpret_terminator-IsTypedState :
      (t : Terminator W) (s : State W Z)
      → IsTypedTerminator lib is_flag t
      → IsTypedState lib is_flag s
      → Gives (λ r. IsTypedState lib is_flag r.0) (interpret_terminator lib opts t s)
  unfolding interpret_terminator IsTypedTerminator Gives HasKind
  interpret_terminator-IsTypedState (return key none) s h t =
      set_variable-IsTypedState lib is_flag key zero_value s
        (subst (λ b. HasKind lib b zero_value) (sym h) tt) t
  interpret_terminator-IsTypedState (return key (some x)) s h t =
      Gives-bind (HasKind lib (is_flag key)) (λ r. IsTypedState lib is_flag r.0)
        (resolve_value lib opts x s) _
        (resolve_value-HasKind lib opts is_flag whole (is_flag key) x s t h)
        (λ v k. set_variable-IsTypedState lib is_flag key v s k t)
  interpret_terminator-IsTypedState (branch b) s h t = t
  interpret_terminator-IsTypedState (cond_branch c b₀ b₁) s h t =
      Gives-after (λ r. IsTypedState lib is_flag r.0) (resolve_value lib opts c s) _
        (λ v. Gives-after (λ r. IsTypedState lib is_flag r.0) (unsafe_bool lib v) _ (λ b. t))
  interpret_terminator-IsTypedState (switch c cases default) s h t =
      Gives-after (λ r. IsTypedState lib is_flag r.0) (resolve_value lib opts c s) _
        (λ v.
          Gives-after (λ r. IsTypedState lib is_flag r.0) (case_successor lib opts cases v default)
            _ (λ b. t))
  interpret_terminator-IsTypedState other_terminator s h t = t

  pub bind_arguments-IsTypedMap :
      (args : List ℕ) (xs : List (Operand W)) (s : State W Z)
      → AreTypedArguments lib is_flag args xs
      → IsTypedState lib is_flag s
      → Gives (IsTypedMap lib is_flag) (bind_arguments lib opts args xs s)
  unfolding bind_arguments AreTypedArguments Gives IsTypedMap
  bind_arguments-IsTypedMap args [] s h t = tt
  bind_arguments-IsTypedMap [] (x ∷ xs) s h t = tt
  bind_arguments-IsTypedMap (a ∷ args) (x ∷ xs) s h t =
      Gives-bind (HasKind lib (is_flag a)) (IsTypedMap lib is_flag) (resolve_value lib opts x s) _
        (resolve_value-HasKind lib opts is_flag whole (is_flag a) x s t h.0)
        (λ v k.
          Gives-bind (IsTypedMap lib is_flag) (IsTypedMap lib is_flag)
            (bind_arguments lib opts args xs s) _ (bind_arguments-IsTypedMap args xs s h.1 t)
            (λ vars r. (k, r)))
