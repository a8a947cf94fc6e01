-- ===== src/Dynamic/Interpreter/Typed/Runs.antt =====
-- Runs of the interpreter in integer mode keep the kinds of variables and of heap cells, those of the
-- functions that are called included.
use llreve.Prelude.{
  ℕ, zero, suc, ◌≡◌, Bool, true, false, ltb, ◌||◌, Option, none, some, Result, ok, out_of_fuel,
}
use llreve.Dynamic.Integers.{Arithmetic, NumberOptions}
use llreve.Dynamic.Machine.{Block, Function, State, Call, BlockUpdate}
use llreve.Dynamic.Interpreter.Blocks.{sub_u32, interpret_block}
use llreve.Dynamic.Interpreter.Functions.{
  Progress, begin_at, advance, finish, call_with, after_block, interpret_from,
  interpret_function_at,
}
use llreve.Dynamic.Interpreter.Typed.{Gives, IsTypedState, IsTypedBlock}
use llreve.Dynamic.Interpreter.Typed.Values.{Gives-bind, Gives-err, Gives-ok}
use llreve.Dynamic.Interpreter.Typed.Blocks.{Gives-branch}
use llreve.Dynamic.Interpreter.Typed.Bodies.{
  AreTypedSteps, IsTypedCall, add_step-AreTypedSteps, IsTypedUpdate, interpret_block-IsTypedUpdate,
}

module _ {W Z : Type 0} (lib : Arithmetic W Z) (is_flag : ℕ → Bool) where
  IsTypedProgress : Progress W Z → Type 0
  IsTypedProgress p = IsTypedState lib is_flag p.state × AreTypedSteps lib is_flag p.steps

  advance-IsTypedProgress :
      (p : Progress W Z) (u : BlockUpdate W Z)
      → IsTypedProgress p
      → IsTypedUpdate lib is_flag u
      → IsTypedProgress (advance p u)
  unfolding IsTypedProgress IsTypedUpdate advance
  advance-IsTypedProgress p u h k =
      (k.1, add_step-AreTypedSteps lib is_flag p.steps p.current u.state_after_phis u.calls h.1 k.0)

  finish-IsTypedCall :
      (f : ℕ) (entry : State W Z) (early : Bool) (p : Progress W Z)
      → IsTypedProgress p
      → Gives (IsTypedCall lib is_flag) (ok (finish f entry early p))
  unfolding IsTypedProgress IsTypedCall finish Gives
  finish-IsTypedCall f entry early p h = h

  after_block-IsTypedCall :
      (next : Progress W Z → ℕ → Result (Call W Z)) (f : ℕ) (entry : State W Z) (max_steps : ℕ)
      (p : Progress W Z) (u : BlockUpdate W Z)
      → ((q : Progress W Z)
          → IsTypedProgress q
          → Gives (IsTypedCall lib is_flag) (next q max_steps))
      → IsTypedProgress p
      → IsTypedUpdate lib is_flag u
      → Gives (IsTypedCall lib is_flag) (after_block next f entry max_steps p u)
  unfolding after_block
  after_block-IsTypedCall next f entry max_steps p u onward h k =
      let q = advance-IsTypedProgress p u h k in
      Gives-branch (IsTypedCall lib is_flag)
        (ltb max_steps (advance p u).visited || u.stopped_early) _ _
        (finish-IsTypedCall f entry true (advance p u) q)
        (Gives-next u.next_block (finish-IsTypedCall f entry false (advance p u) q)
          (onward (advance p u) q))
    where
      Gives-next :
          (b : Option ℕ)
          → Gives (IsTypedCall lib is_flag) (ok (finish f entry false (advance p u)))
          → Gives (IsTypedCall lib is_flag) (next (advance p u) max_steps)
          → Gives (IsTypedCall lib is_flag) (elim b [
            | none ↦ ok (finish f entry false (advance p u))
            | some c ↦ next (advance p u) max_steps
          ])
      Gives-next none m n = m
      Gives-next (some b) m n = n

module _ {W Z : Type 0} (lib : Arithmetic W Z) (opts : NumberOptions) (is_flag : ℕ → Bool)
    (whole : opts.bit_vect ≡ false) (one_bit : (n : ℕ) → lib.words.width (lib.words.word 1 n) ≡ 1)
    (functions : ℕ → Function) (blocks : ℕ → Block W)
    (typed : (b : ℕ) → IsTypedBlock lib is_flag functions (blocks b)) where
  called-IsTypedCall :
      (run : ℕ → State W Z → Progress W Z → ℕ → Result (Call W Z)) (g : ℕ) (s : State W Z)
      (steps : ℕ)
      → Gives (IsTypedCall lib is_flag) (run g s (begin_at (functions g).entry_block s) steps)
      → Gives (IsTypedCall lib is_flag) (call_with functions run g s steps)
  unfolding call_with
  called-IsTypedCall run g s steps h = h

  interpret_from-IsTypedCall :
      (fuel f : ℕ) (entry : State W Z) (p : Progress W Z) (max_steps : ℕ)
      → IsTypedProgress lib is_flag p
      → Gives
          (IsTypedCall lib is_flag)
          (interpret_from lib opts functions blocks fuel f entry p max_steps)
  unfolding interpret_from IsTypedProgress begin_at AreTypedSteps
  interpret_from-IsTypedCall zero f entry p max_steps h =
      Gives-err (IsTypedCall lib is_flag) out_of_fuel
  interpret_from-IsTypedCall (suc fuel) f entry p max_steps h =
      Gives-bind (IsTypedUpdate lib is_flag) (IsTypedCall lib is_flag)
        (interpret_block lib opts functions
          (call_with functions (interpret_from lib opts functions blocks fuel)) (blocks p.current)
          p.previous p.state p.first (sub_u32 max_steps p.visited))
        _
        (interpret_block-IsTypedUpdate lib opts is_flag whole one_bit functions
          (call_with functions (interpret_from lib opts functions blocks fuel))
          (λ g s steps t.
            called-IsTypedCall (interpret_from lib opts functions blocks fuel) g s steps (
              interpret_from-IsTypedCall fuel g s (begin_at (functions g).entry_block s) steps
                (t, tt)))
          (blocks p.current) p.previous p.state p.first (sub_u32 max_steps p.visited)
          (typed p.current) h.0)
        (λ u k.
          after_block-IsTypedCall lib is_flag
            (interpret_from lib opts functions blocks fuel f entry) f entry max_steps p u
            (λ q r. interpret_from-IsTypedCall fuel f entry q max_steps r) h k)

  -- If words made with one bit have the width 1, then in integer mode, for functions whose
  -- instructions have operands and results of the kinds that their variables have, a run from a
  -- state of these kinds, with the calls that it makes, leaves a state of these kinds: a truth value
  -- is a word of one bit, and every other value, in variables and in the heap, is a number without
  -- a width. So are the states of all its steps.
  pub interpret_function_at-IsTypedCall :
      (fuel f : ℕ) (entry : State W Z) (start max_steps : ℕ) {c : Call W Z}
      → IsTypedState lib is_flag entry
      → interpret_function_at lib opts functions blocks fuel f entry start max_steps ≡ ok c
      → IsTypedCall lib is_flag c
  unfolding interpret_function_at begin_at IsTypedProgress AreTypedSteps
  interpret_function_at-IsTypedCall fuel f entry start max_steps t e =
      Gives-ok (IsTypedCall lib is_flag)
        (interpret_from lib opts functions blocks fuel f entry (begin_at start entry) max_steps)
        (interpret_from-IsTypedCall fuel f entry (begin_at start entry) max_steps (t, tt)) e
