-- ===== src/Dynamic/Interpreter/Functions.antt =====
-- `interpretFunction` and `interpretFunctionPair` of the interpreter. The fuel counts blocks, and a
-- call that a block makes has what is left.
use llreve.Prelude.{
  ℕ, zero, suc, Bool, true, false, ◌||◌, Option, none, some, ltb, Result, ok, err, out_of_fuel,
  ◌>>=◌,
}
use llreve.Dynamic.Integers.{Arithmetic, NumberOptions}
use llreve.Dynamic.Machine.{
  Block, Function, Heap, State, VarMap, Call, made, Steps, no_steps, add_step, BlockUpdate,
}
use llreve.Dynamic.Interpreter.Blocks.{add_u32, sub_u32, interpret_block}

-- The variables of the loop of `interpretFunction`.
pub record Progress (W Z : Type 0) : Type 0 where
  pub state : State W Z
  pub previous : Option ℕ
  pub current : ℕ
  pub first : Bool
  pub visited : ℕ
  pub steps : Steps W Z

module _ {W Z : Type 0} where
  unfoldable pub begin_at : ℕ → State W Z → Progress W Z
  begin_at b s = record {
    state = s;
    previous = none;
    current = b;
    first = true;
    visited = 0;
    steps = no_steps;
  }

  -- The loop variables after a block.
  unfoldable pub advance : Progress W Z → BlockUpdate W Z → Progress W Z
  unfolding add_u32 add_step
  advance p u = record {
    state = u.end_state;
    previous = some p.current;
    current = elim u.next_block [ none ↦ p.current | some b ↦ b ];
    first = false;
    visited = add_u32 p.visited u.visited;
    steps = add_step p.steps p.current u.state_after_phis u.calls;
  }

  -- the call that is returned
  unfoldable pub finish : ℕ → State W Z → Bool → Progress W Z → Call W Z
  finish f entry early p = made f entry p.state p.steps early p.visited

module _ {W Z : Type 0} where
  -- A call runs the function from its entry block.
  unfoldable pub call_with :
      (ℕ → Function)
      → (ℕ → State W Z → Progress W Z → ℕ → Result (Call W Z))
      → ℕ
      → State W Z
      → ℕ
      → Result (Call W Z)
  unfolding begin_at
  call_with functions run g s steps = run g s (begin_at (functions g).entry_block s) steps

  -- The end of the loop body: an early exit, a return, or the next round.
  unfoldable pub after_block :
      (Progress W Z → ℕ → Result (Call W Z))
      → ℕ
      → State W Z
      → ℕ
      → Progress W Z
      → BlockUpdate W Z
      → Result (Call W Z)
  unfolding advance finish
  after_block next f entry max_steps p u =
      elim (ltb max_steps (advance p u).visited || u.stopped_early) [
        | true ↦ ok (finish f entry true (advance p u))
        | false ↦ elim u.next_block [
          | none ↦ ok (finish f entry false (advance p u))
          | some b ↦ next (advance p u) max_steps
        ]
      ]

module _ {W Z : Type 0} (lib : Arithmetic W Z) (opts : NumberOptions) (functions : ℕ → Function)
    (blocks : ℕ → Block W) where
  unfoldable pub interpret_from : ℕ → ℕ → State W Z → Progress W Z → ℕ → Result (Call W Z)
  unfolding interpret_block sub_u32 call_with after_block
  interpret_from zero f entry p max_steps = err out_of_fuel
  interpret_from (suc fuel) f entry p max_steps = do
    u ←
        interpret_block lib opts functions (call_with functions (interpret_from fuel))
          (blocks p.current) p.previous p.state p.first (sub_u32 max_steps p.visited)
    after_block (interpret_from fuel f entry) f entry max_steps p u

  unfoldable pub interpret_function_at : ℕ → ℕ → State W Z → ℕ → ℕ → Result (Call W Z)
  unfolding interpret_from begin_at
  interpret_function_at fuel f entry start max_steps =
      interpret_from fuel f entry (begin_at start entry) max_steps

  unfoldable pub interpret_function : ℕ → ℕ → State W Z → ℕ → Result (Call W Z)
  unfolding interpret_function_at
  interpret_function fuel f entry max_steps =
      interpret_function_at fuel f entry (functions f).entry_block max_steps

  -- Two programs, each with variables and a heap of its own.
  unfoldable pub interpret_function_pair :
      ℕ → ℕ × ℕ → VarMap W Z × VarMap W Z → Heap W Z × Heap W Z → ℕ → Result (Call W Z × Call W Z)
  unfolding interpret_function
  interpret_function_pair fuel funs variables heaps max_steps = do
    c ←
        interpret_function fuel funs.0 (record { variables = variables.0; heap = heaps.0 })
          max_steps
    d ←
        interpret_function fuel funs.1 (record { variables = variables.1; heap = heaps.1 })
          max_steps
    ok (c, d)

  unfoldable pub interpret_function_pair_at :
      ℕ
      → ℕ × ℕ
      → VarMap W Z × VarMap W Z
      → Heap W Z × Heap W Z
      → ℕ × ℕ
      → ℕ
      → Result (Call W Z × Call W Z)
  unfolding interpret_function_at
  interpret_function_pair_at fuel funs variables heaps starts max_steps = do
    c ←
        interpret_function_at fuel funs.0 (record { variables = variables.0; heap = heaps.0 })
          starts.0 max_steps
    d ←
        interpret_function_at fuel funs.1 (record { variables = variables.1; heap = heaps.1 })
          starts.1 max_steps
    ok (c, d)
