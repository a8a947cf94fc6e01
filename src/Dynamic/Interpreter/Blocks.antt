-- ===== src/Dynamic/Interpreter/Blocks.antt =====
-- Instructions, blocks and functions of the interpreter.
use llreve.Prelude.{
  ℕ, ◌+◌, ◌-◌, ◌%◌, ◌^◌, Bool, true, false, ◌||◌, if◌then◌else◌, nat_eq, ltb, pos, List, [], ◌∷◌,
  Option, none, some, Result, ok, err, assertion, out_of_range, undefined, ◌>>=◌,
}
use llreve.Dynamic.Integers.{Arithmetic, Integer, unbounded, bounded, NumberOptions, sext_number}
use llreve.Dynamic.Integers.Compare.{eq}
use llreve.Dynamic.Machine.{
  Operand, Instruction, bin_op, icmp, cast, gep, load, store, select, call, unsupported, Terminator,
  return, branch, cond_branch, switch, other_terminator, Block, Function, State, VarMap,
  find_variable, set_variable, Call, Calls, no_calls, add_call, return_state, early_exit,
  blocks_visited, BlockUpdate,
}
use llreve.Dynamic.Interpreter.Operators.{
  resolve_value, unsafe_bool, interpret_bin_op, interpret_icmp, interpret_cast,
}
use llreve.Dynamic.Interpreter.Memory.{interpret_load, interpret_store, resolve_gep}

-- `uint32_t` arithmetic
unfoldable pub add_u32 : ℕ → ℕ → ℕ
add_u32 a b = (a + b) % 2 ^ 32

unfoldable pub sub_u32 : ℕ → ℕ → ℕ
sub_u32 a b = (a + 2 ^ 32 - b) % 2 ^ 32

-- `getIncomingValueForBlock`, which asserts that the block before is one of the phi's
unfoldable pub incoming_operand :
    {W : Type 0} → List (ℕ × Operand W) → Option ℕ → Result (Operand W)
incoming_operand xs none = err assertion
incoming_operand [] (some prev) = err assertion
incoming_operand ((b, x) ∷ xs) (some prev) =
    if nat_eq b prev then ok x else incoming_operand xs (some prev)

module _ {W Z : Type 0} (lib : Arithmetic W Z) (opts : NumberOptions) where
  open lib use {words, numbers}

  unfoldable pub interpret_select :
      ℕ → Operand W → Operand W → Operand W → State W Z → Result (State W Z)
  unfolding resolve_value unsafe_bool set_variable
  interpret_select key c x y s = do
    cond ← resolve_value lib opts c s
    b ← unsafe_bool lib cond
    v ← resolve_value lib opts (if b then x else y) s
    ok (set_variable key v s)

  -- `interpretInstruction`; an instruction that is not supported is skipped with a message. Calls
  -- are interpreted by the block.
  unfoldable pub interpret_instruction : ℕ → Instruction W → State W Z → Result (State W Z)
  unfolding interpret_bin_op interpret_icmp interpret_cast resolve_gep set_variable interpret_load
      interpret_store interpret_select
  interpret_instruction key (bin_op op width x y) s = interpret_bin_op lib opts key op width x y s
  interpret_instruction key (icmp pred x y) s = interpret_icmp lib opts key pred x y s
  interpret_instruction key (cast kind from_bool width x) s =
      interpret_cast lib opts key kind from_bool width x s
  interpret_instruction key (gep x indices) s = do
    v ← resolve_gep lib opts x indices s
    ok (set_variable key v s)
  interpret_instruction key (load width x) s = interpret_load lib opts key width x s
  interpret_instruction key (store width x y) s = interpret_store lib opts width x y s
  interpret_instruction key (select c x y) s = interpret_select key c x y s
  interpret_instruction key (call f xs) s = ok s
  interpret_instruction key unsupported s = ok s

  -- The phis at the head of a block, one after the other.
  unfoldable pub interpret_phis :
      Option ℕ → List (ℕ × List (ℕ × Operand W)) → State W Z → Result (State W Z)
  unfolding incoming_operand resolve_value set_variable
  interpret_phis prev [] s = ok s
  interpret_phis prev ((key, xs) ∷ phis) s = do
    x ← incoming_operand xs prev
    v ← resolve_value lib opts x s
    interpret_phis prev phis (set_variable key v s)

  -- The value of a case; in integer mode it is not a word also where it has one bit.
  unfoldable pub case_value : W → Result (Integer W Z)
  unfolding sext_number
  case_value w =
      if opts.bit_vect then ok (bounded w) else sext_number lib w >>= (λ n. ok (unbounded n))

  unfoldable pub case_successor : List (W × ℕ) → Integer W Z → ℕ → Result ℕ
  unfolding eq case_value
  case_successor [] v default = ok default
  case_successor ((w, b) ∷ cases) v default = do
    c ← case_value w
    same ← eq lib c v
    elim same [ true ↦ ok b | false ↦ case_successor cases v default ]

  -- `interpretTerminator`, with the state after it and the next block, if there is one
  unfoldable pub interpret_terminator : Terminator W → State W Z → Result (State W Z × Option ℕ)
  unfolding resolve_value unsafe_bool set_variable case_successor
  interpret_terminator (return key none) s =
      ok (set_variable key (unbounded (numbers.of_int (pos 0))) s, none)
  interpret_terminator (return key (some x)) s = do
    v ← resolve_value lib opts x s
    ok (set_variable key v s, none)
  interpret_terminator (branch b) s = ok (s, some b)
  interpret_terminator (cond_branch c b₀ b₁) s = do
    cond ← resolve_value lib opts c s
    t ← unsafe_bool lib cond
    ok (s, some (if t then b₀ else b₁))
  interpret_terminator (switch c cases default) s = do
    v ← resolve_value lib opts c s
    b ← case_successor cases v default
    ok (s, some b)
  interpret_terminator other_terminator s = ok (s, none)

  -- The arguments of a call; more operands than arguments run over the end of the list.
  unfoldable pub bind_arguments : List ℕ → List (Operand W) → State W Z → Result (VarMap W Z)
  unfolding resolve_value
  bind_arguments args [] s = ok []
  bind_arguments [] (x ∷ xs) s = err undefined
  bind_arguments (a ∷ args) (x ∷ xs) s = do
    v ← resolve_value lib opts x s
    vars ← bind_arguments args xs s
    ok ((a, v) ∷ vars)

-- A block's body, with the calls made and the blocks visited so far; `stopped` says whether a call
-- has used up the steps.
pub record BodyState (W Z : Type 0) : Type 0 where
  pub state : State W Z
  pub calls : Calls W Z
  pub visited : ℕ
  pub stopped : Bool

module _ {W Z : Type 0} (lib : Arithmetic W Z) (opts : NumberOptions) where
  -- the end of the block, which a block that stopped early does not reach
  unfoldable pub finish_block : Block W → State W Z → BodyState W Z → Result (BlockUpdate W Z)
  unfolding interpret_terminator
  finish_block block after_phis b = elim b.stopped [
    | true ↦ ok (record {
      state_after_phis = after_phis;
      end_state = b.state;
      next_block = none;
      calls = b.calls;
      stopped_early = true;
      visited = b.visited;
    })
    | false ↦ interpret_terminator lib opts block.terminator b.state >>= (λ t. ok (record {
      state_after_phis = after_phis;
      end_state = t.0;
      next_block = t.1;
      calls = b.calls;
      stopped_early = false;
      visited = b.visited;
    }))
  ]

module _ {W Z : Type 0} (lib : Arithmetic W Z) (opts : NumberOptions)
    (functions : ℕ → Function) where
  -- `analysisResults.at(fun).returnInstruction`
  unfoldable pub return_key : ℕ → Result ℕ
  return_key f = elim (functions f).return_instruction [ none ↦ err out_of_range | some r ↦ ok r ]

  module _ (interpret_call : ℕ → State W Z → ℕ → Result (Call W Z)) where
    unfoldable pub after_call : ℕ → ℕ → ℕ → Call W Z → BodyState W Z → Result (BodyState W Z)
    unfolding add_u32 add_call set_variable find_variable return_key
    after_call key f max_steps c b =
        let visited = add_u32 b.visited (blocks_visited c) in
        let stop = ok (record b { visited = visited; stopped = true }) in
        let onward = return_key f >>= (λ r. find_variable (return_state c).variables r) >>= (λ v.
          ok (record {
            state =
                set_variable key v
                  (record { variables = b.state.variables; heap = (return_state c).heap });
            calls = add_call b.calls c;
            visited = visited;
            stopped = false;
          })) in
        if ltb max_steps visited || early_exit c then stop else onward

    unfoldable pub interpret_body_instruction :
        ℕ → ℕ → Instruction W → BodyState W Z → Result (BodyState W Z)
    unfolding bind_arguments after_call sub_u32 interpret_instruction
    interpret_body_instruction max_steps key (call f xs) b = do
      args ← bind_arguments lib opts (functions f).arguments xs b.state
      c ←
          interpret_call f (record { variables = args; heap = b.state.heap })
            (sub_u32 max_steps b.visited)
      after_call key f max_steps c b
    interpret_body_instruction max_steps key i b = do
      s ← interpret_instruction lib opts key i b.state
      ok (record b { state = s })

    unfoldable pub interpret_body :
        ℕ → List (ℕ × Instruction W) → BodyState W Z → Result (BodyState W Z)
    unfolding interpret_body_instruction
    interpret_body max_steps [] b = ok b
    interpret_body max_steps ((key, i) ∷ is) b = do
      b' ← interpret_body_instruction max_steps key i b
      elim b'.stopped [ true ↦ ok b' | false ↦ interpret_body max_steps is b' ]

    unfoldable pub interpret_block :
        Block W → Option ℕ → State W Z → Bool → ℕ → Result (BlockUpdate W Z)
    unfolding interpret_phis interpret_body finish_block
    interpret_block block prev s skip_phi max_steps = do
      after_phis ← (if skip_phi then ok s else interpret_phis lib opts prev block.phis s)
      b ←
          interpret_body max_steps block.body
            (record { state = after_phis; calls = no_calls; visited = 1; stopped = false })
      finish_block lib opts block after_phis b
