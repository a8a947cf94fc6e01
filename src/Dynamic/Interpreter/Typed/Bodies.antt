-- ===== src/Dynamic/Interpreter/Typed/Bodies.antt =====
-- Blocks of the interpreter in integer mode keep the kinds of variables and of heap cells, if the calls
-- do that they make.
use mathlib.Core.Path.{subst}
use llreve.Prelude.{
  ℕ, ◌≡◌, Bool, false, ◌||◌, ltb, if◌then◌else◌, List, [], ◌∷◌, Option, none, some, All, Result, ok,
  err, out_of_range, ◌>>=◌,
}
use llreve.Dynamic.Integers.{Arithmetic, NumberOptions}
use llreve.Dynamic.Machine.{
  Operand, Instruction, bin_op, icmp, cast, gep, load, store, select, call, unsupported, Block,
  Function, State, VarMap, find_variable, Call, made, Steps, no_steps, step, Calls, no_calls,
  add_step, return_state, early_exit, blocks_visited, BlockUpdate,
}
use llreve.Dynamic.Interpreter.Blocks.{
  add_u32, sub_u32, interpret_instruction, interpret_phis, interpret_terminator, bind_arguments,
  BodyState, finish_block, return_key, after_call, interpret_body_instruction, interpret_body,
  interpret_block,
}
use llreve.Dynamic.Interpreter.Typed.{
  Gives, HasKind, IsTypedMap, IsTypedState, IsTypedInstruction, IsTypedTerminator, IsTypedBlock,
  IsReturnKind,
}
use llreve.Dynamic.Interpreter.Typed.Values.{Gives-bind, Gives-if, Gives-err, find_variable-HasKind}
use llreve.Dynamic.Interpreter.Typed.Heaps.{set_variable-IsTypedState}
use llreve.Dynamic.Interpreter.Typed.Instructions.{interpret_instruction-IsTypedState}
use llreve.Dynamic.Interpreter.Typed.Blocks.{
  Gives-branch, interpret_phis-IsTypedState, interpret_terminator-IsTypedState,
  bind_arguments-IsTypedMap,
}

module _ {W Z : Type 0} (lib : Arithmetic W Z) (is_flag : ℕ → Bool) where
  -- the states of a call's steps, and the one that it returns
  unfoldable pub AreTypedSteps : Steps W Z → Type 0
  unfolding IsTypedState
  AreTypedSteps no_steps = Unit
  AreTypedSteps (step b s cs steps) = IsTypedState lib is_flag s × AreTypedSteps steps

  unfoldable pub IsTypedCall : Call W Z → Type 0
  unfolding AreTypedSteps
  IsTypedCall (made f s t steps early visited) = IsTypedState lib is_flag t × AreTypedSteps steps

  pub add_step-AreTypedSteps :
      (steps : Steps W Z) (b : ℕ) (s : State W Z) (cs : Calls W Z)
      → AreTypedSteps steps
      → IsTypedState lib is_flag s
      → AreTypedSteps (add_step steps b s cs)
  unfolding AreTypedSteps add_step
  add_step-AreTypedSteps no_steps b s cs h t = (t, tt)
  add_step-AreTypedSteps (step b' s' cs' steps) b s cs h t =
      (h.0, add_step-AreTypedSteps steps b s cs h.1 t)

  pub return_state-IsTypedState :
      (c : Call W Z) → IsTypedCall c → IsTypedState lib is_flag (return_state c)
  unfolding IsTypedCall
  return_state-IsTypedState (made f s t steps early visited) h = h.0

  IsTypedBody : BodyState W Z → Type 0
  IsTypedBody b = IsTypedState lib is_flag b.state

  unfoldable pub IsTypedUpdate : BlockUpdate W Z → Type 0
  IsTypedUpdate u =
      IsTypedState lib is_flag u.state_after_phis × IsTypedState lib is_flag u.end_state

module _ {W Z : Type 0} (lib : Arithmetic W Z) (opts : NumberOptions) (is_flag : ℕ → Bool)
    (whole : opts.bit_vect ≡ false) (one_bit : (n : ℕ) → lib.words.width (lib.words.word 1 n) ≡ 1)
    (functions : ℕ → Function) where
  finish_block-IsTypedUpdate :
      (block : Block W) (s : State W Z) (b : BodyState W Z)
      → IsTypedTerminator lib is_flag block.terminator
      → IsTypedState lib is_flag s
      → IsTypedBody lib is_flag b
      → Gives (IsTypedUpdate lib is_flag) (finish_block lib opts block s b)
  unfolding finish_block IsTypedUpdate IsTypedBody Gives
  finish_block-IsTypedUpdate block s b h t k =
      Gives-branch (IsTypedUpdate lib is_flag) b.stopped _ _ (t, k)
        (Gives-bind (λ r. IsTypedState lib is_flag r.0) (IsTypedUpdate lib is_flag)
          (interpret_terminator lib opts block.terminator b.state) _
          (interpret_terminator-IsTypedState lib opts is_flag whole one_bit block.terminator b.state
            h k)
          (λ r p. (t, p)))

  returned_value-HasKind :
      (f : ℕ) (b : Bool) (vars : VarMap W Z)
      → IsReturnKind lib is_flag b (functions f).return_instruction
      → IsTypedMap lib is_flag vars
      → Gives (HasKind lib b) (return_key lib opts functions f >>= λ r. find_variable vars r)
  unfolding return_key IsReturnKind
  returned_value-HasKind f b vars = known (functions f).return_instruction
    where
      known :
          (r : Option ℕ)
          → IsReturnKind lib is_flag b r
          → IsTypedMap lib is_flag vars
          → Gives
              (HasKind lib b)
              (elim r [ none ↦ err out_of_range | some k ↦ ok k ] >>= λ k. find_variable vars k)
      known none e t = Gives-err (HasKind lib b) out_of_range
      known (some k) e t =
          subst (λ c. Gives (HasKind lib c) (find_variable vars k)) e
            (find_variable-HasKind lib is_flag vars k t)

  module _ (interpret_call : ℕ → State W Z → ℕ → Result (Call W Z))
      (calls : (f : ℕ) (s : State W Z) (steps : ℕ)
        → IsTypedState lib is_flag s
        → Gives (IsTypedCall lib is_flag) (interpret_call f s steps)) where
    after_call-IsTypedBody :
        (key f max_steps : ℕ) (c : Call W Z) (b : BodyState W Z)
        → IsReturnKind lib is_flag (is_flag key) (functions f).return_instruction
        → IsTypedCall lib is_flag c
        → IsTypedBody lib is_flag b
        → Gives
            (IsTypedBody lib is_flag)
            (after_call lib opts functions interpret_call key f max_steps c b)
    unfolding after_call IsTypedBody Gives IsTypedState
    after_call-IsTypedBody key f max_steps c b e h k =
        let r = return_state-IsTypedState lib is_flag c h in
        Gives-if (IsTypedBody lib is_flag)
          (ltb max_steps (add_u32 b.visited (blocks_visited c)) || early_exit c) _ _ k
          (Gives-bind (HasKind lib (is_flag key)) (IsTypedBody lib is_flag)
            (return_key lib opts functions f >>= λ r. find_variable (return_state c).variables r) _
            (returned_value-HasKind f (is_flag key) (return_state c).variables e r.0)
            (λ v p.
              set_variable-IsTypedState lib is_flag key v
                (record { variables = b.state.variables; heap = (return_state c).heap }) p
                (k.0, r.1)))

    plain-IsTypedBody :
        (key : ℕ) (i : Instruction W) (b : BodyState W Z)
        → IsTypedInstruction lib is_flag functions key i
        → IsTypedBody lib is_flag b
        → Gives
            (IsTypedBody lib is_flag)
            (interpret_instruction lib opts key i b.state >>= λ s. ok (record b { state = s }))
    unfolding IsTypedBody Gives
    plain-IsTypedBody key i b h k =
        Gives-bind (IsTypedState lib is_flag) (IsTypedBody lib is_flag)
          (interpret_instruction lib opts key i b.state) _
          (interpret_instruction-IsTypedState lib opts is_flag whole one_bit functions key i b.state
            h k)
          (λ s p. p)

    called-IsTypedBody :
        (max_steps key f : ℕ) (xs : List (Operand W)) (b : BodyState W Z)
        → IsTypedInstruction lib is_flag functions key (call f xs)
        → IsTypedBody lib is_flag b
        → Gives (IsTypedBody lib is_flag) (
            interpret_body_instruction lib opts functions interpret_call max_steps key
              (call f xs)
              b)
    unfolding interpret_body_instruction IsTypedBody IsTypedInstruction IsTypedState
    called-IsTypedBody max_steps key f xs b h k =
        Gives-bind (IsTypedMap lib is_flag) (IsTypedBody lib is_flag)
          (bind_arguments lib opts (functions f).arguments xs b.state) _
          (bind_arguments-IsTypedMap lib opts is_flag whole one_bit (functions f).arguments xs
            b.state h.1 k)
          (λ args p.
            Gives-bind (IsTypedCall lib is_flag) (IsTypedBody lib is_flag)
              (interpret_call f (record { variables = args; heap = b.state.heap })
                (sub_u32 max_steps b.visited))
              _
              (calls f (record { variables = args; heap = b.state.heap })
                (sub_u32 max_steps b.visited) (p, k.1))
              (λ c q. after_call-IsTypedBody key f max_steps c b h.0 q k))

    interpret_body_instruction-IsTypedBody :
        (max_steps key : ℕ) (i : Instruction W) (b : BodyState W Z)
        → IsTypedInstruction lib is_flag functions key i
        → IsTypedBody lib is_flag b
        → Gives
            (IsTypedBody lib is_flag)
            (interpret_body_instruction lib opts functions interpret_call max_steps key i b)
    unfolding interpret_body_instruction
    interpret_body_instruction-IsTypedBody max_steps key (call f xs) b h k =
        called-IsTypedBody max_steps key f xs b h k
    interpret_body_instruction-IsTypedBody max_steps key (bin_op op width x y) b h k =
        plain-IsTypedBody key (bin_op op width x y) b h k
    interpret_body_instruction-IsTypedBody max_steps key (icmp pred x y) b h k =
        plain-IsTypedBody key (icmp pred x y) b h k
    interpret_body_instruction-IsTypedBody max_steps key (cast kind from_bool width x) b h k =
        plain-IsTypedBody key (cast kind from_bool width x) b h k
    interpret_body_instruction-IsTypedBody max_steps key (gep x indices) b h k =
        plain-IsTypedBody key (gep x indices) b h k
    interpret_body_instruction-IsTypedBody max_steps key (load width x) b h k =
        plain-IsTypedBody key (load width x) b h k
    interpret_body_instruction-IsTypedBody max_steps key (store width x y) b h k =
        plain-IsTypedBody key (store width x y) b h k
    interpret_body_instruction-IsTypedBody max_steps key (select c x y) b h k =
        plain-IsTypedBody key (select c x y) b h k
    interpret_body_instruction-IsTypedBody max_steps key unsupported b h k =
        plain-IsTypedBody key unsupported b h k

    interpret_body-IsTypedBody :
        (max_steps : ℕ) (is : List (ℕ × Instruction W)) (b : BodyState W Z)
        → All (λ i. IsTypedInstruction lib is_flag functions i.0 i.1) is
        → IsTypedBody lib is_flag b
        → Gives
            (IsTypedBody lib is_flag)
            (interpret_body lib opts functions interpret_call max_steps is b)
    unfolding interpret_body Gives
    interpret_body-IsTypedBody max_steps [] b h k = k
    interpret_body-IsTypedBody max_steps (i ∷ is) b h k =
        Gives-bind (IsTypedBody lib is_flag) (IsTypedBody lib is_flag)
          (interpret_body_instruction lib opts functions interpret_call max_steps i.0 i.1 b) _
          (interpret_body_instruction-IsTypedBody max_steps i.0 i.1 b h.0 k)
          (λ b' p.
            Gives-branch (IsTypedBody lib is_flag) b'.stopped (ok b')
              (interpret_body lib opts functions interpret_call max_steps is b') p
              (interpret_body-IsTypedBody max_steps is b' h.1 p))

    pub interpret_block-IsTypedUpdate :
        (block : Block W) (prev : Option ℕ) (s : State W Z) (skip_phi : Bool) (max_steps : ℕ)
        → IsTypedBlock lib is_flag functions block
        → IsTypedState lib is_flag s
        → Gives
            (IsTypedUpdate lib is_flag)
            (interpret_block lib opts functions interpret_call block prev s skip_phi max_steps)
    unfolding interpret_block IsTypedBlock Gives IsTypedBody
    interpret_block-IsTypedUpdate block prev s skip_phi max_steps h t =
        Gives-bind (IsTypedState lib is_flag) (IsTypedUpdate lib is_flag)
          (if skip_phi then ok s else interpret_phis lib opts prev block.phis s) _
          (Gives-if (IsTypedState lib is_flag) skip_phi (ok s)
            (interpret_phis lib opts prev block.phis s) t
            (interpret_phis-IsTypedState lib opts is_flag whole one_bit prev block.phis s h.0 t))
          (λ after_phis p.
            Gives-bind (IsTypedBody lib is_flag) (IsTypedUpdate lib is_flag)
              (interpret_body lib opts functions interpret_call max_steps block.body
                (record { state = after_phis; calls = no_calls; visited = 1; stopped = false }))
              (finish_block lib opts block after_phis)
              (interpret_body-IsTypedBody max_steps block.body
                (record { state = after_phis; calls = no_calls; visited = 1; stopped = false }) h.1
                p)
              (λ b k. finish_block-IsTypedUpdate block after_phis b h.2 p k))
