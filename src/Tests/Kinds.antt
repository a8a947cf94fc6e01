-- ===== src/Tests/Kinds.antt =====
-- A run in integer mode with a call, and the kinds of its values.
use llreve.Prelude.{
  ℕ, zero, suc, Bool, true, false, nat_eq, [], ◌∷◌, some, pos, ℤ, ◌≡◌, refl, Result, ok, err,
}
use llreve.Dynamic.Integers.{unbounded, NumberOptions}
use llreve.Dynamic.Machine.{
  local, constant_int, add_op, ult_pred, bin_op, icmp, call, return, branch, cond_branch, Block,
  Function, State, Call, made, no_steps, return_state,
}
use llreve.Dynamic.Interpreter.Functions.{interpret_function_at}
use llreve.Dynamic.Interpreter.Typed.{IsTypedState, IsTypedBlock}
use llreve.Dynamic.Interpreter.Typed.Bodies.{IsTypedCall}
use llreve.Dynamic.Interpreter.Typed.Runs.{interpret_function_at-IsTypedCall}
use llreve.Tests.Numbers.{Word, word, machine}

abbrev integer_mode : NumberOptions
integer_mode = record { bit_vect = false; everything_signed = true }

-- Function 0 calls function 1 with its argument, and that counts up to it.
abbrev functions : ℕ → Function
functions zero = record { arguments = 6 ∷ []; entry_block = 0; return_instruction = some 8 }
functions (suc f) = record { arguments = 1 ∷ []; entry_block = 1; return_instruction = some 9 }

abbrev blocks : ℕ → Block Word
blocks zero = record {
  phis = [];
  body = (5, call 1 (local 6 ∷ [])) ∷ [];
  terminator = return 8 (some (local 5));
}
blocks (suc zero) = record { phis = []; body = []; terminator = branch 2 }
blocks (suc (suc zero)) = record {
  phis = (2, (1, constant_int (word 32 0)) ∷ (3, local 3) ∷ []) ∷ [];
  body = (4, icmp ult_pred (local 2) (local 1)) ∷ [];
  terminator = cond_branch (local 4) 3 4;
}
blocks (suc (suc (suc zero))) = record {
  phis = [];
  body = (3, bin_op add_op 32 (local 2) (constant_int (word 32 1))) ∷ [];
  terminator = branch 2;
}
blocks (suc (suc (suc (suc b)))) = record {
  phis = [];
  body = [];
  terminator = return 9 (some (local 2));
}

-- Only the result of the comparison is a truth value.
abbrev is_flag : ℕ → Bool
is_flag v = nat_eq v 4

blocks-IsTypedBlock : (b : ℕ) → IsTypedBlock machine is_flag functions (blocks b)
unfolding IsTypedBlock
blocks-IsTypedBlock zero = (tt, ((refl, (refl, tt)), tt), refl)
blocks-IsTypedBlock (suc zero) = (tt, tt, tt)
blocks-IsTypedBlock (suc (suc zero)) = (((refl, (refl, tt)), tt), (refl, tt), tt)
blocks-IsTypedBlock (suc (suc (suc zero))) = (tt, ((refl, refl, refl), tt), tt)
blocks-IsTypedBlock (suc (suc (suc (suc b)))) = (tt, tt, refl)

abbrev two : State Word ℤ
two = record {
  variables = (6, unbounded (pos 2)) ∷ [];
  heap = record { assigned_values = []; background = unbounded (pos 0) };
}

two-IsTypedState : IsTypedState machine is_flag two
unfolding IsTypedState
two-IsTypedState = ((tt, tt), (tt, tt))

abbrev calling_run : Result (Call Word ℤ)
calling_run = interpret_function_at machine integer_mode functions blocks 12 0 two 0 20

abbrev call_of : Result (Call Word ℤ) → Call Word ℤ
call_of (ok c) = c
call_of (err e) = made 0 two two no_steps false 0

run_ok : calling_run ≡ ok (call_of calling_run)
unfolding interpret_function_at
run_ok = refl

run_returns :
    (return_state (call_of calling_run)).variables
    ≡ (6, unbounded (pos 2)) ∷ (5, unbounded (pos 2)) ∷ (8, unbounded (pos 2)) ∷ []
unfolding interpret_function_at
run_returns = refl

interpret_function_at-IsTypedCall_example : IsTypedCall machine is_flag (call_of calling_run)
interpret_function_at-IsTypedCall_example =
    interpret_function_at-IsTypedCall machine integer_mode is_flag refl (λ n. refl) functions blocks
      blocks-IsTypedBlock 12 0 two 0 20 two-IsTypedState run_ok
