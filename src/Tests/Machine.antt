-- ===== src/Tests/Machine.antt =====
-- The interpreter at a loop that counts up to its argument, on integers without a width, and at
-- stores and loads.
use llreve.Prelude.{
  ℕ, zero, suc, ◌≤◌, Bool, true, false, [], ◌∷◌, some, ltb, ℤ, pos, negsuc, ap, ◌≡◌, ◌≢◌, refl, ◌↔◌,
  arith, Result, ok, err, out_of_fuel, assertion,
}
use llreve.Dynamic.Integers.{Integer, unbounded, bounded, NumberOptions}
use llreve.Dynamic.Integers.Compare.{same_key, as_pointer}
use llreve.Dynamic.Integers.Negative.{NegatesWords, as_pointer-negsuc}
use llreve.Dynamic.Machine.{
  local, constant_int, null_pointer, add_op, ult_pred, bin_op, icmp, return, branch, cond_branch,
  Block, Function, Heap, State, Call, made, Steps, no_steps, Calls, add_step, set_variable,
  find_cell, heap_value, early_exit, blocks_visited, call_steps,
}
use llreve.Dynamic.Interpreter.Operators.{resolve_value, interpret_icmp}
use llreve.Dynamic.Interpreter.Memory.{byte_address, store_bytes, interpret_store, interpret_load}
use llreve.Dynamic.Interpreter.Functions.{interpret_function_at}
use llreve.Dynamic.Interpreter.Budget.{
  count_steps, interpret_function_at-ne-out_of_fuel, interpret_function_at-count_steps,
}
use llreve.Dynamic.Interpreter.Walks.{Walk, targets, interpret_function_at-Walk}
use llreve.Dynamic.Interpreter.Heaps.{heap_equal}
use llreve.Dynamic.Interpreter.Heaps.Same.{heap_equal-heap_value}
use llreve.Dynamic.Interpreter.Null.{is_supported, interpret_icmp-null_pointer}
use llreve.Dynamic.Interpreter.StoreLoad.{interpret_load-interpret_store, store_bytes-value}
use llreve.Dynamic.Ends.Blocks.{is_call, IsCallFree}
use llreve.Tests.Numbers.{
  Word, word, two_complement, machine, int_eq-IsTest, word_equal-IsTest, two_complement-ShiftLaws,
}

abbrev plain_numbers : NumberOptions
plain_numbers = record { bit_vect = false; everything_signed = true }

abbrev bit_vectors : NumberOptions
bit_vectors = record { bit_vect = true; everything_signed = false }

-- `for (i = 0; i < n; i++);` with `n` as value 1, `i` as value 2 and the test as value 4.
abbrev counting : ℕ → Block Word
counting zero = record { phis = []; body = []; terminator = branch 1 }
counting (suc zero) = record {
  phis = (2, (0, constant_int (word 32 0)) ∷ (2, local 3) ∷ []) ∷ [];
  body = (4, icmp ult_pred (local 2) (local 1)) ∷ [];
  terminator = cond_branch (local 4) 2 3;
}
counting (suc (suc zero)) = record {
  phis = [];
  body = (3, bin_op add_op 32 (local 2) (constant_int (word 32 1))) ∷ [];
  terminator = branch 1;
}
counting (suc (suc (suc b))) = record {
  phis = [];
  body = [];
  terminator = return 9 (some (local 2));
}

counting-IsCallFree : (b : ℕ) → IsCallFree (counting b).body
unfolding is_call
counting-IsCallFree zero = tt
counting-IsCallFree (suc zero) = (refl, tt)
counting-IsCallFree (suc (suc zero)) = (refl, tt)
counting-IsCallFree (suc (suc (suc b))) = tt

abbrev count_function : ℕ → Function
count_function f = record { arguments = 1 ∷ []; entry_block = 0; return_instruction = some 9 }

abbrev empty_heap : Heap Word ℤ
empty_heap = record { assigned_values = []; background = unbounded (pos 0) }

abbrev up_to_two : State Word ℤ
up_to_two = record { variables = (1, unbounded (pos 2)) ∷ []; heap = empty_heap }

abbrev counted : Result (Call Word ℤ)
counted = interpret_function_at machine plain_numbers count_function counting 9 1 up_to_two 0 8

abbrev call_of : Result (Call Word ℤ) → Call Word ℤ
call_of (ok c) = c
call_of (err e) = made 0 up_to_two up_to_two no_steps false 0

counted_ok : counted ≡ ok (call_of counted)
unfolding interpret_function_at
counted_ok = refl

counted_blocks : blocks_visited (call_of counted) ≡ 7
unfolding interpret_function_at
counted_blocks = refl

interpret_function_at-ne-out_of_fuel_example :
    interpret_function_at machine plain_numbers count_function counting 9 1 up_to_two 0 8
    ≢ err out_of_fuel
interpret_function_at-ne-out_of_fuel_example =
    interpret_function_at-ne-out_of_fuel machine plain_numbers count_function counting
      counting-IsCallFree 9 1 up_to_two 0 8 (omega arith) (omega arith)

interpret_function_at-count_steps_example :
    (blocks_visited (call_of counted) ≡ count_steps (call_steps (call_of counted)))
    × (blocks_visited (call_of counted) ≤ 9)
    × (early_exit (call_of counted) ≡ ltb 8 (blocks_visited (call_of counted)))
interpret_function_at-count_steps_example =
    interpret_function_at-count_steps machine plain_numbers count_function counting
      counting-IsCallFree 9 1 up_to_two 0 8 (call_of counted) (omega arith) counted_ok

interpret_function_at-Walk_example :
    (steps : Steps Word ℤ) × (b : ℕ) × (s : State Word ℤ) × (cs : Calls Word ℤ) × Walk counting 0
      steps b
    × (call_steps (call_of counted) ≡ add_step steps b s cs)
    × (early_exit (call_of counted) ≡ false → targets (counting b).terminator ≡ [])
interpret_function_at-Walk_example =
    interpret_function_at-Walk machine plain_numbers count_function counting 9 1 up_to_two 0 8
      (call_of counted) counted_ok

abbrev at_five : State Word ℤ
at_five = record {
  variables = (1, unbounded (pos 5)) ∷ (2, unbounded (pos 7)) ∷ [];
  heap = empty_heap;
}

interpret_load-interpret_store_example :
    (s : State Word ℤ) × (interpret_store machine plain_numbers 32 (local 1) (local 2) at_five
      ≡ ok s)
    × (interpret_load machine plain_numbers 3 32 (local 1) s
        ≡ ok (set_variable 3 (unbounded (pos 7)) s))
unfolding resolve_value
interpret_load-interpret_store_example =
    interpret_load-interpret_store machine plain_numbers refl 3 32 32 (local 1) (local 2) at_five
      (pos 5) (unbounded (pos 7)) refl refl refl

-- A word of two bytes, whose high byte is 1.
abbrev stored : Heap Word ℤ
stored = record {
  assigned_values =
      (bounded (word 64 18), bounded (word 8 2))
      ∷ (bounded (word 64 17), bounded (word 8 1))
      ∷ (bounded (word 64 16), bounded (word 8 0))
      ∷ [];
  background = unbounded (pos 0);
}

store_bytes-value_example :
    (b : Word) × (find_cell machine stored.assigned_values (bounded (word 64 16))
      ≡ some (bounded b))
    × (b.value ≡ 0)
unfolding byte_address same_key store_bytes
store_bytes-value_example =
    store_bytes-value machine (λ w. w.value) two_complement-ShiftLaws 2 (bounded (word 64 16))
      (bounded (word 64 16)) (word 16 258) empty_heap stored (omega arith) (omega arith) refl refl
      refl

abbrev one_cell : Heap Word ℤ
one_cell = record {
  assigned_values = (unbounded (pos 5), unbounded (pos 7)) ∷ [];
  background = unbounded (pos 0);
}

abbrev with_background : Heap Word ℤ
with_background = record {
  assigned_values =
      (unbounded (pos 6), unbounded (pos 0)) ∷ (unbounded (pos 5), unbounded (pos 7)) ∷ [];
  background = unbounded (pos 0);
}

heap_equal-heap_value_example : (◌≡◌ {A = Bool} true true) ↔ (
    (one_cell.background ≡ with_background.background)
    × ((a : Integer Word ℤ) → heap_value machine one_cell a ≡ heap_value machine with_background a))
unfolding find_cell heap_equal
heap_equal-heap_value_example =
    heap_equal-heap_value machine int_eq-IsTest word_equal-IsTest one_cell with_background
      (refl, tt) (refl, (refl, tt)) true refl

two_complement-NegatesWords : NegatesWords two_complement
two_complement-NegatesWords n small = ap (λ v. record { bits = 64; value = v }) (omega arith)

as_pointer_run : as_pointer machine bit_vectors (unbounded (negsuc 4)) ≡ ok (bounded (word 64 5))
as_pointer_run =
    as_pointer-negsuc machine bit_vectors two_complement-NegatesWords refl (negsuc 4) 4 refl refl
      (omega arith)

interpret_icmp_run :
    interpret_icmp machine plain_numbers 4 ult_pred (local 1) null_pointer at_five ≡ err assertion
unfolding resolve_value is_supported
interpret_icmp_run =
    interpret_icmp-null_pointer machine plain_numbers 4 ult_pred (local 1) at_five (pos 5) refl refl
