-- ===== src/Dynamic/Interpreter/Typed/Accesses.antt =====
-- Loads and stores of the interpreter in integer mode keep the kinds of variables and of heap cells.
use mathlib.Core.Path.{subst}
use llreve.Prelude.{ℕ, ◌≡◌, sym, Bool, false, if◌then◌else◌, Result, ok}
use llreve.Dynamic.Integers.{Arithmetic, Integer, NumberOptions}
use llreve.Dynamic.Machine.{Operand, Heap, State, set_variable}
use llreve.Dynamic.Interpreter.Operators.{resolve_value}
use llreve.Dynamic.Interpreter.Memory.{
  store_at, store_word, interpret_store, load_value, load_cell, load_word, interpret_load,
}
use llreve.Dynamic.Interpreter.Typed.{Gives, HasKind, IsTypedHeap, IsTypedState, IsTypedOperand}
use llreve.Dynamic.Interpreter.Typed.Values.{Gives-bind, Gives-after}
use llreve.Dynamic.Interpreter.Typed.Heaps.{
  IsTypedFound, load_cell-IsTypedFound, store_at-IsTypedHeap, resolve_value-HasKind,
  set_variable-IsTypedState,
}

-- a test that fails
Gives-false :
    {B : Type 0} (Q : B → Type 0) (b : Bool) (m n : Result B)
    → b ≡ false
    → Gives Q n
    → Gives Q (if b then m else n)
Gives-false Q b m n e q = rw (e) q

module _ {W Z : Type 0} (lib : Arithmetic W Z) (opts : NumberOptions) (is_flag : ℕ → Bool)
    (whole : opts.bit_vect ≡ false) where
  load_value-IsTypedFound :
      (width : ℕ) (ptr : Integer W Z) (h : Heap W Z)
      → IsTypedHeap lib h
      → Gives (IsTypedFound lib) (load_value lib opts width ptr h)
  unfolding load_value
  load_value-IsTypedFound width ptr h t =
      Gives-false (IsTypedFound lib) opts.bit_vect (load_word lib opts width ptr h)
        (load_cell lib opts ptr h) whole (load_cell-IsTypedFound lib opts ptr h t)

  found-IsTypedState :
      (key : ℕ) (found : Integer W Z × Heap W Z) (s : State W Z)
      → is_flag key ≡ false
      → IsTypedFound lib found
      → IsTypedState lib is_flag s
      → IsTypedState lib is_flag (set_variable key found.0 (record s { heap = found.1 }))
  unfolding IsTypedFound IsTypedState
  found-IsTypedState key found s e r t =
      set_variable-IsTypedState lib is_flag key found.0 (record s { heap = found.1 })
        (subst (λ b. HasKind lib b found.0) (sym e) r.0) (t.0, r.1)

  stored-IsTypedHeap :
      (width : ℕ) (addr v : Integer W Z) (h : Heap W Z)
      → HasKind lib false v
      → IsTypedHeap lib h
      → Gives
          (IsTypedHeap lib)
          (if opts.bit_vect then store_word lib width addr v h else ok (store_at lib addr v h))
  unfolding Gives
  stored-IsTypedHeap width addr v h k t = rw (whole) (store_at-IsTypedHeap lib addr v h k t)

  pub interpret_load-IsTypedState :
      (key width : ℕ) (x : Operand W) (s : State W Z)
      → is_flag key ≡ false
      → IsTypedState lib is_flag s
      → Gives (IsTypedState lib is_flag) (interpret_load lib opts key width x s)
  unfolding interpret_load IsTypedState Gives
  interpret_load-IsTypedState key width x s e t =
      Gives-after (IsTypedState lib is_flag) (resolve_value lib opts x s) _ (λ ptr.
        Gives-bind (IsTypedFound lib) (IsTypedState lib is_flag)
          (load_value lib opts width ptr s.heap) _ (load_value-IsTypedFound width ptr s.heap t.1)
          (λ found r. found-IsTypedState key found s e r t))

  pub interpret_store-IsTypedState :
      (width : ℕ) (x y : Operand W) (s : State W Z)
      → IsTypedOperand lib is_flag false y
      → IsTypedState lib is_flag s
      → Gives (IsTypedState lib is_flag) (interpret_store lib opts width x y s)
  unfolding interpret_store Gives IsTypedState
  interpret_store-IsTypedState width x y s h t =
      Gives-after (IsTypedState lib is_flag) (resolve_value lib opts x s) _ (λ addr.
        Gives-bind (HasKind lib false) (IsTypedState lib is_flag) (resolve_value lib opts y s) _
          (resolve_value-HasKind lib opts is_flag whole false y s t h)
          (λ v k.
            Gives-bind (IsTypedHeap lib) (IsTypedState lib is_flag) _ _
              (stored-IsTypedHeap width addr v s.heap k t.1) (λ g r. (t.0, r))))
