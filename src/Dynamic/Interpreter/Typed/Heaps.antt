-- ===== src/Dynamic/Interpreter/Typed/Heaps.antt =====
-- Operands, heaps and addresses in integer mode have the kinds that they are said to have.
use mathlib.Core.Path.{subst}
use llreve.Prelude.{
  ℕ, ◌≡◌, refl, Bool, true, false, nat_eq, nat_eq-eq, if◌then◌else◌, List, [], ◌∷◌, Option, none,
  some, All, ok, pos, exit_one, ◌>>=◌,
}
use llreve.Dynamic.Integers.{
  Arithmetic, Integer, unbounded, bounded, NumberOptions, plus, times, as_unbounded, sext_number,
}
use llreve.Dynamic.Integers.Compare.{same_key, as_pointer}
use llreve.Dynamic.Machine.{
  Operand, local, constant_int, null_pointer, other_operand, Heap, State, find_variable,
  set_variable, find_cell, write_cell, read_or_insert,
}
use llreve.Dynamic.Interpreter.Operators.{resolve_value}
use llreve.Dynamic.Interpreter.Memory.{load_cell, store_at, add_indices_to, resolve_gep}
use llreve.Dynamic.Interpreter.Typed.{Gives, HasKind, IsTypedHeap, IsTypedState, IsTypedOperand}
use llreve.Dynamic.Interpreter.Typed.Values.{
  Gives-bind, Gives-after, Gives-err, plus-HasKind, times-HasKind, find_variable-HasKind,
  same-HasKind, insert_or_replace-IsTypedMap,
}

module _ {W Z : Type 0} (lib : Arithmetic W Z) where
  open lib use {words, numbers}

  IsTypedCells : List (Integer W Z × Integer W Z) → Type 0
  IsTypedCells cells = All (λ c. HasKind lib false c.1) cells

  write_cell-IsTypedCells :
      (a v : Integer W Z) (cells : List (Integer W Z × Integer W Z))
      → HasKind lib false v
      → IsTypedCells cells
      → IsTypedCells (write_cell lib a v cells)
  unfolding IsTypedCells write_cell
  write_cell-IsTypedCells a v [] h t = (h, tt)
  write_cell-IsTypedCells a v (c ∷ cells) h t =
      split (same_key lib c.0 a) (write_cell-IsTypedCells a v cells h t.1)
    where
      split :
          (b : Bool)
          → IsTypedCells (write_cell lib a v cells)
          → IsTypedCells (if b then (c.0, v) ∷ cells else c ∷ write_cell lib a v cells)
      split true r = (h, t.1)
      split false r = (t.0, r)

  CellKind : Option (Integer W Z) → Type 0
  CellKind none = Unit
  CellKind (some v) = HasKind lib false v

  find_cell-CellKind :
      (cells : List (Integer W Z × Integer W Z)) (a : Integer W Z)
      → IsTypedCells cells
      → CellKind (find_cell lib cells a)
  unfolding IsTypedCells find_cell CellKind
  find_cell-CellKind [] a t = tt
  find_cell-CellKind (c ∷ cells) a t = split (same_key lib c.0 a) (find_cell-CellKind cells a t.1)
    where
      split :
          (b : Bool)
          → CellKind (find_cell lib cells a)
          → CellKind (if b then some c.1 else find_cell lib cells a)
      split true r = t.0
      split false r = r

  unfoldable pub IsTypedFound : Integer W Z × Heap W Z → Type 0
  IsTypedFound r = HasKind lib false r.0 × IsTypedHeap lib r.1

  read_or_insert-IsTypedFound :
      (a v : Integer W Z) (h : Heap W Z)
      → HasKind lib false v
      → IsTypedHeap lib h
      → IsTypedFound (read_or_insert lib a v h)
  unfolding IsTypedFound IsTypedHeap read_or_insert IsTypedCells CellKind
  read_or_insert-IsTypedFound a v h k t =
      split (find_cell lib h.assigned_values a) (find_cell-CellKind h.assigned_values a t.1)
    where
      split :
          (r : Option (Integer W Z))
          → CellKind r
          → IsTypedFound (elim r [
            | none ↦ (v, record h { assigned_values = write_cell lib a v h.assigned_values })
            | some w ↦ (w, h)
          ])
      split none c = (k, (t.0, write_cell-IsTypedCells a v h.assigned_values k t.1))
      split (some w) c = (c, t)

  pub store_at-IsTypedHeap :
      (a v : Integer W Z) (h : Heap W Z)
      → HasKind lib false v
      → IsTypedHeap lib h
      → IsTypedHeap lib (store_at lib a v h)
  unfolding IsTypedHeap store_at IsTypedCells
  store_at-IsTypedHeap a v h k t = (t.0, write_cell-IsTypedCells a v h.assigned_values k t.1)

  pub load_cell-IsTypedFound :
      (opts : NumberOptions) (ptr : Integer W Z) (h : Heap W Z)
      → IsTypedHeap lib h
      → Gives IsTypedFound (load_cell lib opts ptr h)
  unfolding load_cell Gives IsTypedHeap
  load_cell-IsTypedFound opts ptr h t =
      Gives-after IsTypedFound (as_pointer lib opts ptr)
        (λ p. ok (read_or_insert lib p h.background h))
        (λ p. read_or_insert-IsTypedFound p h.background h t.0 t)

  -- In integer mode a constant is a word only if it has one bit.
  constant-HasKind :
      (w : W) (b : Bool)
      → nat_eq (words.width w) 1 ≡ b
      → Gives
          (HasKind lib b)
          (if b then ok (bounded w) else sext_number lib w >>= (λ n. ok (unbounded n)))
  unfolding Gives HasKind
  constant-HasKind w true e = nat_eq-eq (words.width w) 1 e
  constant-HasKind w false e =
      Gives-after (HasKind lib false) (sext_number lib w) (λ n. ok (unbounded n)) (λ n. tt)

  module _ (opts : NumberOptions) (is_flag : ℕ → Bool) (whole : opts.bit_vect ≡ false) where
    pub resolve_value-HasKind :
        (b : Bool) (x : Operand W) (s : State W Z)
        → IsTypedState lib is_flag s
        → IsTypedOperand lib is_flag b x
        → Gives (HasKind lib b) (resolve_value lib opts x s)
    unfolding IsTypedState IsTypedOperand resolve_value
    resolve_value-HasKind b (local v) s t h =
        subst (λ c. Gives (HasKind lib c) (find_variable s.variables v)) h
          (find_variable-HasKind lib is_flag s.variables v t.0)
    resolve_value-HasKind b (constant_int w) s t h = rw (h, whole) (constant-HasKind w b h)
    resolve_value-HasKind b null_pointer s t h = absurd h
    resolve_value-HasKind b other_operand s t h = Gives-err (HasKind lib b) exit_one

  pub set_variable-IsTypedState :
      (is_flag : ℕ → Bool) (k : ℕ) (v : Integer W Z) (s : State W Z)
      → HasKind lib (is_flag k) v
      → IsTypedState lib is_flag s
      → IsTypedState lib is_flag (set_variable k v s)
  unfolding IsTypedState set_variable
  set_variable-IsTypedState is_flag k v s h t =
      (insert_or_replace-IsTypedMap lib is_flag k v s.variables h t.0, t.1)

  as_pointer-HasKind :
      (opts : NumberOptions) (n : Z)
      → opts.bit_vect ≡ false
      → Gives (HasKind lib false) (as_pointer lib opts (unbounded n))
  unfolding Gives HasKind as_pointer
  as_pointer-HasKind opts n whole = rw (whole) tt

  module _ (opts : NumberOptions) (is_flag : ℕ → Bool) (whole : opts.bit_vect ≡ false) where
    add_indices_to-HasKind :
        (offset : Integer W Z) (indices : List (ℕ × Operand W)) (s : State W Z)
        → HasKind lib false offset
        → Gives (HasKind lib false) (add_indices_to lib opts offset indices s)
    unfolding add_indices_to
    add_indices_to-HasKind offset [] s h = same-HasKind lib offset refl h
    add_indices_to-HasKind offset ((size, x) ∷ indices) s h =
        Gives-after (HasKind lib false) (resolve_value lib opts x s) _ (λ v.
          Gives-bind (HasKind lib false) (HasKind lib false)
            (as_pointer lib opts (unbounded (numbers.of_int (pos size)))) _
            (as_pointer-HasKind opts (numbers.of_int (pos size)) whole)
            (λ p p_number. Gives-after (HasKind lib false) (as_unbounded lib v) _ (λ n.
              Gives-bind (HasKind lib false) (HasKind lib false) (as_pointer lib opts (unbounded n))
                _ (as_pointer-HasKind opts n whole)
                (λ q q_number.
                  Gives-bind (HasKind lib false) (HasKind lib false) (times lib p q) _
                    (times-HasKind lib p q p_number q_number)
                    (λ r r_number.
                      Gives-bind (HasKind lib false) (HasKind lib false) (plus lib offset r) _
                        (plus-HasKind lib offset r h r_number)
                        (λ offset' k. add_indices_to-HasKind offset' indices s k))))))

    pub resolve_gep-HasKind :
        (x : Operand W) (indices : List (ℕ × Operand W)) (s : State W Z)
        → IsTypedState lib is_flag s
        → IsTypedOperand lib is_flag false x
        → Gives (HasKind lib false) (resolve_gep lib opts x indices s)
    unfolding resolve_gep
    resolve_gep-HasKind x indices s t h =
        Gives-bind (HasKind lib false) (HasKind lib false) (resolve_value lib opts x s)
          (λ offset. add_indices_to lib opts offset indices s)
          (resolve_value-HasKind opts is_flag whole false x s t h)
          (λ offset k. add_indices_to-HasKind offset indices s k)
