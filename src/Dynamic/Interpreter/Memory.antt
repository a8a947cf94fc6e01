-- ===== src/Dynamic/Interpreter/Memory.antt =====
-- Loads, stores and addresses of the interpreter.
use llreve.Prelude.{
  ℕ, zero, suc, ◌*◌, ◌/◌, if◌then◌else◌, nat_eq, ltb, pos, List, [], ◌∷◌, Result, ok, err,
  assertion, ◌>>=◌,
}
use llreve.Dynamic.Integers.{
  Arithmetic, Integer, unbounded, bounded, NumberOptions, same_width, make_bounded_int,
  as_unbounded, plus, times,
}
use llreve.Dynamic.Integers.Compare.{as_pointer}
use llreve.Dynamic.Machine.{Operand, Heap, State, read_or_insert, write_cell, set_variable}
use llreve.Dynamic.Interpreter.Operators.{resolve_value}

module _ {W Z : Type 0} (lib : Arithmetic W Z) where
  open lib use {words, numbers}

  -- `addr + i` in the loop of a store
  unfoldable pub byte_address : Integer W Z → ℕ → Result (Integer W Z)
  unfolding plus
  byte_address addr i = plus lib addr (bounded (words.word 64 i))

  -- One round of the loop: the low byte, at an offset; LLVM asserts that `trunc` makes it smaller.
  unfoldable pub store_byte : ℕ → Integer W Z → W → Heap W Z → Result (Heap W Z)
  unfolding byte_address write_cell
  store_byte i addr w h = do
    el ← (if ltb 8 (words.width w) then ok (words.truncate 8 w) else err assertion)
    a ← byte_address addr i
    ok (record h { assigned_values = write_cell lib a (bounded el) h.assigned_values })

  -- `for (; bytes >= 0; --bytes)`
  unfoldable pub store_bytes : ℕ → Integer W Z → W → Heap W Z → Result (Heap W Z)
  unfolding store_byte
  store_bytes zero addr w h = store_byte 0 addr w h
  store_bytes (suc i) addr w h = do
    h' ← store_byte (suc i) addr w h
    store_bytes i addr (words.right_by w 8) h'

  unfoldable pub store_at : Integer W Z → Integer W Z → Heap W Z → Heap W Z
  unfolding write_cell
  store_at addr v h = record h { assigned_values = write_cell lib addr v h.assigned_values }

  unfoldable pub store_word : ℕ → Integer W Z → Integer W Z → Heap W Z → Result (Heap W Z)
  unfolding store_bytes store_at
  store_word width addr (unbounded n) h = err assertion
  store_word width addr (bounded w) h =
      if nat_eq (width / 8) 1
      then ok (store_at addr (bounded w) h)
      else store_bytes (width / 8) addr w h

  unfoldable pub byte_of : Integer W Z → Result W
  byte_of (unbounded n) = err assertion
  byte_of (bounded w) = if nat_eq (words.width w) 8 then ok w else err assertion

  module _ (opts : NumberOptions) where
    unfoldable pub interpret_store : ℕ → Operand W → Operand W → State W Z → Result (State W Z)
    unfolding resolve_value store_word store_at
    interpret_store width x y s = do
      addr ← resolve_value lib opts x s
      v ← resolve_value lib opts y s
      h ← (if opts.bit_vect then store_word width addr v s.heap else ok (store_at addr v s.heap))
      ok (record s { heap = h })

    -- The cell of a byte, made from the background if there is none, and the heap after that.
    unfoldable pub byte_cell : Integer W Z → Heap W Z → Result (Integer W Z × Heap W Z)
    unfolding as_unbounded make_bounded_int read_or_insert
    byte_cell a h = do
      n ← as_unbounded lib h.background
      ok (read_or_insert lib a (bounded (make_bounded_int words 8 (numbers.get_si n))) h)

    -- The address of a byte to load, and the byte there.
    unfoldable pub load_byte : Integer W Z → ℕ → Heap W Z → Result (W × Heap W Z)
    unfolding as_pointer plus byte_cell byte_of
    load_byte ptr i h = do
      p ← as_pointer lib opts ptr
      q ← as_pointer lib opts (unbounded (numbers.of_int (pos i)))
      a ← plus lib p q
      cell ← byte_cell a h
      w ← byte_of cell.0
      ok (w, cell.1)

    -- `bytes` rounds of the loop, `left` of them to do
    unfoldable pub load_bytes : ℕ → ℕ → Integer W Z → W → Heap W Z → ℕ → Result (W × Heap W Z)
    unfolding load_byte
    load_bytes bytes i ptr v h zero = ok (v, h)
    load_bytes bytes i ptr v h (suc left) = do
      cell ← load_byte ptr i h
      v' ←
          same_width words words.bits_or (words.left_by v 8) (words.sext_or_self (bytes * 8) cell.0)
      load_bytes bytes (suc i) ptr v' cell.1 left

    unfoldable pub load_word : ℕ → Integer W Z → Heap W Z → Result (Integer W Z × Heap W Z)
    unfolding load_bytes make_bounded_int
    load_word width ptr h = do
      found ← load_bytes (width / 8) 0 ptr (make_bounded_int words width (pos 0)) h (width / 8)
      ok (bounded found.0, found.1)

    unfoldable pub load_cell : Integer W Z → Heap W Z → Result (Integer W Z × Heap W Z)
    unfolding as_pointer read_or_insert
    load_cell ptr h = do p ← as_pointer lib opts ptr; ok (read_or_insert lib p h.background h)

    unfoldable pub load_value : ℕ → Integer W Z → Heap W Z → Result (Integer W Z × Heap W Z)
    unfolding load_word load_cell
    load_value width ptr h = if opts.bit_vect then load_word width ptr h else load_cell ptr h

    unfoldable pub interpret_load : ℕ → ℕ → Operand W → State W Z → Result (State W Z)
    unfolding resolve_value load_value set_variable
    interpret_load key width x s = do
      ptr ← resolve_value lib opts x s
      found ← load_value width ptr s.heap
      ok (set_variable key found.0 (record s { heap = found.1 }))

    -- the loop of `resolveGEP` over the indices
    unfoldable pub add_indices_to :
        Integer W Z → List (ℕ × Operand W) → State W Z → Result (Integer W Z)
    unfolding resolve_value as_pointer as_unbounded times plus
    add_indices_to offset [] s = ok offset
    add_indices_to offset ((size, x) ∷ indices) s = do
      v ← resolve_value lib opts x s
      p ← as_pointer lib opts (unbounded (numbers.of_int (pos size)))
      n ← as_unbounded lib v
      q ← as_pointer lib opts (unbounded n)
      r ← times lib p q
      offset' ← plus lib offset r
      add_indices_to offset' indices s

    unfoldable pub resolve_gep : Operand W → List (ℕ × Operand W) → State W Z → Result (Integer W Z)
    unfolding resolve_value add_indices_to
    resolve_gep x indices s = do
      offset ← resolve_value lib opts x s
      add_indices_to offset indices s
