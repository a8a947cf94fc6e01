-- ===== src/Dynamic/Ends/Memory.antt =====
-- Loads, stores and addresses of the interpreter end.
use llreve.Prelude.{ℕ, zero, suc, ◌*◌, ◌/◌, nat_eq, ltb, pos, List, [], ◌∷◌}
use llreve.Dynamic.Integers.{
  Arithmetic, Integer, unbounded, bounded, NumberOptions, make_bounded_int,
}
use llreve.Dynamic.Machine.{Operand, Heap, State}
use llreve.Dynamic.Interpreter.Memory.{
  byte_address, store_byte, store_bytes, store_word, byte_of, byte_cell, interpret_store, load_byte,
  load_bytes, load_word, load_cell, load_value, interpret_load, add_indices_to, resolve_gep,
}
use llreve.Dynamic.Ends.{Ends, returned, assertion-Ends, if-Ends, >>=-Ends}
use llreve.Dynamic.Ends.Integers.{
  plus-Ends, times-Ends, as_pointer-Ends, as_unbounded-Ends, same_width-Ends,
}
use llreve.Dynamic.Ends.Operators.{resolve_value-Ends}

module _ {W Z : Type 0} (lib : Arithmetic W Z) where
  open lib use {words, numbers}

  store_byte-Ends :
      (i : ℕ) (addr : Integer W Z) (w : W) (h : Heap W Z) → Ends (store_byte lib i addr w h)
  unfolding store_byte byte_address
  store_byte-Ends i addr w h =
      >>=-Ends (if-Ends (ltb 8 (words.width w)) (returned _) assertion-Ends)
        (λ el. >>=-Ends (plus-Ends lib addr (bounded (words.word 64 i))) (λ a. returned _))

  store_bytes-Ends :
      (n : ℕ) (addr : Integer W Z) (w : W) (h : Heap W Z) → Ends (store_bytes lib n addr w h)
  unfolding store_bytes
  store_bytes-Ends zero addr w h = store_byte-Ends 0 addr w h
  store_bytes-Ends (suc i) addr w h =
      >>=-Ends (store_byte-Ends (suc i) addr w h)
        (λ h'. store_bytes-Ends i addr (words.right_by w 8) h')

  store_word-Ends :
      (width : ℕ) (addr v : Integer W Z) (h : Heap W Z) → Ends (store_word lib width addr v h)
  unfolding store_word
  store_word-Ends width addr (unbounded n) h = assertion-Ends
  store_word-Ends width addr (bounded w) h =
      if-Ends (nat_eq (width / 8) 1) (returned _) (store_bytes-Ends (width / 8) addr w h)

  byte_of-Ends : (a : Integer W Z) → Ends (byte_of lib a)
  unfolding byte_of
  byte_of-Ends (unbounded n) = assertion-Ends
  byte_of-Ends (bounded w) = if-Ends (nat_eq (words.width w) 8) (returned _) assertion-Ends

  module _ (opts : NumberOptions) where
    pub interpret_store-Ends :
        (width : ℕ) (x y : Operand W) (s : State W Z) → Ends (interpret_store lib opts width x y s)
    unfolding interpret_store
    interpret_store-Ends width x y s = >>=-Ends (resolve_value-Ends lib opts x s) (λ addr.
        >>=-Ends (resolve_value-Ends lib opts y s) (λ v.
          >>=-Ends (if-Ends opts.bit_vect (store_word-Ends width addr v s.heap) (returned _))
            (λ h. returned _)))

    byte_cell-Ends : (a : Integer W Z) (h : Heap W Z) → Ends (byte_cell lib opts a h)
    unfolding byte_cell
    byte_cell-Ends a h = >>=-Ends (as_unbounded-Ends lib h.background) (λ n. returned _)

    load_byte-Ends : (ptr : Integer W Z) (i : ℕ) (h : Heap W Z) → Ends (load_byte lib opts ptr i h)
    unfolding load_byte
    load_byte-Ends ptr i h = >>=-Ends (as_pointer-Ends lib opts ptr) (λ p.
        >>=-Ends (as_pointer-Ends lib opts (unbounded (numbers.of_int (pos i)))) (λ q.
          >>=-Ends (plus-Ends lib p q) (λ a.
            >>=-Ends (byte_cell-Ends a h)
              (λ cell. >>=-Ends (byte_of-Ends cell.0) (λ w. returned _)))))

    load_bytes-Ends :
        (bytes i : ℕ) (ptr : Integer W Z) (v : W) (h : Heap W Z) (left : ℕ)
        → Ends (load_bytes lib opts bytes i ptr v h left)
    unfolding load_bytes
    load_bytes-Ends bytes i ptr v h zero = returned _
    load_bytes-Ends bytes i ptr v h (suc left) = >>=-Ends (load_byte-Ends ptr i h) (λ cell.
        >>=-Ends
          (same_width-Ends words words.bits_or (words.left_by v 8)
            (words.sext_or_self (bytes * 8) cell.0))
          (λ v'. load_bytes-Ends bytes (suc i) ptr v' cell.1 left))

    load_value-Ends :
        (width : ℕ) (ptr : Integer W Z) (h : Heap W Z) → Ends (load_value lib opts width ptr h)
    unfolding load_value load_word load_cell
    load_value-Ends width ptr h =
        if-Ends opts.bit_vect
          (>>=-Ends
            (load_bytes-Ends (width / 8) 0 ptr (make_bounded_int words width (pos 0)) h (width / 8))
            (λ found. returned _))
          (>>=-Ends (as_pointer-Ends lib opts ptr) (λ p. returned _))

    pub interpret_load-Ends :
        (key width : ℕ) (x : Operand W) (s : State W Z)
        → Ends (interpret_load lib opts key width x s)
    unfolding interpret_load
    interpret_load-Ends key width x s =
        >>=-Ends (resolve_value-Ends lib opts x s)
          (λ ptr. >>=-Ends (load_value-Ends width ptr s.heap) (λ found. returned _))

    add_indices_to-Ends :
        (offset : Integer W Z) (indices : List (ℕ × Operand W)) (s : State W Z)
        → Ends (add_indices_to lib opts offset indices s)
    unfolding add_indices_to
    add_indices_to-Ends offset [] s = returned _
    add_indices_to-Ends offset ((size, x) ∷ indices) s =
        >>=-Ends (resolve_value-Ends lib opts x s) (λ v.
          >>=-Ends (as_pointer-Ends lib opts (unbounded (numbers.of_int (pos size)))) (λ p.
            >>=-Ends (as_unbounded-Ends lib v) (λ n.
              >>=-Ends (as_pointer-Ends lib opts (unbounded n)) (λ q.
                >>=-Ends (times-Ends lib p q) (λ r.
                  >>=-Ends (plus-Ends lib offset r)
                    (λ offset'. add_indices_to-Ends offset' indices s))))))

    pub resolve_gep-Ends :
        (x : Operand W) (indices : List (ℕ × Operand W)) (s : State W Z)
        → Ends (resolve_gep lib opts x indices s)
    unfolding resolve_gep
    resolve_gep-Ends x indices s =
        >>=-Ends (resolve_value-Ends lib opts x s) (λ offset. add_indices_to-Ends offset indices s)
