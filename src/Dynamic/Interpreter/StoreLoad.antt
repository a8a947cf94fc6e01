-- ===== src/Dynamic/Interpreter/StoreLoad.antt =====
-- What a load finds after a store.
use native.Mathlib.Nat.{pow-suc, pow-zero}
use llreve.Prelude.{
  ℕ, zero, suc, ◌/◌, ◌*◌, ◌%◌, ◌^◌, ◌<◌, arith, Bool, true, false, List, [], ◌∷◌, some, ◌≡◌, refl,
  sym, ◌∙◌, inl, inr, Bool-cases, if◌then◌else◌, ltb, ok, err, assertion, ok-injective, >>=-eq-ok,
}
use llreve.Dynamic.Integers.{ApInt, Arithmetic, Integer, unbounded, bounded, NumberOptions}
use llreve.Dynamic.Integers.Compare.{same_key, as_pointer}
use llreve.Dynamic.Machine.{
  Operand, local, constant_int, null_pointer, other_operand, Heap, State, find_cell, write_cell,
  read_or_insert, set_variable,
}
use llreve.Dynamic.Interpreter.Operators.{resolve_value}
use llreve.Dynamic.Interpreter.Memory.{
  byte_address, store_byte, store_bytes, store_at, interpret_store, load_value, load_cell,
  interpret_load,
}

module _ {W Z : Type 0} (lib : Arithmetic W Z) where
  open lib use {words, numbers}

  find_cell-write_cell :
      (a v : Integer W Z) (cells : List (Integer W Z × Integer W Z))
      → same_key lib a a ≡ true
      → find_cell lib (write_cell lib a v cells) a ≡ some v
  unfolding find_cell write_cell
  find_cell-write_cell a v [] same = rw same refl
  find_cell-write_cell a v ((b, w) ∷ cells) same = elim (Bool-cases (same_key lib b a)) [
    | inl e ↦ rw (e, e) refl
    | inr e ↦ rw (e, e) (find_cell-write_cell a v cells same)
  ]

  read_or_insert-store_at :
      (a v d : Integer W Z) (h : Heap W Z)
      → same_key lib a a ≡ true
      → read_or_insert lib a d (store_at lib a v h) ≡ (v, store_at lib a v h)
  unfolding store_at read_or_insert
  read_or_insert-store_at a v d h same =
      rw (read_or_insert, find_cell-write_cell a v h.assigned_values same) refl

  resolve_value-heap :
      (opts : NumberOptions) (x : Operand W) (s : State W Z) (h : Heap W Z)
      → resolve_value lib opts x (record s { heap = h }) ≡ resolve_value lib opts x s
  unfolding resolve_value
  resolve_value-heap opts (local v) s h = refl
  resolve_value-heap opts (constant_int w) s h = refl
  resolve_value-heap opts null_pointer s h = refl
  resolve_value-heap opts other_operand s h = refl

  -- In integer mode, if the pointer is an unbounded number that the equality test finds equal to
  -- itself, a store of a value through it succeeds, and a load through it then gives the value
  -- and leaves the heap as it is.
  pub interpret_load-interpret_store :
      (opts : NumberOptions)
      → opts.bit_vect ≡ false
      → (key width width' : ℕ) (x y : Operand W) (s : State W Z) (a : Z) (v : Integer W Z)
      → numbers.same a a ≡ true
      → resolve_value lib opts x s ≡ ok (unbounded a)
      → resolve_value lib opts y s ≡ ok v
      → (s' : State W Z) × (interpret_store lib opts width x y s ≡ ok s')
        × (interpret_load lib opts key width' x s' ≡ ok (set_variable key v s'))
  unfolding same_key interpret_store interpret_load load_value load_cell as_pointer
  interpret_load-interpret_store opts mode key width width' x y s a v same at_x at_y =
      let h = store_at lib (unbounded a) v s.heap in
      let found = read_or_insert-store_at (unbounded a) v s.heap.background s.heap same in
      (
        record s { heap = h },
        rw (interpret_store, at_x, at_y, mode) refl,
        rw
            (
              interpret_load,
              resolve_value-heap opts x s h,
              at_x,
              load_value,
              mode,
              load_cell,
              as_pointer,
              found,
            )
            refl,
      )

  -- Shifted right by one byte for every number below.
  unfoldable pub shifted : ℕ → W → W
  shifted zero w = w
  shifted (suc n) w = shifted n (words.right_by w 8)

  store_byte-find_cell :
      (addr a : Integer W Z) (w : W) (h h' : Heap W Z)
      → byte_address lib addr 0 ≡ ok a
      → same_key lib a a ≡ true
      → store_byte lib 0 addr w h ≡ ok h'
      → find_cell lib h'.assigned_values a ≡ some (bounded (words.truncate 8 w))
  unfolding store_byte
  store_byte-find_cell addr a w h h' at_first same e =
      let (el, low, rest) =
        >>=-eq-ok (if ltb 8 (words.width w) then ok (words.truncate 8 w) else err assertion) _ e in
      let made = ok-injective (rw at_first at rest) in
      let is_low = low_byte (ltb 8 (words.width w)) el low in
      rw (← made, is_low)
        (find_cell-write_cell a (bounded (words.truncate 8 w)) h.assigned_values same)
    where
      low_byte :
          (t : Bool) (el : W)
          → (if t then ok (words.truncate 8 w) else err assertion) ≡ ok el
          → el ≡ words.truncate 8 w
      low_byte true el k = sym (ok-injective k)
      low_byte false el k = cc

  -- The last byte that is stored is the low byte of the value shifted right by all its bytes.
  store_bytes-find_cell :
      (n : ℕ) (addr a : Integer W Z) (w : W) (h h' : Heap W Z)
      → byte_address lib addr 0 ≡ ok a
      → same_key lib a a ≡ true
      → store_bytes lib n addr w h ≡ ok h'
      → find_cell lib h'.assigned_values a ≡ some (bounded (words.truncate 8 (shifted n w)))
  unfolding store_bytes shifted
  store_bytes-find_cell zero addr a w h h' at_first same e =
      store_byte-find_cell addr a w h h' at_first same e
  store_bytes-find_cell (suc n) addr a w h h' at_first same e =
      let (h₁, first, rest) = >>=-eq-ok (store_byte lib (suc n) addr w h) _ e in
      store_bytes-find_cell n addr a (words.right_by w 8) h₁ h' at_first same rest

-- What LLVM says of the numbers that words stand for: an arithmetic shift of a word that is not
-- negative divides, and keeps the width; a truncation takes a remainder.
pub record ShiftLaws {W : Type 0} (ap : ApInt W) (value : W → ℕ) : Type 0 where
  pub value-right_by :
      (w : W) (k : ℕ)
      → value w * 2 < 2 ^ ap.width w
      → (value (ap.right_by w k) ≡ value w / 2 ^ k) × (ap.width (ap.right_by w k) ≡ ap.width w)
  pub value-truncate : (b : ℕ) (w : W) → value (ap.truncate b w) ≡ value w % 2 ^ b

module _ {W Z : Type 0} (lib : Arithmetic W Z) (value : W → ℕ)
    (laws : ShiftLaws lib.words value) where
  open lib use {words, numbers}

  div-lt-pow : (n v : ℕ) → v < 256 ^ suc n → v / 256 < 256 ^ n
  div-lt-pow n v h = omega (arith, pow-suc 256 n, h)

  value-shifted :
      (n : ℕ) (w : W)
      → value w * 2 < 2 ^ words.width w
      → value w < 256 ^ n
      → value (shifted lib n w) ≡ 0
  unfolding shifted
  value-shifted zero w positive fits = omega (arith, fits, pow-zero 256)
  value-shifted (suc n) w positive fits =
      let (halved, wide) = laws.value-right_by w 8 positive in
      value-shifted n (words.right_by w 8) (rw (halved, wide) (omega (arith, positive)))
        (rw halved (div-lt-pow n (value w) fits))

  -- In bit vector mode, if words are shifted and truncated as their values are, a store of a word
  -- that is not negative by its bytes, if it succeeds, leaves at the address itself a zero byte,
  -- whatever the bytes of the word are.
  pub store_bytes-value :
      (n : ℕ) (addr a : Integer W Z) (w : W) (h h' : Heap W Z)
      → value w * 2 < 2 ^ words.width w
      → value w < 256 ^ n
      → byte_address lib addr 0 ≡ ok a
      → same_key lib a a ≡ true
      → store_bytes lib n addr w h ≡ ok h'
      → (b : W) × (find_cell lib h'.assigned_values a ≡ some (bounded b)) × (value b ≡ 0)
  store_bytes-value n addr a w h h' positive fits at_first same e = (
    words.truncate 8 (shifted lib n w),
    store_bytes-find_cell lib n addr a w h h' at_first same e,
    laws.value-truncate 8 (shifted lib n w) ∙ omega (arith, value-shifted n w positive fits),
  )
