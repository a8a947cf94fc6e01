-- ===== src/Dynamic/Integers/Negative.antt =====
-- `makeBoundedInt` and `asPointer` at negative numbers.
use llreve.Prelude.{ℕ, suc, ◌-◌, ◌%◌, ◌^◌, ◌<◌, true, negsuc, ◌≡◌, ap, ◌∙◌, arith, ok}
use llreve.Dynamic.Integers.{ApInt, Arithmetic, unbounded, bounded, NumberOptions, make_bounded_int}
use llreve.Dynamic.Integers.Compare.{as_pointer, pointer_word, number_pointer}

-- The negative of a 64 bit word is the word of the other residue, as in two's complement.
abbrev pub NegatesWords : {W : Type 0} → ApInt W → Type 0
NegatesWords ap =
    (n : ℕ) → n < 2 ^ 64 → ap.negate (ap.word 64 (2 ^ 64 - 1 - n)) ≡ ap.word 64 (suc n)

module _ {W Z : Type 0} (lib : Arithmetic W Z) (opts : NumberOptions) where
  open lib use {words, numbers}

  -- In bit vector mode a negative number becomes the pointer that its absolute value is: the sign
  -- is taken away a second time.
  pub as_pointer-negsuc :
      NegatesWords words
      → opts.bit_vect ≡ true
      → (a : Z) (n : ℕ) → numbers.fits_slong a ≡ true
      → numbers.get_si a ≡ negsuc n
      → n < 2 ^ 63
      → as_pointer lib opts (unbounded a) ≡ ok (bounded (words.word 64 (suc n)))
  unfolding as_pointer pointer_word number_pointer
  as_pointer-negsuc negates mode a n fits value small =
      rw (mode, fits, value) (ap (λ w. ok (bounded w)) (negative-word n small))
    where
      negative-word :
          (n : ℕ) → n < 2 ^ 63 → make_bounded_int words 64 (negsuc n) ≡ words.word 64 (suc n)
      negative-word n small =
          let whole : n % 2 ^ 64 ≡ n = omega arith in
          ap (λ m. words.negate (words.word 64 (2 ^ 64 - 1 - m))) whole ∙ negates n (omega arith)
