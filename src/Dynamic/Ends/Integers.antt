-- ===== src/Dynamic/Ends/Integers.antt =====
-- The operations on the interpreter's integers end.
use llreve.Prelude.{ℕ, Bool, ltb, nat_eq, pos, Result}
use llreve.Dynamic.Integers.{
  ApInt, Arithmetic, Integer, unbounded, bounded, by_type, same_width, on_words, NumberOptions,
  number_division, word_division, on_bounded, plus, minus, minus_sign, times, sdiv, udiv, srem,
  urem, shl, lshr, ashr, and_, or_, xor_, zext, sext, sext_number, as_unbounded,
}
use llreve.Dynamic.Integers.Compare.{
  compare_by, as_pointer, word_pointer, number_pointer, pointer_word,
}
use llreve.Dynamic.Ends.{Ends, returned, assertion-Ends, undefined-Ends, if-Ends, >>=-Ends}

module _ {W Z A : Type 0} where
  by_type-Ends :
      (f : Z → Z → Result A) (g : W → W → Result A)
      → ((x y : Z) → Ends (f x y))
      → ((x y : W) → Ends (g x y))
      → (a b : Integer W Z) → Ends (by_type f g a b)
  by_type-Ends f g h k (unbounded a) (unbounded b) = h a b
  by_type-Ends f g h k (bounded a) (bounded b) = k a b
  by_type-Ends f g h k (unbounded a) (bounded b) = assertion-Ends
  by_type-Ends f g h k (bounded a) (unbounded b) = assertion-Ends

pub same_width-Ends :
    {W A : Type 0} (ap : ApInt W) (f : W → W → A) (a b : W) → Ends (same_width ap f a b)
same_width-Ends ap f a b = if-Ends (nat_eq (ap.width a) (ap.width b)) (returned _) assertion-Ends

on_words-Ends :
    {W Z : Type 0} (ap : ApInt W) (f : W → W → W) (a b : W) → Ends (on_words {Z = Z} ap f a b)
on_words-Ends ap f a b = >>=-Ends (same_width-Ends ap f a b) (λ c. returned _)

module _ {W Z : Type 0} (lib : Arithmetic W Z) where
  open lib use {words, numbers}

  number_division-Ends : (f : Z → Z → Z) (a b : Z) → Ends (number_division lib f a b)
  number_division-Ends f a b =
      if-Ends (numbers.same b (numbers.of_int (pos 0))) undefined-Ends (returned _)

  word_division-Ends : (f : W → W → W) (a b : W) → Ends (word_division lib f a b)
  word_division-Ends f a b = if-Ends (words.is_zero b) assertion-Ends (on_words-Ends words f a b)

  on_bounded-Ends : (f : W → W → W) (a b : Integer W Z) → Ends (on_bounded lib f a b)
  on_bounded-Ends f (bounded a) (bounded b) = on_words-Ends words f a b
  on_bounded-Ends f (bounded a) (unbounded b) = undefined-Ends
  on_bounded-Ends f (unbounded a) (bounded b) = assertion-Ends
  on_bounded-Ends f (unbounded a) (unbounded b) = assertion-Ends

  pub plus-Ends : (a b : Integer W Z) → Ends (plus lib a b)
  unfolding plus
  plus-Ends = by_type-Ends _ _ (λ x y. returned _) (on_words-Ends words words.plus)

  pub times-Ends : (a b : Integer W Z) → Ends (times lib a b)
  unfolding times
  times-Ends = by_type-Ends _ _ (λ x y. returned _) (on_words-Ends words words.times)

  pub minus-Ends : (a b : Integer W Z) → Ends (minus lib a b)
  unfolding minus
  minus-Ends a b =
      >>=-Ends (by_type-Ends _ _ (λ x y. returned _) (λ x y. returned _) a b)
        (λ c. plus-Ends c (minus_sign lib b))

  division-Ends :
      (f : Z → Z → Z) (g : W → W → W) (a b : Integer W Z)
      → Ends (by_type (number_division lib f) (word_division lib g) a b)
  division-Ends f g = by_type-Ends _ _ (number_division-Ends f) (word_division-Ends g)

  pub sdiv-Ends : (a b : Integer W Z) → Ends (sdiv lib a b)
  unfolding sdiv
  sdiv-Ends = division-Ends _ _

  pub udiv-Ends : (a b : Integer W Z) → Ends (udiv lib a b)
  unfolding udiv
  udiv-Ends = division-Ends _ _

  pub srem-Ends : (a b : Integer W Z) → Ends (srem lib a b)
  unfolding srem
  srem-Ends = division-Ends _ _

  pub urem-Ends : (a b : Integer W Z) → Ends (urem lib a b)
  unfolding urem
  urem-Ends = division-Ends _ _

  pub shl-Ends : (a b : Integer W Z) → Ends (shl lib a b)
  unfolding shl
  shl-Ends = on_bounded-Ends _

  pub lshr-Ends : (a b : Integer W Z) → Ends (lshr lib a b)
  unfolding lshr
  lshr-Ends = on_bounded-Ends _

  pub ashr-Ends : (a b : Integer W Z) → Ends (ashr lib a b)
  unfolding ashr
  ashr-Ends = on_bounded-Ends _

  pub and_-Ends : (a b : Integer W Z) → Ends (and_ lib a b)
  unfolding and_
  and_-Ends = on_bounded-Ends _

  pub or_-Ends : (a b : Integer W Z) → Ends (or_ lib a b)
  unfolding or_
  or_-Ends = on_bounded-Ends _

  pub xor_-Ends : (a b : Integer W Z) → Ends (xor_ lib a b)
  unfolding xor_
  xor_-Ends = on_bounded-Ends _

  pub zext-Ends : (w : ℕ) (a : Integer W Z) → Ends (zext lib w a)
  unfolding zext
  zext-Ends w (unbounded a) = returned _
  zext-Ends w (bounded a) = if-Ends (ltb (words.width a) w) (returned _) assertion-Ends

  pub sext-Ends : (w : ℕ) (a : Integer W Z) → Ends (sext lib w a)
  unfolding sext
  sext-Ends w (unbounded a) = returned _
  sext-Ends w (bounded a) = if-Ends (ltb (words.width a) w) (returned _) assertion-Ends

  pub compare_by-Ends :
      (f : Z → Z → Bool) (g : W → W → Bool) (a b : Integer W Z) → Ends (compare_by lib f g a b)
  compare_by-Ends f g = by_type-Ends _ _ (λ x y. returned _) (same_width-Ends words g)

  word_pointer-Ends : (w : W) → Ends (word_pointer lib w)
  unfolding word_pointer
  word_pointer-Ends w =
      if-Ends (ltb 64 (words.width w)) assertion-Ends
        (if-Ends (nat_eq (words.width w) 64) (returned _) (returned _))

  pointer_word-Ends : (a : Integer W Z) → Ends (pointer_word lib a)
  unfolding pointer_word number_pointer
  pointer_word-Ends (bounded w) = word_pointer-Ends w
  pointer_word-Ends (unbounded n) = if-Ends (numbers.fits_slong n) (returned _) assertion-Ends

  pub sext_number-Ends : (w : W) → Ends (sext_number lib w)
  unfolding sext_number
  sext_number-Ends w = if-Ends (words.fits_int64 w) (returned _) assertion-Ends

  pub as_unbounded-Ends : (a : Integer W Z) → Ends (as_unbounded lib a)
  unfolding as_unbounded
  as_unbounded-Ends (unbounded n) = returned n
  as_unbounded-Ends (bounded w) = sext_number-Ends w

  pub as_pointer-Ends : (opts : NumberOptions) (a : Integer W Z) → Ends (as_pointer lib opts a)
  unfolding as_pointer
  as_pointer-Ends opts a =
      if-Ends opts.bit_vect (pointer_word-Ends a) (>>=-Ends (as_unbounded-Ends a) (λ n. returned _))
