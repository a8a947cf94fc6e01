-- ===== src/Dynamic/Integers/Compare.antt =====
-- Comparisons of the interpreter's integers, `asPointer`, and integers as keys of maps:
-- `reve/dynamic/llreve-dynamic/lib/llreve/dynamic/Integer.cpp`, with `DenseMapInfo<Integer>` of
-- `reve/dynamic/llreve-dynamic/include/llreve/dynamic/Interpreter.h`.
use llreve.Prelude.{
  ltb, nat_eq, Bool, false, not, ◌&&◌, if◌then◌else◌, Result, ok, err, assertion, ◌>>=◌,
}
use llreve.Dynamic.Integers.{
  Arithmetic, Integer, unbounded, bounded, by_type, same_width, NumberOptions, make_bounded_int,
  as_unbounded,
}

module _ {W Z : Type 0} (lib : Arithmetic W Z) where
  open lib use {words, numbers}

  abbrev pub compare_by : (Z → Z → Bool) → (W → W → Bool) → Integer W Z → Integer W Z → Result Bool
  compare_by f g = by_type (λ a b. ok (f a b)) (same_width words g)

  -- `eq`, and `operator==`
  unfoldable pub eq : Integer W Z → Integer W Z → Result Bool
  eq = compare_by numbers.same words.equal

  unfoldable pub ne : Integer W Z → Integer W Z → Result Bool
  ne = compare_by (λ a b. not (numbers.same a b)) (λ a b. not (words.equal a b))

  unfoldable pub slt : Integer W Z → Integer W Z → Result Bool
  slt = compare_by numbers.less words.signed_less

  unfoldable pub sle : Integer W Z → Integer W Z → Result Bool
  sle = compare_by (λ a b. not (numbers.less b a)) (λ a b. not (words.signed_less b a))

  unfoldable pub sgt : Integer W Z → Integer W Z → Result Bool
  sgt = compare_by (λ a b. numbers.less b a) (λ a b. words.signed_less b a)

  unfoldable pub sge : Integer W Z → Integer W Z → Result Bool
  sge = compare_by (λ a b. not (numbers.less a b)) (λ a b. not (words.signed_less a b))

  -- Two keys of a map are one if they have one type, one width, and one value.
  unfoldable pub same_key : Integer W Z → Integer W Z → Bool
  same_key (unbounded a) (unbounded b) = numbers.same a b
  same_key (bounded a) (bounded b) = nat_eq (words.width a) (words.width b) && words.equal a b
  same_key a b = false

  -- the bounded case of `asPointer`
  unfoldable pub word_pointer : W → Result (Integer W Z)
  word_pointer w =
      if ltb 64 (words.width w)
      then err assertion
      else if nat_eq (words.width w) 64
      then ok (bounded w)
      else ok (bounded (words.sign_extend 64 w))

  unfoldable pub number_pointer : Z → Result (Integer W Z)
  unfolding make_bounded_int
  number_pointer n =
      if numbers.fits_slong n
      then ok (bounded (make_bounded_int words 64 (numbers.get_si n)))
      else err assertion

  unfoldable pub pointer_word : Integer W Z → Result (Integer W Z)
  unfolding word_pointer number_pointer
  pointer_word (bounded w) = word_pointer w
  pointer_word (unbounded n) = number_pointer n

  module _ (opts : NumberOptions) where
    -- `<` of unsigned numbers without a width: of the numbers, or of their absolute values
    unfoldable pub unsigned_lt : Z → Z → Bool
    unsigned_lt a b =
        if opts.everything_signed
        then numbers.less a b
        else numbers.less (numbers.absolute a) (numbers.absolute b)

    unfoldable pub ult : Integer W Z → Integer W Z → Result Bool
    unfolding unsigned_lt
    ult = compare_by unsigned_lt words.unsigned_less

    unfoldable pub ule : Integer W Z → Integer W Z → Result Bool
    unfolding unsigned_lt
    ule = compare_by (λ a b. not (unsigned_lt b a)) (λ a b. not (words.unsigned_less b a))

    unfoldable pub ugt : Integer W Z → Integer W Z → Result Bool
    unfolding unsigned_lt
    ugt = compare_by (λ a b. unsigned_lt b a) (λ a b. words.unsigned_less b a)

    unfoldable pub uge : Integer W Z → Integer W Z → Result Bool
    unfolding unsigned_lt
    uge = compare_by (λ a b. not (unsigned_lt a b)) (λ a b. not (words.unsigned_less a b))

    unfoldable pub as_pointer : Integer W Z → Result (Integer W Z)
    unfolding as_unbounded pointer_word
    as_pointer a =
        if opts.bit_vect then pointer_word a else as_unbounded lib a >>= (λ n. ok (unbounded n))
