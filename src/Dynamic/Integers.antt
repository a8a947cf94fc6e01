-- ===== src/Dynamic/Integers.antt =====
-- Bounded and unbounded integers of the interpreter:
-- `reve/dynamic/llreve-dynamic/include/llreve/dynamic/Integer.h` and
-- `reve/dynamic/llreve-dynamic/lib/llreve/dynamic/Integer.cpp`.
pub mod Compare
pub mod Negative
use llreve.Prelude.{
  ℕ, zero, suc, ◌-◌, ◌%◌, ◌^◌, Bool, true, false, not, if◌then◌else◌, ltb, nat_eq, ℤ, pos, negsuc,
  Result, ok, err, assertion, exit_one, undefined, ◌>>=◌,
}

-- `llvm::APInt`, a word of some width. The operations on two words are for words of one width,
-- which LLVM asserts.
pub record ApInt (W : Type 0) : Type 0 where
  pub width : W → ℕ
  -- `APInt(width, value)` of a `uint64_t`
  pub word : ℕ → ℕ → W
  pub plus : W → W → W
  pub times : W → W → W
  pub negate : W → W
  pub one_more : W → W
  pub one_less : W → W
  pub zero_extend : ℕ → W → W
  pub sign_extend : ℕ → W → W
  pub sext_or_self : ℕ → W → W
  pub zext_or_trunc : ℕ → W → W
  pub truncate : ℕ → W → W
  pub equal : W → W → Bool
  pub unsigned_less : W → W → Bool
  pub signed_less : W → W → Bool
  pub signed_div : W → W → W
  pub unsigned_div : W → W → W
  pub signed_rem : W → W → W
  pub unsigned_rem : W → W → W
  pub is_zero : W → Bool
  pub shift_left : W → W → W
  pub logical_shift : W → W → W
  pub arithmetic_shift : W → W → W
  -- `<<` and `ashr` by a number
  pub left_by : W → ℕ → W
  pub right_by : W → ℕ → W
  pub bits_and : W → W → W
  pub bits_or : W → W → W
  pub bits_xor : W → W → W
  -- `getBoolValue()`, and `getSExtValue()`, which asserts `getMinSignedBits() <= 64`
  pub bool_value : W → Bool
  pub sext_value : W → ℤ
  pub fits_int64 : W → Bool

-- `mpz_class`
pub record Mpz (Z : Type 0) : Type 0 where
  pub of_int : ℤ → Z
  pub sum : Z → Z → Z
  pub product : Z → Z → Z
  pub negative : Z → Z
  pub quotient : Z → Z → Z
  pub remainder : Z → Z → Z
  pub absolute : Z → Z
  pub same : Z → Z → Bool
  pub less : Z → Z → Bool
  -- `get_si()` and `fits_slong_p()`
  pub get_si : Z → ℤ
  pub fits_slong : Z → Bool

-- The two libraries.
pub record Arithmetic (W Z : Type 0) : Type 0 where
  pub words : ApInt W
  pub numbers : Mpz Z

-- `Integer`, a tagged union
pub data Integer (W Z : Type 0) : Type 0 where
  unbounded : Z → Integer W Z
  bounded : W → Integer W Z

-- `assert(type == rhs.type)`, then the switch on the type
module _ {W Z A : Type 0} where
  abbrev pub by_type :
      (Z → Z → Result A) → (W → W → Result A) → Integer W Z → Integer W Z → Result A
  by_type f g (unbounded a) (unbounded b) = f a b
  by_type f g (bounded a) (bounded b) = g a b
  by_type f g a b = err assertion

-- The options that the interpreter reads of `SMTGenerationOpts`.
pub record NumberOptions : Type 0 where
  pub bit_vect : Bool
  pub everything_signed : Bool

-- LLVM's assertion that two words have one width
abbrev pub same_width : {W A : Type 0} → ApInt W → (W → W → A) → W → W → Result A
same_width ap f a b = if nat_eq (ap.width a) (ap.width b) then ok (f a b) else err assertion

abbrev pub on_words : {W Z : Type 0} → ApInt W → (W → W → W) → W → W → Result (Integer W Z)
on_words ap f a b = do c ← same_width ap f a b; ok (bounded c)

abbrev pub on_numbers : {W Z : Type 0} → (Z → Z → Z) → Z → Z → Result (Integer W Z)
on_numbers f a b = ok (unbounded (f a b))

-- a `uint64_t` of an `int64_t`
unfoldable pub to_uint64 : ℤ → ℕ
to_uint64 (pos n) = n % 2 ^ 64
to_uint64 (negsuc n) = 2 ^ 64 - 1 - n % 2 ^ 64

module _ {W : Type 0} (ap : ApInt W) where
  unfoldable pub make_bounded_int : ℕ → ℤ → W
  unfolding to_uint64
  make_bounded_int bits (pos n) = ap.word bits (to_uint64 (pos n))
  make_bounded_int bits (negsuc n) = ap.negate (ap.word bits (to_uint64 (negsuc n)))

module _ {W Z : Type 0} (lib : Arithmetic W Z) where
  open lib use {words, numbers}

  -- `operator+=`, and with it `operator+`
  unfoldable pub plus : Integer W Z → Integer W Z → Result (Integer W Z)
  plus = by_type (on_numbers numbers.sum) (on_words words words.plus)

  unfoldable pub minus_sign : Integer W Z → Integer W Z
  minus_sign (unbounded a) = unbounded (numbers.negative a)
  minus_sign (bounded a) = bounded (words.negate a)

  -- `operator-=`
  unfoldable pub minus : Integer W Z → Integer W Z → Result (Integer W Z)
  unfolding plus minus_sign
  minus a b = do c ← by_type (λ x y. ok a) (λ x y. ok a) a b; plus c (minus_sign b)

  unfoldable pub times : Integer W Z → Integer W Z → Result (Integer W Z)
  times = by_type (on_numbers numbers.product) (on_words words words.times)

  -- `operator++` and `operator--`
  unfoldable pub increment : Integer W Z → Integer W Z
  increment (unbounded a) = unbounded (numbers.sum a (numbers.of_int (pos 1)))
  increment (bounded a) = bounded (words.one_more a)

  unfoldable pub decrement : Integer W Z → Integer W Z
  decrement (unbounded a) = unbounded (numbers.sum a (numbers.of_int (negsuc 0)))
  decrement (bounded a) = bounded (words.one_less a)

  -- a division of numbers, which traps if the divisor is zero
  abbrev pub number_division : (Z → Z → Z) → Z → Z → Result (Integer W Z)
  number_division f a b =
      if numbers.same b (numbers.of_int (pos 0)) then err undefined else ok (unbounded (f a b))

  -- a division of words, which asserts that the divisor is not zero
  abbrev pub word_division : (W → W → W) → W → W → Result (Integer W Z)
  word_division f a b = if words.is_zero b then err assertion else on_words words f a b

  -- `operator/=`
  unfoldable pub divide : Integer W Z → Integer W Z → Result (Integer W Z)
  divide = by_type (number_division numbers.quotient) (λ a b. err exit_one)

  unfoldable pub sdiv : Integer W Z → Integer W Z → Result (Integer W Z)
  sdiv = by_type (number_division numbers.quotient) (word_division words.signed_div)

  unfoldable pub udiv : Integer W Z → Integer W Z → Result (Integer W Z)
  udiv = by_type (number_division numbers.quotient) (word_division words.unsigned_div)

  unfoldable pub srem : Integer W Z → Integer W Z → Result (Integer W Z)
  srem = by_type (number_division numbers.remainder) (word_division words.signed_rem)

  unfoldable pub urem : Integer W Z → Integer W Z → Result (Integer W Z)
  urem = by_type (number_division numbers.remainder) (word_division words.unsigned_rem)

  -- Shifts and bit operations assert twice that the left operand is bounded, and read the right
  -- one as bounded whatever it is.
  abbrev pub on_bounded : (W → W → W) → Integer W Z → Integer W Z → Result (Integer W Z)
  on_bounded f (bounded a) (bounded b) = on_words words f a b
  on_bounded f (bounded a) (unbounded b) = err undefined
  on_bounded f (unbounded a) b = err assertion

  unfoldable pub shl : Integer W Z → Integer W Z → Result (Integer W Z)
  shl = on_bounded words.shift_left

  unfoldable pub lshr : Integer W Z → Integer W Z → Result (Integer W Z)
  lshr = on_bounded words.logical_shift

  unfoldable pub ashr : Integer W Z → Integer W Z → Result (Integer W Z)
  ashr = on_bounded words.arithmetic_shift

  unfoldable pub and_ : Integer W Z → Integer W Z → Result (Integer W Z)
  and_ = on_bounded words.bits_and

  unfoldable pub or_ : Integer W Z → Integer W Z → Result (Integer W Z)
  or_ = on_bounded words.bits_or

  unfoldable pub xor_ : Integer W Z → Integer W Z → Result (Integer W Z)
  xor_ = on_bounded words.bits_xor

  -- `zext` and `sext`; LLVM asserts that the width grows.
  unfoldable pub zext : ℕ → Integer W Z → Result (Integer W Z)
  zext w (unbounded a) = ok (unbounded a)
  zext w (bounded a) =
      if ltb (words.width a) w then ok (bounded (words.zero_extend w a)) else err assertion

  unfoldable pub sext : ℕ → Integer W Z → Result (Integer W Z)
  sext w (unbounded a) = ok (unbounded a)
  sext w (bounded a) =
      if ltb (words.width a) w then ok (bounded (words.sign_extend w a)) else err assertion

  unfoldable pub zext_or_trunc : ℕ → Integer W Z → Integer W Z
  zext_or_trunc w (unbounded a) = unbounded a
  zext_or_trunc w (bounded a) = bounded (words.zext_or_trunc w a)

  -- `mpz_class(value.getSExtValue())`
  unfoldable pub sext_number : W → Result Z
  sext_number w =
      if words.fits_int64 w then ok (numbers.of_int (words.sext_value w)) else err assertion

  unfoldable pub as_unbounded : Integer W Z → Result Z
  unfolding sext_number
  as_unbounded (unbounded a) = ok a
  as_unbounded (bounded a) = sext_number a
