-- ===== src/Tests/Numbers.antt =====
-- Words of any width in two's complement, and integers, for the interpreter.
use Prim.Native.Nat.{bit_and, bit_or, bit_xor}
use llreve.Prelude.{
  ℕ, suc, ◌+◌, ◌-◌, ◌*◌, ◌/◌, ◌%◌, ◌^◌, Bool, true, false, not, ◌&&◌, ◌||◌, lt→ltb, if◌then◌else◌,
  nat_eq, nat_eq-eq, eq-nat_eq, ltb, ℤ, pos, negsuc, int_eq, int_eq-eq, int_eq_refl, refl, ap₂,
  and-true,
}
use llreve.Marks.Sets.{IsTest}
use llreve.Dynamic.Integers.{ApInt, Mpz, Arithmetic}
use llreve.Dynamic.Interpreter.StoreLoad.{ShiftLaws}

pub record Word : Type 0 where
  pub bits : ℕ
  pub value : ℕ

abbrev pub word : ℕ → ℕ → Word
word b v = record { bits = b; value = v % 2 ^ b }

abbrev is_negative : Word → Bool
is_negative w = not (ltb (w.value * 2) (2 ^ w.bits))

abbrev signed : Word → ℤ
signed w = if is_negative w then negsuc (2 ^ w.bits - 1 - w.value) else pos w.value

-- whether a number is an `int64_t`
abbrev fits_long : ℤ → Bool
fits_long (pos n) = ltb n (2 ^ 63)
fits_long (negsuc n) = ltb n (2 ^ 63)

abbrev negated : Word → Word
negated w = word w.bits (2 ^ w.bits - w.value)

abbrev magnitude : Word → ℕ
magnitude w = if is_negative w then 2 ^ w.bits - w.value else w.value

abbrev with_sign : Bool → ℕ → ℕ → Word
with_sign true b v = negated (word b v)
with_sign false b v = word b v

abbrev different : Bool → Bool → Bool
different true b = not b
different false b = b

abbrev extended : ℕ → Word → Word
extended b w =
    if is_negative w
    then record { bits = b; value = w.value + 2 ^ b - 2 ^ w.bits }
    else record { bits = b; value = w.value }

abbrev shifted_right : Word → ℕ → Word
shifted_right w k =
    if is_negative w
    then record { bits = w.bits; value = 2 ^ w.bits - 1 - (2 ^ w.bits - 1 - w.value) / 2 ^ k }
    else record { bits = w.bits; value = w.value / 2 ^ k }

abbrev pub word_equal : Word → Word → Bool
word_equal v w = nat_eq v.bits w.bits && nat_eq v.value w.value

abbrev pub two_complement : ApInt Word
two_complement = record {
  width = λ w. w.bits;
  word = word;
  plus = λ v w. word v.bits (v.value + w.value);
  times = λ v w. word v.bits (v.value * w.value);
  negate = negated;
  one_more = λ w. word w.bits (w.value + 1);
  one_less = λ w. word w.bits (w.value + 2 ^ w.bits - 1);
  zero_extend = λ b w. record { bits = b; value = w.value };
  sign_extend = extended;
  sext_or_self = λ b w. if ltb w.bits b then extended b w else w;
  zext_or_trunc = λ b w. word b w.value;
  truncate = λ b w. word b w.value;
  equal = word_equal;
  unsigned_less = λ v w. ltb v.value w.value;
  signed_less = λ v w.
      if is_negative v
      then not (is_negative w) || ltb v.value w.value
      else not (is_negative w) && ltb v.value w.value;
  signed_div = λ v w.
      with_sign (different (is_negative v) (is_negative w)) v.bits (magnitude v / magnitude w);
  unsigned_div = λ v w. word v.bits (v.value / w.value);
  signed_rem = λ v w. with_sign (is_negative v) v.bits (magnitude v % magnitude w);
  unsigned_rem = λ v w. word v.bits (v.value % w.value);
  is_zero = λ w. nat_eq w.value 0;
  shift_left = λ v w. word v.bits (v.value * 2 ^ w.value);
  logical_shift = λ v w. word v.bits (v.value / 2 ^ w.value);
  arithmetic_shift = λ v w. shifted_right v w.value;
  left_by = λ w k. word w.bits (w.value * 2 ^ k);
  right_by = shifted_right;
  bits_and = λ v w. word v.bits (bit_and v.value w.value);
  bits_or = λ v w. word v.bits (bit_or v.value w.value);
  bits_xor = λ v w. word v.bits (bit_xor v.value w.value);
  bool_value = λ w. not (nat_eq w.value 0);
  sext_value = signed;
  fits_int64 = λ w. fits_long (signed w);
}

-- a - b
abbrev difference : ℕ → ℕ → ℤ
difference a b = if ltb a b then negsuc (b - a - 1) else pos (a - b)

abbrev positive_part : ℤ → ℕ
positive_part (pos n) = n
positive_part (negsuc n) = 0

abbrev negative_part : ℤ → ℕ
negative_part (pos n) = 0
negative_part (negsuc n) = suc n

abbrev absolute_value : ℤ → ℕ
absolute_value a = positive_part a + negative_part a

abbrev int_less : ℤ → ℤ → Bool
int_less a b = ltb (positive_part a + negative_part b) (positive_part b + negative_part a)

abbrev is_less_than_zero : ℤ → Bool
is_less_than_zero (pos n) = false
is_less_than_zero (negsuc n) = true

abbrev signed_number : Bool → ℕ → ℤ
signed_number true n = difference 0 n
signed_number false n = pos n

abbrev pub plain_integers : Mpz ℤ
plain_integers = record {
  of_int = λ a. a;
  sum = λ a b. difference (positive_part a + positive_part b) (negative_part a + negative_part b);
  product = λ a b.
      difference (positive_part a * positive_part b + negative_part a * negative_part b)
        (positive_part a * negative_part b + negative_part a * positive_part b);
  negative = λ a. difference (negative_part a) (positive_part a);
  quotient = λ a b.
      signed_number (different (is_less_than_zero a) (is_less_than_zero b))
        (absolute_value a / absolute_value b);
  remainder = λ a b. signed_number (is_less_than_zero a) (absolute_value a % absolute_value b);
  absolute = λ a. pos (absolute_value a);
  same = int_eq;
  less = int_less;
  get_si = λ a. a;
  fits_slong = λ a. ltb (absolute_value a) (2 ^ 63);
}

abbrev pub machine : Arithmetic Word ℤ
machine = record { words = two_complement; numbers = plain_integers }

pub int_eq-IsTest : IsTest int_eq
int_eq-IsTest = record { sound = int_eq-eq; reflexive = int_eq_refl }

pub word_equal-IsTest : IsTest word_equal
word_equal-IsTest = record {
  sound = λ v w h.
      let parts = and-true (nat_eq v.bits w.bits) (nat_eq v.value w.value) h in
      ap₂ (λ b n. record { bits = b; value = n }) (nat_eq-eq v.bits w.bits parts.0)
        (nat_eq-eq v.value w.value parts.1);
  reflexive = λ w. rw (eq-nat_eq w.bits w.bits refl, eq-nat_eq w.value w.value refl) refl;
}

pub two_complement-ShiftLaws : ShiftLaws two_complement (λ (w : Word). w.value)
two_complement-ShiftLaws = record {
  value-right_by = λ w k h. rw (lt→ltb (w.value * 2) (2 ^ w.bits) h) (refl, refl);
  value-truncate = λ b w. refl;
}
