-- ===== src/Smt/Options.antt =====
-- What the SMT passes read of `SMTGenerationOpts` (`reve/reve/include/Opts.h`), the operations of
-- LLVM's numbers that they call, and `std::to_string` of an unsigned number.
use Prim.Native.String.{◌++◌}
use llreve.Prelude.{ℕ, zero, suc, ◌/◌, ◌%◌, String, Bool, if◌then◌else◌, ltb, ◌≡◌, refl}

-- `SMTFormat`
pub data SmtFormat : Type 0 where
  z3 smt_horn : SmtFormat

pub record Options : Type 0 where
  pub bit_vect : Bool
  pub output_format : SmtFormat

-- `llvm::APInt` and `llvm::APFloat`.
pub record Numbers (I F : Type 0) : Type 0 where
  -- `getBitWidth()`, `isNegative()`, `-value`, `APInt(width, value)`
  pub bit_width : I → ℕ
  pub is_negative : I → Bool
  pub negate : I → I
  pub ap_int : ℕ → ℕ → I
  -- `toString(16, false)` and `toString(10, true)`
  pub hex : I → String
  pub decimal : I → String
  -- `isInteger()`, and `toString` with no scientific notation
  pub is_integer : F → Bool
  pub plain : F → String

digit : ℕ → String
digit n =
    if ltb n 1
    then "0"
    else if ltb n 2
    then "1"
    else if ltb n 3
    then "2"
    else if ltb n 4
    then "3"
    else if ltb n 5
    then "4"
    else if ltb n 6
    then "5"
    else if ltb n 7
    then "6"
    else if ltb n 8
    then "7"
    else if ltb n 9
    then "8"
    else "9"

-- The digits before `rest`; a number has fewer digits than its successor's fuel.
digits_before : ℕ → ℕ → String → String
digits_before zero n rest = rest
digits_before (suc fuel) n rest =
    let more = digits_before fuel (n / 10) (digit (n % 10) ++ rest) in
    if ltb n 10 then digit n ++ rest else more

unfoldable pub to_string : ℕ → String
unfolding digits_before digit
to_string n = digits_before (suc n) n ""

to_string_test : to_string 1024 ≡ "1024"
unfolding to_string
to_string_test = refl
