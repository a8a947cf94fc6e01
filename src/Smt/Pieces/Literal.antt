-- ===== src/Smt/Pieces/Literal.antt =====
-- The bit vector literals that `ConstantInt::toSExpr` writes.
use Prim.Native.String.{◌++◌, count}
use text.Mathlib.TextLemmas.{length-append}
use llreve.Prelude.{
  ℕ, zero, suc, ◌+◌, ◌-◌, ◌*◌, ◌/◌, ◌%◌, ◌^◌, ◌≤◌, ◌<◌, String, true, ◌≡◌, ◌≢◌, sym, ◌∙◌, arith,
  ltb, nat_eq, nat_eq-eq, eq-nat_eq, lt→ltb, err-ne-ok, assertion, undefined, Bool-cases, inl, inr,
  ok, >>=-eq-ok, ok-injective,
}
use llreve.Sexpr.{Sexpr, value}
use llreve.Smt.Options.{Options, SmtFormat, Numbers}
use llreve.Smt.Pieces.{sub_unsigned, zeros, checked_width, pad, padded, constant_int_to_sexpr}

count-zeros : (n : ℕ) (t : String) → count (zeros n t) ≡ n + count t
unfolding zeros
count-zeros zero t = omega arith
count-zeros (suc n) t = length-append "0" (zeros n t) ∙ omega (arith, count-zeros n t)

checked_width-eq-ok :
    (width : ℕ) (text digits : String)
    → checked_width width text ≡ ok digits
    → (width ≡ 4 * count text) × (text ≡ digits)
unfolding checked_width
checked_width-eq-ok width text digits h = elim (Bool-cases (nat_eq width (4 * count text))) [
  | inl q ↦ (nat_eq-eq width (4 * count text) q, ok-injective (rw q at h))
  | inr q ↦ absurd (err-ne-ok assertion digits (rw q at h))
]

pad-width :
    (missing width : ℕ) (text digits : String)
    → pad missing width text ≡ ok digits
    → 4 * count digits ≡ width
unfolding pad
pad-width missing width text digits h = elim (Bool-cases (ltb missing (2 ^ 31))) [
  | inl p ↦
      let c = checked_width-eq-ok width (zeros missing text) digits (rw p at h) in
      rw (← c.1) (sym c.0)
  | inr p ↦ absurd (err-ne-ok undefined digits (rw p at h))
]

sub_unsigned-small : (a b : ℕ) → b ≤ a → a < 2 ^ 31 → sub_unsigned a b ≡ a - b
sub_unsigned-small a b h k = omega arith

pad-ok :
    (missing width : ℕ) (text : String)
    → missing < 2 ^ 31
    → width ≡ 4 * (missing + count text)
    → pad missing width text ≡ ok (zeros missing text)
unfolding pad checked_width
pad-ok missing width text h k =
    rw (lt→ltb missing (2 ^ 31) h, count-zeros missing text, eq-nat_eq width _ k)

padded-ok :
    (width : ℕ) (text : String)
    → width % 4 ≡ 0
    → width < 2 ^ 31
    → 4 * count text ≤ width
    → padded width text ≡ ok (zeros (width / 4 - count text) text)
unfolding padded
padded-ok width text four small fits =
    rw (sub_unsigned-small (width / 4) (count text) (omega arith) (omega arith))
      (pad-ok (width / 4 - count text) width text (omega arith) (omega arith))

module _ {I F : Type 0} (N : Numbers I F) (f : SmtFormat) where
  -- The options of bit vector mode.
  abbrev pub bit_vector_mode : Options
  bit_vector_mode = record { bit_vect = true; output_format = f }

  -- In bit vector mode, an integer constant whose width is a multiple of four below 2 ^ 31, and
  -- whose hexadecimal digits are no more than the width allows, is written as `#x` with digits of
  -- which each stands for four of exactly so many bits as the constant has.
  pub constant_int_to_sexpr-literal :
      (n : I)
      → N.bit_width n % 4 ≡ 0
      → N.bit_width n < 2 ^ 31
      → 4 * count (N.hex n) ≤ N.bit_width n
      → (digits : String) × (constant_int_to_sexpr N bit_vector_mode n
          ≡ ok (value ("#x" ++ digits)))
        × (4 * count digits ≡ N.bit_width n)
  unfolding constant_int_to_sexpr
  constant_int_to_sexpr-literal n four small fits =
      let p = padded-ok (N.bit_width n) (N.hex n) four small fits in
      (
        zeros (N.bit_width n / 4 - count (N.hex n)) (N.hex n),
        rw p,
        pad-width _ (N.bit_width n) (N.hex n) _ (unfold padded in p),
      )

  -- In bit vector mode no integer constant is written whose width is not a multiple of four.
  pub constant_int_to_sexpr-odd_width :
      (n : I)
      → N.bit_width n % 4 ≢ 0
      → (x : Sexpr) → constant_int_to_sexpr N bit_vector_mode n ≢ ok x
  unfolding constant_int_to_sexpr
  constant_int_to_sexpr-odd_width n odd x h =
      let (digits, p, q) = >>=-eq-ok (padded (N.bit_width n) (N.hex n)) _ h in
      odd (omega (arith, pad-width _ (N.bit_width n) (N.hex n) digits (unfold padded in p)))
