-- ===== src/Smt/Pieces.antt =====
-- Sorts, literals, operators and casts as S-expressions: parts of the `toSExpr` methods of
-- `reve/reve/lib/SMT.cpp` and `reve/reve/lib/Type.cpp`.
pub mod Literal
use Prim.Native.String.{◌++◌, count}
use llreve.Prelude.{
  ℕ, zero, suc, ◌+◌, ◌-◌, ◌*◌, ◌/◌, ◌%◌, ◌^◌, String, Bool, true, false, List, [], ◌∷◌,
  if◌then◌else◌, ltb, nat_eq, ◌&&◌,
}
use llreve.Prelude.{Result, ok, err, exit_one, assertion, undefined, ◌>>=◌}
use llreve.Sexpr.{Sexpr, value, apply, Sexprs, end, item}
use llreve.Smt.Sort.{Sort, bool_type, int_type, float_type, array_type, SortedVar}
use llreve.Smt.Expr.{
  Predicate, never, oeq, ogt, oge, olt, ole, one, ord, uno, ueq, ugt, uge, ult, ule, une, always,
  Opcode, fadd, fsub, fmul, fdiv, frem, CastOp, trunc, zext, sext, bit_cast, si_to_fp, Expr,
  constant_bool,
}
use llreve.Smt.Options.{Options, SmtFormat, z3, smt_horn, Numbers, to_string}

abbrev pub one_item : Sexpr → Sexprs
one_item e = item e end

abbrev pub two_items : Sexpr → Sexpr → Sexprs
two_items a b = item a (item b end)

unfoldable pub sort_to_sexpr : Options → Sort → Sexpr
sort_to_sexpr o bool_type = value "Bool"
sort_to_sexpr o (int_type width) =
    if o.bit_vect
    then apply "_" (two_items (value "BitVec") (value (to_string width)))
    else value "Int"
sort_to_sexpr o (float_type exponent significand) =
    if o.bit_vect
    then apply "_" (
        item (value "FloatingPoint")
          (two_items (value (to_string exponent)) (value (to_string significand))))
    else value "Real"
sort_to_sexpr o (array_type domain target) =
    apply "Array" (two_items (sort_to_sexpr o domain) (sort_to_sexpr o target))

unfoldable pub sorts_to_sexprs : Options → List Sort → Sexprs
unfolding sort_to_sexpr
sorts_to_sexprs o [] = end
sorts_to_sexprs o (s ∷ ss) = item (sort_to_sexpr o s) (sorts_to_sexprs o ss)

-- `SortedVar::toSExpr`, for each variable
unfoldable pub vars_to_sexprs : Options → List SortedVar → Sexprs
unfolding sort_to_sexpr
vars_to_sexprs o [] = end
vars_to_sexprs o (x ∷ vars) =
    item (apply x.name (one_item (sort_to_sexpr o x.sort))) (vars_to_sexprs o vars)

-- `unsafeBitWidth()`
unfoldable pub unsafe_bit_width : Sort → Result ℕ
unsafe_bit_width (int_type width) = ok width
unsafe_bit_width _ = err assertion

abbrev pub unsigned_mod : ℕ
unsigned_mod = 2 ^ 32

-- The subtraction of two `unsigned`.
abbrev pub sub_unsigned : ℕ → ℕ → ℕ
sub_unsigned a b = (a + unsigned_mod - b) % unsigned_mod

unfoldable pub zeros : ℕ → String → String
zeros zero text = text
zeros (suc n) text = "0" ++ zeros n text

-- `assert(bitWidth == 4 * hexValue.size())`
unfoldable pub checked_width : ℕ → String → Result String
checked_width width digits = if nat_eq width (4 * count digits) then ok digits else err assertion

-- The loop that pads with zeros counts up to an `unsigned` by an `int`, which overflows if the
-- bound is above the greatest `int`.
unfoldable pub pad : ℕ → ℕ → String → Result String
unfolding checked_width zeros
pad missing width text =
    if ltb missing (2 ^ 31) then checked_width width (zeros missing text) else err undefined

unfoldable pub padded : ℕ → String → Result String
unfolding pad
padded width text = pad (sub_unsigned (width / 4) (count text)) width text

module _ {I F : Type 0} (N : Numbers I F) (o : Options) where
  unfoldable pub constant_int_to_sexpr : I → Result Sexpr
  unfolding padded
  constant_int_to_sexpr n =
      if o.bit_vect
      then (do digits ← padded (N.bit_width n) (N.hex n); ok (value ("#x" ++ digits)))
      else if N.is_negative n
      then ok (apply "-" (one_item (value (N.decimal (N.negate n)))))
      else ok (value (N.decimal n))

  unfoldable pub constant_fp_to_sexpr : F → Result Sexpr
  constant_fp_to_sexpr x =
      if o.bit_vect
      then err exit_one
      else ok (value (if N.is_integer x then N.plain x ++ ".0" else N.plain x))

  unfoldable pub fp_cmp_to_sexpr : Predicate → Sexprs → Result Sexpr
  fp_cmp_to_sexpr never args = ok (value "false")
  fp_cmp_to_sexpr always args = ok (value "true")
  fp_cmp_to_sexpr oeq args = ok (apply "=" args)
  fp_cmp_to_sexpr ueq args = ok (apply "=" args)
  fp_cmp_to_sexpr ogt args = ok (apply ">" args)
  fp_cmp_to_sexpr ugt args = ok (apply ">" args)
  fp_cmp_to_sexpr oge args = ok (apply ">=" args)
  fp_cmp_to_sexpr uge args = ok (apply ">=" args)
  fp_cmp_to_sexpr olt args = ok (apply "<" args)
  fp_cmp_to_sexpr ult args = ok (apply "<" args)
  fp_cmp_to_sexpr ole args = ok (apply "<=" args)
  fp_cmp_to_sexpr ule args = ok (apply "<=" args)
  fp_cmp_to_sexpr one args = ok (apply "distinct" args)
  fp_cmp_to_sexpr une args = ok (apply "distinct" args)
  fp_cmp_to_sexpr ord args = err exit_one
  fp_cmp_to_sexpr uno args = err exit_one

  unfoldable pub binary_fp_to_sexpr : Opcode → Sexprs → Result Sexpr
  binary_fp_to_sexpr fadd args = ok (apply "+" args)
  binary_fp_to_sexpr fsub args = ok (apply "-" args)
  binary_fp_to_sexpr fmul args = ok (apply "*" args)
  binary_fp_to_sexpr fdiv args = ok (apply "/" args)
  binary_fp_to_sexpr frem args = err exit_one

  -- An extension of a truth value to an integer of more than one bit.
  unfoldable pub extends_bool : Sort → Sort → Bool
  extends_bool (int_type 1') (int_type width) = ltb 1 width && nat_eq 1' 1
  extends_bool bool_type (int_type width) = ltb 1 width
  extends_bool from to = false

  -- the `switch` of bit vector mode
  unfoldable pub cast_bit_vect : CastOp → Sort → Sort → Sexpr → Result Sexpr
  unfolding unsafe_bit_width
  cast_bit_vect trunc from to e = do
    width ← unsafe_bit_width to
    ok (apply ("(_ extract " ++ (to_string (sub_unsigned width 1) ++ " 0)")) (one_item e))
  cast_bit_vect zext from to e = do
    width ← unsafe_bit_width to
    source ← unsafe_bit_width from
    ok (apply ("(_ zero_extend " ++ (to_string (sub_unsigned width source) ++ ")")) (one_item e))
  cast_bit_vect sext from to e = do
    width ← unsafe_bit_width to
    source ← unsafe_bit_width from
    ok (apply ("(_ sign_extend " ++ (to_string (sub_unsigned width source) ++ ")")) (one_item e))
  cast_bit_vect _ from to e = err exit_one

  -- the `switch` of integer mode
  unfoldable pub cast_integer : CastOp → Sexpr → Result Sexpr
  cast_integer sext e = ok e
  cast_integer zext e = ok e
  cast_integer trunc e = ok e
  cast_integer bit_cast e = ok e
  cast_integer si_to_fp e = ok (apply "to_real" (one_item e))
  cast_integer _ e = err exit_one

  -- `ite` of the operand, one and zero
  unfoldable pub bool_to_int : Sort → Sexpr → Result Sexpr
  bool_to_int to e = do
    width ← unsafe_bit_width to
    one' ← constant_int_to_sexpr (N.ap_int width 1)
    zero' ← constant_int_to_sexpr (N.ap_int width 0)
    ok (apply "ite" (item e (two_items one' zero')))

  unfoldable pub type_cast_to_sexpr : CastOp → Sort → Sort → Sexpr → Result Sexpr
  type_cast_to_sexpr c from to e =
      if extends_bool from to
      then bool_to_int to e
      else if o.bit_vect
      then cast_bit_vect c from to e
      else cast_integer c e

  abbrev pub rule_keyword : SmtFormat → String
  rule_keyword z3 = "rule"
  rule_keyword smt_horn = "assert"

  abbrev pub declare_keyword : SmtFormat → String
  declare_keyword z3 = "declare-rel"
  declare_keyword smt_horn = "declare-fun"

  abbrev pub out_sort : SmtFormat → Sort → Sexprs
  out_sort smt_horn sort = one_item (sort_to_sexpr o sort)
  out_sort z3 sort = end

  -- `isConstantFalse()`
  abbrev pub is_constant_false : Expr I F → Bool
  is_constant_false (constant_bool false) = true
  is_constant_false e = false
