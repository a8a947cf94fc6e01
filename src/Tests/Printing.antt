-- ===== src/Tests/Printing.antt =====
-- S-expressions of concrete clauses, and the text that is written.
use llreve.Prelude.{
  ℕ, String, Bool, true, false, [], ◌∷◌, ◌≡◌, ◌≢◌, refl, ok, is_ok, arith, if◌then◌else◌, ◌*◌,
}
use Prim.Native.String.{◌++◌, count}
use llreve.Sexpr.{Sexpr, value, apply, end, item, serialize, layout}
use llreve.Sexpr.WhiteSpace.{visible, visible-serialize}
use llreve.Smt.Sort.{int_type}
use llreve.Smt.Expr.{
  Expr, assert, typed_variable, forall, constant_bool, constant_int, op, nil, cons,
}
use llreve.Smt.Options.{Numbers, z3, to_string}
use llreve.Smt.Pieces.{vars_to_sexprs, constant_int_to_sexpr}
use llreve.Smt.Pieces.Literal.{
  bit_vector_mode, constant_int_to_sexpr-literal, constant_int_to_sexpr-odd_width,
}
use llreve.Smt.Split.{implies}
use llreve.Smt.ToSexpr.{to_sexpr, quantified}
use llreve.Smt.ToSexpr.Parts.{integer_mode}
use llreve.Smt.ToSexpr.Total.{printable, to_sexpr-printable}

-- Constants of 8 bits, or of 6, that are all 10.
abbrev tens : Numbers Bool ℕ
tens = record {
  bit_width = λ b. if b then 8 else 6;
  is_negative = λ b. false;
  negate = λ b. b;
  ap_int = λ w v. true;
  hex = λ b. "A";
  decimal = λ b. "10";
  is_integer = λ x. true;
  plain = to_string;
}

-- assert (forall x. x = 10 => false)
abbrev clause : Expr Bool ℕ
clause = assert (
    forall (record { name = "x"; sort = int_type 8 } ∷ []) (
      implies (op "=" (cons (typed_variable "x" (int_type 8)) (cons (constant_int true) nil)) true)
        (constant_bool false)))

abbrev printed : Sexpr
printed = apply "rule" (
    item
      (apply "forall" (
        item (Sexpr.list (item (apply "x" (item (value "Int") end)) end)) (
          item (apply "not" (item (apply "=" (item (value "x") (item (value "10") end))) end))
            end)))
      end)

clause-to_sexpr : to_sexpr tens (integer_mode z3) clause ≡ ok printed
unfolding to_sexpr vars_to_sexprs quantified constant_int_to_sexpr
clause-to_sexpr = refl

print_clause : serialize printed 0 false ≡ "(rule (forall ((x Int)) (not (= x 10))))"
unfolding serialize layout
print_clause = refl

visible-serialize_example : visible (serialize printed 0 true) ≡ visible (serialize printed 7 false)
visible-serialize_example = visible-serialize printed 0 7 true false

to_sexpr-printable_example :
    is_ok (to_sexpr tens (integer_mode z3) clause) ≡ printable tens (integer_mode z3) clause
to_sexpr-printable_example = to_sexpr-printable tens z3 clause

constant_int_to_sexpr-literal_example :
    (digits : String) × (constant_int_to_sexpr tens (bit_vector_mode tens z3) true
      ≡ ok (value ("#x" ++ digits)))
    × (4 * count digits ≡ 8)
constant_int_to_sexpr-literal_example =
    constant_int_to_sexpr-literal tens z3 true refl (omega arith) (omega arith)

constant_int_to_sexpr-odd_width_example :
    constant_int_to_sexpr tens (bit_vector_mode tens z3) false ≢ ok (value "#x0A")
constant_int_to_sexpr-odd_width_example =
    constant_int_to_sexpr-odd_width tens z3 false (omega arith) (value "#x0A")
