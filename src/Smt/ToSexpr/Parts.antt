-- ===== src/Smt/ToSexpr/Parts.antt =====
-- Which parts of expressions have an S-expression in integer mode.
use llreve.Prelude.{
  ℕ, Bool, true, false, ◌≡◌, refl, ◌∙◌, ◌&&◌, ◌||◌, Bool-cases, inl, inr, is_ok, is_ok-bind,
}
use llreve.Sexpr.{Sexpr, Sexprs}
use llreve.Smt.Sort.{Sort, bool_type, int_type, float_type, array_type}
use llreve.Smt.Expr.{
  Predicate, ord, uno, never, Opcode, frem, fadd, CastOp, trunc, zext, sext, bit_cast, si_to_fp,
}
use llreve.Smt.Options.{Options, SmtFormat, Numbers}
use llreve.Smt.Pieces.{
  constant_int_to_sexpr, constant_fp_to_sexpr, fp_cmp_to_sexpr, binary_fp_to_sexpr, extends_bool,
  cast_integer, type_cast_to_sexpr, bool_to_int, unsafe_bit_width,
}

-- Reals have no test for being ordered, and no remainder.
unfoldable pub has_real_test : Predicate → Bool
has_real_test ord = false
has_real_test uno = false
has_real_test _ = true

unfoldable pub has_real_operator : Opcode → Bool
has_real_operator frem = false
has_real_operator _ = true

unfoldable pub has_integer_cast : CastOp → Bool
has_integer_cast sext = true
has_integer_cast zext = true
has_integer_cast trunc = true
has_integer_cast bit_cast = true
has_integer_cast si_to_fp = true
has_integer_cast _ = false

-- The options of integer mode.
abbrev pub integer_mode : SmtFormat → Options
integer_mode f = record { bit_vect = false; output_format = f }

module _ {I F : Type 0} (N : Numbers I F) (f : SmtFormat) where
  abbrev o : Options
  o = integer_mode f

  pub is_ok-int : (n : I) → is_ok (constant_int_to_sexpr N o n) ≡ true
  unfolding constant_int_to_sexpr
  is_ok-int n = elim (Bool-cases (N.is_negative n)) [ inl h ↦ rw h | inr h ↦ rw h ]

  pub is_ok-fp : (x : F) → is_ok (constant_fp_to_sexpr N o x) ≡ true
  unfolding constant_fp_to_sexpr
  is_ok-fp x = refl

  pub is_ok-cmp :
      (p : Predicate) (args : Sexprs) → is_ok (fp_cmp_to_sexpr N o p args) ≡ has_real_test p
  unfolding fp_cmp_to_sexpr has_real_test
  is_ok-cmp never args = refl
  is_ok-cmp _ args = refl

  pub is_ok-binary :
      (c : Opcode) (args : Sexprs) → is_ok (binary_fp_to_sexpr N o c args) ≡ has_real_operator c
  unfolding binary_fp_to_sexpr has_real_operator
  is_ok-binary fadd args = refl
  is_ok-binary _ args = refl

  pub is_ok-cast_integer :
      (c : CastOp) (x : Sexpr) → is_ok (cast_integer N o c x) ≡ has_integer_cast c
  unfolding cast_integer has_integer_cast
  is_ok-cast_integer trunc x = refl
  is_ok-cast_integer _ x = refl

  pub is_ok-bool_to_int :
      (width : ℕ) (x : Sexpr) → is_ok (bool_to_int N o (int_type width) x) ≡ true
  unfolding bool_to_int unsafe_bit_width
  is_ok-bool_to_int width x =
      is_ok-bind (constant_int_to_sexpr N o (N.ap_int width 1)) _
        (is_ok (constant_int_to_sexpr N o (N.ap_int width 0)) && true)
        (λ one'. is_ok-bind (constant_int_to_sexpr N o (N.ap_int width 0)) _ true (λ _. refl))
      ∙ (rw (is_ok-int (N.ap_int width 1), is_ok-int (N.ap_int width 0)))

  pub is_ok-extended :
      (from to : Sort) (x : Sexpr)
      → extends_bool N o from to ≡ true
      → is_ok (bool_to_int N o to x) ≡ true
  unfolding extends_bool
  is_ok-extended from (int_type width) x h = is_ok-bool_to_int width x
  is_ok-extended (int_type w) bool_type x h = cc
  is_ok-extended (int_type w) (float_type e m) x h = cc
  is_ok-extended (int_type w) (array_type d t) x h = cc
  is_ok-extended bool_type bool_type x h = cc
  is_ok-extended bool_type (float_type e m) x h = cc
  is_ok-extended bool_type (array_type d t) x h = cc
  is_ok-extended (float_type a b) bool_type x h = cc
  is_ok-extended (float_type a b) (float_type e m) x h = cc
  is_ok-extended (float_type a b) (array_type d t) x h = cc
  is_ok-extended (array_type a b) bool_type x h = cc
  is_ok-extended (array_type a b) (float_type e m) x h = cc
  is_ok-extended (array_type a b) (array_type d t) x h = cc

  pub is_ok-cast :
      (c : CastOp) (from to : Sort) (x : Sexpr)
      → is_ok (type_cast_to_sexpr N o c from to x)
        ≡ (extends_bool N o from to || has_integer_cast c)
  unfolding type_cast_to_sexpr
  is_ok-cast c from to x = elim (Bool-cases (extends_bool N o from to)) [
    | inl h ↦ rw h (is_ok-extended from to x h)
    | inr h ↦ rw h (is_ok-cast_integer c x)
  ]
