-- ===== src/Smt/ToSexpr/Total.antt =====
-- Which expressions have an S-expression in integer mode.
use llreve.Prelude.{
  Bool, true, false, ◌≡◌, refl, ◌∙◌, ◌&&◌, ◌||◌, ◌==◌, if◌then◌else◌, Bool-cases, inl, inr, is_ok,
  is_ok-bind, is_ok-two, is_ok-pair, is_ok-wrap, is_ok-three, and_cong, and_true_right,
}
use llreve.Smt.Expr.{
  Expr, assert, forall, let_in, constant_fp, constant_int, op, fp_cmp, binary_fp, type_cast,
  fun_def, Args, nil, cons, Defs, done, bind,
}
use llreve.Smt.Options.{Options, SmtFormat, Numbers}
use llreve.Smt.Pieces.{two_items, extends_bool, is_constant_false}
use llreve.Smt.ToSexpr.Parts.{
  has_real_test, has_real_operator, has_integer_cast, integer_mode, is_ok-int, is_ok-fp, is_ok-cmp,
  is_ok-binary, is_ok-cast,
}
use llreve.Smt.ToSexpr.{
  to_sexpr, and_to_sexpr, implication_to_sexpr, args_to_sexprs, defs_to_sexprs, quantified,
}

module _ {I F : Type 0} (N : Numbers I F) (o : Options) where
  unfoldable mutual
    pub printable : Expr I F → Bool
    printable (assert e) = printable e
    printable (forall vars e) = printable e
    printable (let_in ds e) = defs_printable ds && printable e
    printable (op name args inst) =
        if name == "and"
        then args_printable args
        else if name == "=>"
        then implication_printable args
        else args_printable args
    printable (fp_cmp p sort a b) = printable a && (printable b && has_real_test p)
    printable (binary_fp c sort a b) = printable a && (printable b && has_real_operator c)
    printable (type_cast c from to e) =
        printable e && (extends_bool N o from to || has_integer_cast c)
    printable (fun_def name vars sort body) = printable body
    printable e = true

    -- The operands behind a conclusion `false` are not written.
    implication_printable : Args I F → Bool
    implication_printable nil = false
    implication_printable (cons a nil) = false
    implication_printable (cons a (cons b es)) =
        printable a && (if is_constant_false N o b then true else printable b && args_printable es)

    args_printable : Args I F → Bool
    args_printable nil = true
    args_printable (cons e es) = printable e && args_printable es

    defs_printable : Defs I F → Bool
    defs_printable done = true
    defs_printable (bind name e ds) = printable e && defs_printable ds

module _ {I F : Type 0} (N : Numbers I F) (f : SmtFormat) where
  abbrev o : Options
  o = integer_mode f

  mutual
    unfolding to_sexpr printable quantified

    is_ok-printable : (e : Expr I F) → is_ok (to_sexpr N o e) ≡ printable N o e
    is_ok-printable (assert e) = is_ok-wrap (to_sexpr N o e) _ ∙ is_ok-printable e
    is_ok-printable (forall vars e) = is_ok-wrap (to_sexpr N o e) _ ∙ is_ok-printable e
    is_ok-printable (let_in ds e) =
        is_ok-pair (defs_to_sexprs N o ds) (to_sexpr N o e) _
        ∙ and_cong _ _ _ _ (is_ok-defs ds) (is_ok-printable e)
    is_ok-printable (op name args inst) = elim (Bool-cases (name == "and")) [
      | inl h ↦ rw h (is_ok-and args)
      | inr h ↦ elim (Bool-cases (name == "=>")) [
        | inl k ↦ rw (h, k) (is_ok-implication args)
        | inr k ↦ rw (h, k) (is_ok-wrap (args_to_sexprs N o args) _ ∙ is_ok-args args)
      ]
    ]
    is_ok-printable (constant_int n) = is_ok-int N f n
    is_ok-printable (constant_fp x) = is_ok-fp N f x
    is_ok-printable (fp_cmp p sort a b) =
        is_ok-two (to_sexpr N o a) (to_sexpr N o b) _ (has_real_test p)
          (λ x y. is_ok-cmp N f p (two_items x y))
        ∙ and_cong _ _ _ _ (is_ok-printable a)
            (and_cong _ (has_real_test p) _ _ (is_ok-printable b) refl)
    is_ok-printable (binary_fp c sort a b) =
        is_ok-two (to_sexpr N o a) (to_sexpr N o b) _ (has_real_operator c)
          (λ x y. is_ok-binary N f c (two_items x y))
        ∙ and_cong _ _ _ _ (is_ok-printable a)
            (and_cong _ (has_real_operator c) _ _ (is_ok-printable b) refl)
    is_ok-printable (type_cast c from to e) =
        is_ok-bind (to_sexpr N o e) _ (extends_bool N o from to || has_integer_cast c)
          (λ x. is_ok-cast N f c from to x)
        ∙ and_cong _ (extends_bool N o from to || has_integer_cast c) _ _ (is_ok-printable e) refl
    is_ok-printable (fun_def name vars sort body) =
        is_ok-wrap (to_sexpr N o body) _ ∙ is_ok-printable body
    is_ok-printable _ = refl

    is_ok-and : (args : Args I F) → is_ok (and_to_sexpr N o args) ≡ args_printable N o args
    is_ok-and nil = refl
    is_ok-and (cons e nil) = is_ok-printable e ∙ and_true_right (printable N o e)
    is_ok-and (cons a (cons b es)) =
        is_ok-three (to_sexpr N o a) (to_sexpr N o b) (args_to_sexprs N o es) _
        ∙ and_cong _ _ _ _ (is_ok-printable a)
            (and_cong _ _ _ _ (is_ok-printable b) (is_ok-args es))

    is_ok-implication :
        (args : Args I F) → is_ok (implication_to_sexpr N o args) ≡ implication_printable N o args
    is_ok-implication nil = refl
    is_ok-implication (cons a nil) = refl
    is_ok-implication (cons a (cons b es)) =
        is_ok-bind (to_sexpr N o a) _
          (if is_constant_false N o b then true else printable N o b && args_printable N o es)
          (λ x. elim (Bool-cases (is_constant_false N o b)) [
            | inl h ↦ rw h
            | inr h ↦ rw h (
                is_ok-pair (to_sexpr N o b) (args_to_sexprs N o es) _
                ∙ and_cong _ _ _ _ (is_ok-printable b) (is_ok-args es))
          ])
        ∙ and_cong _
            (if is_constant_false N o b then true else printable N o b && args_printable N o es) _ _
            (is_ok-printable a) refl

    is_ok-args : (args : Args I F) → is_ok (args_to_sexprs N o args) ≡ args_printable N o args
    is_ok-args nil = refl
    is_ok-args (cons e es) =
        is_ok-pair (to_sexpr N o e) (args_to_sexprs N o es) _
        ∙ and_cong _ _ _ _ (is_ok-printable e) (is_ok-args es)

    is_ok-defs : (ds : Defs I F) → is_ok (defs_to_sexprs N o ds) ≡ defs_printable N o ds
    is_ok-defs done = refl
    is_ok-defs (bind name e ds) =
        is_ok-pair (to_sexpr N o e) (defs_to_sexprs N o ds) _
        ∙ and_cong _ _ _ _ (is_ok-printable e) (is_ok-defs ds)

-- In integer mode an expression has an S-expression exactly if it has no test for being ordered and
-- no remainder on reals, no cast but `SExt`, `ZExt`, `Trunc`, `BitCast`, `SIToFP` and those of a
-- truth value to an integer of more than one bit, and no implication with fewer than two operands.
-- Operands behind a conclusion `false`, which are not written, do not count.
pub to_sexpr-printable :
    {I F : Type 0} (N : Numbers I F) (f : SmtFormat) (e : Expr I F)
    → is_ok (to_sexpr N (integer_mode f) e) ≡ printable N (integer_mode f) e
to_sexpr-printable N f e = is_ok-printable N f e
