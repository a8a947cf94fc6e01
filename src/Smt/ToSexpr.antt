-- ===== src/Smt/ToSexpr.antt =====
-- The `toSExpr` methods of the classes below `SMTExpr`, in `reve/reve/lib/SMT.cpp`.
pub mod Parts
pub mod Total
use llreve.Prelude.{String, Bool, true, false, if◌then◌else◌, ◌==◌}
use llreve.Prelude.{Result, ok, err, exit_one, out_of_range, ◌>>=◌}
use llreve.Sexpr.{Sexpr, value, apply, list, comment as sexpr_comment, Sexprs, end, item}
use llreve.Smt.Sort.{SortedVar}
use llreve.Smt.Expr.{
  Expr, set_logic, assert, typed_variable, forall, check_sat, get_model, let_in, constant_fp,
  constant_int, constant_bool, constant_string, op, fp_cmp, binary_fp, type_cast, query, fun_decl,
  fun_def, comment, var_decl, Args, nil, cons, Defs, done, bind,
}
use llreve.Smt.Options.{Options, Numbers}
use llreve.Smt.Pieces.{
  one_item, two_items, sort_to_sexpr, sorts_to_sexprs, vars_to_sexprs, constant_int_to_sexpr,
  constant_fp_to_sexpr, fp_cmp_to_sexpr, binary_fp_to_sexpr, type_cast_to_sexpr, rule_keyword,
  declare_keyword, out_sort, is_constant_false,
}

module _ {I F : Type 0} (N : Numbers I F) (o : Options) where
  -- A `forall` over no variables is its body.
  unfoldable pub quantified : Sexprs → Sexpr → Sexpr
  quantified end e = e
  quantified (item x xs) e = apply "forall" (two_items (list (item x xs)) e)

  unfoldable pub bool_text : Bool → String
  bool_text true = "true"
  bool_text false = "false"

  unfoldable mutual
    pub to_sexpr : Expr I F → Result Sexpr
    to_sexpr (set_logic logic) = ok (apply "set-logic" (one_item (value logic)))
    to_sexpr (assert e) = do
      x ← to_sexpr e
      ok (apply (rule_keyword N o o.output_format) (one_item x))
    to_sexpr (typed_variable name sort) = ok (value name)
    to_sexpr (forall vars e) = do x ← to_sexpr e; ok (quantified (vars_to_sexprs o vars) x)
    to_sexpr check_sat = ok (apply "check-sat" end)
    to_sexpr get_model = ok (apply "get-model" end)
    to_sexpr (let_in ds e) = do
      xs ← defs_to_sexprs ds
      x ← to_sexpr e
      ok (apply "let" (two_items (list xs) x))
    to_sexpr (constant_fp x) = constant_fp_to_sexpr N o x
    to_sexpr (constant_int n) = constant_int_to_sexpr N o n
    to_sexpr (constant_bool b) = ok (value (bool_text b))
    to_sexpr (constant_string text) = ok (value text)
    to_sexpr (op name args inst) =
        if name == "and"
        then and_to_sexpr args
        else if name == "=>"
        then implication_to_sexpr args
        else (do xs ← args_to_sexprs args; ok (apply name xs))
    to_sexpr (fp_cmp p sort a b) =
        if o.bit_vect
        then err exit_one
        else (do x ← to_sexpr a; y ← to_sexpr b; fp_cmp_to_sexpr N o p (two_items x y))
    to_sexpr (binary_fp c sort a b) =
        if o.bit_vect
        then err exit_one
        else (do x ← to_sexpr a; y ← to_sexpr b; binary_fp_to_sexpr N o c (two_items x y))
    to_sexpr (type_cast c from to e) = do x ← to_sexpr e; type_cast_to_sexpr N o c from to x
    to_sexpr (query name) =
        ok (
          apply "query" (item (value name) (two_items (value ":print-certificate") (value "true"))))
    to_sexpr (fun_decl name in_sorts sort) = ok (
        apply (declare_keyword N o o.output_format) (
          item (value name)
            (item (list (sorts_to_sexprs o in_sorts)) (out_sort N o o.output_format sort))))
    to_sexpr (fun_def name vars sort body) = do
      x ← to_sexpr body
      ok (
          apply "define-fun" (
            item (value name)
              (item (list (vars_to_sexprs o vars)) (two_items (sort_to_sexpr o sort) x))))
    to_sexpr (comment text) = ok (sexpr_comment text)
    to_sexpr (var_decl x) =
        ok (apply "declare-var" (two_items (value x.name) (sort_to_sexpr o x.sort)))

    -- The special cases of `and`: no operand, and a single one.
    pub and_to_sexpr : Args I F → Result Sexpr
    and_to_sexpr nil = ok (value "true")
    and_to_sexpr (cons e nil) = to_sexpr e
    and_to_sexpr (cons a (cons b es)) = do
      x ← to_sexpr a
      y ← to_sexpr b
      xs ← args_to_sexprs es
      ok (apply "and" (item x (item y xs)))

    -- `args.at(1)` throws if there is no second operand; `a => false` is written `not a`,
    -- and then no other operand is.
    pub implication_to_sexpr : Args I F → Result Sexpr
    implication_to_sexpr nil = err out_of_range
    implication_to_sexpr (cons a nil) = err out_of_range
    implication_to_sexpr (cons a (cons b es)) = do
      x ← to_sexpr a
      if is_constant_false N o b
          then ok (apply "not" (one_item x))
          else (do y ← to_sexpr b; xs ← args_to_sexprs es; ok (apply "=>" (item x (item y xs))))

    pub args_to_sexprs : Args I F → Result Sexprs
    args_to_sexprs nil = ok end
    args_to_sexprs (cons e es) = do x ← to_sexpr e; xs ← args_to_sexprs es; ok (item x xs)

    pub defs_to_sexprs : Defs I F → Result Sexprs
    defs_to_sexprs done = ok end
    defs_to_sexprs (bind name e ds) = do
      x ← to_sexpr e
      xs ← defs_to_sexprs ds
      ok (item (apply name (one_item x)) xs)
