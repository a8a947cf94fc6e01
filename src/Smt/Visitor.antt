-- ===== src/Smt/Visitor.antt =====
-- `SMTVisitor` of `reve/reve/include/SMT.h` and the `accept` methods of `reve/reve/lib/SMT.cpp`.
-- A visitor is an object with state `S`. Each `dispatch` gets the node's own copy and may rename
-- what the node declares or names; no visitor of the program exchanges a node's subexpressions in
-- it, so the subexpressions that are traversed are those of the original.
use llreve.Prelude.{String, Bool, true, false, List}
use llreve.Smt.Sort.{SortedVar}
use llreve.Smt.Expr.{
  Expr, assert, typed_variable, forall, let_in, constant_string, op, fp_cmp, binary_fp, type_cast,
  fun_def, Args, nil, cons, Defs, done, bind,
}

pub record Visitor (I F S : Type 0) : Type 0 where
  pub ignore_let_bindings : Bool
  pub dispatch_variable : String → S → String × S
  pub dispatch_string : String → S → String × S
  pub dispatch_let : Defs I F → S → Defs I F × S
  pub dispatch_forall : List SortedVar → S → List SortedVar × S
  pub dispatch_op : String → Args I F → S → S
  pub reassemble : Expr I F → S → Expr I F × S

-- The functions that `SMTVisitor` itself gives: no dispatch does anything, and `reassemble`
-- returns the node.
abbrev pub default_visitor : {I F S : Type 0} → Visitor I F S
default_visitor = record {
  ignore_let_bindings = false;
  dispatch_variable = λ x s. (x, s);
  dispatch_string = λ x s. (x, s);
  dispatch_let = λ ds s. (ds, s);
  dispatch_forall = λ vars s. (vars, s);
  dispatch_op = λ name args s. s;
  reassemble = λ e s. (e, s);
}

module _ {I F S : Type 0} where
  unfoldable mutual
    pub accept : Visitor I F S → Expr I F → S → Expr I F × S
    accept v (assert e) s = let (e', s') = accept v e s in v.reassemble (assert e') s'
    accept v (typed_variable x sort) s =
        let (x', s') = v.dispatch_variable x s in v.reassemble (typed_variable x' sort) s'
    accept v (forall vars e) s =
        let (vars', s₁) = v.dispatch_forall vars s in
        let (e', s₂) = accept v e s₁ in v.reassemble (forall vars' e') s₂
    accept v (let_in ds e) s =
        let (ds₁, s₁) = accept_bindings v v.ignore_let_bindings ds s in
        let (ds₂, s₂) = v.dispatch_let ds₁ s₁ in
        let (e', s₃) = accept v e s₂ in v.reassemble (let_in ds₂ e') s₃
    accept v (constant_string x) s =
        let (x', s') = v.dispatch_string x s in v.reassemble (constant_string x') s'
    accept v (op name args inst) s =
        let (args', s') = accept_args v args (v.dispatch_op name args s) in
        v.reassemble (op name args' inst) s'
    accept v (binary_fp o sort a b) s =
        let (a', s₁) = accept v a s in
        let (b', s₂) = accept v b s₁ in v.reassemble (binary_fp o sort a' b') s₂
    accept v (type_cast o from to e) s =
        let (e', s') = accept v e s in v.reassemble (type_cast o from to e') s'
    accept v (fun_def name args out body) s =
        let (body', s') = accept v body s in v.reassemble (fun_def name args out body') s'
    -- `FPCmp::accept` does not visit the operands
    accept v (fp_cmp p sort a b) s = v.reassemble (fp_cmp p sort a b) s
    accept v e s = v.reassemble e s

    pub accept_bindings : Visitor I F S → Bool → Defs I F → S → Defs I F × S
    accept_bindings v true ds s = (ds, s)
    accept_bindings v false done s = (done, s)
    accept_bindings v false (bind x e ds) s =
        let (e', s₁) = accept v e s in
        let (ds', s₂) = accept_bindings v false ds s₁ in (bind x e' ds', s₂)

    pub accept_args : Visitor I F S → Args I F → S → Args I F × S
    accept_args v nil s = (nil, s)
    accept_args v (cons e es) s =
        let (e', s₁) = accept v e s in let (es', s₂) = accept_args v es s₁ in (cons e' es', s₂)
