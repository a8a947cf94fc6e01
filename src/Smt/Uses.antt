-- ===== src/Smt/Uses.antt =====
-- `CollectUsesVisitor` and `collectUses` of `reve/reve/lib/SMT.cpp`.
use llreve.Prelude.{
  String, Bool, false, List, [], ◌∷◌, ◌≡◌, refl, arith, ◌||◌, ◌==◌, contains, or-merge,
}
use llreve.Smt.Expr.{
  Expr, assert, typed_variable, forall, let_in, constant_string, op, binary_fp, type_cast, fun_def,
  Args, nil, cons, Defs, done, bind,
}
use llreve.Smt.Visitor.{Visitor, default_visitor, accept, accept_bindings, accept_args}

-- The state is the `StringSet` of the names seen.
abbrev pub uses_visitor : {I F : Type 0} → Visitor I F (List String)
uses_visitor = record default_visitor {
  dispatch_variable = λ x s. (x, x ∷ s);
  dispatch_string = λ x s. (x, x ∷ s);
}

module _ {I F : Type 0} where
  unfoldable pub collect_uses : Expr I F → List String
  collect_uses e = (accept uses_visitor e []).1

  -- The variables and the literal texts of an expression, at any depth but that of the operands of
  -- a floating point comparison.
  unfoldable mutual
    pub mentions : Expr I F → String → Bool
    mentions (assert e) y = mentions e y
    mentions (typed_variable x sort) y = x == y
    mentions (forall vars e) y = mentions e y
    mentions (let_in ds e) y = bindings_mention ds y || mentions e y
    mentions (constant_string x) y = x == y
    mentions (op name args inst) y = args_mention args y
    mentions (binary_fp o sort a b) y = mentions a y || mentions b y
    mentions (type_cast o from to e) y = mentions e y
    mentions (fun_def name args out body) y = mentions body y
    mentions e y = false

    pub bindings_mention : Defs I F → String → Bool
    bindings_mention done y = false
    bindings_mention (bind x e ds) y = mentions e y || bindings_mention ds y

    pub args_mention : Args I F → String → Bool
    args_mention nil y = false
    args_mention (cons e es) y = mentions e y || args_mention es y

  mutual
    unfolding accept mentions contains

    accept-mentions :
        (e : Expr I F) (s : List String) (y : String)
        → contains (accept uses_visitor e s).1 y ≡ (mentions e y || contains s y)
    accept-mentions (assert e) s y = accept-mentions e s y
    accept-mentions (typed_variable x sort) s y = refl
    accept-mentions (forall vars e) s y = accept-mentions e s y
    accept-mentions (let_in ds e) s y =
        or-merge (bindings_mention ds y) (mentions e y) (contains s y)
          (accept_bindings-mention ds s y)
          (accept-mentions e (accept_bindings uses_visitor false ds s).1 y)
    accept-mentions (constant_string x) s y = refl
    accept-mentions (op name args inst) s y = accept_args-mention args s y
    accept-mentions (binary_fp o sort a b) s y =
        or-merge (mentions a y) (mentions b y) (contains s y) (accept-mentions a s y)
          (accept-mentions b (accept uses_visitor a s).1 y)
    accept-mentions (type_cast o from to e) s y = accept-mentions e s y
    accept-mentions (fun_def name args out body) s y = accept-mentions body s y
    accept-mentions _ s y = refl

    accept_bindings-mention :
        (ds : Defs I F) (s : List String) (y : String)
        → contains (accept_bindings uses_visitor false ds s).1 y
          ≡ (bindings_mention ds y || contains s y)
    accept_bindings-mention done s y = refl
    accept_bindings-mention (bind x e ds) s y =
        or-merge (mentions e y) (bindings_mention ds y) (contains s y) (accept-mentions e s y)
          (accept_bindings-mention ds (accept uses_visitor e s).1 y)

    accept_args-mention :
        (es : Args I F) (s : List String) (y : String)
        → contains (accept_args uses_visitor es s).1 y ≡ (args_mention es y || contains s y)
    accept_args-mention nil s y = refl
    accept_args-mention (cons e es) s y =
        or-merge (mentions e y) (args_mention es y) (contains s y) (accept-mentions e s y)
          (accept_args-mention es (accept uses_visitor e s).1 y)

  -- A name is collected exactly when a variable or a literal text of the expression, outside every
  -- floating point comparison, is that name.
  pub collect_uses-mentions :
      (e : Expr I F) (y : String) → contains (collect_uses e) y ≡ mentions e y
  unfolding collect_uses contains
  collect_uses-mentions e y = ground (arith, accept-mentions e [] y)
