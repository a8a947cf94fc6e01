-- ===== src/Smt/Meaning/Occurs.antt =====
-- The names on which the meaning of an expression may depend, and the expressions of which
-- `collect_uses` sees every such name.
use llreve.Prelude.{
  String, Bool, true, false, ◌≡◌, refl, ◌||◌, ◌&&◌, ◌==◌, and-true, or_eq, arith, not, List, [],
  ◌∷◌, contains, eq_iff,
}
use llreve.Smt.Expr.{
  Expr, assert, typed_variable, forall, let_in, constant_string, op, fp_cmp, binary_fp, type_cast,
  fun_def, Args, nil, cons, Defs, done, bind,
}
use llreve.Smt.Uses.{mentions, bindings_mention, args_mention}

module _ {I F : Type 0} where
  unfoldable mutual
    pub occurs : Expr I F → String → Bool
    occurs (assert e) y = occurs e y
    occurs (typed_variable x sort) y = x == y
    occurs (forall vars e) y = occurs e y
    occurs (let_in ds e) y = bindings_occur ds y || occurs e y
    occurs (constant_string x) y = x == y
    occurs (op name args inst) y = args_occur args y
    occurs (fp_cmp p sort a b) y = occurs a y || occurs b y
    occurs (binary_fp o sort a b) y = occurs a y || occurs b y
    occurs (type_cast o from to e) y = occurs e y
    occurs (fun_def name args out body) y = occurs body y
    occurs e y = false

    pub bindings_occur : Defs I F → String → Bool
    bindings_occur done y = false
    bindings_occur (bind x e ds) y = occurs e y || bindings_occur ds y

    pub args_occur : Args I F → String → Bool
    args_occur nil y = false
    args_occur (cons e es) y = occurs e y || args_occur es y

  -- No floating point comparison at any depth.
  unfoldable mutual
    pub without_fp_cmp : Expr I F → Bool
    without_fp_cmp (assert e) = without_fp_cmp e
    without_fp_cmp (forall vars e) = without_fp_cmp e
    without_fp_cmp (let_in ds e) = bindings_without ds && without_fp_cmp e
    without_fp_cmp (op name args inst) = args_without args
    without_fp_cmp (fp_cmp p sort a b) = false
    without_fp_cmp (binary_fp o sort a b) = without_fp_cmp a && without_fp_cmp b
    without_fp_cmp (type_cast o from to e) = without_fp_cmp e
    without_fp_cmp (fun_def name args out body) = without_fp_cmp body
    without_fp_cmp e = true

    bindings_without : Defs I F → Bool
    bindings_without done = true
    bindings_without (bind x e ds) = without_fp_cmp e && bindings_without ds

    args_without : Args I F → Bool
    args_without nil = true
    args_without (cons e es) = without_fp_cmp e && args_without es

  mutual
    unfolding mentions occurs without_fp_cmp

    mentions-eq-occurs :
        (e : Expr I F) (y : String) → without_fp_cmp e ≡ true → mentions e y ≡ occurs e y
    mentions-eq-occurs (assert e) y h = mentions-eq-occurs e y h
    mentions-eq-occurs (forall vars e) y h = mentions-eq-occurs e y h
    mentions-eq-occurs (let_in ds e) y h =
        let w = and-true (bindings_without ds) (without_fp_cmp e) h in
        or_eq _ _ _ _ (bindings_mention-eq-occur ds y w.0) (mentions-eq-occurs e y w.1)
    mentions-eq-occurs (op name args inst) y h = args_mention-eq-occur args y h
    mentions-eq-occurs (fp_cmp p sort a b) y h = cc
    mentions-eq-occurs (binary_fp o sort a b) y h =
        let w = and-true (without_fp_cmp a) (without_fp_cmp b) h in
        or_eq _ _ _ _ (mentions-eq-occurs a y w.0) (mentions-eq-occurs b y w.1)
    mentions-eq-occurs (type_cast o from to e) y h = mentions-eq-occurs e y h
    mentions-eq-occurs (fun_def name args out body) y h = mentions-eq-occurs body y h
    mentions-eq-occurs _ y h = refl

    bindings_mention-eq-occur :
        (ds : Defs I F) (y : String)
        → bindings_without ds ≡ true
        → bindings_mention ds y ≡ bindings_occur ds y
    bindings_mention-eq-occur done y h = refl
    bindings_mention-eq-occur (bind x e ds) y h =
        let w = and-true (without_fp_cmp e) (bindings_without ds) h in
        or_eq _ _ _ _ (mentions-eq-occurs e y w.0) (bindings_mention-eq-occur ds y w.1)

    args_mention-eq-occur :
        (es : Args I F) (y : String) → args_without es ≡ true → args_mention es y ≡ args_occur es y
    args_mention-eq-occur nil y h = refl
    args_mention-eq-occur (cons e es) y h =
        let w = and-true (without_fp_cmp e) (args_without es) h in
        or_eq _ _ _ _ (mentions-eq-occurs e y w.0) (args_mention-eq-occur es y w.1)

  pub mentions-occurs :
      (e : Expr I F) (y : String) → without_fp_cmp e ≡ true → mentions e y ≡ occurs e y
  mentions-occurs e y h = mentions-eq-occurs e y h

  -- None of the names occurs in the expression.
  unfoldable pub avoids : List String → Expr I F → Bool
  avoids [] e = true
  avoids (x ∷ xs) e = not (occurs e x) && avoids xs e

  pub avoids-not-contains :
      (xs : List String) (e : Expr I F) (y : String)
      → avoids xs e ≡ true
      → occurs e y ≡ true
      → contains xs y ≡ false
  unfolding avoids contains
  avoids-not-contains [] e y h k = refl
  avoids-not-contains (x ∷ xs) e y h k = ground (arith, avoids-not-contains xs e y, eq_iff x y)
