-- ===== src/Serialize/Compress/Sound.antt =====
-- `compress_lets` keeps the meaning of an expression whose `let`s end at a node that takes the
-- gathered assignments.
use llreve.Prelude.{
  String, Bool, true, false, List, [], ◌∷◌, ◌++◌, ◌≡◌, refl, ap, ap₂, ◌∙◌, ◌&&◌, and-true, fun_ext,
  All-append, eq_refl,
}
use llreve.Smt.Sort.{Sort}
use llreve.Smt.Expr.{
  Expr, assert, typed_variable, forall, let_in, constant_bool, constant_string, op, binary_fp,
  type_cast, fun_def, Args, nil, cons, Defs, done, bind,
}
use llreve.Smt.Visitor.{accept, accept_args}
use llreve.Smt.Meaning.{Structure, Env, update, eval_forall, eval, eval_bindings, eval_args}
use llreve.Smt.Meaning.Occurs.{without_fp_cmp, avoids, avoids-not-contains}
use llreve.Smt.Meaning.Agree.{eval-Agree}
use llreve.Smt.Inline.Safe.{independent}
use llreve.Smt.Inline.Sound.{SameBut, SameBut-update}
use llreve.Smt.Lets.{Assignment}
use llreve.Smt.Lets.Chain.{NoComparison, run_assignments, eval-nest_lets}
use llreve.Serialize.Compress.{CompressState, assignments_of, compress_visitor, compress_lets}

module _ {I F : Type 0} where
  unfoldable pub closed : List (Assignment I F) → Bool
  closed [] = true
  closed (d ∷ ds) = false

  unfoldable pub no_comparison : Defs I F → Bool
  unfolding without_fp_cmp
  no_comparison done = true
  no_comparison (bind x e ds) = without_fp_cmp e && no_comparison ds

  -- With these assignments gathered above it, the expression takes them all where it needs them:
  -- only below operators, quantifiers, literal texts and truth values nothing is gathered. Every
  -- `let` has bindings that do not name each other, and no floating point comparison in them.
  unfoldable mutual
    pub compressible : List (Assignment I F) → Expr I F → Bool
    compressible defs (assert e) = compressible defs e
    compressible defs (forall vars e) = compressible [] e
    compressible defs (let_in ds e) =
        independent [] ds && (no_comparison ds && compressible (defs ++ assignments_of ds) e)
    compressible defs (constant_bool b) = true
    compressible defs (constant_string x) = true
    compressible defs (op name args inst) = args_compressible args
    compressible defs (binary_fp o sort a b) =
        closed defs && (compressible [] a && compressible [] b)
    compressible defs (type_cast o from to e) = compressible defs e
    compressible defs (fun_def name args out body) = closed defs && compressible [] body
    compressible defs e = closed defs

    pub args_compressible : Args I F → Bool
    args_compressible nil = true
    args_compressible (cons e es) = compressible [] e && args_compressible es

  no_comparison-NoComparison :
      (ds : Defs I F) → no_comparison ds ≡ true → NoComparison (assignments_of ds)
  unfolding no_comparison assignments_of
  no_comparison-NoComparison done h = tt
  no_comparison-NoComparison (bind x e ds) h =
      let w = and-true (without_fp_cmp e) (no_comparison ds) h in
      (w.0, no_comparison-NoComparison ds w.1)

module _ {I F : Type 0} (M : Structure I F) where
  run_assignments-append :
      (xs ys : List (Assignment I F)) (ρ : Env M)
      → run_assignments M (xs ++ ys) ρ ≡ run_assignments M ys (run_assignments M xs ρ)
  unfolding run_assignments
  run_assignments-append [] ys ρ = refl
  run_assignments-append ((x, d) ∷ xs) ys ρ = run_assignments-append xs ys _

  -- Bindings that do not name each other may be carried out one after the other.
  run_assignments-eval_bindings :
      (ds : Defs I F) (xs : List String) (θ acc : Env M)
      → independent xs ds ≡ true
      → SameBut M xs acc θ
      → run_assignments M (assignments_of ds) acc ≡ eval_bindings M ds θ acc
  unfolding run_assignments assignments_of independent eval
  run_assignments-eval_bindings done xs θ acc i s = refl
  run_assignments-eval_bindings (bind x e ds) xs θ acc i s =
      let w = and-true (avoids xs e) (independent (x ∷ xs) ds) i in
      let value = eval-Agree M e acc θ (λ y o. s y (avoids-not-contains xs e y w.0 o)) in
      ap (λ v. run_assignments M (assignments_of ds) (update M acc x v)) value
      ∙ run_assignments-eval_bindings ds (x ∷ xs) θ (update M acc x (eval M e θ)) w.1
          (SameBut-update M xs x (eval M e θ) acc θ s)

  -- What the traversal returns for an expression below gathered assignments.
  abbrev Keeps :
      Expr I F
      → List (Assignment I F)
      → List (List (Assignment I F))
      → Expr I F × CompressState I F
      → Type 0
  Keeps e defs stored r =
      (r.1 ≡ record { defs = []; stored = stored })
      × ((ρ : Env M) → eval M r.0 ρ ≡ eval M e (run_assignments M defs ρ))

  abbrev KeepsArgs : Args I F → List (List (Assignment I F)) → Args I F × CompressState I F → Type 0
  KeepsArgs es stored r =
      (r.1 ≡ record { defs = []; stored = stored })
      × ((ρ : Env M) → eval_args M r.0 ρ ≡ eval_args M es ρ)

  mutual
    unfolding accept compressible closed eval run_assignments

    compress_sound :
        (e : Expr I F) (defs : List (Assignment I F)) (stored : List (List (Assignment I F)))
        → NoComparison defs
        → compressible defs e ≡ true
        → Keeps e defs stored (accept compress_visitor e (record { defs = defs; stored = stored }))
    compress_sound (assert e) defs stored n h = compress_sound e defs stored n h
    compress_sound (forall vars e) defs stored n h =
        let (s, k) = compress_sound e [] (defs ∷ stored) tt h in
        let e' = (accept compress_visitor e (record { defs = []; stored = defs ∷ stored })).0 in
        rw s (
          refl,
          (λ ρ.
              eval-nest_lets M (forall vars e') defs ρ n
              ∙ ap (eval_forall M vars (run_assignments M defs ρ)) (fun_ext λ ρ'. k ρ')),
        )
    compress_sound (let_in ds e) defs stored n h =
        let w =
          and-true (independent [] ds)
            (no_comparison ds && compressible (defs ++ assignments_of ds) e) h in
        let u = and-true (no_comparison ds) (compressible (defs ++ assignments_of ds) e) w.1 in
        let more = All-append _ defs (assignments_of ds) n (no_comparison-NoComparison ds u.0) in
        let (s, k) = compress_sound e (defs ++ assignments_of ds) stored more u.1 in
        (
          s,
          (λ ρ.
              k ρ
              ∙ ap (eval M e) (
                  run_assignments-append defs (assignments_of ds) ρ
                  ∙ run_assignments-eval_bindings ds [] _ _ w.0 (λ y m. refl))),
        )
    compress_sound (constant_bool b) defs stored n h =
        (refl, (λ ρ. eval-nest_lets M (constant_bool b) defs ρ n))
    compress_sound (constant_string x) defs stored n h =
        (refl, (λ ρ. eval-nest_lets M (constant_string x) defs ρ n))
    compress_sound (op name args inst) defs stored n h =
        let (s, k) = compress_args_sound args (defs ∷ stored) h in
        let args' =
          (accept_args compress_visitor args (record { defs = []; stored = defs ∷ stored })).0 in
        rw s (
          refl,
          (λ ρ.
              eval-nest_lets M (op name args' inst) defs ρ n
              ∙ ap (M.apply name) (k (run_assignments M defs ρ))),
        )
    compress_sound (binary_fp o sort a b) [] stored n h =
        let w = and-true (compressible [] a) (compressible [] b) h in
        let (s, k) = compress_sound a [] stored tt w.0 in
        let (s', k') = compress_sound b [] stored tt w.1 in
        rw s (s', (λ ρ. ap₂ (M.binary o sort) (k ρ) (k' ρ)))
    compress_sound (binary_fp o sort a b) (d ∷ defs) stored n h = cc
    compress_sound (type_cast o from to e) defs stored n h =
        let (s, k) = compress_sound e defs stored n h in (s, (λ ρ. ap (M.cast o from to) (k ρ)))
    compress_sound (fun_def name args out body) [] stored n h =
        ((compress_sound body [] stored tt h).0, (λ ρ. refl))
    compress_sound (fun_def name args out body) (d ∷ defs) stored n h = cc
    compress_sound e [] stored n h = (refl, (λ ρ. refl))
    compress_sound e (d ∷ defs) stored n h = cc

    compress_args_sound :
        (es : Args I F) (stored : List (List (Assignment I F)))
        → args_compressible es ≡ true
        → KeepsArgs es stored
            (accept_args compress_visitor es (record { defs = []; stored = stored }))
    compress_args_sound nil stored h = (refl, (λ ρ. refl))
    compress_args_sound (cons e es) stored h =
        let w = and-true (compressible [] e) (args_compressible es) h in
        let (s, k) = compress_sound e [] stored tt w.0 in
        let (s', k') = compress_args_sound es stored w.1 in rw s (s', (λ ρ. ap₂ ◌∷◌ (k ρ) (k' ρ)))

  -- Where every `let` has bindings that do not name each other, without floating point
  -- comparisons, and ends at an operator, a quantifier, a literal text or a truth value,
  -- `compress_lets` keeps the meaning in every environment.
  pub eval-compress_lets :
      (e : Expr I F) (ρ : Env M)
      → compressible [] e ≡ true
      → eval M (compress_lets e) ρ ≡ eval M e ρ
  unfolding compress_lets run_assignments
  eval-compress_lets e ρ h = (compress_sound e [] [] tt h).1 ρ

  -- A `let` whose body is the variable that it binds loses the binding: the result has the value of
  -- the variable outside, and not the value bound.
  pub compress_lets-variable :
      (x : String) (sort : Sort) (d : Expr I F) (ρ : Env M)
      → (eval M (compress_lets (let_in (bind x d done) (typed_variable x sort))) ρ ≡ ρ x)
        × (eval M (let_in (bind x d done) (typed_variable x sort)) ρ ≡ eval M d ρ)
  unfolding compress_lets accept eval
  compress_lets-variable x sort d ρ = (refl, rw (eq_refl x))
