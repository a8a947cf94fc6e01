-- ===== src/Smt/Meaning/Agree.antt =====
-- The meaning of an expression depends only on the names that occur in it.
use llreve.Prelude.{
  String, Bool, true, false, List, [], ◌∷◌, ◌≡◌, refl, ap, ap₂, fun_ext, ◌==◌, eq_refl, Bool-cases,
  test_clash, inl, inr, or-true_left, or-true_right,
}
use llreve.Smt.Sort.{SortedVar}
use llreve.Smt.Expr.{
  Expr, assert, typed_variable, forall, let_in, constant_string, op, fp_cmp, binary_fp, type_cast,
  Args, nil, cons, Defs, done, bind,
}
use llreve.Smt.Meaning.{Structure, Env, update, eval_forall, eval, eval_bindings, eval_args}
use llreve.Smt.Meaning.Occurs.{occurs, bindings_occur, args_occur}

module _ {I F : Type 0} (M : Structure I F) where
  -- Two environments agree on the names that a test picks.
  abbrev pub Agree : (String → Bool) → Env M → Env M → Type 0
  Agree on ρ ρ' = (y : String) → on y ≡ true → ρ y ≡ ρ' y

  pub Agree-update :
      (on : String → Bool) {ρ ρ' : Env M} (x : String) {v v' : M.Value}
      → Agree on ρ ρ'
      → v ≡ v'
      → Agree on (update M ρ x v) (update M ρ' x v')
  Agree-update on x h p y hy = elim (Bool-cases (x == y)) [ inl e ↦ rw e p | inr e ↦ rw e (h y hy) ]

  -- An update at a name outside the test is not seen.
  pub Agree-unseen :
      (on : String → Bool) (ρ : Env M) (x : String) (v : M.Value)
      → on x ≡ false
      → Agree on (update M ρ x v) ρ
  Agree-unseen on ρ x v h y hy = elim (Bool-cases (x == y)) [
    | inl e ↦ absurd (test_clash on x y e h hy)
    | inr e ↦ rw e
  ]

  eval_forall-Agree :
      (on : String → Bool) (vars : List SortedVar) (ρ ρ' : Env M) (k k' : Env M → M.Value)
      → ((σ σ' : Env M) → Agree on σ σ' → k σ ≡ k' σ')
      → Agree on ρ ρ'
      → eval_forall M vars ρ k ≡ eval_forall M vars ρ' k'
  unfolding eval_forall
  eval_forall-Agree on [] ρ ρ' k k' hk h = hk ρ ρ' h
  eval_forall-Agree on (x ∷ vars) ρ ρ' k k' hk h =
      ap (M.for_all x.sort)
        (fun_ext λ v. eval_forall-Agree on vars _ _ k k' hk (Agree-update on x.name h refl))

  mutual
    unfolding eval occurs

    eval-agrees : (e : Expr I F) (ρ ρ' : Env M) → Agree (occurs e) ρ ρ' → eval M e ρ ≡ eval M e ρ'
    eval-agrees (assert e) ρ ρ' h = eval-agrees e ρ ρ' h
    eval-agrees (typed_variable x sort) ρ ρ' h = h x (eq_refl x)
    eval-agrees (forall vars e) ρ ρ' h =
        eval_forall-Agree (occurs e) vars ρ ρ' (λ σ. eval M e σ) (λ σ. eval M e σ)
          (λ σ σ' k. eval-agrees e σ σ' k) h
    eval-agrees (let_in ds e) ρ ρ' h = eval-agrees e _ _ (
        eval_bindings-Agree_all ds (occurs e) ρ ρ' ρ ρ'
          (λ y p. h y (or-true_left (bindings_occur ds y) (occurs e y) p))
          (λ y p. h y (or-true_right (bindings_occur ds y) (occurs e y) p)))
    eval-agrees (constant_string x) ρ ρ' h = h x (eq_refl x)
    eval-agrees (op name args inst) ρ ρ' h = ap (M.apply name) (eval_args-Agree args ρ ρ' h)
    eval-agrees (fp_cmp p sort a b) ρ ρ' h =
        ap₂ (M.compare_fp p sort)
          (eval-agrees a ρ ρ' (λ y q. h y (or-true_left (occurs a y) (occurs b y) q)))
          (eval-agrees b ρ ρ' (λ y q. h y (or-true_right (occurs a y) (occurs b y) q)))
    eval-agrees (binary_fp o sort a b) ρ ρ' h =
        ap₂ (M.binary o sort)
          (eval-agrees a ρ ρ' (λ y q. h y (or-true_left (occurs a y) (occurs b y) q)))
          (eval-agrees b ρ ρ' (λ y q. h y (or-true_right (occurs a y) (occurs b y) q)))
    eval-agrees (type_cast o from to e) ρ ρ' h = ap (M.cast o from to) (eval-agrees e ρ ρ' h)
    eval-agrees _ ρ ρ' h = refl

    eval_bindings-Agree_all :
        (ds : Defs I F) (on : String → Bool) (ρ ρ' acc acc' : Env M)
        → Agree (bindings_occur ds) ρ ρ'
        → Agree on acc acc'
        → Agree on (eval_bindings M ds ρ acc) (eval_bindings M ds ρ' acc')
    eval_bindings-Agree_all done on ρ ρ' acc acc' h k = k
    eval_bindings-Agree_all (bind x e ds) on ρ ρ' acc acc' h k =
        eval_bindings-Agree_all ds on ρ ρ' _ _
          (λ y q. h y (or-true_right (occurs e y) (bindings_occur ds y) q))
          (Agree-update on x k
            (eval-agrees e ρ ρ' (λ y q. h y (or-true_left (occurs e y) (bindings_occur ds y) q))))

    eval_args-Agree :
        (es : Args I F) (ρ ρ' : Env M)
        → Agree (args_occur es) ρ ρ'
        → eval_args M es ρ ≡ eval_args M es ρ'
    eval_args-Agree nil ρ ρ' h = refl
    eval_args-Agree (cons e es) ρ ρ' h =
        ap₂ ◌∷◌ (eval-agrees e ρ ρ' (λ y q. h y (or-true_left (occurs e y) (args_occur es y) q)))
          (eval_args-Agree es ρ ρ' (λ y q. h y (or-true_right (occurs e y) (args_occur es y) q)))

  pub eval-Agree : (e : Expr I F) (ρ ρ' : Env M) → Agree (occurs e) ρ ρ' → eval M e ρ ≡ eval M e ρ'
  eval-Agree e ρ ρ' h = eval-agrees e ρ ρ' h

  pub eval_bindings-Agree :
      (ds : Defs I F) (ρ ρ' acc : Env M)
      → Agree (bindings_occur ds) ρ ρ'
      → eval_bindings M ds ρ acc ≡ eval_bindings M ds ρ' acc
  eval_bindings-Agree ds ρ ρ' acc h =
      fun_ext λ y. eval_bindings-Agree_all ds (λ _. true) ρ ρ' acc acc h (λ _ _. refl) y refl
