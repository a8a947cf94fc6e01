-- ===== src/Smt/Lets/Chain.antt =====
-- Both ways to nest a chain of assignments evaluate the assignments one after the other.
use llreve.Prelude.{
  String, true, false, List, [], ◌∷◌, ◌++◌, reverse, contains, ◌≡◌, refl, sym, ◌∙◌, ap, Bool-cases,
  inl, inr, or-false, contains-append, All,
}
use mathlib.Core.List.{reverse-append}
use llreve.Smt.Expr.{Expr, let_in, done, bind, of_assignments}
use llreve.Smt.Uses.{collect_uses, collect_uses-mentions}
use llreve.Smt.Meaning.{Structure, Env, update, eval, eval_bindings}
use llreve.Smt.Meaning.Occurs.{occurs, bindings_occur, without_fp_cmp, mentions-occurs}
use llreve.Smt.Meaning.Agree.{Agree-unseen, eval_bindings-Agree}
use llreve.Smt.Lets.{
  Assignment, fast_nest_loop, fast_nest_lets, NestState, flush, nest_step, nest_loop, nest_finish,
  nest_lets,
}

module _ {I F : Type 0} where
  -- The loops from the back, as folds over the assignments in their order.
  unfoldable pub nest_fold : NestState I F → List (Assignment I F) → NestState I F
  nest_fold s [] = s
  nest_fold s (d ∷ ds) = nest_step d (nest_fold s ds)

  nest_loop-append :
      (s : NestState I F) (xs ys : List (Assignment I F))
      → nest_loop s (xs ++ ys) ≡ nest_loop (nest_loop s xs) ys
  unfolding nest_loop
  nest_loop-append s [] ys = refl
  nest_loop-append s (d ∷ xs) ys = nest_loop-append (nest_step d s) xs ys

  nest_loop-reverse :
      (s : NestState I F) (ds : List (Assignment I F)) → nest_loop s (reverse ds) ≡ nest_fold s ds
  unfolding nest_loop nest_fold
  nest_loop-reverse s [] = refl
  nest_loop-reverse s (d ∷ ds) =
      rw (
        reverse-append (d ∷ []) ds,
        nest_loop-append s (reverse ds) (d ∷ []),
        nest_loop-reverse s ds,
      )

  fast_nest_loop-append :
      (e : Expr I F) (xs ys : List (Assignment I F))
      → fast_nest_loop e (xs ++ ys) ≡ fast_nest_loop (fast_nest_loop e xs) ys
  unfolding fast_nest_loop
  fast_nest_loop-append e [] ys = refl
  fast_nest_loop-append e ((x, d) ∷ xs) ys = fast_nest_loop-append (let_in (bind x d done) e) xs ys

  pub fast_nest_lets-cons :
      (e : Expr I F) (x : String) (d : Expr I F) (ds : List (Assignment I F))
      → fast_nest_lets e ((x, d) ∷ ds) ≡ let_in (bind x d done) (fast_nest_lets e ds)
  unfolding fast_nest_lets
  fast_nest_lets-cons e x d ds =
      rw (reverse-append ((x, d) ∷ []) ds, fast_nest_loop-append e (reverse ds) ((x, d) ∷ []))

  unfoldable pub start : Expr I F → NestState I F
  start e = record { lets = e; uses = []; accum = [] }

  pub nest_lets-fold :
      (e : Expr I F) (ds : List (Assignment I F))
      → nest_lets e ds ≡ nest_finish (nest_fold (start e) ds).lets (nest_fold (start e) ds).accum
  unfolding nest_lets start
  nest_lets-fold e ds = rw (nest_loop-reverse (start e) ds)

  -- `uses` has every name that occurs in the expressions of the group.
  abbrev pub Covers : NestState I F → Type 0
  Covers s =
      (y : String) → contains s.uses y ≡ false → bindings_occur (of_assignments s.accum) y ≡ false

  Covers-start : (e : Expr I F) → Covers (start e)
  unfolding start occurs of_assignments
  Covers-start e y h = refl

  not-uses-not-occurs :
      (d : Expr I F) (y : String)
      → without_fp_cmp d ≡ true
      → contains (collect_uses d) y ≡ false
      → occurs d y ≡ false
  not-uses-not-occurs d y w h = sym (mentions-occurs d y w) ∙ (sym (collect_uses-mentions d y) ∙ h)

  Covers-nest_step :
      (x : String) (d : Expr I F) (s : NestState I F)
      → without_fp_cmp d ≡ true
      → Covers s
      → Covers (nest_step (x, d) s)
  unfolding nest_step occurs of_assignments
  Covers-nest_step x d s w c y = elim (Bool-cases (contains s.uses x)) [
    | inl u ↦ rw u (λ h. rw (not-uses-not-occurs d y w h))
    | inr u ↦
        rw (u, contains-append (collect_uses d) s.uses y)
          (λ h.
            let p = or-false (contains (collect_uses d) y) (contains s.uses y) h in
            rw (not-uses-not-occurs d y w p.0, c y p.1))
  ]

  -- Each bound expression is free of floating point comparisons.
  abbrev pub NoComparison : List (Assignment I F) → Type 0
  NoComparison ds = All (λ (d : Assignment I F). without_fp_cmp d.1 ≡ true) ds

  pub Covers-nest_fold :
      (e : Expr I F) (ds : List (Assignment I F))
      → NoComparison ds
      → Covers (nest_fold (start e) ds)
  unfolding nest_fold
  Covers-nest_fold e [] h = Covers-start e
  Covers-nest_fold e ((x, d) ∷ ds) h =
      Covers-nest_step x d (nest_fold (start e) ds) h.0 (Covers-nest_fold e ds h.1)

module _ {I F : Type 0} (M : Structure I F) where
  -- The assignments, carried out one after the other.
  unfoldable pub run_assignments : List (Assignment I F) → Env M → Env M
  run_assignments [] ρ = ρ
  run_assignments ((x, d) ∷ ds) ρ = run_assignments ds (update M ρ x (eval M d ρ))

  pub eval-fast_nest_lets :
      (e : Expr I F) (ds : List (Assignment I F)) (ρ : Env M)
      → eval M (fast_nest_lets e ds) ρ ≡ eval M e (run_assignments ds ρ)
  unfolding run_assignments eval
  eval-fast_nest_lets e [] ρ = unfold fast_nest_lets in refl
  eval-fast_nest_lets e ((x, d) ∷ ds) ρ =
      rw (fast_nest_lets-cons e x d ds) (eval-fast_nest_lets e ds _)

  abbrev group_env : List (Assignment I F) → Env M → Env M
  group_env g ρ = eval_bindings M (of_assignments g) ρ ρ

  -- A step puts its assignment in front of those that the state holds.
  eval-nest_step :
      (x : String) (d : Expr I F) (s : NestState I F) (ρ : Env M)
      → Covers s
      → eval M (nest_step (x, d) s).lets (group_env (nest_step (x, d) s).accum ρ)
        ≡ eval M s.lets (group_env s.accum (update M ρ x (eval M d ρ)))
  unfolding nest_step flush of_assignments eval
  eval-nest_step x d s ρ c = elim (Bool-cases (contains s.uses x)) [
    | inl u ↦ rw u
    | inr u ↦ rw u (
        ap (eval M s.lets) (
          eval_bindings-Agree M (of_assignments s.accum) ρ (update M ρ x (eval M d ρ)) _ (λ y o.
            sym (
              Agree-unseen M (bindings_occur (of_assignments s.accum)) ρ x (eval M d ρ) (c x u) y
                o))))
  ]

  pub eval-nest_fold :
      (e : Expr I F) (ds : List (Assignment I F)) (ρ : Env M)
      → NoComparison ds
      → eval M (nest_fold (start e) ds).lets (group_env (nest_fold (start e) ds).accum ρ)
        ≡ eval M e (run_assignments ds ρ)
  unfolding run_assignments nest_fold
  eval-nest_fold e [] ρ h = unfold start of_assignments eval in refl
  eval-nest_fold e ((x, d) ∷ ds) ρ h =
      eval-nest_step x d (nest_fold (start e) ds) ρ (Covers-nest_fold e ds h.1)
      ∙ eval-nest_fold e ds (update M ρ x (eval M d ρ)) h.1

  eval-nest_finish :
      (e : Expr I F) (g : List (Assignment I F)) (ρ : Env M)
      → eval M (nest_finish e g) ρ ≡ eval M e (group_env g ρ)
  unfolding nest_finish eval
  eval-nest_finish e [] ρ = unfold of_assignments in refl
  eval-nest_finish e (d ∷ g) ρ = refl

  pub eval-nest_lets :
      (e : Expr I F) (ds : List (Assignment I F)) (ρ : Env M)
      → NoComparison ds
      → eval M (nest_lets e ds) ρ ≡ eval M e (run_assignments ds ρ)
  eval-nest_lets e ds ρ h =
      rw (nest_lets-fold e ds)
        (eval-nest_finish _ (nest_fold (start e) ds).accum ρ ∙ eval-nest_fold e ds ρ h)

  -- If no bound expression has a floating point comparison, then the few parallel `let`s of
  -- `nest_lets` mean in every environment what the chain of single `let`s of `fast_nest_lets` means.
  pub nest_lets-fast_nest_lets :
      (e : Expr I F) (ds : List (Assignment I F)) (ρ : Env M)
      → NoComparison ds
      → eval M (nest_lets e ds) ρ ≡ eval M (fast_nest_lets e ds) ρ
  nest_lets-fast_nest_lets e ds ρ h = eval-nest_lets e ds ρ h ∙ sym (eval-fast_nest_lets e ds ρ)
