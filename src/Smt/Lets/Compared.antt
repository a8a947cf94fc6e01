-- ===== src/Smt/Lets/Compared.antt =====
-- What `nestLets` of `reve/reve/lib/SMT.cpp` makes of a floating point comparison, whose operands
-- `collectUses` does not see.
use llreve.Prelude.{
  String, false, List, [], ◌∷◌, contains, contains-append, ◌≡◌, refl, sym, ◌∙◌, ap, Bool-cases, inl,
  inr, All,
}
use llreve.Smt.Sort.{Sort}
use llreve.Smt.Expr.{Expr, Predicate, fp_cmp, of_assignments}
use llreve.Smt.Visitor.{accept}
use llreve.Smt.Uses.{collect_uses}
use llreve.Smt.Meaning.{Structure, Env, update, eval, eval_bindings}
use llreve.Smt.Meaning.Occurs.{bindings_occur}
use llreve.Smt.Meaning.Agree.{Agree-unseen, eval_bindings-Agree}
use llreve.Smt.Lets.{
  Assignment, fast_nest_lets, NestState, flush, nest_step, nest_finish, nest_lets,
}
use llreve.Smt.Lets.Chain.{
  nest_fold, start, nest_lets-fold, NoComparison, Covers, Covers-nest_fold, run_assignments,
  eval-fast_nest_lets, eval-nest_fold,
}

module _ {I F : Type 0} where
  -- No bound expression has the name outside floating point comparisons.
  abbrev pub NoneReads : String → List (Assignment I F) → Type 0
  NoneReads x ds = All (λ (d : Assignment I F). contains (collect_uses d.1) x ≡ false) ds

  unread :
      (y x : String) (d : Expr I F) (s : NestState I F)
      → contains (collect_uses d) x ≡ false
      → contains s.uses x ≡ false
      → contains (nest_step (y, d) s).uses x ≡ false
  unfolding nest_step
  unread y x d s h k = elim (Bool-cases (contains s.uses y)) [
    | inl u ↦ rw u h
    | inr u ↦ rw (u, contains-append (collect_uses d) s.uses x, h, k) refl
  ]

  unread_all :
      (x : String) (e : Expr I F) (ds : List (Assignment I F))
      → NoneReads x ds
      → contains (nest_fold (start e) ds).uses x ≡ false
  unfolding nest_fold start contains
  unread_all x e [] h = refl
  unread_all x e ((y, d) ∷ ds) h = unread y x d (nest_fold (start e) ds) h.0 (unread_all x e ds h.1)

module _ {I F : Type 0} (M : Structure I F) (p : Predicate) (sort : Sort) (x c : String)
    (d a b : Expr I F) where
  -- The environment behind both assignments, with a value for the second.
  abbrev pub behind : M.Value → Env M → Env M
  behind v ρ = update M (update M ρ x (eval M d ρ)) c v

  compared_group :
      (s : NestState I F) (ρ : Env M)
      → Covers s
      → contains s.uses x ≡ false
      → let s' = nest_step (x, d) (nest_step (c, fp_cmp p sort a b) s) in
        let v = M.compare_fp p sort (eval M a ρ) (eval M b ρ) in
        eval M (nest_finish s'.lets s'.accum) ρ
        ≡ eval M s.lets (eval_bindings M (of_assignments s.accum) (behind v ρ) (behind v ρ))
  unfolding nest_step nest_finish flush eval of_assignments collect_uses contains accept
  compared_group s ρ covers unused = elim (Bool-cases (contains s.uses c)) [
    | inl u ↦ rw u refl
    | inr u ↦
        let v = M.compare_fp p sort (eval M a ρ) (eval M b ρ) in
        let seen = bindings_occur (of_assignments s.accum) in
        rw (u, unused)
          (ap (eval M s.lets) (
            eval_bindings-Agree M (of_assignments s.accum) ρ (behind v ρ) (behind v ρ) (λ y o. sym (
              Agree-unseen M seen (update M ρ x (eval M d ρ)) c v (covers c u) y o
              ∙ Agree-unseen M seen ρ x (eval M d ρ) (covers x unused) y o))))
  ]

  -- A chain of assignments begins with two, of which the second is a floating point comparison;
  -- of the others none has one, and none names the variable of the first. Then after `nest_lets`
  -- the comparison is one of the values that its operands have outside the first assignment, and
  -- after `fast_nest_lets` of those that they have behind it; all else is carried out in order.
  pub nest_lets-fp_cmp :
      (e : Expr I F) (ds : List (Assignment I F)) (ρ : Env M)
      → NoComparison ds
      → NoneReads x ds
      → let all : List (Assignment I F) = (x, d) ∷ (c, fp_cmp p sort a b) ∷ ds in
        let ρ' = update M ρ x (eval M d ρ) in
        (eval M (nest_lets e all) ρ
          ≡ eval M e
              (run_assignments M ds (behind (M.compare_fp p sort (eval M a ρ) (eval M b ρ)) ρ)))
        × (eval M (fast_nest_lets e all) ρ
            ≡ eval M e
                (run_assignments M ds (behind (M.compare_fp p sort (eval M a ρ') (eval M b ρ')) ρ)))
  unfolding nest_fold run_assignments eval
  nest_lets-fp_cmp e ds ρ h k =
      let s = nest_fold (start e) ds in
      (
        ap (λ t. eval M t ρ) (nest_lets-fold e ((x, d) ∷ (c, fp_cmp p sort a b) ∷ ds))
            ∙ compared_group s ρ (Covers-nest_fold e ds h) (unread_all x e ds k)
            ∙ eval-nest_fold M e ds (behind (M.compare_fp p sort (eval M a ρ) (eval M b ρ)) ρ) h,
        eval-fast_nest_lets M e ((x, d) ∷ (c, fp_cmp p sort a b) ∷ ds) ρ,
      )
