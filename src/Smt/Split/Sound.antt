-- ===== src/Smt/Split/Sound.antt =====
-- `split_conjunctions` keeps the meaning of a clause.
use llreve.Prelude.{
  List, map, ◌≡◌, ◌↔◌, ◌==◌, eq_iff, Bool-cases, inl, inr, All, All-map, All-swap, All-append_iff,
  iff_trans, iff_sym, ok-injective, ok, >>=-eq-ok,
}
use llreve.Smt.Sort.{SortedVar}
use llreve.Smt.Expr.{Expr, assert, forall, let_in, op, Args, nil, cons}
use llreve.Smt.Meaning.{Structure, Logic, Env, eval, eval_bindings, eval_args}
use llreve.Smt.Meaning.ForAll.{Assigns, eval_forall-Holds}
use llreve.Smt.Split.{split_conjunctions, split_implication, split_args, implies}

module _ {I F : Type 0} {M : Structure I F} (L : Logic M) where
  -- The pieces hold together.
  abbrev pub HoldAll : List (Expr I F) → Env M → Type 0
  HoldAll es ρ = All (λ e. L.Holds (eval M e ρ)) es

  pub holds_implies :
      (a b : Expr I F) (ρ : Env M)
      → L.Holds (eval M (implies a b) ρ) ↔ (L.Holds (eval M a ρ) → L.Holds (eval M b ρ))
  unfolding eval
  holds_implies a b ρ = L.holds_implies (eval M a ρ) (eval M b ρ)

  -- The pieces of a quantified clause, each behind the quantifier.
  forall_pieces :
      (vars : List SortedVar) (e : Expr I F) (xs : List (Expr I F)) (ρ : Env M)
      → ((ρ' : Env M) → HoldAll xs ρ' ↔ L.Holds (eval M e ρ'))
      → HoldAll (map (forall vars) xs) ρ ↔ L.Holds (eval M (forall vars e) ρ)
  unfolding eval
  forall_pieces vars e xs ρ h =
      let J = (ρ' : Env M) × Assigns L vars ρ ρ' in
      let each =
        All-map (λ x. (j : J) → L.Holds (eval M x j.0)) (λ x. L.Holds (eval M x ρ)) (forall vars)
          (λ x.
            let e = eval_forall-Holds L vars ρ (λ ρ'. eval M x ρ') in
            ((λ k j. e.0 k j.0 j.1), (λ k. e.1 (λ ρ' a. k (ρ', a)))))
          xs in
      let body = eval_forall-Holds L vars ρ (λ ρ'. eval M e ρ') in
      let swap = All-swap (λ (j : J) x. L.Holds (eval M x j.0)) xs in
      (
        (λ k. body.1 (λ ρ' a. (h ρ').0 (swap.0 (each.0 k) (ρ', a)))),
        (λ k. each.1 (swap.1 (λ j. (h j.0).1 (body.0 k j.0 j.1)))),
      )

  -- The pieces of an implication, each behind the premise.
  implication_pieces :
      (a b : Expr I F) (xs : List (Expr I F)) (ρ : Env M)
      → HoldAll xs ρ ↔ L.Holds (eval M b ρ)
      → HoldAll (map (implies a) xs) ρ ↔ L.Holds (eval M (implies a b) ρ)
  implication_pieces a b xs ρ h =
      let each =
        All-map (λ x. L.Holds (eval M a ρ) → L.Holds (eval M x ρ)) (λ x. L.Holds (eval M x ρ))
          (implies a) (λ x. holds_implies a x ρ) xs in
      let swap = All-swap (λ (_ : L.Holds (eval M a ρ)) x. L.Holds (eval M x ρ)) xs in
      iff_trans each (
        iff_trans swap
          (iff_trans ((λ k a. h.0 (k a)), (λ k a. h.1 (k a))) (iff_sym (holds_implies a b ρ))))

  mutual
    unfolding split_conjunctions eval

    split_sound :
        (e : Expr I F) (es : List (Expr I F)) (ρ : Env M)
        → split_conjunctions e ≡ ok es
        → HoldAll es ρ ↔ L.Holds (eval M e ρ)
    split_sound (assert e) es ρ h =
        let (xs, p, q) = >>=-eq-ok (split_conjunctions e) _ h in
        rw (← ok-injective q) (
          iff_trans
            (All-map (λ x. L.Holds (eval M x ρ)) (λ x. L.Holds (eval M x ρ)) assert
              (λ x. ((λ k. k), (λ k. k))) xs)
            (split_sound e xs ρ p))
    split_sound (let_in ds e) es ρ h =
        let (xs, p, q) = >>=-eq-ok (split_conjunctions e) _ h in
        rw (← ok-injective q) (
          iff_trans
            (All-map (λ x. L.Holds (eval M x (eval_bindings M ds ρ ρ))) (λ x. L.Holds (eval M x ρ))
              (let_in ds) (λ x. ((λ k. k), (λ k. k))) xs)
            (split_sound e xs (eval_bindings M ds ρ ρ) p))
    split_sound (forall vars e) es ρ h =
        let (xs, p, q) = >>=-eq-ok (split_conjunctions e) _ h in
        rw (← ok-injective q) (forall_pieces vars e xs ρ (λ ρ'. split_sound e xs ρ' p))
    split_sound (op name args inst) es ρ h = elim (Bool-cases (name == "=>")) [
      | inl c ↦ rw ((eq_iff name "=>").0 c) (split_implication_sound args es ρ (rw c at h))
      | inr c ↦ elim (Bool-cases (name == "and")) [
        | inl d ↦ rw ((eq_iff name "and").0 d) (
            iff_trans (split_args_sound args es ρ (rw (c, d) at h))
              (iff_sym (L.holds_and (eval_args M args ρ))))
        | inr d ↦ rw (← ok-injective (rw (c, d) at h)) ((λ k. k.0), (λ k. (k, tt)))
      ]
    ]
    split_sound _ es ρ h = rw (← ok-injective h) ((λ k. k.0), (λ k. (k, tt)))

    split_implication_sound :
        (args : Args I F) (es : List (Expr I F)) (ρ : Env M)
        → split_implication args ≡ ok es
        → HoldAll es ρ ↔ L.Holds (M.apply "=>" (eval_args M args ρ))
    split_implication_sound (cons a (cons b nil)) es ρ h =
        let (xs, p, q) = >>=-eq-ok (split_conjunctions b) _ h in
        rw (← ok-injective q) (implication_pieces a b xs ρ (split_sound b xs ρ p))
    split_implication_sound _ es ρ h = cc

    split_args_sound :
        (args : Args I F) (es : List (Expr I F)) (ρ : Env M)
        → split_args args ≡ ok es
        → HoldAll es ρ ↔ All L.Holds (eval_args M args ρ)
    split_args_sound nil es ρ h = rw (← ok-injective h) ((λ k. k), (λ k. k))
    split_args_sound (cons e args) es ρ h =
        let (xs, p, r) = >>=-eq-ok (split_conjunctions e) _ h in
        let (ys, q, s) = >>=-eq-ok (split_args args) _ r in
        let f = split_sound e xs ρ p in
        let g = split_args_sound args ys ρ q in
        rw (← ok-injective s) (
          iff_trans (All-append_iff (λ x. L.Holds (eval M x ρ)) xs ys)
            ((λ k. (f.0 k.0, g.0 k.1)), (λ k. (f.1 k.0, g.1 k.1))))

  -- If the split of a clause succeeds, then in every environment the clause holds exactly when all
  -- of its pieces do.
  pub split_conjunctions-Holds :
      (e : Expr I F) (es : List (Expr I F)) (ρ : Env M)
      → split_conjunctions e ≡ ok es
      → HoldAll es ρ ↔ L.Holds (eval M e ρ)
  split_conjunctions-Holds e es ρ h = split_sound e es ρ h
