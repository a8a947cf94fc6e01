-- ===== src/Serialize/Foralls/Valid.antt =====
-- A clause holds exactly if, without its quantifiers, it holds for all values of their variables.
use llreve.Prelude.{
  Bool, true, false, List, [], ◌∷◌, ◌++◌, ◌≡◌, refl, ◌↔◌, ◌&&◌, and-true, if◌then◌else◌, ◌==◌,
  Bool-cases, inl, inr, eq_iff,
}
use llreve.Smt.Sort.{SortedVar}
use llreve.Smt.Expr.{
  Expr, assert, forall, let_in, op, binary_fp, type_cast, fun_def, Args, nil, cons, Defs, done,
  bind,
}
use llreve.Smt.Visitor.{accept, accept_bindings, accept_args}
use llreve.Smt.Meaning.{Structure, Logic, Env, update, eval, eval_args}
use llreve.Smt.Meaning.Occurs.{avoids, avoids-not-contains}
use llreve.Smt.Meaning.Agree.{eval-Agree}
use llreve.Smt.Meaning.ForAll.{Assigns, eval_forall-Holds, Assigns-other}
use llreve.Smt.Merge.Sound.{var_names}
use llreve.Serialize.Foralls.{forall_visitor, remove_foralls}

module _ {I F : Type 0} where
  -- No quantifier at any depth that visitors reach.
  unfoldable mutual
    pub plain : Expr I F → Bool
    plain (assert e) = plain e
    plain (forall vars e) = false
    plain (let_in ds e) = bindings_plain ds && plain e
    plain (op name args inst) = args_plain args
    plain (binary_fp o sort a b) = plain a && plain b
    plain (type_cast o from to e) = plain e
    plain (fun_def name args out body) = plain body
    plain e = true

    bindings_plain : Defs I F → Bool
    bindings_plain done = true
    bindings_plain (bind x e ds) = plain e && bindings_plain ds

    args_plain : Args I F → Bool
    args_plain nil = true
    args_plain (cons e es) = plain e && args_plain es

  -- The variables of the quantifiers of a clause, from the outermost inwards.
  unfoldable mutual
    pub quantified : Expr I F → List SortedVar
    quantified (assert e) = quantified e
    quantified (forall vars e) = vars ++ quantified e
    quantified (op name args inst) = if name == "=>" then quantified_conclusion args else []
    quantified e = []

    pub quantified_conclusion : Args I F → List SortedVar
    quantified_conclusion (cons a (cons b nil)) = quantified b
    quantified_conclusion _ = []

  -- A clause whose quantifiers stand at its root and in conclusions of implications, with
  -- variables that do not occur in the premises.
  unfoldable mutual
    pub removable : Expr I F → Bool
    removable (assert e) = removable e
    removable (forall vars e) = removable e
    removable (op name args inst) =
        if name == "=>" then removable_implication args else plain (op name args inst)
    removable e = plain e

    pub removable_implication : Args I F → Bool
    removable_implication (cons a (cons b nil)) =
        plain a && (avoids (var_names (quantified b)) a && removable b)
    removable_implication _ = false

  mutual
    unfolding accept plain

    pub accept-plain :
        (e : Expr I F) (s : List SortedVar) → plain e ≡ true → accept forall_visitor e s ≡ (e, s)
    accept-plain (assert e) s h = rw (accept-plain e s h)
    accept-plain (forall vars e) s h = cc
    accept-plain (let_in ds e) s h =
        let w = and-true (bindings_plain ds) (plain e) h in
        rw (accept_bindings-plain ds s w.0, accept-plain e s w.1)
    accept-plain (op name args inst) s h = rw (accept_args-plain args s h)
    accept-plain (binary_fp o sort a b) s h =
        let w = and-true (plain a) (plain b) h in rw (accept-plain a s w.0, accept-plain b s w.1)
    accept-plain (type_cast o from to e) s h = rw (accept-plain e s h)
    accept-plain (fun_def name args out body) s h = rw (accept-plain body s h)
    accept-plain e s h = refl

    accept_bindings-plain :
        (ds : Defs I F) (s : List SortedVar)
        → bindings_plain ds ≡ true
        → accept_bindings forall_visitor false ds s ≡ (ds, s)
    accept_bindings-plain done s h = refl
    accept_bindings-plain (bind x e ds) s h =
        let w = and-true (plain e) (bindings_plain ds) h in
        rw (accept-plain e s w.0, accept_bindings-plain ds s w.1)

    accept_args-plain :
        (es : Args I F) (s : List SortedVar)
        → args_plain es ≡ true
        → accept_args forall_visitor es s ≡ (es, s)
    accept_args-plain nil s h = refl
    accept_args-plain (cons e es) s h =
        let w = and-true (plain e) (args_plain es) h in
        rw (accept-plain e s w.0, accept_args-plain es s w.1)

module _ {I F : Type 0} {M : Structure I F} (L : Logic M) where
  Assigns-append :
      (xs ys : List SortedVar) (ρ ρ' : Env M)
      → Assigns L (xs ++ ys) ρ ρ' ↔ ((σ : Env M) × Assigns L xs ρ σ × Assigns L ys σ ρ')
  Assigns-append [] ys ρ ρ' = ((λ a. (ρ, refl, a)), (λ (σ, p, a). rw (← p) a))
  Assigns-append (x ∷ xs) ys ρ ρ' = (
    (λ (v, s, a).
        let (σ, b, c) = (Assigns-append xs ys (update M ρ x.name v) ρ').0 a in (σ, (v, s, b), c)),
    (λ (σ, (v, s, b), c). (v, s, (Assigns-append xs ys (update M ρ x.name v) ρ').1 (σ, b, c))),
  )

  -- The meaning under all values of the variables.
  abbrev HoldsForAll : List SortedVar → Expr I F → Env M → Type 0
  HoldsForAll vars e ρ = (ρ' : Env M) → Assigns L vars ρ ρ' → L.Holds (eval M e ρ')

  HoldsForAll-nil : (e : Expr I F) (ρ : Env M) → L.Holds (eval M e ρ) ↔ HoldsForAll [] e ρ
  HoldsForAll-nil e ρ = ((λ h ρ' p. rw p h), (λ h. h ρ refl))

  plain_kept :
      (e : Expr I F) (s : List SortedVar) (ρ : Env M)
      → plain e ≡ true
      → L.Holds (eval M e ρ) ↔ HoldsForAll [] (accept forall_visitor e s).0 ρ
  plain_kept e s ρ h = rw (accept-plain e s h) (HoldsForAll-nil e ρ)

  premise_kept :
      (vars : List SortedVar) (a : Expr I F) (ρ ρ' : Env M)
      → avoids (var_names vars) a ≡ true
      → Assigns L vars ρ ρ'
      → eval M a ρ' ≡ eval M a ρ
  premise_kept vars a ρ ρ' v s =
      eval-Agree M a ρ' ρ
        (λ y o. Assigns-other L vars ρ ρ' y (avoids-not-contains (var_names vars) a y v o) s)

  mutual
    unfolding accept quantified removable eval

    remove_sound :
        (e : Expr I F) (s : List SortedVar) (ρ : Env M)
        → removable e ≡ true
        → L.Holds (eval M e ρ) ↔ HoldsForAll (quantified e) (accept forall_visitor e s).0 ρ
    remove_sound (assert e) s ρ h = remove_sound e s ρ h
    remove_sound (forall vars e) s ρ h =
        let f = eval_forall-Holds L vars ρ (λ σ. eval M e σ) in
        (
          (λ k ρ' a.
              let (σ, b, c) = (Assigns-append vars (quantified e) ρ ρ').0 a in
              (remove_sound e s σ h).0 (f.0 k σ b) ρ' c),
          (λ k. f.1 (λ σ b.
              (remove_sound e s σ h).1
                (λ ρ' c. k ρ' ((Assigns-append vars (quantified e) ρ ρ').1 (σ, b, c))))),
        )
    remove_sound (op name args inst) s ρ h = elim (Bool-cases (name == "=>")) [
      | inl c ↦ rw ((eq_iff name "=>").0 c) (remove_implication_sound args inst s ρ (rw c at h))
      | inr c ↦ let k = plain_kept (op name args inst) s ρ (rw c at h) in rw c k
    ]
    remove_sound e s ρ h = plain_kept e s ρ h

    remove_implication_sound :
        (args : Args I F) (inst : Bool) (s : List SortedVar) (ρ : Env M)
        → removable_implication args ≡ true
        → L.Holds (M.apply "=>" (eval_args M args ρ))
          ↔ HoldsForAll
              (quantified_conclusion args)
              (op "=>" (accept_args forall_visitor args s).0 inst)
              ρ
    remove_implication_sound (cons a (cons b nil)) inst s ρ h =
        let w = and-true (plain a) (avoids (var_names (quantified b)) a && removable b) h in
        let u = and-true (avoids (var_names (quantified b)) a) (removable b) w.1 in
        let r = remove_sound b s ρ u.1 in
        let b' = (accept forall_visitor b s).0 in
        rw (accept-plain a s w.0) (
          (λ k ρ' z. (L.holds_implies (eval M a ρ') (eval M b' ρ')).1 (λ p.
              r.0
                ((L.holds_implies (eval M a ρ) (eval M b ρ)).0 k
                  (rw (premise_kept (quantified b) a ρ ρ' u.0 z) at p))
                ρ' z)),
          (λ k. (L.holds_implies (eval M a ρ) (eval M b ρ)).1 (λ p. r.1 (λ ρ' z.
              (L.holds_implies (eval M a ρ') (eval M b' ρ')).0 (k ρ' z)
                (rw (premise_kept (quantified b) a ρ ρ' u.0 z) p)))),
        )
    remove_implication_sound _ inst s ρ h = cc

  -- If the quantifiers of a clause stand at its root and in conclusions of implications, and their
  -- variables do not occur in the premises, then the clause holds exactly if, without them, it holds
  -- whatever values of their sorts the variables are given.
  pub remove_foralls-Holds :
      (e : Expr I F) (introduced : List SortedVar) (ρ : Env M)
      → removable e ≡ true
      → L.Holds (eval M e ρ) ↔ (
          (ρ' : Env M)
          → Assigns L (quantified e) ρ ρ'
          → L.Holds (eval M (remove_foralls e introduced).0 ρ'))
  unfolding remove_foralls
  remove_foralls-Holds e introduced ρ h = remove_sound e introduced ρ h
