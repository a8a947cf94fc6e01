-- ===== src/Paths/Conditions.antt =====
-- The `toSmt` methods of the conditions of edges, in `reve/reve/lib/PathAnalysis.cpp`.
use llreve.Prelude.{
  Bool, true, false, not, List, [], ◌∷◌, ◌≡◌, ◌≢◌, refl, sym, ap, ◌∙◌, ◌↔◌, ◌||◌, Bool-cases, inl,
  inr, and-true, not-true, All, or-false,
}
use llreve.Smt.Expr.{Expr, constant_int, op, Args, nil, cons}
use llreve.Smt.Meaning.{Structure, Logic, Env, eval, eval_args}
use llreve.Marks.Sets.{false_ne_true}
use llreve.Paths.{Condition, boolean, switch_case, switch_default}
use llreve.Paths.Feasible.{Execution, any_same, distinct_values, satisfied}

module _ {I F : Type 0} where
  -- the loop over the values, and the condition behind them
  unfoldable pub default_args : List I → Expr I F → Args I F
  default_args [] e = cons e nil
  default_args (v ∷ vs) e = cons (constant_int v) (default_args vs e)

module _ {C I F : Type 0} (instr_name_or_val : C → Expr I F) where
  unfoldable pub to_smt : Condition C I → Expr I F
  unfolding default_args
  to_smt (boolean c true) = instr_name_or_val c
  to_smt (boolean c false) = op "not" (cons (instr_name_or_val c) nil) true
  to_smt (switch_case c v) = op "=" (cons (instr_name_or_val c) (cons (constant_int v) nil)) true
  to_smt (switch_default c vs) = op "distinct" (default_args vs (instr_name_or_val c)) true

-- No two values of a list are the same.
abbrev pub Different : {V : Type 0} → List V → Type 0
Different [] = Unit
Different (v ∷ vs) = All (λ w. v ≢ w) vs × Different vs

-- What the SMT-LIB standard says of the operators in conditions.
pub record ConditionLogic {I F : Type 0} {M : Structure I F} (L : Logic M) : Type 0 where
  pub holds_not : (v : M.Value) → L.Holds (M.apply "not" (v ∷ [])) ↔ (L.Holds v → ⊥)
  pub holds_equal : (v w : M.Value) → L.Holds (M.apply "=" (v ∷ w ∷ [])) ↔ (v ≡ w)
  pub holds_distinct : (vs : List M.Value) → L.Holds (M.apply "distinct" vs) ↔ Different vs
  pub int_injective : (a b : I) → M.int a ≡ M.int b → a ≡ b

-- The environment has the values of the execution.
pub record Reads {C I F : Type 0} {M : Structure I F} (L : Logic M) (x : Execution C I)
    (instr_name_or_val : C → Expr I F) (ρ : Env M) : Type 0 where
  pub truth_holds : (c : C) → (x.truth c ≡ true) ↔ L.Holds (eval M (instr_name_or_val c) ρ)
  pub value_is : (c : C) → eval M (instr_name_or_val c) ρ ≡ M.int (x.value c)

module _ {C I F : Type 0} {M : Structure I F} {L : Logic M} (K : ConditionLogic L)
    (x : Execution C I) where
  -- The values and one more are different, if the values are and none of them is the one more.
  same_not : (v w : I) → x.same v w ≡ false → M.int v ≢ M.int w
  same_not v w h e = false_ne_true (sym h ∙ (x.same_iff v w).1 (K.int_injective v w e))

  not_same : (v w : I) → M.int v ≢ M.int w → x.same v w ≡ false
  not_same v w h = elim (Bool-cases (x.same v w)) [
    | inl e ↦ absurd (h (ap M.int ((x.same_iff v w).0 e)))
    | inr e ↦ e
  ]

  both_false : (a b : Bool) → a ≡ false → b ≡ false → (a || b) ≡ false
  both_false a b p q = rw (p, q)

  module _ (ρ : Env M) (e : Expr I F) (k : I) (is : eval M e ρ ≡ M.int k) where
    apart_from_All :
        (v : I) (vs : List I)
        → All (λ w. M.int v ≢ w) (eval_args M (default_args vs e) ρ)
          ↔ ((any_same x v vs ≡ false) × (x.same k v ≡ false))
    unfolding eval any_same default_args
    apart_from_All v [] = (
      (λ h. (refl, not_same k v (λ p. h.0 (sym p ∙ sym is)))),
      (λ h. ((λ p. same_not k v h.1 (sym is ∙ sym p)), tt)),
    )
    apart_from_All v (w ∷ vs) =
        let r = apart_from_All v vs in
        (
          (λ h.
              let u = r.0 h.1 in
              (both_false (x.same v w) (any_same x v vs) (not_same v w h.0) u.0, u.1)),
          (λ h.
              let u = or-false (x.same v w) (any_same x v vs) h.0 in
              (same_not v w u.0, r.1 (u.1, h.1))),
        )

    default-Different :
        (vs : List I)
        → distinct_values x vs ≡ true
        → Different (eval_args M (default_args vs e) ρ) ↔ (any_same x k vs ≡ false)
    unfolding eval any_same default_args distinct_values
    default-Different [] d = ((λ h. refl), (λ h. (tt, tt)))
    default-Different (v ∷ vs) d =
        let w = and-true (not (any_same x v vs)) (distinct_values x vs) d in
        let r = default-Different vs w.1 in
        let a = apart_from_All v vs in
        (
          (λ h. both_false (x.same k v) (any_same x k vs) (a.0 h.0).1 (r.0 h.1)),
          (λ h.
              let u = or-false (x.same k v) (any_same x k vs) h in
              (a.1 (not-true (any_same x v vs) w.0, u.0), r.1 u.1)),
        )

  -- The values of the cases that a default condition excludes are different.
  unfoldable pub excludes_distinct : Condition C I → Bool
  unfolding distinct_values
  excludes_distinct (switch_default c vs) = distinct_values x vs
  excludes_distinct c = true

  -- In an environment with the values of an execution, the expression of a condition holds exactly
  -- if the condition is satisfied in the execution, where the values that a default excludes are
  -- different.
  pub to_smt-satisfied :
      (instr_name_or_val : C → Expr I F) (ρ : Env M)
      → Reads L x instr_name_or_val ρ
      → (c : Condition C I) → excludes_distinct c ≡ true
      → (satisfied x c ≡ true) ↔ L.Holds (eval M (to_smt instr_name_or_val c) ρ)
  unfolding to_smt satisfied eval excludes_distinct
  to_smt-satisfied f ρ R (boolean c true) d = R.truth_holds c
  to_smt-satisfied f ρ R (boolean c false) d = (
    (λ h.
        (K.holds_not (eval M (f c) ρ)).1
          (λ k. false_ne_true (sym (not-true (x.truth c) h) ∙ (R.truth_holds c).1 k))),
    (λ h. elim (Bool-cases (x.truth c)) [
      | inl t ↦ absurd ((K.holds_not (eval M (f c) ρ)).0 h ((R.truth_holds c).0 t))
      | inr t ↦ rw t refl
    ]),
  )
  to_smt-satisfied f ρ R (switch_case c v) d =
      let e = K.holds_equal (eval M (f c) ρ) (M.int v) in
      (
        (λ h. e.1 (R.value_is c ∙ ap M.int ((x.same_iff (x.value c) v).0 h))),
        (λ h.
            (x.same_iff (x.value c) v).1
              (K.int_injective (x.value c) v (sym (R.value_is c) ∙ e.0 h))),
      )
  to_smt-satisfied f ρ R (switch_default c vs) d =
      let r = default-Different ρ (f c) (x.value c) (R.value_is c) vs d in
      let e = K.holds_distinct (eval_args M (default_args vs (f c)) ρ) in
      ((λ h. e.1 (r.1 (not-true (any_same x (x.value c) vs) h))), (λ h. rw (r.0 (e.0 h)) refl))
