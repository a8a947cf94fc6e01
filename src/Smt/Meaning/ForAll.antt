-- ===== src/Smt/Meaning/ForAll.antt =====
-- A quantified expression holds exactly if its body holds in every assignment of the variables.
use llreve.Prelude.{
  String, false, List, [], ◌∷◌, ◌≡◌, refl, ◌↔◌, ◌==◌, ap, ◌∙◌, contains, or-false, map,
}
use llreve.Smt.Sort.{SortedVar}
use llreve.Smt.Meaning.{Structure, Logic, Env, update, eval_forall}

module _ {I F : Type 0} {M : Structure I F} (L : Logic M) where
  -- `ρ'` is `ρ` with values of their sorts given to the variables, one after the other.
  abbrev pub Assigns : List SortedVar → Env M → Env M → Type 0
  Assigns [] ρ ρ' = ρ' ≡ ρ
  Assigns (x ∷ vars) ρ ρ' =
      (v : M.Value) × L.InSort x.sort v × Assigns vars (update M ρ x.name v) ρ'

  pub eval_forall-Holds :
      (vars : List SortedVar) (ρ : Env M) (k : Env M → M.Value)
      → L.Holds (eval_forall M vars ρ k) ↔ ((ρ' : Env M) → Assigns vars ρ ρ' → L.Holds (k ρ'))
  unfolding eval_forall
  eval_forall-Holds [] ρ k = ((λ h ρ' p. rw p h), (λ h. h ρ refl))
  eval_forall-Holds (x ∷ vars) ρ k = (
    (λ h ρ' (v, s, a).
        (eval_forall-Holds vars (update M ρ x.name v) k).0 ((L.holds_for_all x.sort _).0 h v s) ρ'
          a),
    (λ h.
        (L.holds_for_all x.sort _).1
          (λ v s. (eval_forall-Holds vars (update M ρ x.name v) k).1 (λ ρ' a. h ρ' (v, s, a)))),
  )

  -- A name that is no variable of the quantifier keeps its value.
  pub Assigns-other :
      (vars : List SortedVar) (ρ ρ' : Env M) (y : String)
      → contains (map (λ (x : SortedVar). x.name) vars) y ≡ false
      → Assigns vars ρ ρ'
      → ρ' y ≡ ρ y
  unfolding contains
  Assigns-other [] ρ ρ' y h p = ap (λ (σ : Env M). σ y) p
  Assigns-other (x ∷ vars) ρ ρ' y h (v, s, a) =
      let w = or-false (x.name == y) (contains (map (λ (x : SortedVar). x.name) vars) y) h in
      Assigns-other vars _ ρ' y w.1 a ∙ (rw w.0)
