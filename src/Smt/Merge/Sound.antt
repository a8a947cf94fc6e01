-- ===== src/Smt/Merge/Sound.antt =====
-- `merge_implications` keeps the meaning of a clause, where no premise is moved under a binder of
-- one of its names.
use llreve.Prelude.{
  String, Bool, true, false, List, [], ◌∷◌, ◌++◌, map, ◌≡◌, ◌↔◌, refl, ◌==◌, ◌&&◌, or-false, ◌∙◌,
  eq_iff, Bool-cases, inl, inr, All, All-append_iff, iff_trans, if◌then◌else◌, ok, >>=-eq-ok,
  ok-injective, and-true, contains,
}
use llreve.Smt.Sort.{SortedVar}
use llreve.Smt.Expr.{Expr, assert, forall, let_in, op, Args, nil, cons, Defs, done, bind, of_list}
use llreve.Smt.Meaning.{Structure, Logic, Env, eval, eval_bindings, eval_args}
use llreve.Smt.Meaning.Occurs.{avoids, avoids-not-contains}
use llreve.Smt.Meaning.Agree.{eval-Agree}
use llreve.Smt.Meaning.ForAll.{Assigns, eval_forall-Holds, Assigns-other}
use llreve.Smt.Split.Sound.{holds_implies}
use llreve.Smt.Merge.{merge_implications, merge_implication, under, unless_empty}

-- The names that a binder declares.
abbrev pub var_names : List SortedVar → List String
var_names vars = map (λ (x : SortedVar). x.name) vars

abbrev pub def_names : {I F : Type 0} → Defs I F → List String
def_names done = []
def_names (bind x e ds) = x ∷ def_names ds

module _ {I F : Type 0} where
  unfoldable pub all_avoid : List String → List (Expr I F) → Bool
  unfolding avoids
  all_avoid xs [] = true
  all_avoid xs (c ∷ cs) = avoids xs c && all_avoid xs cs

  -- No premise that a merge collects is moved under a binder of a name that occurs in it.
  unfoldable mutual
    pub merge_safe : Expr I F → List (Expr I F) → Bool
    merge_safe (assert e) cs = merge_safe e cs
    merge_safe (let_in ds e) cs = all_avoid (def_names ds) cs && merge_safe e cs
    merge_safe (forall vars e) cs = all_avoid (var_names vars) cs && merge_safe e cs
    merge_safe (op name args inst) cs = if name == "=>" then merge_safe_args args cs else true
    merge_safe e cs = true

    merge_safe_args : Args I F → List (Expr I F) → Bool
    merge_safe_args (cons a (cons b nil)) cs = merge_safe b (cs ++ (a ∷ []))
    merge_safe_args _ cs = true

module _ {I F : Type 0} {M : Structure I F} (L : Logic M) where
  -- The conditions hold.
  abbrev Conditions : List (Expr I F) → Env M → Type 0
  Conditions cs ρ = All (λ c. L.Holds (eval M c ρ)) cs

  eval_args-of_list :
      (cs : List (Expr I F)) (ρ : Env M)
      → All L.Holds (eval_args M (of_list cs) ρ) ↔ Conditions cs ρ
  unfolding eval of_list
  eval_args-of_list [] ρ = ((λ _. tt), (λ _. tt))
  eval_args-of_list (c ∷ cs) ρ =
      let r = eval_args-of_list cs ρ in ((λ k. (k.0, r.0 k.1)), (λ k. (k.0, r.1 k.1)))

  under-Holds :
      (cs : List (Expr I F)) (e : Expr I F) (ρ : Env M)
      → L.Holds (eval M (under cs e) ρ) ↔ (Conditions cs ρ → L.Holds (eval M e ρ))
  unfolding under eval
  under-Holds cs e ρ =
      let both = iff_trans (L.holds_and (eval_args M (of_list cs) ρ)) (eval_args-of_list cs ρ) in
      iff_trans (holds_implies L (op "and" (of_list cs) true) e ρ)
        ((λ k c. k (both.1 c)), (λ k c. k (both.0 c)))

  unless_empty-Holds :
      (cs : List (Expr I F)) (e : Expr I F) (ρ : Env M)
      → L.Holds (eval M (unless_empty cs e) ρ) ↔ (Conditions cs ρ → L.Holds (eval M e ρ))
  unfolding unless_empty
  unless_empty-Holds [] e ρ = ((λ k _. k), (λ k. k tt))
  unless_empty-Holds (c ∷ cs) e ρ = under-Holds (c ∷ cs) e ρ

  -- Conditions that avoid the names keep their truth where only these names change.
  Conditions-change :
      (xs : List String) (cs : List (Expr I F)) (ρ ρ' : Env M)
      → all_avoid xs cs ≡ true
      → ((y : String) → contains xs y ≡ false → ρ' y ≡ ρ y)
      → Conditions cs ρ' ↔ Conditions cs ρ
  unfolding all_avoid
  Conditions-change xs [] ρ ρ' h k = ((λ _. tt), (λ _. tt))
  Conditions-change xs (c ∷ cs) ρ ρ' h k =
      let w = and-true (avoids xs c) (all_avoid xs cs) h in
      let same = eval-Agree M c ρ' ρ (λ y o. k y (avoids-not-contains xs c y w.0 o)) in
      let rest = Conditions-change xs cs ρ ρ' w.1 k in
      ((λ p. (rw same at (p.0), rest.0 p.1)), (λ p. ((rw same p.0), rest.1 p.1)))

  eval_bindings-other :
      (ds : Defs I F) (ρ acc : Env M) (y : String)
      → contains (def_names ds) y ≡ false
      → eval_bindings M ds ρ acc y ≡ acc y
  unfolding eval contains
  eval_bindings-other done ρ acc y h = refl
  eval_bindings-other (bind x e ds) ρ acc y h =
      let w = or-false (x == y) (contains (def_names ds) y) h in
      eval_bindings-other ds ρ _ y w.1 ∙ (rw w.0)

  mutual
    unfolding merge_implications merge_safe eval

    merge_sound :
        (e : Expr I F) (cs : List (Expr I F)) (e' : Expr I F) (ρ : Env M)
        → merge_implications e cs ≡ ok e'
        → merge_safe e cs ≡ true
        → L.Holds (eval M e' ρ) ↔ (Conditions cs ρ → L.Holds (eval M e ρ))
    merge_sound (assert e) [] e' ρ h s =
        let (x, p, q) = >>=-eq-ok (merge_implications e []) _ h in
        rw (← ok-injective q) (merge_sound e [] x ρ p s)
    merge_sound (assert e) (c ∷ cs) e' ρ h s = cc
    merge_sound (let_in ds e) cs e' ρ h s =
        let (x, p, q) = >>=-eq-ok (merge_implications e cs) _ h in
        let w = and-true (all_avoid (def_names ds) cs) (merge_safe e cs) s in
        let ρ' = eval_bindings M ds ρ ρ in
        let c = Conditions-change (def_names ds) cs ρ ρ' w.0 (eval_bindings-other ds ρ ρ) in
        rw (← ok-injective q)
          (iff_trans (merge_sound e cs x ρ' p w.1) ((λ k a. k (c.1 a)), (λ k a. k (c.0 a))))
    merge_sound (forall vars e) cs e' ρ h s =
        let (x, p, q) = >>=-eq-ok (merge_implications e cs) _ h in
        let w = and-true (all_avoid (var_names vars) cs) (merge_safe e cs) s in
        let f = eval_forall-Holds L vars ρ (λ ρ'. eval M x ρ') in
        let g = eval_forall-Holds L vars ρ (λ ρ'. eval M e ρ') in
        let c = λ (ρ' : Env M) (a : Assigns L vars ρ ρ').
          Conditions-change (var_names vars) cs ρ ρ' w.0 (λ y n. Assigns-other L vars ρ ρ' y n a) in
        rw (← ok-injective q) (
          (λ k d. g.1 (λ ρ' a. (merge_sound e cs x ρ' p w.1).0 (f.0 k ρ' a) ((c ρ' a).1 d))),
          (λ k. f.1 (λ ρ' a. (merge_sound e cs x ρ' p w.1).1 (λ d. g.0 (k ((c ρ' a).0 d)) ρ' a))),
        )
    merge_sound (op name args inst) cs e' ρ h s = elim (Bool-cases (name == "=>")) [
      | inl c ↦
          rw ((eq_iff name "=>").0 c) (merge_implication_sound args cs e' ρ (rw c at h) (rw c at s))
      | inr c ↦ rw (← ok-injective (rw c at h)) (under-Holds cs (op name args inst) ρ)
    ]
    merge_sound e cs e' ρ h s = rw (← ok-injective h) (unless_empty-Holds cs e ρ)

    merge_implication_sound :
        (args : Args I F) (cs : List (Expr I F)) (e' : Expr I F) (ρ : Env M)
        → merge_implication args cs ≡ ok e'
        → merge_safe_args args cs ≡ true
        → L.Holds (eval M e' ρ) ↔ (Conditions cs ρ → L.Holds (M.apply "=>" (eval_args M args ρ)))
    merge_implication_sound (cons a (cons b nil)) cs e' ρ h s =
        let both = All-append_iff (λ c. L.Holds (eval M c ρ)) cs (a ∷ []) in
        let imp = holds_implies L a b ρ in
        iff_trans (merge_sound b (cs ++ (a ∷ [])) e' ρ h s) (
          (λ k c. imp.1 (λ p. k (both.1 (c, (p, tt))))),
          (λ k c. imp.0 (k (both.0 c).0) (both.0 c).1.0),
        )
    merge_implication_sound _ cs e' ρ h s = cc

  -- If a merge returns, and moves no condition under a binder of a name that occurs in it, then in
  -- every environment the result holds exactly if the conditions, when they all hold, make the
  -- clause hold.
  pub merge_implications-Holds :
      (e : Expr I F) (cs : List (Expr I F)) (e' : Expr I F) (ρ : Env M)
      → merge_implications e cs ≡ ok e'
      → merge_safe e cs ≡ true
      → L.Holds (eval M e' ρ) ↔ (All (λ c. L.Holds (eval M c ρ)) cs → L.Holds (eval M e ρ))
  merge_implications-Holds e cs e' ρ h s = merge_sound e cs e' ρ h s
