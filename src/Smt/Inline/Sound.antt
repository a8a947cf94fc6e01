-- ===== src/Smt/Inline/Sound.antt =====
-- `inline_lets` keeps the meaning of an expression.
use llreve.Prelude.{
  String, true, false, List, [], ◌∷◌, Option, none, some, ◌≡◌, refl, ap, ap₂, ◌∙◌, fun_ext, ◌==◌,
  ◌&&◌, and-true, if◌then◌else◌, Bool-cases, inl, inr, arith, eq_iff, contains, or-false,
}
use llreve.Smt.Sort.{SortedVar}
use llreve.Smt.Expr.{
  Expr, assert, typed_variable, forall, let_in, constant_string, op, fp_cmp, binary_fp, type_cast,
  Args, nil, cons, Defs, done, bind,
}
use llreve.Smt.Meaning.{Structure, Env, update, eval_forall, eval, eval_bindings, eval_args}
use llreve.Smt.Meaning.Occurs.{occurs, avoids, avoids-not-contains}
use llreve.Smt.Meaning.Agree.{Agree-unseen, eval-Agree}
use llreve.Smt.Inline.{
  Substitution, find, erase, erase_vars, found_or, inline_lets, inline_bindings, inline_args,
}
use llreve.Smt.Inline.Safe.{fresh, fresh_vars, independent, inline_safe, bindings_safe, args_safe}

module _ {I F : Type 0} where
  find-erase :
      (x y : String) (σ : Substitution I F)
      → find (erase x σ) y ≡ (if x == y then none else find σ y)
  unfolding find erase
  find-erase x y [] = ground arith
  find-erase x y ((z, e) ∷ σ) = ground (arith, find-erase x y σ, eq_iff z x, eq_iff z y, eq_iff x y)

  fresh-find :
      (x y : String) (σ : Substitution I F) (e : Expr I F)
      → fresh x σ ≡ true
      → find σ y ≡ some e
      → occurs e x ≡ false
  unfolding find fresh
  fresh-find x y [] e h p = cc
  fresh-find x y ((z, e') ∷ σ) e h p = ground (arith, fresh-find x y σ e)

module _ {I F : Type 0} (M : Structure I F) where
  -- The environment that a substitution stands for: a name has the value of what is put in for it.
  abbrev pub value_of : Option (Expr I F) → M.Value → Env M → M.Value
  value_of none v ρ = v
  value_of (some e) v ρ = eval M e ρ

  abbrev pub env_of : Substitution I F → Env M → Env M
  env_of σ ρ y = value_of (find σ y) (ρ y) ρ

  env_of-cons :
      (x : String) (e : Expr I F) (σ : Substitution I F) (ρ : Env M)
      → env_of ((x, e) ∷ σ) ρ ≡ update M (env_of σ ρ) x (eval M e ρ)
  unfolding find
  env_of-cons x e σ ρ = fun_ext λ y. elim (Bool-cases (x == y)) [ inl c ↦ rw c | inr c ↦ rw c ]

  found_or-eval :
      (o : Option (Expr I F)) (e : Expr I F) (v : M.Value) (ρ : Env M)
      → eval M e ρ ≡ v
      → eval M (found_or o e) ρ ≡ value_of o v ρ
  unfolding found_or
  found_or-eval none e v ρ h = h
  found_or-eval (some e') e v ρ h = refl

  value_of-update :
      (x y : String) (v : M.Value) (o : Option (Expr I F)) (ρ : Env M)
      → ((e : Expr I F) → o ≡ some e → occurs e x ≡ false)
      → (x == y) ≡ false
      → value_of o (update M ρ x v y) (update M ρ x v) ≡ value_of o (ρ y) ρ
  value_of-update x y v none ρ h n = rw n
  value_of-update x y v (some e) ρ h n =
      eval-Agree M e (update M ρ x v) ρ (Agree-unseen M (occurs e) ρ x v (h e refl))

  -- A variable of a quantifier is erased from the substitution, and bound.
  env_of-erase :
      (x : String) (v : M.Value) (σ : Substitution I F) (ρ : Env M)
      → fresh x (erase x σ) ≡ true
      → env_of (erase x σ) (update M ρ x v) ≡ update M (env_of σ ρ) x v
  env_of-erase x v σ ρ h = fun_ext λ y. elim (Bool-cases (x == y)) [
    | inl c ↦ rw (find-erase x y σ) (rw c)
    | inr c ↦
        value_of-update x y v (find (erase x σ) y) ρ (λ e p. fresh-find x y (erase x σ) e h p) c
        ∙ (rw (find-erase x y σ) (rw c))
  ]

  eval_forall-erase :
      (vars : List SortedVar) (σ : Substitution I F) (ρ : Env M) (k : Env M → M.Value)
      → fresh_vars vars σ ≡ true
      → eval_forall M vars ρ (λ ρ'. k (env_of (erase_vars vars σ) ρ'))
        ≡ eval_forall M vars (env_of σ ρ) k
  unfolding eval_forall erase_vars fresh_vars
  eval_forall-erase [] σ ρ k h = refl
  eval_forall-erase (x ∷ vars) σ ρ k h =
      let w = and-true (fresh x.name (erase x.name σ)) (fresh_vars vars (erase x.name σ)) h in
      ap (M.for_all x.sort) (
        fun_ext λ v.
          eval_forall-erase vars (erase x.name σ) (update M ρ x.name v) k w.1
          ∙ ap (λ ρ'. eval_forall M vars ρ' k) (env_of-erase x.name v σ ρ w.0))

  -- The names of `xs` are the only ones at which the environments may differ.
  abbrev pub SameBut : List String → Env M → Env M → Type 0
  SameBut xs ρ ρ' = (y : String) → contains xs y ≡ false → ρ y ≡ ρ' y

  pub SameBut-update :
      (xs : List String) (x : String) (v : M.Value) (ρ ρ' : Env M)
      → SameBut xs ρ ρ'
      → SameBut (x ∷ xs) (update M ρ x v) ρ'
  unfolding contains
  SameBut-update xs x v ρ ρ' h y n = let w = or-false (x == y) (contains xs y) n in rw w.0 (h y w.1)

  mutual
    unfolding inline_lets inline_safe independent eval

    inline_sound :
        (e : Expr I F) (σ : Substitution I F) (ρ : Env M)
        → inline_safe e σ ≡ true
        → eval M (inline_lets e σ) ρ ≡ eval M e (env_of σ ρ)
    inline_sound (assert e) σ ρ h = inline_sound e σ ρ h
    inline_sound (let_in ds e) σ ρ h =
        let w =
          and-true (independent [] ds) (bindings_safe ds σ && inline_safe e (inline_bindings ds σ))
            h in
        let u = and-true (bindings_safe ds σ) (inline_safe e (inline_bindings ds σ)) w.1 in
        inline_sound e (inline_bindings ds σ) ρ u.1
        ∙ ap (eval M e) (inline_bindings_sound ds [] σ (env_of σ ρ) ρ w.0 u.0 (λ y n. refl))
    inline_sound (forall vars e) σ ρ h =
        let w = and-true (fresh_vars vars σ) (inline_safe e (erase_vars vars σ)) h in
        ap (eval_forall M vars ρ) (fun_ext λ ρ'. inline_sound e (erase_vars vars σ) ρ' w.1)
        ∙ eval_forall-erase vars σ ρ (λ ρ'. eval M e ρ') w.0
    inline_sound (op name args inst) σ ρ h = ap (M.apply name) (inline_args_sound args σ ρ h)
    inline_sound (typed_variable x sort) σ ρ h =
        found_or-eval (find σ x) (typed_variable x sort) (ρ x) ρ refl
    inline_sound (constant_string x) σ ρ h =
        found_or-eval (find σ x) (constant_string x) (ρ x) ρ refl
    inline_sound (type_cast o from to e) σ ρ h = ap (M.cast o from to) (inline_sound e σ ρ h)
    inline_sound (binary_fp o sort a b) σ ρ h =
        let w = and-true (inline_safe a σ) (inline_safe b σ) h in
        ap₂ (M.binary o sort) (inline_sound a σ ρ w.0) (inline_sound b σ ρ w.1)
    inline_sound (fp_cmp p sort a b) σ ρ h =
        let w = and-true (inline_safe a σ) (inline_safe b σ) h in
        ap₂ (M.compare_fp p sort) (inline_sound a σ ρ w.0) (inline_sound b σ ρ w.1)
    inline_sound _ σ ρ h = refl

    inline_bindings_sound :
        (ds : Defs I F) (xs : List String) (σ : Substitution I F) (θ ρ : Env M)
        → independent xs ds ≡ true
        → bindings_safe ds σ ≡ true
        → SameBut xs (env_of σ ρ) θ
        → env_of (inline_bindings ds σ) ρ ≡ eval_bindings M ds θ (env_of σ ρ)
    inline_bindings_sound done xs σ θ ρ i h s = refl
    inline_bindings_sound (bind x e ds) xs σ θ ρ i h s =
        let w = and-true (avoids xs e) (independent (x ∷ xs) ds) i in
        let u = and-true (inline_safe e σ) (bindings_safe ds ((x, inline_lets e σ) ∷ σ)) h in
        let value =
          inline_sound e σ ρ u.0
          ∙ eval-Agree M e (env_of σ ρ) θ (λ y o. s y (avoids-not-contains xs e y w.0 o)) in
        let here = env_of-cons x (inline_lets e σ) σ ρ ∙ ap (update M (env_of σ ρ) x) value in
        inline_bindings_sound ds (x ∷ xs) ((x, inline_lets e σ) ∷ σ) θ ρ w.1 u.1 (λ y n.
          ap (λ (τ : Env M). τ y) here ∙ SameBut-update xs x (eval M e θ) (env_of σ ρ) θ s y n)
        ∙ ap (eval_bindings M ds θ) here

    inline_args_sound :
        (es : Args I F) (σ : Substitution I F) (ρ : Env M)
        → args_safe es σ ≡ true
        → eval_args M (inline_args es σ) ρ ≡ eval_args M es (env_of σ ρ)
    inline_args_sound nil σ ρ h = refl
    inline_args_sound (cons e es) σ ρ h =
        let w = and-true (inline_safe e σ) (args_safe es σ) h in
        ap₂ ◌∷◌ (inline_sound e σ ρ w.0) (inline_args_sound es σ ρ w.1)

  -- Where no quantifier captures a name that is put in, and no binding of a `let` names another of
  -- the same `let` before it, the expression with its `let`s inlined under a substitution means in
  -- every environment what the expression means where each name has the value put in for it.
  pub eval-inline_lets :
      (e : Expr I F) (σ : Substitution I F) (ρ : Env M)
      → inline_safe e σ ≡ true
      → eval M (inline_lets e σ) ρ ≡ eval M e (env_of σ ρ)
  eval-inline_lets e σ ρ h = inline_sound e σ ρ h
