-- ===== src/Smt/Inline/Safe.antt =====
-- Where `inline_lets` is a substitution that captures nothing.
use llreve.Prelude.{String, Bool, true, List, [], ◌∷◌, not, ◌&&◌}
use llreve.Smt.Sort.{SortedVar}
use llreve.Smt.Expr.{
  Expr, assert, forall, let_in, op, fp_cmp, binary_fp, type_cast, Args, nil, cons, Defs, done, bind,
}
use llreve.Smt.Meaning.Occurs.{occurs, avoids}
use llreve.Smt.Inline.{Substitution, erase, erase_vars, inline_lets, inline_bindings}

module _ {I F : Type 0} where
  -- The name occurs in no expression that is put in.
  unfoldable pub fresh : String → Substitution I F → Bool
  fresh x [] = true
  fresh x ((y, e) ∷ σ) = not (occurs e x) && fresh x σ

  -- No variable of the quantifier occurs in an expression that is put in below it.
  unfoldable pub fresh_vars : List SortedVar → Substitution I F → Bool
  unfolding fresh
  fresh_vars [] σ = true
  fresh_vars (x ∷ vars) σ = fresh x.name (erase x.name σ) && fresh_vars vars (erase x.name σ)

  -- No binding of a `let` names what an earlier binding of the same `let` declares.
  unfoldable pub independent : List String → Defs I F → Bool
  independent xs done = true
  independent xs (bind x e ds) = avoids xs e && independent (x ∷ xs) ds

  unfoldable mutual
    pub inline_safe : Expr I F → Substitution I F → Bool
    inline_safe (assert e) σ = inline_safe e σ
    inline_safe (let_in ds e) σ =
        independent [] ds && (bindings_safe ds σ && inline_safe e (inline_bindings ds σ))
    inline_safe (forall vars e) σ = fresh_vars vars σ && inline_safe e (erase_vars vars σ)
    inline_safe (op name args inst) σ = args_safe args σ
    inline_safe (type_cast o from to e) σ = inline_safe e σ
    inline_safe (binary_fp o sort a b) σ = inline_safe a σ && inline_safe b σ
    inline_safe (fp_cmp p sort a b) σ = inline_safe a σ && inline_safe b σ
    inline_safe e σ = true

    pub bindings_safe : Defs I F → Substitution I F → Bool
    bindings_safe done σ = true
    bindings_safe (bind x e ds) σ = inline_safe e σ && bindings_safe ds ((x, inline_lets e σ) ∷ σ)

    pub args_safe : Args I F → Substitution I F → Bool
    args_safe nil σ = true
    args_safe (cons e es) σ = inline_safe e σ && args_safe es σ
