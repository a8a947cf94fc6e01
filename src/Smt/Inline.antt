-- ===== src/Smt/Inline.antt =====
-- The `inlineLets` methods of `reve/reve/lib/SMT.cpp`: the assignments of `let`s are substituted.
pub mod Safe
pub mod Sound
use llreve.Prelude.{String, Bool, true, List, [], ◌∷◌, Option, none, some, if◌then◌else◌, ◌==◌}
use llreve.Smt.Sort.{SortedVar}
use llreve.Smt.Expr.{
  Expr, assert, typed_variable, forall, let_in, constant_string, op, fp_cmp, binary_fp, type_cast,
  Args, nil, cons, Defs, done, bind,
}

-- `std::map<std::string, SharedSMTRef>`; the first entry of a name counts.
abbrev pub Substitution : Type 0 → Type 0 → Type 0
Substitution I F = List (String × Expr I F)

module _ {I F : Type 0} where
  unfoldable pub find : Substitution I F → String → Option (Expr I F)
  find [] x = none
  find ((y, e) ∷ σ) x = if y == x then some e else find σ x

  -- `assignments.erase(name)`
  unfoldable pub erase : String → Substitution I F → Substitution I F
  erase x [] = []
  erase x ((y, e) ∷ σ) = let rest = erase x σ in if y == x then rest else (y, e) ∷ rest

  unfoldable pub erase_vars : List SortedVar → Substitution I F → Substitution I F
  unfolding erase
  erase_vars [] σ = σ
  erase_vars (x ∷ vars) σ = erase_vars vars (erase x.name σ)

  unfoldable pub found_or : Option (Expr I F) → Expr I F → Expr I F
  found_or none e = e
  found_or (some e') e = e'

  unfoldable mutual
    pub inline_lets : Expr I F → Substitution I F → Expr I F
    inline_lets (assert e) σ = assert (inline_lets e σ)
    inline_lets (let_in ds e) σ = inline_lets e (inline_bindings ds σ)
    inline_lets (forall vars e) σ = forall vars (inline_lets e (erase_vars vars σ))
    inline_lets (op name args inst) σ = op name (inline_args args σ) true
    inline_lets (typed_variable x sort) σ = found_or (find σ x) (typed_variable x sort)
    inline_lets (constant_string x) σ = found_or (find σ x) (constant_string x)
    inline_lets (type_cast o from to e) σ = type_cast o from to (inline_lets e σ)
    inline_lets (binary_fp o sort a b) σ = binary_fp o sort (inline_lets a σ) (inline_lets b σ)
    inline_lets (fp_cmp p sort a b) σ = fp_cmp p sort (inline_lets a σ) (inline_lets b σ)
    inline_lets e σ = e

    -- the loop over the definitions of a `let`: each is added before the next is read
    pub inline_bindings : Defs I F → Substitution I F → Substitution I F
    inline_bindings done σ = σ
    inline_bindings (bind x e ds) σ = inline_bindings ds ((x, inline_lets e σ) ∷ σ)

    pub inline_args : Args I F → Substitution I F → Args I F
    inline_args nil σ = nil
    inline_args (cons e es) σ = cons (inline_lets e σ) (inline_args es σ)
