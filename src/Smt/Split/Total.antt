-- ===== src/Smt/Split/Total.antt =====
-- When `split_conjunctions` of `reve/reve/lib/SMT.cpp` succeeds.
use llreve.Prelude.{
  Bool, true, false, List, [], ◌∷◌, ◌++◌, map, ◌≡◌, refl, ◌==◌, ◌&&◌, ◌↔◌, Bool-cases, inl, inr,
  and-true, if◌then◌else◌, Result, ok, ◌>>=◌,
}
use llreve.Smt.Expr.{Expr, assert, forall, let_in, op, Args, nil, cons}
use llreve.Smt.Meaning.{Structure, Logic, Env, eval}
use llreve.Smt.Split.{split_conjunctions, split_implication, split_args, implies}
use llreve.Smt.Split.Sound.{HoldAll, split_conjunctions-Holds}

module _ {I F : Type 0} where
  -- Every implication that the split meets has two operands.
  unfoldable mutual
    pub implications_binary : Expr I F → Bool
    implications_binary (assert e) = implications_binary e
    implications_binary (let_in ds e) = implications_binary e
    implications_binary (forall vars e) = implications_binary e
    implications_binary (op name args inst) =
        if name == "=>"
        then conclusion_binary args
        else if name == "and"
        then operands_binary args
        else true
    implications_binary e = true

    conclusion_binary : Args I F → Bool
    conclusion_binary (cons a (cons b nil)) = implications_binary b
    conclusion_binary _ = false

    operands_binary : Args I F → Bool
    operands_binary nil = true
    operands_binary (cons e es) = implications_binary e && operands_binary es

  -- `m` returns.
  abbrev Returns : Result (List (Expr I F)) → Type 0
  Returns m = (es : List (Expr I F)) × (m ≡ ok es)

  Returns-map :
      (f : Expr I F → Expr I F) (m : Result (List (Expr I F)))
      → Returns m
      → Returns (m >>= λ es. ok (map f es))
  Returns-map f m (es, p) = (map f es, rw p)

  mutual
    unfolding split_conjunctions implications_binary

    split-Returns : (e : Expr I F) → implications_binary e ≡ true → Returns (split_conjunctions e)
    split-Returns (assert e) h = Returns-map assert (split_conjunctions e) (split-Returns e h)
    split-Returns (let_in ds e) h =
        Returns-map (let_in ds) (split_conjunctions e) (split-Returns e h)
    split-Returns (forall vars e) h =
        Returns-map (forall vars) (split_conjunctions e) (split-Returns e h)
    split-Returns (op name args inst) h = elim (Bool-cases (name == "=>")) [
      | inl c ↦ rw c (split_implication-Returns args (rw c at h))
      | inr c ↦ elim (Bool-cases (name == "and")) [
        | inl d ↦ rw (c, d) (split_args-Returns args (rw (c, d) at h))
        | inr d ↦ rw (c, d) (op name args inst ∷ [], refl)
      ]
    ]
    split-Returns e h = (e ∷ [], refl)

    split_implication-Returns :
        (args : Args I F) → conclusion_binary args ≡ true → Returns (split_implication args)
    split_implication-Returns (cons a (cons b nil)) h =
        Returns-map (implies a) (split_conjunctions b) (split-Returns b h)
    split_implication-Returns _ h = cc

    split_args-Returns : (args : Args I F) → operands_binary args ≡ true → Returns (split_args args)
    split_args-Returns nil h = ([], refl)
    split_args-Returns (cons e es) h =
        let w = and-true (implications_binary e) (operands_binary es) h in
        let (xs, p) = split-Returns e w.0 in
        let (ys, q) = split_args-Returns es w.1 in (xs ++ ys, rw (p, q))

-- If every implication that the split of a clause meets has two operands, then the split returns
-- pieces, and in every environment the clause holds exactly when all of them do.
pub split_conjunctions-total :
    {I F : Type 0} {M : Structure I F} (L : Logic M) (e : Expr I F)
    → implications_binary e ≡ true
    → (es : List (Expr I F)) × (split_conjunctions e ≡ ok es)
      × ((ρ : Env M) → HoldAll L es ρ ↔ L.Holds (eval M e ρ))
split_conjunctions-total L e h =
    let (es, p) = split-Returns e h in (es, p, λ ρ. split_conjunctions-Holds L e es ρ p)
