-- ===== src/Smt/Split.antt =====
-- The `splitConjunctions` methods of `reve/reve/lib/SMT.cpp`: a clause with a conjunction on the
-- right becomes one clause for each conjunct.
pub mod Pieces
pub mod Sound
pub mod Total
use llreve.Prelude.{String, Bool, true, List, [], ◌∷◌, ◌++◌, map, if◌then◌else◌, ◌==◌}
use llreve.Prelude.{Result, ok, err, assertion, ◌>>=◌}
use llreve.Smt.Expr.{Expr, assert, forall, let_in, op, Args, nil, cons}

module _ {I F : Type 0} where
  -- `makeOp("=>", a, b)`
  abbrev pub implies : Expr I F → Expr I F → Expr I F
  implies a b = op "=>" (cons a (cons b nil)) true

  unfoldable mutual
    pub split_conjunctions : Expr I F → Result (List (Expr I F))
    split_conjunctions (assert e) = do es ← split_conjunctions e; ok (map assert es)
    split_conjunctions (let_in ds e) = do es ← split_conjunctions e; ok (map (let_in ds) es)
    split_conjunctions (op name args inst) =
        if name == "=>"
        then split_implication args
        else if name == "and"
        then split_args args
        else ok (op name args inst ∷ [])
    split_conjunctions (forall vars e) = do es ← split_conjunctions e; ok (map (forall vars) es)
    split_conjunctions e = ok (e ∷ [])

    -- `assert(args.size() == 2)`, and the pieces of the second operand behind the first
    pub split_implication : Args I F → Result (List (Expr I F))
    split_implication (cons a (cons b nil)) = do es ← split_conjunctions b; ok (map (implies a) es)
    split_implication _ = err assertion

    -- the loop over the conjuncts
    pub split_args : Args I F → Result (List (Expr I F))
    split_args nil = ok []
    split_args (cons e es) = do xs ← split_conjunctions e; ys ← split_args es; ok (xs ++ ys)
