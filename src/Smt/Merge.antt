-- ===== src/Smt/Merge.antt =====
-- The `mergeImplications` methods of `reve/reve/lib/SMT.cpp`: nested implications become one, with
-- the premises gathered in a conjunction.
pub mod Sound
use llreve.Prelude.{String, Bool, true, List, [], ◌∷◌, ◌++◌, if◌then◌else◌, ◌==◌}
use llreve.Prelude.{Result, ok, err, assertion, ◌>>=◌}
use llreve.Smt.Expr.{Expr, assert, forall, let_in, op, Args, nil, cons, of_list}
use llreve.Smt.Split.{implies}

module _ {I F : Type 0} where
  -- `makeOp("=>", make_shared<Op>("and", conditions), shared_from_this())`
  unfoldable pub under : List (Expr I F) → Expr I F → Expr I F
  unfolding of_list
  under conditions e = implies (op "and" (of_list conditions) true) e

  unfoldable pub unless_empty : List (Expr I F) → Expr I F → Expr I F
  unfolding under
  unless_empty [] e = e
  unless_empty (c ∷ cs) e = under (c ∷ cs) e

  unfoldable mutual
    pub merge_implications : Expr I F → List (Expr I F) → Result (Expr I F)
    merge_implications (assert e) [] = do e' ← merge_implications e []; ok (assert e')
    merge_implications (assert e) (c ∷ cs) = err assertion
    merge_implications (let_in ds e) cs = do e' ← merge_implications e cs; ok (let_in ds e')
    merge_implications (op name args inst) cs =
        if name == "=>" then merge_implication args cs else ok (under cs (op name args inst))
    merge_implications (forall vars e) cs = do e' ← merge_implications e cs; ok (forall vars e')
    merge_implications e cs = ok (unless_empty cs e)

    -- `assert(args.size() == 2)`; the premise is pushed to the back of the conditions
    pub merge_implication : Args I F → List (Expr I F) → Result (Expr I F)
    merge_implication (cons a (cons b nil)) cs = merge_implications b (cs ++ (a ∷ []))
    merge_implication _ cs = err assertion
