-- ===== src/Smt/Lets.antt =====
-- `fastNestLets` and `nestLets` of `reve/reve/lib/SMT.cpp`: a chain of assignments around a clause,
-- as one `let` for each or as few parallel `let`s.
pub mod Chain
pub mod Compared
pub mod Groups
use llreve.Prelude.{
  String, Bool, true, false, List, [], ◌∷◌, ◌++◌, reverse, if◌then◌else◌, contains,
}
use llreve.Smt.Expr.{Expr, let_in, done, bind, of_assignments}
use llreve.Smt.Uses.{collect_uses}

-- `Assignment`
abbrev pub Assignment : Type 0 → Type 0 → Type 0
Assignment I F = String × Expr I F

module _ {I F : Type 0} where
  -- the loop over `defs.rbegin()` .. `defs.rend()`
  unfoldable pub fast_nest_loop : Expr I F → List (Assignment I F) → Expr I F
  fast_nest_loop clause [] = clause
  fast_nest_loop clause ((x, e) ∷ rest) = fast_nest_loop (let_in (bind x e done) clause) rest

  unfoldable pub fast_nest_lets : Expr I F → List (Assignment I F) → Expr I F
  unfolding fast_nest_loop
  fast_nest_lets clause defs = fast_nest_loop clause (reverse defs)

-- The variables of the loop of `nestLets`. The assignment pushed last to `defsAccum` is the head of
-- `accum`, so `accum` is what `std::reverse` makes of the vector.
pub record NestState (I F : Type 0) : Type 0 where
  pub lets : Expr I F
  pub uses : List String
  pub accum : List (Assignment I F)

module _ {I F : Type 0} where
  unfoldable pub flush : Expr I F → List (Assignment I F) → Expr I F
  flush lets accum = let_in (of_assignments accum) lets

  -- one round of the loop over `defs.rbegin()` .. `defs.rend()`
  unfoldable pub nest_step : Assignment I F → NestState I F → NestState I F
  nest_step (x, e) s =
      if contains s.uses x
      then record { lets = flush s.lets s.accum; uses = collect_uses e; accum = (x, e) ∷ [] }
      else record s { uses = collect_uses e ++ s.uses; accum = (x, e) ∷ s.accum }

  unfoldable pub nest_loop : NestState I F → List (Assignment I F) → NestState I F
  unfolding nest_step
  nest_loop s [] = s
  nest_loop s (d ∷ rest) = nest_loop (nest_step d s) rest

  unfoldable pub nest_finish : Expr I F → List (Assignment I F) → Expr I F
  unfolding flush
  nest_finish lets [] = lets
  nest_finish lets (d ∷ accum) = flush lets (d ∷ accum)

  unfoldable pub nest_lets : Expr I F → List (Assignment I F) → Expr I F
  unfolding nest_loop nest_finish
  nest_lets clause defs =
      let s = nest_loop (record { lets = clause; uses = []; accum = [] }) (reverse defs) in
      nest_finish s.lets s.accum
