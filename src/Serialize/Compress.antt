-- ===== src/Serialize/Compress.antt =====
-- `CompressLetVisitor` and `compressLets` of `reve/reve/lib/Serialize.cpp`: `let`s are gathered, and
-- nested again around the next operator, quantifier, literal text or truth value below them.
pub mod Sound
use llreve.Prelude.{String, Bool, true, List, [], ◌∷◌, ◌++◌}
use llreve.Smt.Expr.{Expr, forall, let_in, constant_bool, constant_string, op, Defs, done, bind}
use llreve.Smt.Visitor.{Visitor, default_visitor, accept}
use llreve.Smt.Lets.{Assignment, nest_lets}

-- `defs` and `storedDefs`. The map from a node to what was gathered above it is a stack: a node is
-- entered in it when it is dispatched, and looked up when it is put together again, after all nodes
-- below it.
pub record CompressState (I F : Type 0) : Type 0 where
  pub defs : List (Assignment I F)
  pub stored : List (List (Assignment I F))

module _ {I F : Type 0} where
  unfoldable pub assignments_of : Defs I F → List (Assignment I F)
  assignments_of done = []
  assignments_of (bind x e ds) = (x, e) ∷ assignments_of ds

  -- `dispatch` of a quantifier and of an operator
  abbrev pub store : CompressState I F → CompressState I F
  store s = record { defs = []; stored = s.defs ∷ s.stored }

  -- `reassemble` of a quantifier and of an operator; the node's own entry is the last one.
  abbrev pub restore : Expr I F → List (List (Assignment I F)) → Expr I F × CompressState I F
  restore e [] = (e, record { defs = []; stored = [] })
  restore e (defs ∷ stored) = (nest_lets e defs, record { defs = []; stored = stored })

  abbrev pub compress_reassemble : Expr I F → CompressState I F → Expr I F × CompressState I F
  compress_reassemble (forall vars e) s = restore (forall vars e) s.stored
  compress_reassemble (op name args inst) s = restore (op name args inst) s.stored
  compress_reassemble (let_in ds e) s = (e, s)
  compress_reassemble (constant_string x) s =
      (nest_lets (constant_string x) s.defs, record { defs = []; stored = s.stored })
  compress_reassemble (constant_bool b) s =
      (nest_lets (constant_bool b) s.defs, record { defs = []; stored = s.stored })
  compress_reassemble e s = (e, s)

abbrev pub compress_visitor : {I F : Type 0} → Visitor I F (CompressState I F)
compress_visitor = record default_visitor {
  ignore_let_bindings = true;
  dispatch_let = λ ds s. (ds, record { defs = s.defs ++ assignments_of ds; stored = s.stored });
  dispatch_forall = λ vars s. (vars, store s);
  dispatch_op = λ name args s. store s;
  reassemble = compress_reassemble;
}

module _ {I F : Type 0} where
  unfoldable pub compress_lets : Expr I F → Expr I F
  unfolding assignments_of
  compress_lets e = (accept compress_visitor e (record { defs = []; stored = [] })).0
