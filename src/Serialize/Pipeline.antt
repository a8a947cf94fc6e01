-- ===== src/Serialize/Pipeline.antt =====
-- `serializeSMT` and `simplifyVariableNames` of `reve/reve/lib/Serialize.cpp`: the order of the passes,
-- and the text that is written.
use Prim.Native.String.{◌++◌, len, slice}
use llreve.Prelude.{
  ◌-◌, String, Bool, true, false, List, [], ◌∷◌, ◌++◌ as append, map, ◌==◌, ◌&&◌, if◌then◌else◌,
  ltb, contains,
}
use llreve.Prelude.{Result, ok, ◌>>=◌}
use llreve.Sexpr.{print, serialize}
use llreve.Smt.Sort.{SortedVar}
use llreve.Smt.Expr.{Expr, constant_bool, constant_string, op, var_decl, nil, cons}
use llreve.Smt.Options.{Options, Numbers}
use llreve.Smt.ToSexpr.{to_sexpr}
use llreve.Smt.Split.{split_conjunctions}
use llreve.Smt.Merge.{merge_implications}
use llreve.Smt.Inline.{inline_lets}
use llreve.Serialize.Compress.{compress_lets}
use llreve.Serialize.Foralls.{remove_foralls}
use llreve.Serialize.Rename.{rename_assignments}
use llreve.Serialize.Arrays.{instantiate_arrays}

-- What is read of `SerializeOpts`
pub record SerializeOpts : Type 0 where
  pub dont_instantiate : Bool
  pub merge : Bool
  pub pretty : Bool
  pub inline : Bool

-- `variableNameMap` at the name of a variable: `names` are the keys of the map.
unfoldable pub simplify : Bool → List String → String → String
unfolding contains
simplify inline names x =
    let short_name = slice x 0 (len x - 4) in
    if inline && (ltb 4 (len x) && (slice x (len x - 4) (len x) == "_old"))
    then (if contains names short_name then x else short_name)
    else x

module _ {I F : Type 0} where
  -- The loop body for Horn clauses, for one piece of a clause.
  unfoldable pub prepare_piece :
      SerializeOpts → Expr I F → List SortedVar → Result (Expr I F × List SortedVar)
  unfolding compress_lets rename_assignments inline_lets remove_foralls merge_implications
  prepare_piece opts e introduced =
      let renamed = rename_assignments (compress_lets e) in
      let inlined = if opts.inline then inline_lets renamed [] else renamed in
      let (open_expr, introduced') = remove_foralls inlined introduced in
      (do merged ← merge_implications open_expr []; ok (merged, introduced'))

  unfoldable pub prepare_pieces :
      SerializeOpts → List (Expr I F) → List SortedVar → Result (List (Expr I F) × List SortedVar)
  unfolding prepare_piece
  prepare_pieces opts [] introduced = ok ([], introduced)
  prepare_pieces opts (e ∷ es) introduced = do
    (e', introduced₁) ← prepare_piece opts e introduced
    (es', introduced₂) ← prepare_pieces opts es introduced₁
    ok (e' ∷ es', introduced₂)

  unfoldable pub prepare_horn :
      SerializeOpts → List (Expr I F) → List SortedVar → Result (List (Expr I F) × List SortedVar)
  unfolding prepare_pieces split_conjunctions
  prepare_horn opts [] introduced = ok ([], introduced)
  prepare_horn opts (e ∷ es) introduced = do
    pieces ← split_conjunctions e
    (xs, introduced₁) ← prepare_pieces opts pieces introduced
    (ys, introduced₂) ← prepare_horn opts es introduced₁
    ok (append xs ys, introduced₂)

  -- The loop body for SMT-LIB.
  unfoldable pub prepare_smt : SerializeOpts → Expr I F → Result (Expr I F)
  unfolding compress_lets rename_assignments inline_lets merge_implications instantiate_arrays
  prepare_smt opts e =
      let compressed = if opts.pretty then compress_lets e else e in
      let inlined =
        if opts.inline then inline_lets (rename_assignments compressed) [] else compressed in
      (do
        merged ← (if opts.merge then merge_implications inlined [] else ok inlined)
        ok (if opts.dont_instantiate then merged else instantiate_arrays merged))

module _ {I F : Type 0} (N : Numbers I F) (o : Options) where
  -- `outFile << *expr->toSExpr() << "\n"`, for each
  unfoldable pub write_exprs : List (Expr I F) → Result String
  unfolding to_sexpr print
  write_exprs [] = ok ""
  write_exprs (e ∷ es) = do
    x ← to_sexpr N o e
    rest ← write_exprs es
    ok (print x ++ ("\n" ++ rest))

  -- the declarations, with simplified names
  unfoldable pub declarations : (String → String) → List SortedVar → List (Expr I F)
  declarations rename [] = []
  declarations rename (x ∷ vars) =
      var_decl (record { name = rename x.name; sort = x.sort }) ∷ declarations rename vars

  -- `makeOp("set-option", ":int-real-coercions", false)`
  abbrev pub no_coercions : Expr I F
  no_coercions =
      op "set-option"
        (cons (constant_string ":int-real-coercions") (cons (constant_bool false) nil)) true

  -- `renameVariables` returns nothing and changes a copy, so the clauses keep their names.
  unfoldable pub serialize_horn : SerializeOpts → List (Expr I F) → Result String
  unfolding prepare_horn write_exprs declarations simplify
  serialize_horn opts es = do
    (prepared, introduced) ← prepare_horn opts es []
    write_exprs (
        no_coercions
        ∷ append
            (declarations (simplify opts.inline (map (λ (x : SortedVar). x.name) introduced))
              introduced)
            prepared)

  unfoldable pub serialize_smt : SerializeOpts → List (Expr I F) → Result String
  unfolding prepare_smt to_sexpr serialize
  serialize_smt opts [] = ok ""
  serialize_smt opts (e ∷ es) = do
    e' ← prepare_smt opts e
    x ← to_sexpr N o e'
    rest ← serialize_smt opts es
    ok (serialize x 0 opts.pretty ++ ("\n" ++ rest))
