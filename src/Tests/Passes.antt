-- ===== src/Tests/Passes.antt =====
-- The passes of `Serialize` on concrete clauses.
use llreve.Prelude.{
  String, Bool, true, false, List, [], ◌∷◌, ◌≡◌, refl, ◌↔◌, ◌||◌, contains, length,
}
use llreve.Smt.Sort.{Sort, int_type, bool_type, SortedVar, is_array, memory_type, int64_type}
use llreve.Smt.Expr.{
  Expr, assert, typed_variable, forall, let_in, constant_bool, op, Args, nil, cons, bind, done,
}
use llreve.Smt.Visitor.{accept}
use llreve.Smt.Meaning.{Env, eval}
use llreve.Smt.Meaning.Occurs.{occurs, without_fp_cmp, avoids}
use llreve.Smt.Meaning.ForAll.{Assigns}
use llreve.Smt.Inline.Safe.{independent}
use llreve.Smt.Merge.Sound.{var_names}
use llreve.Smt.Options.{to_string}
use llreve.Smt.Split.{implies}
use llreve.Serialize.Compress.{compress_lets}
use llreve.Serialize.Compress.Sound.{
  compressible, no_comparison, closed, eval-compress_lets, compress_lets-variable,
}
use llreve.Serialize.Foralls.{remove_foralls, insert, insert_all}
use llreve.Serialize.Foralls.Valid.{plain, quantified, removable, remove_foralls-Holds}
use llreve.Serialize.Foralls.Declared.{remove_foralls-quantified}
use llreve.Serialize.Rename.{
  rename_assignments, rename_vars, rename_bindings, rename_use, declare, find_index, next_index,
  increment, int_text,
}
use llreve.Serialize.Arrays.{
  instantiate_arrays, instantiate_op, instantiate_sorts, heap_info, heap_name, index_vars,
  index_args,
}
use llreve.Serialize.Arrays.Arity.{count_args, count_args-index_args}
use llreve.Tests.Model.{truths, truth_logic}

abbrev Term : Type 0
Term = Expr Bool Bool

abbrev var : String → Term
var x = typed_variable x (int_type 32)

abbrev bound : String → SortedVar
bound x = record { name = x; sort = int_type 32 }

abbrev everywhere : Env truths
everywhere x = true

-- let y = z in let x = y in (x and let y = true in (y and y))
abbrev nested : Term
nested = let_in (bind "y" (var "z") done) (
    let_in (bind "x" (var "y") done) (
      op "and"
        (cons (var "x") (
          cons
            (let_in (bind "y" (constant_bool true) done)
              (op "and" (cons (var "y") (cons (var "y") nil)) true))
            nil))
        true))

eval-compress_lets_example :
    eval truths (compress_lets nested) everywhere ≡ eval truths nested everywhere
unfolding compressible no_comparison closed without_fp_cmp independent avoids
eval-compress_lets_example = eval-compress_lets truths nested everywhere refl

compress_lets-variable_example :
    (eval truths
        (compress_lets
          (let_in (bind "x" (constant_bool false) done) (typed_variable "x" bool_type)))
        everywhere
      ≡ true)
    × (eval truths
          (let_in (bind "x" (constant_bool false) done) (typed_variable "x" bool_type))
          everywhere
        ≡ false)
unfolding eval
compress_lets-variable_example =
    compress_lets-variable truths "x" bool_type (constant_bool false) everywhere

-- assert (forall y x. a => forall z. (b => z))
abbrev clause : Term
clause = assert (
    forall (bound "y" ∷ bound "x" ∷ [])
      (implies (var "a") (forall (bound "z" ∷ []) (implies (var "b") (var "z")))))

remove_clause : remove_foralls clause [] ≡ (
  assert (implies (var "a") (implies (var "b") (var "z"))),
  bound "x" ∷ bound "y" ∷ bound "z" ∷ [],
)
unfolding remove_foralls accept insert_all insert
remove_clause = refl

remove_foralls-Holds_example : truth_logic.Holds (eval truths clause everywhere) ↔ (
    (ρ' : Env truths)
    → Assigns truth_logic (quantified clause) everywhere ρ'
    → truth_logic.Holds (eval truths (remove_foralls clause []).0 ρ'))
unfolding removable quantified plain avoids occurs
remove_foralls-Holds_example = remove_foralls-Holds truth_logic clause [] everywhere refl

remove_foralls-quantified_example :
    contains (var_names (remove_foralls clause (bound "w" ∷ [])).1) "z"
    ≡ (contains (var_names (quantified clause)) "z" || contains (var_names (bound "w" ∷ [])) "z")
unfolding removable quantified plain avoids occurs
remove_foralls-quantified_example = remove_foralls-quantified clause (bound "w" ∷ []) "z" refl

-- A second declaration of a name gets the next number.
rename_clause :
    rename_assignments (forall (bound "x" ∷ []) (let_in (bind "x" (var "x") done) (var "x")))
    ≡ forall (bound "x_1" ∷ []) (let_in (bind "x_2" (var "x_1") done) (var "x_2"))
unfolding rename_assignments accept rename_vars rename_bindings rename_use declare find_index
    next_index increment int_text to_string
rename_clause = refl

abbrev heap_args : Args Bool Bool
heap_args = cons (var "x$1_0") (cons (typed_variable "HEAP$1_old" memory_type) nil)

abbrev heap_sorts : List Sort
heap_sorts = int_type 32 ∷ memory_type ∷ []

instantiate_invariant :
    instantiate_arrays (op "INV_MAIN" heap_args true)
    ≡ forall (record { name = "i1_old"; sort = int64_type } ∷ []) (
        op "INV_MAIN"
          (cons (var "x$1_0") (
            cons (Expr.constant_string "i1_old") (
              cons
                (op "select"
                  (cons
                    (typed_variable "HEAP$1_old" memory_type)
                    (cons (Expr.constant_string "i1_old") nil))
                  true)
                nil)))
          true)
unfolding instantiate_arrays accept instantiate_op index_vars index_args heap_info heap_name
instantiate_invariant = refl

count_args-index_args_example :
    count_args (index_args true heap_args) ≡ length (instantiate_sorts heap_sorts)
unfolding heap_info heap_name is_array
count_args-index_args_example = count_args-index_args heap_sorts heap_args (refl, (refl, tt))
