-- ===== src/Tests/Clauses.antt =====
-- A clause as llreve generates them, through the passes of `Smt`.
use llreve.Prelude.{String, Bool, true, false, List, [], ◌∷◌, ◌≡◌, refl, ◌↔◌, ok, All, contains}
use llreve.Smt.Sort.{int_type, bool_type, SortedVar}
use llreve.Smt.Expr.{
  Expr, assert, typed_variable, forall, let_in, constant_string, constant_bool, op, fp_cmp, oeq,
  nil, cons, bind, done, of_assignments,
}
use llreve.Smt.Visitor.{accept}
use llreve.Smt.Uses.{collect_uses, mentions, collect_uses-mentions}
use llreve.Smt.Meaning.{Env, eval}
use llreve.Smt.Meaning.Occurs.{occurs, without_fp_cmp, avoids}
use llreve.Smt.Split.{split_conjunctions, implies}
use llreve.Smt.Split.Sound.{HoldAll}
use llreve.Smt.Split.Total.{implications_binary, split_conjunctions-total}
use llreve.Smt.Split.Pieces.{conjunction_free, split_conjunctions-conjunction_free}
use llreve.Smt.Merge.{merge_implications, under, unless_empty}
use llreve.Smt.Merge.Sound.{merge_safe, all_avoid, merge_implications-Holds}
use llreve.Smt.Inline.{inline_lets, find, erase, found_or}
use llreve.Smt.Inline.Safe.{inline_safe, independent, fresh_vars}
use llreve.Smt.Inline.Sound.{env_of, eval-inline_lets}
use llreve.Smt.Lets.{Assignment, nest_lets, fast_nest_lets}
use llreve.Smt.Lets.Chain.{nest_lets-fast_nest_lets, run_assignments}
use llreve.Smt.Lets.Compared.{nest_lets-fp_cmp}
use llreve.Smt.Lets.Groups.{lets_independent, lets_independent-nest_lets}
use llreve.Tests.Model.{truths, truth_logic}

abbrev Term : Type 0
Term = Expr Bool Bool

abbrev var : String → Term
var x = typed_variable x (int_type 32)

abbrev bound : SortedVar
bound = record { name = "x"; sort = int_type 32 }

-- assert (forall x. a => (x and (b => c)))
abbrev clause : Term
clause = assert (
    forall (bound ∷ [])
      (implies (var "a") (op "and" (cons (var "x") (cons (implies (var "b") (var "c")) nil)) true)))

abbrev quantified : Term → Term
quantified e = assert (forall (bound ∷ []) (implies (var "a") e))

abbrev pieces : List Term
pieces = quantified (var "x") ∷ quantified (implies (var "b") (var "c")) ∷ []

split_clause : split_conjunctions clause ≡ ok pieces
unfolding split_conjunctions
split_clause = refl

split_conjunctions-total_example :
    (es : List Term) × (split_conjunctions clause ≡ ok es)
    × ((ρ : Env truths) → HoldAll truth_logic es ρ ↔ truth_logic.Holds (eval truths clause ρ))
unfolding implications_binary
split_conjunctions-total_example = split_conjunctions-total truth_logic clause refl

split_conjunctions-conjunction_free_example : All (λ piece. conjunction_free piece ≡ true) pieces
split_conjunctions-conjunction_free_example =
    split_conjunctions-conjunction_free clause pieces split_clause

-- The clause itself has a conjunction in the conclusion.
clause_not_free : conjunction_free clause ≡ false
unfolding conjunction_free
clause_not_free = refl

-- forall x. a => (b => c)
abbrev nested : Term
nested = forall (bound ∷ []) (implies (var "a") (implies (var "b") (var "c")))

abbrev merged : Term
merged = forall (bound ∷ []) (under (var "d" ∷ var "a" ∷ var "b" ∷ []) (var "c"))

abbrev everywhere : Env truths
everywhere x = true

merge_implications-Holds_example : (eval truths merged everywhere ≡ true) ↔ (
    All (λ c. eval truths c everywhere ≡ true) (var "d" ∷ [])
    → eval truths nested everywhere ≡ true)
unfolding merge_implications merge_safe all_avoid occurs under unless_empty
merge_implications-Holds_example =
    merge_implications-Holds truth_logic nested (var "d" ∷ []) merged everywhere refl refl

-- y := x; x := true; z := x, around z
abbrev chain : List (Assignment Bool Bool)
chain = ("y", var "x") ∷ ("x", constant_bool true) ∷ ("z", var "x") ∷ []

nest_chain :
    nest_lets (var "z") chain
    ≡ let_in
        (bind "y" (var "x") (bind "x" (constant_bool true) done))
        (let_in (bind "z" (var "x") done) (var "z"))
unfolding nest_lets contains collect_uses accept of_assignments
nest_chain = refl

nest_lets-fast_nest_lets_example :
    eval truths (nest_lets (var "z") chain) everywhere
    ≡ eval truths (fast_nest_lets (var "z") chain) everywhere
unfolding without_fp_cmp
nest_lets-fast_nest_lets_example =
    nest_lets-fast_nest_lets truths (var "z") chain everywhere (refl, (refl, (refl, tt)))

lets_independent-nest_lets_example : lets_independent (nest_lets (var "z") chain) ≡ true
unfolding without_fp_cmp lets_independent
lets_independent-nest_lets_example =
    lets_independent-nest_lets (var "z") chain (refl, (refl, (refl, tt))) (refl, (refl, (refl, tt)))
      refl

-- x := false; c := (x == x); y := c, around y, where x is true outside
abbrev comparing : List (Assignment Bool Bool)
comparing =
    ("x", constant_bool false)
    ∷ ("c", fp_cmp oeq bool_type (var "x") (var "x"))
    ∷ ("y", var "c")
    ∷ []

nest_lets-fp_cmp_example :
    (eval truths (nest_lets (var "y") comparing) everywhere ≡ true)
    × (eval truths (fast_nest_lets (var "y") comparing) everywhere ≡ false)
unfolding eval without_fp_cmp run_assignments collect_uses accept contains
nest_lets-fp_cmp_example =
    nest_lets-fp_cmp truths oeq bool_type "x" "c" (constant_bool false) (var "x") (var "x")
      (var "y") (("y", var "c") ∷ []) everywhere (refl, tt) (refl, tt)

-- An assignment with a dependent `let` in it is none of those that the theorem is about.
dependent_let :
    lets_independent {I = Bool} {F = Bool}
      (let_in (bind "a" (constant_bool true) (bind "b" (var "a") done)) (var "b"))
    ≡ false
unfolding lets_independent independent avoids occurs
dependent_let = refl

collect_uses-mentions_example :
    contains (collect_uses (implies (var "a") (constant_string "b"))) "b"
    ≡ mentions {I = Bool} {F = Bool} (implies (var "a") (constant_string "b")) "b"
collect_uses-mentions_example = collect_uses-mentions (implies (var "a") (constant_string "b")) "b"

-- let y = x in forall x. y => z, where z stands for true
abbrev open_let : Term
open_let = let_in (bind "y" (var "z") done) (forall (bound ∷ []) (implies (var "y") (var "x")))

eval-inline_lets_example :
    eval truths (inline_lets open_let (("z", constant_bool true) ∷ [])) everywhere
    ≡ eval truths open_let (env_of truths (("z", constant_bool true) ∷ []) everywhere)
unfolding inline_safe inline_lets independent occurs find avoids fresh_vars erase found_or
eval-inline_lets_example =
    eval-inline_lets truths open_let (("z", constant_bool true) ∷ []) everywhere refl
