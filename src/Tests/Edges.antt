-- ===== src/Tests/Edges.antt =====
-- Conditions of edges, with truth values for the numbers of a switch.
use llreve.Prelude.{Bool, true, false, [], ◌∷◌, ◌≡◌, refl, ◌↔◌}
use llreve.Smt.Sort.{bool_type}
use llreve.Smt.Expr.{Expr, typed_variable}
use llreve.Smt.Meaning.{Env, eval}
use llreve.Paths.{Condition, switch_default}
use llreve.Paths.Feasible.{Execution, satisfied, distinct_values, any_same}
use llreve.Paths.Conditions.{to_smt, Reads, excludes_distinct, to_smt-satisfied}
use llreve.Tests.Model.{truths, truth_logic, condition_logic, same_truth, same_truth_iff}

-- The only condition is the variable `c`, whose value is false.
abbrev ran : Execution (Unit {0}) Bool
ran = record {
  truth = λ c. false;
  value = λ c. false;
  same = same_truth;
  same_iff = same_truth_iff;
}

abbrev named : Unit {0} → Expr Bool Bool
named c = typed_variable "c" bool_type

abbrev unset : Env truths
unset x = false

reads : Reads truth_logic ran named unset
unfolding eval
reads = record { truth_holds = λ c. ((λ h. h), (λ h. h)); value_is = λ c. refl }

abbrev other_than_true : Condition (Unit {0}) Bool
other_than_true = switch_default tt (true ∷ [])

to_smt-satisfied_example :
    (satisfied ran other_than_true ≡ true)
    ↔ truth_logic.Holds (eval truths (to_smt named other_than_true) unset)
unfolding excludes_distinct distinct_values any_same
to_smt-satisfied_example =
    to_smt-satisfied condition_logic ran named unset reads other_than_true refl
