-- ===== src/Tests/Model.antt =====
-- A theory of truth values, in which clauses can be evaluated.
use llreve.Prelude.{
  sym, ◌≢◌, Bool, true, false, not, List, [], ◌∷◌, ◌≡◌, refl, ◌↔◌, ◌&&◌, ◌||◌, ◌==◌, if◌then◌else◌,
  All, and-true,
}
use llreve.Smt.Meaning.{Structure, Logic}
use llreve.Paths.Conditions.{Different, ConditionLogic}

abbrev pub conjunction : List Bool → Bool
conjunction [] = true
conjunction (v ∷ vs) = v && conjunction vs

abbrev pub implication : List Bool → Bool
implication (a ∷ b ∷ []) = not a || b
implication vs = false

abbrev pub negation : List Bool → Bool
negation (a ∷ []) = not a
negation vs = false

abbrev pub same_truth : Bool → Bool → Bool
same_truth true b = b
same_truth false b = not b

abbrev pub equation : List Bool → Bool
equation (a ∷ b ∷ []) = same_truth a b
equation vs = false

abbrev pub no_other : Bool → List Bool → Bool
no_other a [] = true
no_other a (b ∷ vs) = not (same_truth a b) && no_other a vs

abbrev pub all_different : List Bool → Bool
all_different [] = true
all_different (a ∷ vs) = no_other a vs && all_different vs

abbrev pub truths : Structure Bool Bool
truths = record {
  Value = Bool;
  bool = λ b. b;
  int = λ b. b;
  fp = λ b. b;
  apply = λ name vs.
      if name == "and"
      then conjunction vs
      else if name == "=>"
      then implication vs
      else if name == "not"
      then negation vs
      else if name == "="
      then equation vs
      else if name == "distinct"
      then all_different vs
      else false;
  compare_fp = λ p sort a b. a && b;
  binary = λ o sort a b. a;
  cast = λ c from to a. a;
  for_all = λ sort f. f true && f false;
}

pub conjunction-All : (vs : List Bool) → (conjunction vs ≡ true) ↔ All (λ v. v ≡ true) vs
conjunction-All [] = ((λ _. tt), (λ _. refl))
conjunction-All (v ∷ vs) =
    let r = conjunction-All vs in
    ((λ h. let w = and-true v (conjunction vs) h in (w.0, r.0 w.1)), (λ h. rw (h.0, r.1 h.1)))

pub implication_iff : (a b : Bool) → (implication (a ∷ b ∷ []) ≡ true) ↔ (a ≡ true → b ≡ true)
implication_iff true b = ((λ h _. h), (λ h. h refl))
implication_iff false b = ((λ _ h. cc), (λ _. refl))

pub for_all_iff :
    (f : Bool → Bool) → ((f true && f false) ≡ true) ↔ ((v : Bool) → Unit {0} → f v ≡ true)
for_all_iff f = (
  (λ h. elim [
    | true ↦ λ _. (and-true (f true) (f false) h).0
    | false ↦ λ _. (and-true (f true) (f false) h).1
  ]),
  (λ h. rw (h true tt, h false tt)),
)

abbrev pub truth_logic : Logic truths
truth_logic = record {
  Holds = λ v. v ≡ true;
  InSort = λ sort v. Unit {0};
  holds_true = refl;
  holds_and = conjunction-All;
  holds_implies = implication_iff;
  holds_for_all = λ sort f. for_all_iff f;
}

pub same_truth_iff : (a b : Bool) → (same_truth a b ≡ true) ↔ (a ≡ b)
same_truth_iff true b = ((λ h. sym h), (λ h. sym h))
same_truth_iff false true = ((λ h. cc), (λ h. cc))
same_truth_iff false false = ((λ h. refl), (λ h. refl))

pub negation_iff : (a : Bool) → (not a ≡ true) ↔ (a ≡ true → ⊥)
negation_iff true = ((λ h k. cc), (λ h. absurd (h refl)))
negation_iff false = ((λ h k. cc), (λ h. refl))

no_other_iff : (a : Bool) (vs : List Bool) → (no_other a vs ≡ true) ↔ All (λ b. a ≢ b) vs
no_other_iff a [] = ((λ h. tt), (λ h. refl))
no_other_iff a (b ∷ vs) =
    let r = no_other_iff a vs in
    (
      (λ h.
          let w = and-true (not (same_truth a b)) (no_other a vs) h in
          ((λ e. (negation_iff (same_truth a b)).0 w.0 ((same_truth_iff a b).1 e)), r.0 w.1)),
      (λ h. rw ((negation_iff (same_truth a b)).1 (λ e. h.0 ((same_truth_iff a b).0 e)), r.1 h.1)),
    )

pub all_different_iff : (vs : List Bool) → (all_different vs ≡ true) ↔ Different vs
all_different_iff [] = ((λ h. tt), (λ h. refl))
all_different_iff (a ∷ vs) =
    let r = all_different_iff vs in
    let n = no_other_iff a vs in
    (
      (λ h. let w = and-true (no_other a vs) (all_different vs) h in (n.0 w.0, r.0 w.1)),
      (λ h. rw (n.1 h.0, r.1 h.1)),
    )

abbrev pub condition_logic : ConditionLogic truth_logic
condition_logic = record {
  holds_not = negation_iff;
  holds_equal = same_truth_iff;
  holds_distinct = all_different_iff;
  int_injective = λ a b e. e;
}
