-- ===== src/Serialize/Foralls/Declared.antt =====
-- The variables that `remove_foralls` gathers.
use llreve.Prelude.{
  String, Bool, true, List, [], ◌∷◌, ◌++◌, ◌≡◌, refl, ◌||◌, ◌==◌, arith, contains, eq_iff, ap, ◌∙◌,
  Bool-cases, inl, inr, ◌&&◌, and-true,
}
use llreve.Smt.Sort.{SortedVar}
use llreve.Smt.Merge.Sound.{var_names}
use llreve.Smt.Expr.{Expr, assert, forall, op, Args, nil, cons}
use llreve.Smt.Visitor.{accept, accept_args}
use llreve.Smt.Meaning.Occurs.{avoids}
use llreve.Serialize.Foralls.{before, insert, insert_all, forall_visitor, remove_foralls}
use llreve.Serialize.Foralls.Valid.{
  plain, quantified, quantified_conclusion, removable, removable_implication, accept-plain,
}

or_swap : (a b c d : Bool) → d ≡ (a || c) → (b || d) ≡ (a || (b || c))
or_swap a b c d h = ground arith

or_again : (a b c : Bool) → a ≡ b → (b || c) ≡ (a || (b || c))
or_again a b c h = ground arith

or_front : (a b c : Bool) → (b || (a || c)) ≡ ((a || b) || c)
or_front a b c = ground arith

contains-insert :
    (x : SortedVar) (vars : List SortedVar) (y : String)
    → contains (var_names (insert x vars)) y ≡ ((x.name == y) || contains (var_names vars) y)
unfolding insert contains
contains-insert x [] y = refl
contains-insert x (z ∷ vars) y = elim (Bool-cases (x.name == z.name)) [
  | inl e ↦ rw e (
      or_again (x.name == y) (z.name == y) (contains (var_names vars) y)
        (ap (λ n. n == y) ((eq_iff x.name z.name).0 e)))
  | inr e ↦ elim (Bool-cases (before x.name z.name)) [
    | inl b ↦ rw (e, b)
    | inr b ↦
        rw (e, b)
          (or_swap (x.name == y) (z.name == y) (contains (var_names vars) y) _
            (contains-insert x vars y))
  ]
]

contains-insert_all :
    (vars introduced : List SortedVar) (y : String)
    → contains (var_names (insert_all vars introduced)) y
      ≡ (contains (var_names vars) y || contains (var_names introduced) y)
unfolding insert_all contains
contains-insert_all [] introduced y = refl
contains-insert_all (x ∷ vars) introduced y =
    contains-insert_all vars (insert x introduced) y
    ∙ rw (contains-insert x introduced y)
        (or_front (x.name == y) (contains (var_names vars) y) (contains (var_names introduced) y))

contains-names_append :
    (xs ys : List SortedVar) (y : String)
    → contains (var_names (xs ++ ys)) y ≡ (contains (var_names xs) y || contains (var_names ys) y)
unfolding contains
contains-names_append [] ys y = refl
contains-names_append (x ∷ xs) ys y = ground (arith, contains-names_append xs ys y)

or_assoc : (a b c : Bool) → (a || (b || c)) ≡ ((a || b) || c)
or_assoc a b c = ground arith

module _ {I F : Type 0} where
  declared_none :
      (e : Expr I F) (s : List SortedVar) (y : String)
      → plain e ≡ true
      → contains (var_names (accept forall_visitor e s).1) y ≡ contains (var_names s) y
  declared_none e s y h = rw (accept-plain e s h)

  mutual
    unfolding accept quantified removable contains

    declared :
        (e : Expr I F) (s : List SortedVar) (y : String)
        → removable e ≡ true
        → contains (var_names (accept forall_visitor e s).1) y
          ≡ (contains (var_names (quantified e)) y || contains (var_names s) y)
    declared (assert e) s y h = declared e s y h
    declared (forall vars e) s y h =
        contains-insert_all vars (accept forall_visitor e s).1 y
        ∙ rw (declared e s y h, contains-names_append vars (quantified e) y)
            (or_assoc (contains (var_names vars) y) (contains (var_names (quantified e)) y)
              (contains (var_names s) y))
    declared (op name args inst) s y h = elim (Bool-cases (name == "=>")) [
      | inl c ↦ rw c (declared_conclusion args inst s y (rw c at h))
      | inr c ↦ let k = declared_none (op name args inst) s y (rw c at h) in rw c k
    ]
    declared e s y h = declared_none e s y h

    declared_conclusion :
        (args : Args I F) (inst : Bool) (s : List SortedVar) (y : String)
        → removable_implication args ≡ true
        → contains (var_names (accept_args forall_visitor args s).1) y
          ≡ (contains (var_names (quantified_conclusion args)) y || contains (var_names s) y)
    declared_conclusion (cons a (cons b nil)) inst s y h =
        let w = and-true (plain a) (avoids (var_names (quantified b)) a && removable b) h in
        let u = and-true (avoids (var_names (quantified b)) a) (removable b) w.1 in
        rw (accept-plain a s w.0) (declared b s y u.1)
    declared_conclusion _ inst s y h = cc

  -- The names that `remove_foralls` adds to those gathered before are those of the variables that
  -- the quantifiers of the clause bind, where these stand at its root and in conclusions of
  -- implications.
  pub remove_foralls-quantified :
      (e : Expr I F) (introduced : List SortedVar) (y : String)
      → removable e ≡ true
      → contains (var_names (remove_foralls e introduced).1) y
        ≡ (contains (var_names (quantified e)) y || contains (var_names introduced) y)
  unfolding remove_foralls
  remove_foralls-quantified e introduced y h = declared e introduced y h
