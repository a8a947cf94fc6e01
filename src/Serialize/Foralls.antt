-- ===== src/Serialize/Foralls.antt =====
-- `RemoveForallVisitor` and `removeForalls` of `reve/reve/lib/Serialize.cpp`: quantifiers are left
-- out, and their variables gathered, to be declared.
pub mod Valid
pub mod Declared
use Prim.Native.String.{compare}
use Prim.Native.Nat.{Ordering}
use llreve.Prelude.{String, Bool, true, false, List, [], ◌∷◌, ◌||◌, ◌==◌, if◌then◌else◌}
use llreve.Smt.Sort.{SortedVar}
use llreve.Smt.Expr.{Expr, forall}
use llreve.Smt.Visitor.{Visitor, default_visitor, accept}

-- `operator<` on names
abbrev pub before : String → String → Bool
before x y = elim (compare x y) [ Ordering.lt ↦ true | _ ↦ false ]

-- `std::set<SortedVar>`, which is ordered by names, so a second variable of a name is not entered.
unfoldable pub insert : SortedVar → List SortedVar → List SortedVar
insert x [] = x ∷ []
insert x (y ∷ vars) =
    let rest = insert x vars in
    if x.name == y.name then y ∷ vars else if before x.name y.name then x ∷ y ∷ vars else y ∷ rest

unfoldable pub insert_all : List SortedVar → List SortedVar → List SortedVar
unfolding insert
insert_all [] introduced = introduced
insert_all (x ∷ vars) introduced = insert_all vars (insert x introduced)

abbrev pub forall_reassemble :
    {I F : Type 0} → Expr I F → List SortedVar → Expr I F × List SortedVar
forall_reassemble (forall vars e) introduced = (e, insert_all vars introduced)
forall_reassemble e introduced = (e, introduced)

abbrev pub forall_visitor : {I F : Type 0} → Visitor I F (List SortedVar)
forall_visitor = record default_visitor { reassemble = forall_reassemble }

module _ {I F : Type 0} where
  unfoldable pub remove_foralls : Expr I F → List SortedVar → Expr I F × List SortedVar
  remove_foralls e introduced = accept forall_visitor e introduced
