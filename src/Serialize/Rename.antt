-- ===== src/Serialize/Rename.antt =====
-- `AssignmentRenameVisitor` and `renameAssignments` of `reve/reve/lib/Serialize.cpp`: what `let`s and
-- quantifiers declare is numbered, and uses get the number that was given last.
use Prim.Native.String.{◌++◌}
use llreve.Prelude.{
  ℕ, suc, ◌-◌, ◌%◌, ◌^◌, String, List, [], ◌∷◌, Option, none, some, ◌==◌, if◌then◌else◌, ltb,
}
use llreve.Smt.Sort.{SortedVar}
use llreve.Smt.Expr.{Expr, Defs, done, bind}
use llreve.Smt.Options.{to_string}
use llreve.Smt.Visitor.{Visitor, default_visitor, accept}

-- `llvm::StringMap<unsigned>`
abbrev pub VariableMap : Type 0
VariableMap = List (String × ℕ)

unfoldable pub find_index : VariableMap → String → Option ℕ
find_index [] x = none
find_index ((y, n) ∷ map) x = if y == x then some n else find_index map x

-- `++variableMap[x]`
unfoldable pub next_index : VariableMap → String → ℕ
next_index [] x = 1
next_index ((y, n) ∷ map) x = if y == x then suc n % 2 ^ 32 else next_index map x

unfoldable pub increment : String → VariableMap → VariableMap
increment x [] = (x, 1) ∷ []
increment x ((y, n) ∷ map) =
    let rest = increment x map in if y == x then (y, suc n % 2 ^ 32) ∷ map else (y, n) ∷ rest

-- `std::to_string` of an `unsigned` that was converted to an `int`
unfoldable pub int_text : ℕ → String
int_text n = if ltb n (2 ^ 31) then to_string n else "-" ++ to_string (2 ^ 32 - n)

unfoldable pub rename_use : String → VariableMap → String
unfolding find_index
rename_use x map = elim (find_index map x) [ none ↦ x | some n ↦ x ++ ("_" ++ to_string n) ]

unfoldable pub declare : String → VariableMap → String
unfolding next_index int_text
declare x map = x ++ ("_" ++ int_text (next_index map x))

unfoldable pub rename_vars : List SortedVar → VariableMap → List SortedVar × VariableMap
unfolding declare increment
rename_vars [] map = ([], map)
rename_vars (x ∷ vars) map =
    let (vars', map') = rename_vars vars (increment x.name map) in
    (record { name = declare x.name map; sort = x.sort } ∷ vars', map')

module _ {I F : Type 0} where
  unfoldable pub rename_bindings : Defs I F → VariableMap → Defs I F × VariableMap
  unfolding declare increment
  rename_bindings done map = (done, map)
  rename_bindings (bind x e ds) map =
      let (ds', map') = rename_bindings ds (increment x map) in (bind (declare x map) e ds', map')

abbrev pub rename_visitor : {I F : Type 0} → Visitor I F VariableMap
rename_visitor = record default_visitor {
  dispatch_variable = λ x s. (rename_use x s, s);
  dispatch_string = λ x s. (rename_use x s, s);
  dispatch_let = λ ds s. rename_bindings ds s;
  dispatch_forall = λ vars s. rename_vars vars s;
}

module _ {I F : Type 0} where
  unfoldable pub rename_assignments : Expr I F → Expr I F
  rename_assignments e = (accept rename_visitor e []).0
