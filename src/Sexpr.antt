-- ===== src/Sexpr.antt =====
-- S-expressions and their printing: `reve/reve/include/SExpr.h` and `reve/reve/lib/SExpr.cpp`.
pub mod WhiteSpace
use Prim.Native.String.{String, ◌++◌, count}
use text.Mathlib.Text.{starts_with}
use llreve.Prelude.{
  ℕ, zero, suc, ◌+◌, Bool, true, false, not, ◌&&◌, ◌||◌, List, [], ◌∷◌, if◌then◌else◌, contains,
  ltb, ◌==◌,
}

-- `Value`, `Apply`, `List` and `Comment` of the namespace `sexpr`.
mutual
  pub data Sexpr : Type 0 where
    value : String → Sexpr
    apply : String → Sexprs → Sexpr
    list : Sexprs → Sexpr
    comment : String → Sexpr

  -- `SExprVec`
  pub data Sexprs : Type 0 where
    end : Sexprs
    item : Sexpr → Sexprs → Sexprs

unfoldable pub size : Sexprs → ℕ
size end = 0
size (item e es) = suc (size es)

abbrev pub force_indent_ops : List String
force_indent_ops = "assert" ∷ "and" ∷ "rule" ∷ []

abbrev pub atomic_ops : List String
atomic_ops =
    "+" ∷ "-" ∷ "*" ∷ "<=" ∷ "<" ∷ ">" ∷ ">=" ∷ "=" ∷ "not" ∷ "distinct" ∷ "select" ∷ "ite" ∷ "div"
    ∷ "_" ∷ "bvadd" ∷ "bvsub" ∷ "bvmul" ∷ "store" ∷ "store_" ∷ "select" ∷ "select_" ∷ "Array" ∷ []

-- `std::string(n, ' ')`
unfoldable pub spaces : ℕ → String
spaces zero = ""
spaces (suc n) = " " ++ spaces n

-- Whether the operands of an application stay on its line.
unfoldable pub on_one_line : String → Sexprs → Bool
unfolding contains size
on_one_line fun args =
    let atomic_op = contains atomic_ops fun in
    let simple_op = ltb (size args) 2 && not (contains force_indent_ops fun) in
    let inv = starts_with fun "INV" || (fun == "OUT_INV" || (fun == "IN_INV" || fun == "INIT")) in
    atomic_op || (simple_op || inv)

-- What is written before an operand, and the indentation that the operand is given.
pub record Layout : Type 0 where
  pub separator : String
  pub indent : ℕ

unfoldable pub layout : String → Sexprs → ℕ → Bool → Layout
unfolding on_one_line spaces
layout fun args indent true =
    if on_one_line fun args
    then record { separator = " "; indent = indent + count fun + 3 }
    else record { separator = "\n" ++ spaces (indent + 3); indent = indent + 3 }
layout fun args indent false = record { separator = " "; indent = indent + 3 }

-- What `serialize` writes to the stream.
unfoldable mutual
  pub serialize : Sexpr → ℕ → Bool → String
  serialize (value val) indent pretty = val
  serialize (apply fun args) indent pretty =
      let l = layout fun args indent pretty in
      "(" ++ (fun ++ (serialize_items l.separator args l.indent pretty ++ ")"))
  serialize (list elements) indent pretty = "(" ++ (serialize_list elements indent pretty ++ ")")
  serialize (comment val) indent pretty = "; " ++ val

  -- the loops over operands: a separator before each
  pub serialize_items : String → Sexprs → ℕ → Bool → String
  serialize_items separator end indent pretty = ""
  serialize_items separator (item e es) indent pretty =
      separator ++ (serialize e indent pretty ++ serialize_items separator es indent pretty)

  -- the elements of a list: the first without a separator
  pub serialize_list : Sexprs → ℕ → Bool → String
  serialize_list end indent pretty = ""
  serialize_list (item e es) indent pretty =
      serialize e (indent + 1) pretty
      ++ serialize_items ("\n" ++ spaces (indent + 1)) es (indent + 1) pretty

-- `operator<<`
unfoldable pub print : Sexpr → String
unfolding serialize layout
print e = serialize e 0 true
