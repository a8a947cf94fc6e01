-- ===== src/Serialize/Arrays.antt =====
-- `InstantiateArraysVisitor` and `instantiateArrays` of `reve/reve/lib/Serialize.cpp`, and `heapInfo`
-- of `reve/reve/lib/SMT.cpp`: an array operand of an invariant becomes an index and the value there.
pub mod Arity
use Prim.Native.String.{◌++◌, len, slice}
use text.Mathlib.Text.{starts_with}
use llreve.Prelude.{
  ℕ, String, Bool, true, false, List, [], ◌∷◌, Option, none, some, ◌==◌, ◌||◌, if◌then◌else◌,
}
use llreve.Smt.Sort.{Sort, int_type, SortedVar, int64_type, pointer_type, is_array}
use llreve.Smt.Expr.{Expr, forall, typed_variable, constant_string, op, fun_decl, Args, nil, cons}
use llreve.Smt.Visitor.{Visitor, default_visitor, accept}

pub record HeapInfo : Type 0 where
  pub array_name : String
  pub index : String
  pub suffix : String

-- What `HEAP_REGEX` matches, `^(HEAP|STACK)\$(1|2)(.*?)$`; a name has no line breaks.
unfoldable pub heap_name : String → Option HeapInfo
heap_name x =
    if starts_with x "HEAP$1"
    then some (record { array_name = "HEAP"; index = "1"; suffix = slice x 6 (len x) })
    else if starts_with x "HEAP$2"
    then some (record { array_name = "HEAP"; index = "2"; suffix = slice x 6 (len x) })
    else if starts_with x "STACK$1"
    then some (record { array_name = "STACK"; index = "1"; suffix = slice x 7 (len x) })
    else if starts_with x "STACK$2"
    then some (record { array_name = "STACK"; index = "2"; suffix = slice x 7 (len x) })
    else none

-- `"i" + array->index + array->suffix`
abbrev pub index_name : HeapInfo → String
index_name h = "i" ++ (h.index ++ h.suffix)

module _ {I F : Type 0} where
  unfoldable pub heap_info : Expr I F → Option HeapInfo
  unfolding heap_name
  heap_info (typed_variable x sort) = heap_name x
  heap_info e = none

  -- `makeOp("select", array, index)`
  abbrev pub select : Expr I F → String → Expr I F
  select array index = op "select" (cons array (cons (constant_string index) nil)) true

  -- the loop over the operands: the variables of the indices, and the new operands
  unfoldable pub index_vars : Bool → Args I F → List SortedVar
  unfolding heap_info
  index_vars instantiate nil = []
  index_vars instantiate (cons e es) =
      let rest = index_vars instantiate es in
      elim (heap_info e) [
        | none ↦ rest
        | some h ↦
            if instantiate then record { name = index_name h; sort = pointer_type } ∷ rest else rest
      ]

  unfoldable pub index_args : Bool → Args I F → Args I F
  unfolding heap_info
  index_args instantiate nil = nil
  index_args instantiate (cons e es) =
      let rest = index_args instantiate es in
      elim (heap_info e) [
        | none ↦ cons e rest
        | some h ↦
            if instantiate
            then cons (constant_string (index_name h)) (cons (select e (index_name h)) rest)
            else cons e rest
      ]

  -- an equation of arrays holds at every index
  unfoldable pub equate : String → Args I F → Bool → Expr I F
  unfolding heap_info
  equate name (cons a (cons b nil)) instantiate = elim (heap_info a) [
    | none ↦ op name (cons a (cons b nil)) instantiate
    | some h ↦
        forall (record { name = "i"; sort = pointer_type } ∷ [])
          (op "=" (cons (select a "i") (cons (select b "i") nil)) true)
  ]
  equate name args instantiate = op name args instantiate

  unfoldable pub instantiate_op : String → Args I F → Bool → Expr I F
  unfolding index_vars index_args equate
  instantiate_op name args instantiate =
      if starts_with name "INV_" || (name == "INIT")
      then forall (index_vars instantiate args) (op name (index_args instantiate args) true)
      else if name == "="
      then equate name args instantiate
      else op name args instantiate

-- the loop over the sorts of a declaration
unfoldable pub instantiate_sorts : List Sort → List Sort
unfolding is_array
instantiate_sorts [] = []
instantiate_sorts (s ∷ ss) =
    let rest = instantiate_sorts ss in
    if is_array s then int64_type ∷ int_type 8 ∷ rest else s ∷ rest

abbrev pub instantiate_reassemble : {I F : Type 0} → Expr I F → Unit {0} → Expr I F × Unit {0}
instantiate_reassemble (op name args instantiate) s = (instantiate_op name args instantiate, s)
instantiate_reassemble (fun_decl name sorts out) s =
    (fun_decl name (instantiate_sorts sorts) out, s)
instantiate_reassemble e s = (e, s)

abbrev pub instantiate_visitor : {I F : Type 0} → Visitor I F (Unit {0})
instantiate_visitor = record default_visitor {
  ignore_let_bindings = true;
  reassemble = instantiate_reassemble;
}

module _ {I F : Type 0} where
  unfoldable pub instantiate_arrays : Expr I F → Expr I F
  unfolding instantiate_op instantiate_sorts
  instantiate_arrays e = (accept instantiate_visitor e tt).0
