-- ===== src/Smt/Meaning.antt =====
-- What an SMT expression means, the specification of the passes. The solver's theory is a
-- parameter: a structure gives the values and the meaning of every operator.
pub mod Occurs
pub mod Agree
pub mod ForAll
use llreve.Prelude.{String, Bool, true, List, [], ◌∷◌, ◌↔◌, if◌then◌else◌, ◌==◌, All}
use llreve.Smt.Sort.{Sort, SortedVar}
use llreve.Smt.Expr.{
  Predicate, Opcode, CastOp, Expr, assert, typed_variable, forall, let_in, constant_fp,
  constant_int, constant_bool, constant_string, op, fp_cmp, binary_fp, type_cast, Args, nil, cons,
  Defs, done, bind,
}

pub record Structure (I F : Type 0) : Type 1 where
  pub Value : Type 0
  pub bool : Bool → Value
  pub int : I → Value
  pub fp : F → Value
  pub apply : String → List Value → Value
  pub compare_fp : Predicate → Sort → Value → Value → Value
  pub binary : Opcode → Sort → Value → Value → Value
  pub cast : CastOp → Sort → Sort → Value → Value
  pub for_all : Sort → (Value → Value) → Value

module _ {I F : Type 0} (M : Structure I F) where
  open M use {Value}

  abbrev pub Env : Type 0
  Env = String → Value

  abbrev pub update : Env → String → Value → Env
  update ρ x v y = if x == y then v else ρ y

  unfoldable pub eval_forall : List SortedVar → Env → (Env → Value) → Value
  eval_forall [] ρ k = k ρ
  eval_forall (var ∷ vars) ρ k = M.for_all var.sort (λ v. eval_forall vars (update ρ var.name v) k)

  -- The bindings of one `let` are parallel: each is evaluated in the environment of the `let`. Of
  -- two bindings of one name the later counts. A command that asserts nothing is true.
  unfoldable mutual
    pub eval : Expr I F → Env → Value
    eval (assert e) ρ = eval e ρ
    eval (typed_variable x sort) ρ = ρ x
    eval (forall vars e) ρ = eval_forall vars ρ (λ ρ'. eval e ρ')
    eval (let_in ds e) ρ = eval e (eval_bindings ds ρ ρ)
    eval (constant_fp x) ρ = M.fp x
    eval (constant_int n) ρ = M.int n
    eval (constant_bool b) ρ = M.bool b
    eval (constant_string x) ρ = ρ x
    eval (op name args inst) ρ = M.apply name (eval_args args ρ)
    eval (fp_cmp p sort a b) ρ = M.compare_fp p sort (eval a ρ) (eval b ρ)
    eval (binary_fp o sort a b) ρ = M.binary o sort (eval a ρ) (eval b ρ)
    eval (type_cast o from to e) ρ = M.cast o from to (eval e ρ)
    eval _ ρ = M.bool true

    -- the environment `acc`, with the bindings evaluated in `ρ`
    pub eval_bindings : Defs I F → Env → Env → Env
    eval_bindings done ρ acc = acc
    eval_bindings (bind x e ds) ρ acc = eval_bindings ds ρ (update acc x (eval e ρ))

    pub eval_args : Args I F → Env → List Value
    eval_args nil ρ = []
    eval_args (cons e es) ρ = eval e ρ ∷ eval_args es ρ

-- The part of the SMT-LIB standard that the passes rely on: when a value counts as true, and the
-- meaning of `and`, `=>`, `forall` and `true`.
pub record Logic {I F : Type 0} (M : Structure I F) : Type 1 where
  pub Holds : M.Value → Type 0
  pub InSort : Sort → M.Value → Type 0
  pub holds_true : Holds (M.bool true)
  pub holds_and : (vs : List M.Value) → Holds (M.apply "and" vs) ↔ All Holds vs
  pub holds_implies : (a b : M.Value) → Holds (M.apply "=>" (a ∷ b ∷ [])) ↔ (Holds a → Holds b)
  pub holds_for_all :
      (sort : Sort) (f : M.Value → M.Value)
      → Holds (M.for_all sort f) ↔ ((v : M.Value) → InSort sort v → Holds (f v))
