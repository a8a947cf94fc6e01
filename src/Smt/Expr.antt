-- ===== src/Smt/Expr.antt =====
-- The classes below `SMTExpr` of `reve/reve/include/SMT.h`, as one data type. A `shared_ptr` to a
-- subexpression is the subexpression: no pass writes to a shared node. The numbers of LLVM,
-- `llvm::APInt` and `llvm::APFloat`, are the parameters `I` and `F`.
use llreve.Prelude.{String, Bool, List, [], ◌∷◌}
use llreve.Smt.Sort.{Sort, SortedVar}

-- `FPCmp::Predicate`; `always` and `never` are its `True` and `False`.
pub data Predicate : Type 0 where
  never oeq ogt oge olt ole one ord uno ueq ugt uge ult ule une always : Predicate

-- `BinaryFPOperator::Opcode`
pub data Opcode : Type 0 where
  fadd fsub fmul fdiv frem : Opcode

-- `llvm::Instruction::CastOps`
pub data CastOp : Type 0 where
  trunc zext sext fp_to_ui fp_to_si ui_to_fp si_to_fp fp_trunc fp_ext : CastOp
  ptr_to_int int_to_ptr bit_cast addr_space_cast : CastOp

mutual
  pub data Expr (I F : Type 0) : Type 0 where
    set_logic : String → Expr I F
    assert : Expr I F → Expr I F
    typed_variable : String → Sort → Expr I F
    forall : List SortedVar → Expr I F → Expr I F
    check_sat : Expr I F
    get_model : Expr I F
    let_in : Defs I F → Expr I F → Expr I F
    constant_fp : F → Expr I F
    constant_int : I → Expr I F
    constant_bool : Bool → Expr I F
    constant_string : String → Expr I F
    op : String → Args I F → Bool → Expr I F
    fp_cmp : Predicate → Sort → Expr I F → Expr I F → Expr I F
    binary_fp : Opcode → Sort → Expr I F → Expr I F → Expr I F
    type_cast : CastOp → Sort → Sort → Expr I F → Expr I F
    query : String → Expr I F
    fun_decl : String → List Sort → Sort → Expr I F
    fun_def : String → List SortedVar → Sort → Expr I F → Expr I F
    comment : String → Expr I F
    var_decl : SortedVar → Expr I F

  -- `std::vector<SharedSMTRef>`, the operands of an `Op`
  pub data Args (I F : Type 0) : Type 0 where
    nil : Args I F
    cons : Expr I F → Args I F → Args I F

  -- `AssignmentVec`, the bindings of a `Let`
  pub data Defs (I F : Type 0) : Type 0 where
    done : Defs I F
    bind : String → Expr I F → Defs I F → Defs I F

module _ {I F : Type 0} where
  unfoldable pub of_list : List (Expr I F) → Args I F
  of_list [] = nil
  of_list (e ∷ es) = cons e (of_list es)

  unfoldable pub of_assignments : List (String × Expr I F) → Defs I F
  of_assignments [] = done
  of_assignments ((x, e) ∷ ds) = bind x e (of_assignments ds)
