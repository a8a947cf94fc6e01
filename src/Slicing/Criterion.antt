-- ===== src/Slicing/Criterion.antt =====
-- The criteria of `slicing/src/core/Criterion.cpp`, with `isSpecialFunction` of
-- `slicing/src/util/misc.cpp` and `for_each_relevant_instruction` of
-- `slicing/src/slicingMethods/BruteForce.cpp`.
use llreve.Prelude.{
  ℕ, String, Bool, true, false, not, ◌||◌, ◌==◌, if◌then◌else◌, nat_eq, List, [], ◌∷◌, ◌++◌, Option,
  none, some, Result, ok, err, assertion, ◌>>=◌,
}

-- What is read of an instruction: its name, whether it returns, and the function that it calls.
pub record Instruction : Type 0 where
  pub name : ℕ
  pub returns : Bool
  pub called : Option String

pub record Function : Type 0 where
  pub name : String
  pub instructions : List Instruction

pub data Criterion : Type 0 where
  return_value present : Criterion

unfoldable pub criterion_name : String
criterion_name = "__criterion"

-- The functions that only carry information for the slicer.
unfoldable pub is_special_function : Function → Bool
unfolding criterion_name
is_special_function f =
    (f.name == criterion_name)
    || (f.name == "__mark")
    || (f.name == "__assert_sliced")
    || (f.name == "__identity")

unfoldable pub return_instructions : List Instruction → List ℕ
return_instructions [] = []
return_instructions (i ∷ is) =
    let rest = return_instructions is in if i.returns then i.name ∷ rest else rest

-- The returns of the only function; a second function fails the assertion.
unfoldable pub return_criterion : Bool → List Function → Result (List ℕ)
unfolding is_special_function return_instructions
return_criterion multiple [] = ok []
return_criterion multiple (f ∷ fs) = elim (is_special_function f) [
  | true ↦ return_criterion multiple fs
  | false ↦ elim multiple [
    | true ↦ err assertion
    | false ↦ return_criterion true fs >>= (λ rest. ok (return_instructions f.instructions ++ rest))
  ]
]

unfoldable pub is_criterion_call : Instruction → Bool
unfolding criterion_name
is_criterion_call i = elim i.called [ none ↦ false | some f ↦ f == criterion_name ]

-- The calls of the criterion in a function, after the flag whether there was one before; a second
-- one fails the assertion.
unfoldable pub criterion_calls : Bool → List Instruction → Result (Bool × List ℕ)
unfolding is_criterion_call
criterion_calls multiple [] = ok (multiple, [])
criterion_calls multiple (i ∷ is) = elim (is_criterion_call i) [
  | true ↦ elim multiple [
    | true ↦ err assertion
    | false ↦ criterion_calls true is >>= (λ rest. ok (rest.0, i.name ∷ rest.1))
  ]
  | false ↦ criterion_calls multiple is
]

unfoldable pub present_criterion : Bool → List Function → Result (List ℕ)
unfolding is_special_function criterion_calls
present_criterion multiple [] = ok []
present_criterion multiple (f ∷ fs) = elim (is_special_function f) [
  | true ↦ present_criterion multiple fs
  | false ↦
      criterion_calls multiple f.instructions
      >>= (λ found. present_criterion found.0 fs >>= (λ rest. ok (found.1 ++ rest)))
]

-- `getInstructions` of the criterion's class
unfoldable pub criterion_instructions : Criterion → List Function → Result (List ℕ)
unfolding return_criterion present_criterion
criterion_instructions return_value program = return_criterion false program
criterion_instructions present program = present_criterion false program

unfoldable pub has_instruction : List ℕ → ℕ → Bool
has_instruction [] i = false
has_instruction (j ∷ js) i = nat_eq j i || has_instruction js i

unfoldable pub other_instructions : List ℕ → List Instruction → List ℕ
unfolding has_instruction
other_instructions criterion [] = []
other_instructions criterion (i ∷ is) =
    let rest = other_instructions criterion is in
    if not (has_instruction criterion i.name) then i.name ∷ rest else rest

unfoldable pub relevant_in : List ℕ → List Function → List ℕ
unfolding is_special_function other_instructions
relevant_in criterion [] = []
relevant_in criterion (f ∷ fs) =
    let rest = relevant_in criterion fs in
    if not (is_special_function f)
    then other_instructions criterion f.instructions ++ rest
    else rest

-- The instructions that `for_each_relevant_instruction` calls its function for, in their order.
unfoldable pub relevant_instructions : Criterion → List Function → Result (List ℕ)
unfolding criterion_instructions relevant_in
relevant_instructions c program = do
  criterion ← criterion_instructions c program
  ok (relevant_in criterion program)
