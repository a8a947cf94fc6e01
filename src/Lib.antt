-- ===== src/Lib.antt =====
-- llreve, regression verification for LLVM programs: the parts that are independent of LLVM.
--
-- llreve compiles two versions of a C program, cuts their control flow graphs at marked blocks, and
-- writes Horn clauses whose solution shows the versions equivalent. This library models the search
-- for paths between marks, the SMT expressions that clauses are made of, the passes over them, and the text that is written, with the interpreter of the dynamic analysis
-- and the brute force slicer. Paths of files are those of the repository.
--
-- Prelude passes the libraries' names on, with tests on native numbers, lists, results and signed
-- integers of its own. A function of the program that may stop returns a Result: exit_one is
-- `exit(1)` behind an error message, assertion a failed `assert`, out_of_range an access out of
-- range, undefined an operation that C++ leaves undefined.
--
-- Sexpr models `reve/reve/lib/SExpr.cpp`: Sexpr is the class hierarchy, serialize the methods of
-- that name with the stream as a text, layout the choice of separators of `Apply::serialize`. Texts
-- are ASCII, so a text's characters are its bytes.
--
-- Smt models `reve/reve/include/SMT.h`, `reve/reve/lib/SMT.cpp` and the sorts of
-- `reve/reve/lib/Type.cpp`. Smt.Sort and Smt.Expr are the data, one constructor for each class
-- below `SMTExpr`. Smt.Options is what the passes read of `SMTGenerationOpts`, and the operations
-- of `llvm::APInt` and `llvm::APFloat`, which are parameters (Numbers). Smt.Pieces and Smt.ToSexpr
-- are the `toSExpr` methods; Smt.Visitor is `SMTVisitor` with the `accept` methods, with a
-- visitor's fields as a state that is passed on; Smt.Uses is `collectUses`; Smt.Split, Smt.Merge,
-- Smt.Lets and Smt.Inline are `splitConjunctions`, `mergeImplications`, `nestLets` with
-- `fastNestLets`, and `inlineLets`. They are structural recursions and need no fuel.
--
-- Smt.Meaning says what expressions mean, as a specification that the passes are measured by: a
-- Structure has values and the operators on them, `let`s bind in parallel, as in SMT-LIB, and a
-- Logic says which values hold and what conjunction, implication and quantifiers do with that. The
-- passes are proved right for every structure and logic.
--
-- Serialize models `reve/reve/lib/Serialize.cpp`: Serialize.Compress, Rename, Foralls and Arrays
-- are the visitors of `compressLets`, `renameAssignments`, `removeForalls` and `instantiateArrays`,
-- and Serialize.Pipeline the order of the passes in `serializeSMT`, once for Horn clauses and once
-- for SMT-LIB, with the text that is written. The regular expression for names of heaps is written
-- out.
--
-- Marks models `reve/reve/include/MarkAnalysis.h`, with Marks.Sets for maps to sets and
-- Marks.Analysis for `MarkAnalysis::run`: a function is the list of its blocks, with what LLVM's
-- analyses say of it, the block that returns and which blocks are in loops. Marks.Infer is
-- `reve/reve/lib/InferMarks.cpp`, with the loops of a function as a list. Paths models
-- `reve/reve/lib/PathAnalysis.cpp`: basic blocks are numbers, a function is the map from blocks to
-- terminators, sets and maps are lists. The recursion of `traverse` has fuel; it enters a block
-- that it has visited only to report the loop, so fuel above the number of blocks of a function is
-- enough. Paths.Find is `findPaths` with `findPathsStartingAt`, and Paths.Conditions the `toSmt`
-- methods of conditions, with `instrNameOrVal` as a parameter. Paths.Memo is `PathAnalysis::run`.
-- Paths.Feasible, Paths.Segments, Paths.Filed, Paths.Rounds, Paths.Loops and Paths.Total say what
-- the paths are and when the search ends.
--
-- FreeVars models `reve/reve/lib/FreeVariables.cpp`: FreeVars.Instructions is `freeVarsInBlock`,
-- over records of what is read of an instruction, FreeVars.Gather is `freeVarsOnPaths` with
-- `addMemoryLocations` and `addMemoryArrays`, and FreeVars.Search is `freeVars`, whose `while` has
-- fuel. A set is a list in the order of names. Every round that changes the sets adds a name to one
-- of them, so fuel above the number of pairs of a mark and a name is enough. FreeVars.Search.Needed
-- says which variables a mark needs, as a relation; Sets, Keeps, Entries, Missing, Least and Total
-- lead to the proofs.
--
-- Dynamic models parts of `reve/dynamic/llreve-dynamic`. Dynamic.Integers is
-- `include/llreve/dynamic/Integer.h` with `lib/llreve/dynamic/Integer.cpp`: an Integer is a word of
-- a width or a number without one. `llvm::APInt` and `mpz_class` are parameters (ApInt and Mpz,
-- together Arithmetic), and so are the program's options; what LLVM asserts of widths, of divisors
-- and of `getSExtValue` is written out. Dynamic.Machine is the data of the interpreter: what it reads of LLVM's
-- instructions, blocks and functions, which are named by numbers, and heaps, states and calls, with
-- maps as lists. Dynamic.Interpreter models `lib/llreve/dynamic/Interpreter.cpp`: Operators is the
-- arithmetic, comparisons and casts, Memory loads and stores, Blocks instructions, phis,
-- terminators and blocks, Functions `interpretFunction` and `interpretFunctionPair`, and Heaps the
-- comparison of heaps. The fuel counts blocks and a call has what is left of it; without calls,
-- fuel above the steps that are allowed is enough. Dynamic.Ends says which operations end without
-- the fuel, and Rounds, Budget, Walks, Heaps.Same, StoreLoad and Null lead to the results. Typed
-- says what kinds of values there are in integer mode and which instructions keep them apart: not a
-- cast to one bit, not a load of one bit, and nothing that reads the null pointer.
-- Dynamic.Combinations is the enumeration in `lib/llreve/dynamic/Permutation.cpp`; its fuel counts
-- vectors. Dynamic.Subsets is `kSubset` with its bits, and the mapping of combinations to values,
-- of `include/llreve/dynamic/Permutation.h`.
--
-- Slicing models parts of `slicing/src`. Slicing.Criterion is `core/Criterion.cpp` with
-- `for_each_relevant_instruction` of `slicingMethods/BruteForce.cpp`, Slicing.Patterns is
-- `for_each_pattern` there, with `std::next_permutation` on vectors of Booleans, and
-- Slicing.BruteForce is `computeSlice`; a candidate is the list of its sliced instructions, and
-- what the slicing pass and the validation answer for it is a parameter (Checks). The fuel counts
-- patterns with the same number of zeros, and 2 ^ n is enough for n instructions. Patterns.Chosen,
-- Starts, Visited, Every and First, and BruteForce.Parts, Tries and Best lead to the results.
--
-- Tests holds the runs and the witnesses; Tests.Numbers has words and numbers to run the
-- interpreter with.
--
-- Not modelled: the translation to terms of the Z3 library (`toZ3`), the passes over LLVM modules,
-- the generation of clauses from LLVM instructions, the search for invariants in the dynamic
-- analysis and the passes, graphs and solvers of the slicer, which read LLVM throughout; the
-- command line library, a copy of LLVM's; parsers, which are generated; input and output, so also
-- states and calls as JSON. What is allocated or freed is left out: a node is shared by reading
-- only.
pub mod Dynamic
pub mod FreeVars
pub mod Marks
pub mod Paths
pub mod Prelude
pub mod Serialize
pub mod Sexpr
pub mod Slicing
pub mod Smt
pub mod Tests
