-- ===== src/Dynamic.antt =====
-- The dynamic analysis: `reve/dynamic/llreve-dynamic`.
pub mod Combinations
pub mod Ends
pub mod Integers
pub mod Interpreter
pub mod Machine
pub mod Subsets
