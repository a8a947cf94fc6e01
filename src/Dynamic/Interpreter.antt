-- ===== src/Dynamic/Interpreter.antt =====
-- The interpreter of LLVM functions:
-- `reve/dynamic/llreve-dynamic/lib/llreve/dynamic/Interpreter.cpp`.
pub mod Operators
pub mod Memory
pub mod Blocks
pub mod Functions
pub mod Rounds
pub mod Heaps
pub mod StoreLoad
pub mod Null
pub mod Budget
pub mod Typed
pub mod Walks
