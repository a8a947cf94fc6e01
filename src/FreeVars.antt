-- ===== src/FreeVars.antt =====
-- The free variables at marks: `reve/reve/lib/FreeVariables.cpp`.
pub mod Instructions
pub mod Names
pub mod Gather
pub mod Search
