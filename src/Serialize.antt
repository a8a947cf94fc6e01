-- ===== src/Serialize.antt =====
-- The passes over clauses before they are written, and `serializeSMT`:
-- `reve/reve/lib/Serialize.cpp`.
pub mod Compress
pub mod Foralls
pub mod Rename
pub mod Arrays
pub mod Pipeline
