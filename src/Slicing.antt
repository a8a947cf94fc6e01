-- ===== src/Slicing.antt =====
-- The slicer of `slicing/src`: programs with their criteria, and the search for a slice by trying
-- all patterns of instructions.
pub mod Criterion
pub mod Patterns
pub mod BruteForce
