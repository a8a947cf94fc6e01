-- ===== src/Tests.antt =====
-- Concrete inputs: the theorems applied where their hypotheses hold, and tests of the definitions.
mod Model
mod Clauses
mod Printing
mod Graph
mod Passes
mod Marking
mod Edges
mod Kinds
mod Search
mod Slices
mod Variables
mod Numbers
mod Machine
