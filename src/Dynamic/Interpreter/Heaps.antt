-- ===== src/Dynamic/Interpreter/Heaps.antt =====
-- `isContainedIn` and `operator==` of heaps.
pub mod Same
use llreve.Prelude.{
  Bool, true, false, ◌&&◌, List, [], ◌∷◌, Option, none, some, ◌≡◌, ◌≢◌, refl, sym, ap, ◌∙◌, ◌↔◌,
  inl, inr, Bool-cases, All, if◌then◌else◌, nat_eq, nat_eq-eq, and-true, Result, ok, err, assertion,
  ok-injective, >>=-eq-ok, ◌>>=◌, ◌⊎◌, arith,
}
use llreve.Marks.Sets.{IsTest, false_ne_true}
use llreve.Dynamic.Integers.{Arithmetic, Integer, unbounded, bounded}
use llreve.Dynamic.Integers.Compare.{eq, same_key}
use llreve.Dynamic.Machine.{Heap, find_cell, heap_value}

module _ {W Z : Type 0} (lib : Arithmetic W Z) where
  open lib use {words, numbers}

  unfoldable pub is_contained_in : List (Integer W Z × Integer W Z) → Heap W Z → Result Bool
  unfolding heap_value eq
  is_contained_in [] big = ok true
  is_contained_in ((a, v) ∷ cells) big = do
    same ← eq lib v (heap_value lib big a)
    elim same [ true ↦ is_contained_in cells big | false ↦ ok false ]

  unfoldable pub heap_equal : Heap W Z → Heap W Z → Result Bool
  unfolding is_contained_in eq
  heap_equal g h = do
    same ← eq lib g.background h.background
    elim same [
      | true ↦
          is_contained_in g.assigned_values h
          >>= (λ b. elim b [ true ↦ is_contained_in h.assigned_values g | false ↦ ok false ])
      | false ↦ ok false
    ]
