-- ===== src/Marks.antt =====
-- Marks of basic blocks: `reve/reve/include/MarkAnalysis.h`. A block is its number.
pub mod Sets
pub mod Analysis
pub mod Infer
use llreve.Prelude.{
  ℕ, Bool, false, not, List, [], ◌∷◌, Option, none, some, if◌then◌else◌, nat_eq, ◌||◌, ℤ, negsuc,
  int_eq, int_eq-eq, int_eq_refl, ap, ◌≡◌, true,
}

-- `Mark`, the wrapper of an `int`
pub record Mark : Type 0 where
  pub index : ℤ

abbrev pub entry_mark : Mark
entry_mark = record { index = negsuc 0 }

abbrev pub exit_mark : Mark
exit_mark = record { index = negsuc 1 }

abbrev pub unreachable_mark : Mark
unreachable_mark = record { index = negsuc 2 }

abbrev pub forbidden_mark : Mark
forbidden_mark = record { index = negsuc 3 }

abbrev pub mark_eq : Mark → Mark → Bool
mark_eq a b = int_eq a.index b.index

pub mark_eq-eq : (m n : Mark) → mark_eq m n ≡ true → m ≡ n
mark_eq-eq m n h = ap (λ i. record { index = i }) (int_eq-eq m.index n.index h)

pub mark_eq_refl : (m : Mark) → mark_eq m m ≡ true
mark_eq_refl m = int_eq_refl m.index

unfoldable pub has_mark : List Mark → Mark → Bool
has_mark [] m = false
has_mark (x ∷ xs) m = mark_eq x m || has_mark xs m

-- `Mark::hasInvariant`
unfoldable pub has_invariant : Mark → Bool
has_invariant m =
    not (mark_eq m exit_mark || (mark_eq m unreachable_mark || mark_eq m forbidden_mark))

-- `BidirBlockMarkMap`: two `std::map`s, as association lists.
pub record BidirBlockMarkMap : Type 0 where
  pub block_to_marks : List (ℕ × List Mark)
  pub mark_to_blocks : List (Mark × List ℕ)

unfoldable pub find_marks : List (ℕ × List Mark) → ℕ → Option (List Mark)
find_marks [] b = none
find_marks ((c, marks) ∷ rest) b = if nat_eq c b then some marks else find_marks rest b

unfoldable pub member : List ℕ → ℕ → Bool
member [] b = false
member (c ∷ cs) b = nat_eq c b || member cs b
