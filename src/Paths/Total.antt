-- ===== src/Paths/Total.antt =====
-- `findPaths` returns: the last block of every path that `traverse` returns has marks.
use llreve.Prelude.{
  ℕ, ◌<◌, Bool, true, false, List, [], ◌∷◌, ◌≡◌, refl, sym, ◌∙◌, Option, none, some, ◌||◌,
  if◌then◌else◌, inl, inr, All, ◌⊎◌,
}
use llreve.Prelude.{Result, ok, err, is_ok, is_ok-ok, ◌>>=◌}
use llreve.Marks.{Mark, exit_mark, unreachable_mark, mark_eq, BidirBlockMarkMap}
use llreve.Marks.Sets.{false_ne_true}
use llreve.Paths.{Edge, Terminator, marks_of, is_marked, is_return, stops, traverse}
use llreve.Paths.Find.{
  last_block, FoundPaths, PathMap, indices, add_indices, add_paths, find_paths_starting_at,
  find_from_blocks, find_from_marks, find_paths, add_found,
}
use llreve.Paths.Segments.{Member, IsSegment, traverse-IsSegment}
use llreve.Paths.Loops.{IsCut, traverse-is_ok}

Option-cases : {A : Type 0} (o : Option A) → (o ≡ none) ⊎ ((a : A) × (o ≡ some a))
Option-cases none = inl refl
Option-cases (some a) = inr (a, refl)

All-Member : {A : Type 0} (P : A → Type 0) (xs : List A) → ((x : A) → Member x xs → P x) → All P xs
All-Member P [] f = tt
All-Member P (x ∷ xs) f = (f x (inl refl), All-Member P xs (λ y m. f y (inr m)))

bind_is_ok :
    {A B : Type 0} (m : Result A) (f : A → Result B)
    → is_ok m ≡ true
    → ((a : A) → is_ok (f a) ≡ true)
    → is_ok (m >>= f) ≡ true
bind_is_ok (ok a) f h k = k a
bind_is_ok (err e) f h k = cc

module _ {C I : Type 0} (terminator : ℕ → Terminator C I) (marked : BidirBlockMarkMap) where
  unmarked : (b : ℕ) → marks_of terminator marked b ≡ none → is_marked terminator marked b ≡ false
  unfolding is_marked
  unmarked b p = rw (p, is_marked) refl

  no_return : (b : ℕ) → marks_of terminator marked b ≡ none → is_return terminator marked b ≡ false
  unfolding is_return
  no_return b p = rw (p, is_return) refl

  goes_on :
      (first : Bool) (b : ℕ)
      → marks_of terminator marked b ≡ none
      → stops terminator marked first b ≡ false
  unfolding stops
  goes_on true b p = no_return b p
  goes_on false b p = rw (unmarked b p, no_return b p)

  -- A block at which a path stops has an entry.
  abbrev HasMarks : ℕ → Type 0
  HasMarks b = (ms : List Mark) × (marks_of terminator marked b ≡ some ms)

  stops-HasMarks : (first : Bool) (b : ℕ) → stops terminator marked first b ≡ true → HasMarks b
  stops-HasMarks first b h = elim (Option-cases (marks_of terminator marked b)) [
    | inl p ↦ absurd (false_ne_true (sym (goes_on first b p) ∙ h))
    | inr m ↦ m
  ]

  last_block-HasMarks :
      (first : Bool) (b : ℕ) (p : List (Edge C I))
      → IsSegment terminator marked first b p
      → HasMarks (last_block b p)
  unfolding last_block
  last_block-HasMarks first b [] s = stops-HasMarks first b s
  last_block-HasMarks first b (e ∷ es) s = last_block-HasMarks false e.block es s.2

  indices-is_ok :
      (b : ℕ) (p : List (Edge C I))
      → IsSegment terminator marked true b p
      → is_ok (indices terminator marked b p) ≡ true
  unfolding indices
  indices-is_ok b [] s = refl
  indices-is_ok b (e ∷ es) s =
      let (ms, q) = last_block-HasMarks true b (e ∷ es) s in rw (q, indices) refl

  add_paths-is_ok :
      (for : Mark) (b : ℕ) (ps : List (List (Edge C I))) (found : FoundPaths C I)
      → All (λ p. is_ok (indices terminator marked b p) ≡ true) ps
      → is_ok (add_paths terminator marked for b ps found) ≡ true
  unfolding add_paths
  add_paths-is_ok for b [] found a = refl
  add_paths-is_ok for b (p ∷ ps) found a =
      bind_is_ok (indices terminator marked b p) _ a.0
        (λ is. add_paths-is_ok for b ps (add_indices for b p is found) a.1)

  find_paths_starting_at-is_ok :
      (fuel : ℕ) (for : Mark) (b : ℕ)
      → is_ok (traverse terminator marked fuel b true []) ≡ true
      → is_ok (find_paths_starting_at terminator marked fuel for b) ≡ true
  unfolding find_paths_starting_at
  find_paths_starting_at-is_ok fuel for b h =
      let (ps, q) = is_ok-ok (traverse terminator marked fuel b true []) h in
      rw q (
        add_paths-is_ok for b ps [] (
          All-Member (λ p. is_ok (indices terminator marked b p) ≡ true) ps
            (λ p m.
              indices-is_ok b p
                ((traverse-IsSegment terminator marked fuel b true [] ps q p).0 m))))

  module _ (fuel : ℕ)
      (total : (b : ℕ) → is_ok (traverse terminator marked fuel b true []) ≡ true) where
    find_from_blocks-is_ok :
        (m : Mark) (bs : List ℕ) (found : PathMap C I)
        → is_ok (find_from_blocks terminator marked fuel m bs found) ≡ true
    unfolding find_from_blocks
    find_from_blocks-is_ok m [] found = refl
    find_from_blocks-is_ok m (b ∷ bs) found =
        bind_is_ok (find_paths_starting_at terminator marked fuel m b) _
          (find_paths_starting_at-is_ok fuel m b (total b))
          (λ new. find_from_blocks-is_ok m bs (add_found m new found))

    find_from_marks-is_ok :
        (marks : List (Mark × List ℕ)) (found : PathMap C I)
        → is_ok (find_from_marks terminator marked fuel marks found) ≡ true
    unfolding find_from_marks
    find_from_marks-is_ok [] found = refl
    find_from_marks-is_ok ((m, bs) ∷ rest) found =
        bind_is_ok
          (if mark_eq m exit_mark || mark_eq m unreachable_mark
            then ok found
            else find_from_blocks terminator marked fuel m bs found)
          _ (either (mark_eq m exit_mark || mark_eq m unreachable_mark) m bs found)
          (λ found'. find_from_marks-is_ok rest found')
      where
        either :
            (c : Bool) (m : Mark) (bs : List ℕ) (found : PathMap C I)
            → is_ok (if c then ok found else find_from_blocks terminator marked fuel m bs found)
              ≡ true
        either true m bs found = refl
        either false m bs found = find_from_blocks-is_ok m bs found

  -- If all loops of the control flow graph have a mark and the ranks that show it are below a
  -- limit, then `findPaths` returns, in any number of rounds above the limit: the search reports no
  -- cycle, and the last block of every path has an entry in the map of marks.
  pub find_paths-is_ok :
      (rank : ℕ → ℕ)
      → IsCut terminator marked rank
      → (limit : ℕ) → ((b : ℕ) → rank b < limit)
      → (fuel : ℕ) → limit < fuel
      → is_ok (find_paths terminator marked fuel) ≡ true
  unfolding find_paths
  find_paths-is_ok rank cut limit ranks fuel l =
      find_from_marks-is_ok fuel
        (λ b. traverse-is_ok terminator marked rank cut limit ranks fuel b l) marked.mark_to_blocks
        []
