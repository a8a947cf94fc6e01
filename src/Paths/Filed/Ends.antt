-- ===== src/Paths/Filed/Ends.antt =====
-- Where the paths end that `findPathsStartingAt` of `reve/reve/lib/PathAnalysis.cpp` files under a mark,
-- said without the tests of the search.
use mathlib.Core.Path.{subst}
use llreve.Prelude.{
  ℕ, true, false, not, ◌&&◌, nat_eq, nat_eq-eq, eq-nat_eq, List, [], ◌∷◌, ◌≡◌, refl, sym, ap, ◌∙◌,
  ◌↔◌, ◌⊎◌, inl, inr, Bool-cases, Option, none, some, Result, ok, err, out_of_range, ok-injective,
}
use llreve.Marks.{Mark, mark_eq, mark_eq-eq, mark_eq_refl, exit_mark, BidirBlockMarkMap, find_marks}
use llreve.Paths.{Edge, BlockPath, Terminator}
use llreve.Paths.Find.{FoundPaths, paths_to, last_block, indices, allowed, find_paths_starting_at}
use llreve.Paths.Segments.{Member, IsSegment}
use llreve.Paths.Filed.{IsFiled, find_paths_starting_at-IsFiled}

-- The block that the last edge of a list leads to.
pub data EndsAt {C I : Type 0} : List (Edge C I) → ℕ → Type 0 where
  ends_now : (e : Edge C I) → EndsAt (e ∷ []) e.block
  ends_later : (e : Edge C I) {es : List (Edge C I)} {c : ℕ} → EndsAt es c → EndsAt (e ∷ es) c

-- The map from blocks to marks has an entry for the block, with the mark.
unfoldable pub HasMark : BidirBlockMarkMap → ℕ → Mark → Type 0
HasMark marked c n = (ms : List Mark) × (find_marks marked.block_to_marks c ≡ some ms) × Member n ms

module _ {C I : Type 0} where
  EndsAt-last_block :
      (b : ℕ) (e : Edge C I) (es : List (Edge C I)) → EndsAt (e ∷ es) (last_block b (e ∷ es))
  unfolding last_block
  EndsAt-last_block b e [] = ends_now e
  EndsAt-last_block b e (d ∷ es) = ends_later e (EndsAt-last_block e.block d es)

  last_block_only : (b : ℕ) {es : List (Edge C I)} {c : ℕ} → EndsAt es c → c ≡ last_block b es
  unfolding last_block
  last_block_only b (ends_now e) = refl
  last_block_only b (ends_later e t) = last_block_only e.block t

  no_end : {c : ℕ} → EndsAt {C = C} {I = I} [] c → ⊥
  no_end t = nothing t refl
    where
      nothing : {es : List (Edge C I)} {c : ℕ} → EndsAt es c → es ≡ [] → ⊥
      nothing (ends_now e) h = cc
      nothing (ends_later e t) h = cc

found_marks :
    (o : Option (List Mark)) (is : List Mark)
    → (elim o as (λ _. Result (List Mark)) [ none ↦ err out_of_range | some ms ↦ ok ms ]) ≡ ok is
    → o ≡ some is
found_marks none is h = cc
found_marks (some ms) is h = cc

-- the test of `allowed`
may_end :
    (l b : ℕ) (n for : Mark) → (not (nat_eq l b && not (mark_eq n for)) ≡ true) ↔ (l ≡ b → n ≡ for)
may_end l b n for = (
  (λ t e. elim (Bool-cases (mark_eq n for)) [
    | inl m ↦ mark_eq-eq n for m
    | inr m ↦ absurd (clash (rw (eq-nat_eq l b e, m) at t))
  ]),
  (λ f. elim (Bool-cases (nat_eq l b)) [
    | inl e ↦ rw (e, f (nat_eq-eq l b e), mark_eq_refl for) refl
    | inr e ↦ rw e refl
  ]),
)
  where
    clash : false ≡ true → ⊥
    clash h = cc

module _ {C I : Type 0} (marked : BidirBlockMarkMap) (for : Mark) (b : ℕ) (n : Mark) where
  -- A list of edges from the block `b` is filed under `n`: without edges, under the exit mark, and with
  -- edges, under the marks of its last block, of which only `for` counts if that is `b` again.
  unfoldable pub BelongsTo : List (Edge C I) → Type 0
  unfolding HasMark
  BelongsTo p =
      ((p ≡ []) × (n ≡ exit_mark)) ⊎ ((c : ℕ) × EndsAt p c × HasMark marked c n × (c ≡ b → n ≡ for))

module _ {C I : Type 0} (terminator : ℕ → Terminator C I) (marked : BidirBlockMarkMap) (for : Mark)
    (b : ℕ) (n : Mark) (x : BlockPath C I) where
  IsFiled-BelongsTo :
      (p : List (Edge C I))
      → IsFiled terminator marked for b n x p
      → BelongsTo marked for b n p × (x ≡ record { start = b; edges = p })
  unfolding BelongsTo HasMark indices allowed
  IsFiled-BelongsTo [] (is, u, k, a, e) = (inl (refl, only n is (ok-injective u) k), e)
    where
      only : (n : Mark) (is : List Mark) → exit_mark ∷ [] ≡ is → Member n is → n ≡ exit_mark
      only n is q m = elim (subst (Member n) (sym q) m) [ inl r ↦ r | inr r ↦ absurd r ]
  IsFiled-BelongsTo (d ∷ es) (is, u, k, a, e) = (
    inr (
      last_block b (d ∷ es),
      EndsAt-last_block b d es,
      (is, found_marks _ is u, k),
      (may_end (last_block b (d ∷ es)) b n for).0 a,
    ),
    e,
  )

  BelongsTo-IsFiled :
      (p : List (Edge C I))
      → BelongsTo marked for b n p
      → x ≡ record { start = b; edges = p }
      → IsFiled terminator marked for b n x p
  unfolding BelongsTo HasMark indices allowed
  BelongsTo-IsFiled [] (inl (q, m)) e = (exit_mark ∷ [], refl, inl m, refl, e)
  BelongsTo-IsFiled [] (inr (c, t, m, f)) e = absurd (no_end t)
  BelongsTo-IsFiled (d ∷ es) (inl (q, m)) e = cc
  BelongsTo-IsFiled (d ∷ es) (inr (c, t, (ms, g, k), f)) e =
      let at : c ≡ last_block b (d ∷ es) = last_block_only b t in
      (
        ms,
        rw (indices, ap (find_marks marked.block_to_marks) (sym at) ∙ g) refl,
        k,
        (may_end (last_block b (d ∷ es)) b n for).1 (λ q. f (at ∙ q)),
        e,
      )

  -- If the search from a block returns, then it files under a mark exactly those segments from the
  -- block that belong there. A segment without edges, from a block at which a path stops at once,
  -- belongs under the exit mark. One with edges belongs under each mark of the block that it ends
  -- at; but if that is the block of the start, only under the mark that the search is for.
  pub find_paths_starting_at-IsSegment :
      (fuel : ℕ) (found : FoundPaths C I)
      → find_paths_starting_at terminator marked fuel for b ≡ ok found
      → Member x (paths_to found n) ↔ (
          (p : List (Edge C I)) × IsSegment terminator marked true b p
          × BelongsTo marked for b n p
          × (x ≡ record { start = b; edges = p }))
  find_paths_starting_at-IsSegment fuel found h =
      let k = find_paths_starting_at-IsFiled terminator marked for b n x fuel found h in
      (
        (λ m. let (p, s, f) = k.0 m in let (g, e) = IsFiled-BelongsTo p f in (p, s, g, e)),
        (λ (p, s, g, e). k.1 (p, s, BelongsTo-IsFiled p g e)),
      )
