-- ===== src/Paths/Filed.antt =====
-- What `findPathsStartingAt` of `reve/reve/lib/PathAnalysis.cpp` returns: each path, under each mark
-- at which it may end.
pub mod Ends
use llreve.Prelude.{
  ℕ, true, false, List, [], ◌∷◌, ◌++◌, ◌≡◌, refl, sym, ap, ◌∙◌, ◌↔◌, ◌⊎◌, inl, inr, Bool-cases,
  iff_trans,
}
use llreve.Prelude.{ok, >>=-eq-ok, ok-injective}
use llreve.Marks.{Mark, mark_eq, mark_eq-eq, mark_eq_refl, BidirBlockMarkMap}
use llreve.Marks.Sets.{false_ne_true, apart}
use llreve.Marks.Analysis.Agree.{mark-IsTest}
use llreve.Paths.{Edge, BlockPath, Terminator, traverse}
use llreve.Paths.Find.{
  FoundPaths, append_paths, paths_to, indices, allowed, add_indices, add_paths,
  find_paths_starting_at,
}
use llreve.Paths.Segments.{
  Member, Member-append, Member-append_left, Member-append_right, IsSegment, traverse-IsSegment,
}

iff_or : {A B C D : Type 0} → A ↔ (B ⊎ C) → C ↔ D → A ↔ (B ⊎ D)
iff_or e f = (
  (λ a. elim (e.0 a) [ inl b ↦ inl b | inr c ↦ inr (f.0 c) ]),
  (λ s. elim s [ inl b ↦ e.1 (inl b) | inr d ↦ e.1 (inr (f.1 d)) ]),
)

or_more : {A B C D : Type 0} → A ↔ (B ⊎ C) → B ↔ D → A ↔ (D ⊎ C)
or_more e f = (
  (λ a. elim (e.0 a) [ inl b ↦ inl (f.0 b) | inr c ↦ inr c ]),
  (λ s. elim s [ inl d ↦ e.1 (inl (f.1 d)) | inr c ↦ e.1 (inr c) ]),
)

-- Where the marks differ, nothing is added.
nothing_added : (m n : Mark) (A B : Type 0) → mark_eq m n ≡ false → A ↔ (A ⊎ ((m ≡ n) × B))
nothing_added m n A B e = (
  (λ a. inl a),
  (λ s. elim s [
    | inl a ↦ a
    | inr k ↦ absurd (false_ne_true (sym e ∙ (ap (mark_eq m) (sym (k.0)) ∙ mark_eq_refl m)))
  ]),
)

module _ {C I : Type 0} where
  Member-append_iff :
      (x : BlockPath C I) (ps qs : List (BlockPath C I))
      → Member x (ps ++ qs) ↔ (Member x ps ⊎ Member x qs)
  Member-append_iff x ps qs = (
    Member-append x ps qs,
    (λ s. elim s [ inl m ↦ Member-append_left x ps qs m | inr m ↦ Member-append_right x ps qs m ]),
  )

  Member-append_paths :
      (m : Mark) (ps : List (BlockPath C I)) (found : FoundPaths C I) (n : Mark) (x : BlockPath C I)
      → Member x (paths_to (append_paths m ps found) n)
        ↔ (Member x (paths_to found n) ⊎ ((m ≡ n) × Member x ps))
  unfolding append_paths paths_to
  Member-append_paths m ps [] n x = elim (Bool-cases (mark_eq m n)) [
    | inl e ↦
        rw e ((λ k. inr (mark_eq-eq m n e, k)), (λ s. elim s [ inl k ↦ absurd k | inr k ↦ k.1 ]))
    | inr e ↦ rw e (nothing_added m n ⊥ (Member x ps) e)
  ]
  Member-append_paths m ps ((l, qs) ∷ found) n x = elim (Bool-cases (mark_eq l m)) [
    | inl d ↦ elim (Bool-cases (mark_eq l n)) [
      | inl e ↦
          let here : m ≡ n = sym (mark_eq-eq l m d) ∙ mark_eq-eq l n e in
          rw (d, e) (iff_or (Member-append_iff x qs ps) ((λ k. (here, k)), (λ k. k.1)))
      | inr e ↦ rw (d, e) (nothing_added m n _ (Member x ps) (rw (mark_eq-eq l m d) at e))
    ]
    | inr d ↦ elim (Bool-cases (mark_eq l n)) [
      | inl e ↦
          let apart : mark_eq m n ≡ false = apart mark-IsTest l m n d e in
          rw (d, e) (nothing_added m n (Member x qs) (Member x ps) apart)
      | inr e ↦ rw (d, e) (Member-append_paths m ps found n x)
    ]
  ]

module _ {C I : Type 0} (for : Mark) (b : ℕ) (p : List (Edge C I)) (n : Mark)
    (x : BlockPath C I) where
  -- The path from the block, filed under the mark by a list of marks.
  abbrev Added : List Mark → Type 0
  Added is = Member n is × (allowed for b p n ≡ true) × (x ≡ record { start = b; edges = p })

  Added-skip : (m : Mark) (is : List Mark) → allowed for b p m ≡ false → Added is ↔ Added (m ∷ is)
  Added-skip m is h = (
    (λ (k, a, e). (inr k, a, e)),
    (λ (k, a, e). elim k [
      | inl q ↦ absurd (false_ne_true (sym h ∙ (ap (allowed for b p) (sym q) ∙ a)))
      | inr k' ↦ (k', a, e)
    ]),
  )

  Added-cons :
      (m : Mark) (is : List Mark) (A : Type 0)
      → allowed for b p m ≡ true
      → ((A ⊎ ((m ≡ n) × Member x (record { start = b; edges = p } ∷ []))) ⊎ Added is)
        ↔ (A ⊎ Added (m ∷ is))
  Added-cons m is A h = (
    (λ s. elim s [
      | inl (inl a) ↦ inl a
      | inl (inr (q, inl e)) ↦ inr (inl (sym q), ap (allowed for b p) (sym q) ∙ h, e)
      | inl (inr (q, inr e)) ↦ absurd e
      | inr (k, a, e) ↦ inr (inr k, a, e)
    ]),
    (λ s. elim s [
      | inl a ↦ inl (inl a)
      | inr (inl q, a, e) ↦ inl (inr (sym q, inl e))
      | inr (inr k, a, e) ↦ inr (k, a, e)
    ]),
  )

  Member-add_indices :
      (is : List Mark) (found : FoundPaths C I)
      → Member x (paths_to (add_indices for b p is found) n)
        ↔ (Member x (paths_to found n) ⊎ Added is)
  unfolding add_indices
  Member-add_indices [] found = ((λ k. inl k), (λ s. elim s [ inl k ↦ k | inr k ↦ absurd (k.0) ]))
  Member-add_indices (m ∷ is) found = elim (Bool-cases (allowed for b p m)) [
    | inl h ↦
        let one : List (BlockPath C I) = record { start = b; edges = p } ∷ [] in
        rw h (
          iff_trans
            (or_more (Member-add_indices is (append_paths m one found))
              (Member-append_paths m one found n x))
            (Added-cons m is (Member x (paths_to found n)) h))
    | inr h ↦ rw h (iff_or (Member-add_indices is found) (Added-skip m is h))
  ]

module _ {C I : Type 0} (terminator : ℕ → Terminator C I) (marked : BidirBlockMarkMap) (for : Mark)
    (b : ℕ) (n : Mark) (x : BlockPath C I) where
  -- A list of edges from the block is the path, and ends with the mark.
  abbrev pub IsFiled : List (Edge C I) → Type 0
  IsFiled p =
      (is : List Mark) × (indices terminator marked b p ≡ ok is)
      × Member n is
      × (allowed for b p n ≡ true)
      × (x ≡ record { start = b; edges = p })

  abbrev AnyFiled : List (List (Edge C I)) → Type 0
  AnyFiled ps = (p : List (Edge C I)) × Member p ps × IsFiled p

  AnyFiled-cons :
      (p : List (Edge C I)) (ps : List (List (Edge C I))) (is : List Mark) (A : Type 0)
      → indices terminator marked b p ≡ ok is
      → ((A ⊎ Added for b p n x is) ⊎ AnyFiled ps) ↔ (A ⊎ AnyFiled (p ∷ ps))
  AnyFiled-cons p ps is A u = (
    (λ s. elim s [
      | inl (inl a) ↦ inl a
      | inl (inr (k, a, e)) ↦ inr (p, inl refl, (is, u, k, a, e))
      | inr (q, m, f) ↦ inr (q, inr m, f)
    ]),
    (λ s. elim s [
      | inl a ↦ inl (inl a)
      | inr (q, inl e, (is', v, k, a, i)) ↦ inl (inr (moved q is' e v (k, a, i)))
      | inr (q, inr m, f) ↦ inr (q, m, f)
    ]),
  )
    where
      moved :
          (q : List (Edge C I)) (is' : List Mark)
          → q ≡ p
          → indices terminator marked b q ≡ ok is'
          → Added for b q n x is'
          → Added for b p n x is
      moved q is' e v a =
          let same : is' ≡ is = ok-injective (sym v ∙ (ap (indices terminator marked b) e ∙ u)) in
          rw (e, same) at a

  Member-add_paths :
      (ps : List (List (Edge C I))) (found found' : FoundPaths C I)
      → add_paths terminator marked for b ps found ≡ ok found'
      → Member x (paths_to found' n) ↔ (Member x (paths_to found n) ⊎ AnyFiled ps)
  unfolding add_paths
  Member-add_paths [] found found' h =
      rw (← ok-injective h) ((λ k. inl k), (λ s. elim s [ inl k ↦ k | inr (p, k, f) ↦ absurd k ]))
  Member-add_paths (p ∷ ps) found found' h =
      let (is, u, v) = >>=-eq-ok (indices terminator marked b p) _ h in
      iff_trans
        (or_more (Member-add_paths ps (add_indices for b p is found) found' v)
          (Member-add_indices for b p n x is found))
        (AnyFiled-cons p ps is (Member x (paths_to found n)) u)

  -- What is filed under the second mark, in terms of the tests of the search.
  pub find_paths_starting_at-IsFiled :
      (fuel : ℕ) (found : FoundPaths C I)
      → find_paths_starting_at terminator marked fuel for b ≡ ok found
      → Member x (paths_to found n)
        ↔ ((p : List (Edge C I)) × IsSegment terminator marked true b p × IsFiled p)
  unfolding find_paths_starting_at paths_to
  find_paths_starting_at-IsFiled fuel found h =
      let (ps, u, v) = >>=-eq-ok (traverse terminator marked fuel b true []) _ h in
      let k = Member-add_paths ps [] found v in
      let t = λ (p : List (Edge C I)). traverse-IsSegment terminator marked fuel b true [] ps u p in
      (
        (λ m. elim (k.0 m) [ inl e ↦ absurd e | inr (p, g, f) ↦ (p, (t p).0 g, f) ]),
        (λ (p, g, f). k.1 (inr (p, (t p).1 g, f))),
      )
