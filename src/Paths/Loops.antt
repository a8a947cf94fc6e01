-- ===== src/Paths/Loops.antt =====
-- `traverse` reports a loop only if there is one without a mark.
use llreve.Prelude.{
  zero, suc, ℕ, ◌<◌, Bool, true, false, List, [], ◌∷◌, map, ◌++◌, ◌≡◌, ap, or-false, refl,
  Bool-cases, inl, inr, ◌⊎◌, arith, nat_eq, nat_eq-eq, All,
}
use llreve.Prelude.{Result, ok, err, is_ok, ◌>>=◌}
use llreve.Marks.{BidirBlockMarkMap, member}
use llreve.Paths.{Edge, Terminator, outgoing, follow, stops, is_marked, is_return, traverse}

module _ {C I : Type 0} (Good : ℕ → Type 0) where
  follow-is_ok :
      (next : ℕ → Result (List (List (Edge C I)))) (es : List (Edge C I))
      → ((b : ℕ) → Good b → is_ok (next b) ≡ true)
      → All (λ e. Good e.block) es
      → is_ok (follow next es) ≡ true
  unfolding follow
  follow-is_ok next [] total g = refl
  follow-is_ok next (e ∷ es) total g =
      bind_is_ok (next e.block) (follow next es) (λ ps qs. map (λ p. e ∷ p) ps ++ qs)
        (total e.block g.0) (follow-is_ok next es total g.1)
    where
      bind_is_ok :
          {A : Type 0} (r s : Result A) (f : A → A → A)
          → is_ok r ≡ true
          → is_ok s ≡ true
          → is_ok (r >>= (λ a. s >>= (λ b. ok (f a b)))) ≡ true
      bind_is_ok (ok a) (ok b) f p q = refl
      bind_is_ok (ok a) (err e) f p q = cc
      bind_is_ok (err e) s f p q = cc

module _ {C I : Type 0} (terminator : ℕ → Terminator C I) (marked : BidirBlockMarkMap)
    (rank : ℕ → ℕ) where
  -- Every edge between blocks at which `traverse` does not stop leads to a smaller rank: all loops
  -- have a mark.
  abbrev pub IsCut : Type 0
  IsCut =
      (b : ℕ)
      → is_marked terminator marked b ≡ false
      → All (λ e. rank e.block < rank b) (outgoing (terminator b))

  -- A visited block has a mark, or is above the current one.
  abbrev IsBehind : ℕ → ℕ → Type 0
  IsBehind b v = (is_marked terminator marked v ≡ true) ⊎ (rank b < rank v)

  unvisited :
      (b : ℕ) (visited : List ℕ)
      → is_marked terminator marked b ≡ false
      → All (IsBehind b) visited
      → member visited b ≡ false
  unfolding member
  unvisited b [] u a = refl
  unvisited b (v ∷ visited) u a = elim (Bool-cases (nat_eq v b)) [
    | inl e ↦ elim a.0 [
      | inl m ↦ absurd (clash (is_marked terminator marked) v b (nat_eq-eq v b e) m u)
      | inr l ↦ absurd (above rank v b (nat_eq-eq v b e) l)
    ]
    | inr e ↦ rw e (unvisited b visited u a.1)
  ]
    where
      clash : (f : ℕ → Bool) (v b : ℕ) → v ≡ b → f v ≡ true → f b ≡ false → ⊥
      clash f v b e m u = cc

      above : (f : ℕ → ℕ) (v b : ℕ) → v ≡ b → f b < f v → ⊥
      above f v b e l = omega (arith, ap f e, l)

  All-IsBehind :
      (b b' : ℕ) (visited : List ℕ)
      → rank b' < rank b
      → All (IsBehind b) visited
      → All (IsBehind b') visited
  All-IsBehind b b' [] l a = tt
  All-IsBehind b b' (v ∷ visited) l a = (
    elim a.0 [ inl m ↦ inl m | inr k ↦ inr (omega (arith, l, k)) ],
    All-IsBehind b b' visited l a.1,
  )

  stops-unmarked :
      (b : ℕ) → stops terminator marked false b ≡ false → is_marked terminator marked b ≡ false
  unfolding stops
  stops-unmarked b s =
      (or-false (is_marked terminator marked b) (is_return terminator marked b) s).0

  traverse-IsBehind :
      IsCut
      → (fuel b : ℕ) (visited : List ℕ) → All (IsBehind b) visited
      → rank b < fuel
      → is_ok (traverse terminator marked fuel b false visited) ≡ true
  unfolding traverse
  traverse-IsBehind cut zero b visited a l = absurd (omega (arith, l))
  traverse-IsBehind cut (suc fuel) b visited a l =
      elim (Bool-cases (stops terminator marked false b)) [
        | inl s ↦ rw s refl
        | inr s ↦
            let u = stops-unmarked b s in
            rw (s, unvisited b visited u a)
              (follow-is_ok (λ b'. rank b' < rank b)
                (λ b'. traverse terminator marked fuel b' false (b ∷ visited))
                (outgoing (terminator b))
                (λ b' k.
                  traverse-IsBehind cut fuel b' (b ∷ visited) (inr k, All-IsBehind b b' visited k a)
                    (omega (arith, k, l)))
                (cut b u))
      ]

  IsBehind-start : IsCut → (b : ℕ) → All (λ e. IsBehind e.block b) (outgoing (terminator b))
  IsBehind-start cut b = elim (Bool-cases (is_marked terminator marked b)) [
    | inl m ↦ All-all (λ e. IsBehind e.block b) (λ e. inl m) (outgoing (terminator b))
    | inr u ↦
        All-weaken (λ e. rank e.block < rank b) (λ e. IsBehind e.block b) (λ e l. inr l)
          (outgoing (terminator b)) (cut b u)
  ]
    where
      All-all : {A : Type 0} (P : A → Type 0) → ((x : A) → P x) → (xs : List A) → All P xs
      All-all P h [] = tt
      All-all P h (x ∷ xs) = (h x, All-all P h xs)

      All-weaken :
          {A : Type 0} (P Q : A → Type 0)
          → ((x : A) → P x → Q x)
          → (xs : List A) → All P xs
          → All Q xs
      All-weaken P Q h [] a = tt
      All-weaken P Q h (x ∷ xs) a = (h x a.0, All-weaken P Q h xs a.1)

  -- If all loops of the control flow graph have a mark and the ranks that show it are below a
  -- limit, then `traverse` returns paths from every block, without the error message, in any
  -- number of rounds above the limit.
  pub traverse-is_ok :
      IsCut
      → (limit : ℕ) → ((b : ℕ) → rank b < limit)
      → (fuel b : ℕ) → limit < fuel
      → is_ok (traverse terminator marked fuel b true []) ≡ true
  unfolding traverse member
  traverse-is_ok cut limit ranks zero b l = absurd (omega (arith, l))
  traverse-is_ok cut limit ranks (suc fuel) b l =
      elim (Bool-cases (stops terminator marked true b)) [
        | inl s ↦ rw s refl
        | inr s ↦ rw s (
            follow-is_ok (λ b'. IsBehind b' b)
              (λ b'. traverse terminator marked fuel b' false (b ∷ [])) (outgoing (terminator b))
              (λ b' k. traverse-IsBehind cut fuel b' (b ∷ []) (k, tt) (omega (arith, ranks b', l)))
              (IsBehind-start cut b))
      ]
