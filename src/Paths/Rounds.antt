-- ===== src/Paths/Rounds.antt =====
-- Rounds of `traverse`: a block that was visited is not followed again, so the recursion ends.
use llreve.Prelude.{
  ℕ, zero, suc, ◌≤◌, ◌<◌, ◌+◌, Bool, true, false, List, [], ◌∷◌, map, ◌++◌, ◌≡◌, ◌≢◌, if◌then◌else◌,
  Bool-cases, inl, inr, length, arith,
}
use llreve.Prelude.{Result, ok, err, exit_one, out_of_fuel, ◌>>=◌}
use llreve.Marks.{BidirBlockMarkMap, member}
use llreve.Paths.{Edge, Terminator, outgoing, follow, stops, traverse}

-- The blocks of a list that are not visited yet.
count_unvisited : List ℕ → List ℕ → ℕ
count_unvisited visited [] = 0
count_unvisited visited (b ∷ bs) = (if member visited b then 0 else 1) + count_unvisited visited bs

count_unvisited-length : (bs : List ℕ) → count_unvisited [] bs ≤ length bs
unfolding count_unvisited member
count_unvisited-length [] = omega arith
count_unvisited-length (b ∷ bs) = omega (arith, count_unvisited-length bs)

count_unvisited-cons :
    (b : ℕ) (visited bs : List ℕ) → count_unvisited (b ∷ visited) bs ≤ count_unvisited visited bs
unfolding count_unvisited member
count_unvisited-cons b visited [] = omega arith
count_unvisited-cons b visited (c ∷ bs) = ground (arith, count_unvisited-cons b visited bs)

count_unvisited-visit :
    (b : ℕ) (visited bs : List ℕ)
    → member bs b ≡ true
    → member visited b ≡ false
    → count_unvisited (b ∷ visited) bs < count_unvisited visited bs
unfolding count_unvisited member
count_unvisited-visit b visited [] m v = cc
count_unvisited-visit b visited (c ∷ bs) m v =
    ground (arith, count_unvisited-visit b visited bs, count_unvisited-cons b visited bs)

module _ {C I : Type 0} (bs : List ℕ) where
  -- All edges lead to blocks of the list.
  abbrev pub IsWithin : List (Edge C I) → Type 0
  IsWithin [] = Unit
  IsWithin (e ∷ es) = (member bs e.block ≡ true) × IsWithin es

  follow-rounds :
      (next : ℕ → Result (List (List (Edge C I)))) (es : List (Edge C I))
      → ((b : ℕ) → member bs b ≡ true → next b ≢ err out_of_fuel)
      → IsWithin es
      → follow next es ≢ err out_of_fuel
  unfolding follow
  follow-rounds next [] enough w h = cc
  follow-rounds next (e ∷ es) enough w h =
      bind_rounds (next e.block) (follow next es) (λ ps qs. map (λ p. e ∷ p) ps ++ qs)
        (enough e.block w.0) (follow-rounds next es enough w.1) h
    where
      bind_rounds :
          {A : Type 0} (r s : Result A) (f : A → A → A)
          → r ≢ err out_of_fuel
          → s ≢ err out_of_fuel
          → (r >>= (λ a. s >>= (λ b. ok (f a b)))) ≢ err out_of_fuel
      bind_rounds (ok a) (ok b) f p q h = cc
      bind_rounds (ok a) (err e) f p q h = q h
      bind_rounds (err e) s f p q h = p h

module _ {C I : Type 0} (terminator : ℕ → Terminator C I) (marked : BidirBlockMarkMap)
    (bs : List ℕ) where
  -- The blocks of a function: terminators lead from one to another.
  abbrev pub IsClosed : Type 0
  IsClosed = (b : ℕ) → member bs b ≡ true → IsWithin bs (outgoing (terminator b))

  traverse-unvisited :
      IsClosed
      → (fuel b : ℕ) (first : Bool) (visited : List ℕ) → member bs b ≡ true
      → count_unvisited visited bs < fuel
      → traverse terminator marked fuel b first visited ≢ err out_of_fuel
  unfolding traverse
  traverse-unvisited closed zero b first visited m u h = omega (arith, u)
  traverse-unvisited closed (suc fuel) b first visited m u h =
      elim (Bool-cases (stops terminator marked first b)) [
        | inl s ↦ let w : ok ([] ∷ []) ≡ err out_of_fuel = rw s at h in cc
        | inr s ↦ elim (Bool-cases (member visited b)) [
          | inl v ↦ let w : err exit_one ≡ err out_of_fuel = rw (s, v) at h in cc
          | inr v ↦
              follow-rounds bs (λ b'. traverse terminator marked fuel b' false (b ∷ visited))
                (outgoing (terminator b))
                (λ b' m'.
                  traverse-unvisited closed fuel b' false (b ∷ visited) m'
                    (omega (arith, u, count_unvisited-visit b visited bs m v)))
                (closed b m) (rw (s, v) at h)
        ]
      ]

  -- At a block of a function, more rounds than the function has blocks are enough: the recursion
  -- of `traverse` ends, with paths or with the error message.
  pub traverse-rounds :
      IsClosed
      → (fuel b : ℕ) (first : Bool) → member bs b ≡ true
      → length bs < fuel
      → traverse terminator marked fuel b first [] ≢ err out_of_fuel
  traverse-rounds closed fuel b first m l =
      traverse-unvisited closed fuel b first [] m (omega (arith, l, count_unvisited-length bs))
