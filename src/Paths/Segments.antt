-- ===== src/Paths/Segments.antt =====
-- The paths of `traverse` are the segments of the control flow graph between marked blocks, all of
-- them and nothing else.
use llreve.Prelude.{
  ℕ, zero, suc, Bool, true, false, List, [], ◌∷◌, ◌++◌, map, ◌≡◌, ◌↔◌, refl, ap, Bool-cases, ◌⊎◌,
  inl, inr,
}
use llreve.Prelude.{Result, ok, err-ne-ok, exit_one, >>=-eq-ok, ok-injective}
use llreve.Marks.{BidirBlockMarkMap, member}
use llreve.Paths.{Edge, Terminator, outgoing, follow, stops, traverse}

module _ {A : Type 0} where
  abbrev pub Member : A → List A → Type 0
  Member x [] = ⊥
  Member x (y ∷ ys) = (x ≡ y) ⊎ Member x ys

  pub Member-append_left : (x : A) (xs ys : List A) → Member x xs → Member x (xs ++ ys)
  Member-append_left x [] ys m = absurd m
  Member-append_left x (z ∷ xs) ys (inl e) = inl e
  Member-append_left x (z ∷ xs) ys (inr m) = inr (Member-append_left x xs ys m)

  pub Member-append_right : (x : A) (xs ys : List A) → Member x ys → Member x (xs ++ ys)
  Member-append_right x [] ys m = m
  Member-append_right x (z ∷ xs) ys m = inr (Member-append_right x xs ys m)

  pub Member-append : (x : A) (xs ys : List A) → Member x (xs ++ ys) → Member x xs ⊎ Member x ys
  Member-append x [] ys m = inr m
  Member-append x (z ∷ xs) ys (inl e) = inl (inl e)
  Member-append x (z ∷ xs) ys (inr m) = elim (Member-append x xs ys m) [
    | inl l ↦ inl (inr l)
    | inr r ↦ inr r
  ]

module _ {A B : Type 0} where
  Member-map : (f : A → B) (x : A) (xs : List A) → Member x xs → Member (f x) (map f xs)
  Member-map f x [] m = absurd m
  Member-map f x (y ∷ xs) (inl e) = inl (ap f e)
  Member-map f x (y ∷ xs) (inr m) = inr (Member-map f x xs m)

  map-Member :
      (f : A → B) (y : B) (xs : List A) → Member y (map f xs) → (x : A) × Member x xs × (y ≡ f x)
  map-Member f y [] m = absurd m
  map-Member f y (x ∷ xs) (inl e) = (x, inl refl, e)
  map-Member f y (x ∷ xs) (inr m) = let (z, k, e) = map-Member f y xs m in (z, inr k, e)

module _ {C I : Type 0} (terminator : ℕ → Terminator C I) (marked : BidirBlockMarkMap) where
  -- A list of edges that follows the terminators from a block and ends at the first block at which
  -- a path may stop.
  abbrev pub IsSegment : Bool → ℕ → List (Edge C I) → Type 0
  IsSegment first b [] = stops terminator marked first b ≡ true
  IsSegment first b (e ∷ es) =
      (stops terminator marked first b ≡ false)
      × Member e (outgoing (terminator b))
      × IsSegment false e.block es

module _ {C I : Type 0} (next : ℕ → Result (List (List (Edge C I))))
    (Good : ℕ → List (Edge C I) → Type 0) where
  abbrev pub IsSound : Type 0
  IsSound =
      (b : ℕ) (ps : List (List (Edge C I))) (p : List (Edge C I))
      → next b ≡ ok ps
      → Member p ps
      → Good b p

  abbrev pub IsComplete : Type 0
  IsComplete =
      (b : ℕ) (ps : List (List (Edge C I))) (p : List (Edge C I))
      → next b ≡ ok ps
      → Good b p
      → Member p ps

  follow_sound :
      IsSound
      → (es : List (Edge C I)) (ps : List (List (Edge C I))) (p : List (Edge C I))
      → follow next es ≡ ok ps
      → Member p ps
      → (e : Edge C I) × (q : List (Edge C I)) × Member e es × Good e.block q × (p ≡ (e ∷ q))
  unfolding follow
  follow_sound sound [] ps p h m = absurd (rw (← ok-injective h) at m)
  follow_sound sound (e ∷ es) ps p h m =
      let (qs, u, r) = >>=-eq-ok (next e.block) _ h in
      let (rs, v, s) = >>=-eq-ok (follow next es) _ r in
      elim (Member-append p (map (λ q. e ∷ q) qs) rs (rw (← ok-injective s) at m)) [
        | inl l ↦
            let (q, k, i) = map-Member (λ q. e ∷ q) p qs l in
            (e, q, inl refl, sound e.block qs q u k, i)
        | inr l ↦ let (f, q, k, g, i) = follow_sound sound es rs p v l in (f, q, inr k, g, i)
      ]

  follow_complete :
      IsComplete
      → (es : List (Edge C I)) (ps : List (List (Edge C I))) (e : Edge C I) → (q : List (Edge C I))
      → follow next es ≡ ok ps
      → Member e es
      → Good e.block q
      → Member (e ∷ q) ps
  unfolding follow
  follow_complete complete [] ps e q h m g = absurd m
  follow_complete complete (d ∷ es) ps e q h m g =
      let (qs, u, r) = >>=-eq-ok (next d.block) _ h in
      let (rs, v, s) = >>=-eq-ok (follow next es) _ r in
      rw (← ok-injective s) (elim m [
        | inl i ↦
            Member-append_left (e ∷ q) (map (λ q. d ∷ q) qs) rs
              (rw i (Member-map (λ q. d ∷ q) q qs (complete d.block qs q u (rw i at g))))
        | inr k ↦
            Member-append_right (e ∷ q) (map (λ q. d ∷ q) qs) rs
              (follow_complete complete es rs e q v k g)
      ])

module _ {C I : Type 0} (terminator : ℕ → Terminator C I) (marked : BidirBlockMarkMap) where
  traverse_sound :
      (fuel : ℕ) (first : Bool) (visited : List ℕ)
      → IsSound
          (λ b. traverse terminator marked fuel b first visited)
          (IsSegment terminator marked first)
  unfolding traverse
  traverse_sound zero first visited b ps p h m = cc
  traverse_sound (suc fuel) first visited b ps p h m =
      elim (Bool-cases (stops terminator marked first b)) [
        | inl s ↦
            let w : Member p ([] ∷ []) = rw (← ok-injective (rw s at h)) at m in
            elim w [ inl i ↦ rw i s | inr k ↦ absurd k ]
        | inr s ↦ elim (Bool-cases (member visited b)) [
          | inl v ↦ absurd (err-ne-ok exit_one ps (rw (s, v) at h))
          | inr v ↦
              let (e, q, k, g, i) =
                follow_sound (λ b'. traverse terminator marked fuel b' false (b ∷ visited))
                  (IsSegment terminator marked false) (traverse_sound fuel false (b ∷ visited))
                  (outgoing (terminator b)) ps p (rw (s, v) at h) m in
              rw i (s, k, g)
        ]
      ]

  traverse_complete :
      (fuel : ℕ) (first : Bool) (visited : List ℕ)
      → IsComplete
          (λ b. traverse terminator marked fuel b first visited)
          (IsSegment terminator marked first)
  unfolding traverse
  traverse_complete zero first visited b ps p h g = cc
  traverse_complete (suc fuel) first visited b ps [] h g =
      rw (← ok-injective (rw g at h)) (inl refl)
  traverse_complete (suc fuel) first visited b ps (e ∷ q) h g =
      elim (Bool-cases (member visited b)) [
        | inl v ↦ absurd (err-ne-ok exit_one ps (rw (g.0, v) at h))
        | inr v ↦
            follow_complete (λ b'. traverse terminator marked fuel b' false (b ∷ visited))
              (IsSegment terminator marked false) (traverse_complete fuel false (b ∷ visited))
              (outgoing (terminator b)) ps e q (rw (g.0, v) at h) g.1 g.2
      ]

  -- If `traverse` returns paths, a list of edges is one of them if and only if it is a segment: it
  -- follows the terminators, no block before its last is one to stop at, and its last block is.
  pub traverse-IsSegment :
      (fuel b : ℕ) (first : Bool) (visited : List ℕ) (ps : List (List (Edge C I)))
      → traverse terminator marked fuel b first visited ≡ ok ps
      → (p : List (Edge C I)) → Member p ps ↔ IsSegment terminator marked first b p
  traverse-IsSegment fuel b first visited ps h p =
      (traverse_sound fuel first visited b ps p h, traverse_complete fuel first visited b ps p h)
