-- ===== src/Slicing/Patterns/Chosen.antt =====
-- The patterns with given numbers of zeros and ones, described without `std::next_permutation`, and
-- how `slicing/src/slicingMethods/BruteForce.cpp` gets from one to the next.
use mathlib.Core.Path.{subst}
use mathlib.Core.List.{append-nil, reverse-append, reverse-cons}
use llreve.Prelude.{
  ℕ, zero, suc, ◌≡◌, refl, sym, ap, ap₂, ◌∙◌, Bool, true, false, List, [], ◌∷◌, ◌++◌, map, reverse,
  none, some,
}
use llreve.Slicing.Patterns.{repeated, swap_last, next_permutation}

-- The patterns with a number of zeros and a number of ones, in lexicographic order.
unfoldable pub choose : ℕ → ℕ → List (List Bool)
unfolding repeated
choose zero ones = repeated true ones ∷ []
choose (suc n) zero = repeated false (suc n) ∷ []
choose (suc n) (suc ones) =
    map (◌∷◌ false) (choose n (suc ones)) ++ map (◌∷◌ true) (choose (suc n) ones)

-- The first and the last of them.
unfoldable pub rising : ℕ → ℕ → List Bool
unfolding repeated
rising n ones = repeated false n ++ repeated true ones

unfoldable pub falling : ℕ → ℕ → List Bool
unfolding repeated
falling ones n = repeated true ones ++ repeated false n

-- The patterns that `next_permutation` steps through from one pattern to another, both included.
pub data Through : List Bool → List (List Bool) → List Bool → Type 0 where
  there : (p : List Bool) → Through p (p ∷ []) p
  further :
      {p p' q : List Bool} {ps : List (List Bool)}
      → next_permutation p ≡ some p'
      → Through p' ps q
      → Through p (p ∷ ps) q

next_permutation-some :
    (b : Bool) (bs : List Bool) {cs : List Bool}
    → next_permutation bs ≡ some cs
    → next_permutation (b ∷ bs) ≡ some (b ∷ cs)
unfolding next_permutation
next_permutation-some b bs h = rw (h) refl

next_permutation-swap :
    (b : Bool) (bs : List Bool) {c : Bool} {cs : List Bool}
    → next_permutation bs ≡ none
    → swap_last b bs ≡ some (c, cs)
    → next_permutation (b ∷ bs) ≡ some (c ∷ reverse cs)
unfolding next_permutation
next_permutation-swap b bs h k = rw (h, k) refl

next_permutation-none :
    (b : Bool) (bs : List Bool)
    → next_permutation bs ≡ none
    → swap_last b bs ≡ none
    → next_permutation (b ∷ bs) ≡ none
unfolding next_permutation
next_permutation-none b bs h k = rw (h, k) refl

Through-map :
    (b : Bool) {p q : List Bool} {ps : List (List Bool)}
    → Through p ps q
    → Through (b ∷ p) (map (◌∷◌ b) ps) (b ∷ q)
Through-map b (there p) = there (b ∷ p)
Through-map b (further {p} {p'} {q} {ps} h t) =
    further (next_permutation-some b p h) (Through-map b t)

Through-append :
    {p q r s : List Bool} {ps qs : List (List Bool)}
    → Through p ps q
    → next_permutation q ≡ some r
    → Through r qs s
    → Through p (ps ++ qs) s
Through-append (there p) h t = further h t
Through-append (further k u) h t = further k (Through-append u h t)

-- The value is not smaller than any entry.
swap_last-true : (bs : List Bool) → swap_last true bs ≡ none
unfolding swap_last
swap_last-true [] = refl
swap_last-true (b ∷ bs) = rw (swap_last-true bs) refl

swap_last-zeros : (n : ℕ) → swap_last false (repeated false n) ≡ none
unfolding swap_last repeated
swap_last-zeros zero = refl
swap_last-zeros (suc n) = rw (swap_last-zeros n) refl

swap_last-some :
    (a b : Bool) (bs : List Bool) {c : Bool} {cs : List Bool}
    → swap_last a bs ≡ some (c, cs)
    → swap_last a (b ∷ bs) ≡ some (c, b ∷ cs)
unfolding swap_last
swap_last-some a b bs h = rw (h) refl

swap_last-here :
    (bs : List Bool)
    → swap_last false bs ≡ none
    → swap_last false (true ∷ bs) ≡ some (true, false ∷ bs)
unfolding swap_last
swap_last-here bs h = rw (h) refl

swap_last-falling :
    (ones n : ℕ) → swap_last false (falling (suc ones) n) ≡ some (true, falling ones (suc n))
unfolding falling repeated
swap_last-falling zero n = swap_last-here (repeated false n) (swap_last-zeros n)
swap_last-falling (suc ones) n =
    swap_last-some false true (falling (suc ones) n) (swap_last-falling ones n)

pub next_permutation-falling : (ones n : ℕ) → next_permutation (falling ones n) ≡ none
unfolding falling repeated next_permutation
next_permutation-falling zero zero = refl
next_permutation-falling zero (suc n) =
    next_permutation-none false (falling 0 n) (next_permutation-falling zero n) (swap_last-zeros n)
next_permutation-falling (suc ones) n =
    next_permutation-none true (falling ones n) (next_permutation-falling ones n)
      (swap_last-true (falling ones n))

pub repeated-append :
    (b : Bool) (n : ℕ) (bs : List Bool) → repeated b n ++ (b ∷ bs) ≡ b ∷ (repeated b n ++ bs)
unfolding repeated
repeated-append b zero bs = refl
repeated-append b (suc n) bs = ap (◌∷◌ b) (repeated-append b n bs)

reverse-repeated : (b : Bool) (n : ℕ) → reverse (repeated b n) ≡ repeated b n
unfolding repeated
reverse-repeated b zero = refl
reverse-repeated b (suc n) =
    reverse-cons b (repeated b n)
    ∙ ap (λ bs. bs ++ (b ∷ [])) (reverse-repeated b n)
    ∙ repeated-append b n []
    ∙ ap (◌∷◌ b) (append-nil _)

pub reverse-falling : (ones n : ℕ) → reverse (falling ones n) ≡ rising n ones
unfolding falling rising
reverse-falling ones n =
    reverse-append (repeated true ones) (repeated false n)
    ∙ ap₂ ◌++◌ (reverse-repeated false n) (reverse-repeated true ones)

-- From the last pattern that begins with a zero to the first that begins with a one.
next_permutation-middle :
    (n ones : ℕ)
    → next_permutation (false ∷ falling (suc ones) n) ≡ some (true ∷ rising (suc n) ones)
next_permutation-middle n ones =
    next_permutation-swap false (falling (suc ones) n) (next_permutation-falling (suc ones) n)
      (swap_last-falling ones n)
    ∙ ap (λ bs. some (true ∷ bs)) (reverse-falling ones (suc n))

pub choose-Through : (n ones : ℕ) → Through (rising n ones) (choose n ones) (falling ones n)
unfolding choose rising falling repeated
choose-Through zero ones =
    subst (λ q. Through (repeated true ones) (repeated true ones ∷ []) q)
      (sym (append-nil (repeated true ones))) (there (repeated true ones))
choose-Through (suc n) zero =
    subst (λ p. Through p (repeated false (suc n) ∷ []) (repeated false (suc n)))
      (sym (append-nil (repeated false (suc n)))) (there (repeated false (suc n)))
choose-Through (suc n) (suc ones) =
    Through-append (Through-map false (choose-Through n (suc ones)))
      (next_permutation-middle n ones) (Through-map true (choose-Through (suc n) ones))
