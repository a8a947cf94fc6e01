-- ===== src/Slicing/Patterns/Every.antt =====
-- The lists of patterns that the search of `slicing/src/slicingMethods/BruteForce.cpp` walks along:
-- their numbers of zeros and ones, and that none is missing.
use mathlib.Core.Path.{subst}
use llreve.Prelude.{
  ℕ, zero, suc, ◌+◌, ◌≡◌, refl, sym, ap, Bool, true, false, length, List, [], ◌∷◌, map, All,
  All-append, All-append_left, All-append_right, arith,
}
use llreve.Slicing.Patterns.{repeated}
use llreve.Slicing.Patterns.Chosen.{choose}
use llreve.Slicing.Patterns.Visited.{patterns_from}

unfoldable pub count_zeros : List Bool → ℕ
count_zeros [] = 0
count_zeros (true ∷ bs) = count_zeros bs
count_zeros (false ∷ bs) = suc (count_zeros bs)

unfoldable pub count_ones : List Bool → ℕ
count_ones [] = 0
count_ones (true ∷ bs) = suc (count_ones bs)
count_ones (false ∷ bs) = count_ones bs

pub count_zeros-count_ones : (bs : List Bool) → count_zeros bs + count_ones bs ≡ length bs
unfolding count_zeros count_ones
count_zeros-count_ones [] = omega arith
count_zeros-count_ones (true ∷ bs) = omega (arith, count_zeros-count_ones bs)
count_zeros-count_ones (false ∷ bs) = omega (arith, count_zeros-count_ones bs)

All-map :
    {A B : Type 0} (P : B → Type 0) (f : A → B) (xs : List A)
    → All (λ x. P (f x)) xs
    → All P (map f xs)
All-map P f [] h = tt
All-map P f (x ∷ xs) h = (h.0, All-map P f xs h.1)

All-of_map :
    {A B : Type 0} (P : B → Type 0) (f : A → B) (xs : List A)
    → All P (map f xs)
    → All (λ x. P (f x)) xs
All-of_map P f [] h = tt
All-of_map P f (x ∷ xs) h = (h.0, All-of_map P f xs h.1)

All-imp :
    {A : Type 0} (P Q : A → Type 0) (xs : List A) → ((x : A) → P x → Q x) → All P xs → All Q xs
All-imp P Q [] f h = tt
All-imp P Q (x ∷ xs) f h = (f x h.0, All-imp P Q xs f h.1)

unfoldable pub Counted : ℕ → ℕ → List Bool → Type 0
Counted n ones p = (count_zeros p ≡ n) × (count_ones p ≡ ones)

repeated-false : (n : ℕ) → Counted n 0 (repeated false n)
unfolding Counted repeated count_zeros count_ones
repeated-false zero = (refl, refl)
repeated-false (suc n) = (ap suc (repeated-false n).0, (repeated-false n).1)

repeated-true : (n : ℕ) → Counted 0 n (repeated true n)
unfolding Counted repeated count_zeros count_ones
repeated-true zero = (refl, refl)
repeated-true (suc n) = ((repeated-true n).0, ap suc (repeated-true n).1)

-- The chosen patterns have the numbers of zeros and ones asked for.
pub choose-Counted : (n ones : ℕ) → All (Counted n ones) (choose n ones)
unfolding choose Counted count_zeros count_ones
choose-Counted zero ones = (repeated-true ones, tt)
choose-Counted (suc n) zero = (repeated-false (suc n), tt)
choose-Counted (suc n) (suc ones) =
    All-append _ _ _
      (All-map _ (◌∷◌ false) _
        (All-imp _ _ _ (λ p h. (ap suc h.0, h.1)) (choose-Counted n (suc ones))))
      (All-map _ (◌∷◌ true) _
        (All-imp _ _ _ (λ p h. (h.0, ap suc h.1)) (choose-Counted (suc n) ones)))

only_zeros : (p : List Bool) (n : ℕ) → Counted n 0 p → p ≡ repeated false n
unfolding Counted repeated count_zeros count_ones
only_zeros [] zero h = refl
only_zeros [] (suc n) h = absurd (omega (arith, h.0))
only_zeros (true ∷ p) n h = absurd (omega (arith, h.1))
only_zeros (false ∷ p) zero h = absurd (omega (arith, h.0))
only_zeros (false ∷ p) (suc n) h = ap (◌∷◌ false) (only_zeros p n (omega (arith, h.0), h.1))

only_ones : (p : List Bool) (n : ℕ) → Counted 0 n p → p ≡ repeated true n
unfolding Counted repeated count_zeros count_ones
only_ones [] zero h = refl
only_ones [] (suc n) h = absurd (omega (arith, h.1))
only_ones (false ∷ p) n h = absurd (omega (arith, h.0))
only_ones (true ∷ p) zero h = absurd (omega (arith, h.1))
only_ones (true ∷ p) (suc n) h = ap (◌∷◌ true) (only_ones p n (h.0, omega (arith, h.1)))

no_pattern : (n ones : ℕ) → Counted (suc n) ones [] → ⊥
unfolding Counted count_zeros
no_pattern n ones c = omega (arith, c.0)

tail_zero : (n ones : ℕ) (p : List Bool) → Counted (suc n) ones (false ∷ p) → Counted n ones p
unfolding Counted count_zeros count_ones
tail_zero n ones p c = (omega (arith, c.0), c.1)

tail_one : (n ones : ℕ) (p : List Bool) → Counted n (suc ones) (true ∷ p) → Counted n ones p
unfolding Counted count_zeros count_ones
tail_one n ones p c = (c.0, omega (arith, c.1))

-- What holds of all chosen patterns holds of every pattern with these numbers of zeros and ones.
pub choose-All :
    (P : List Bool → Type 0) (n ones : ℕ) (p : List Bool)
    → All P (choose n ones)
    → Counted n ones p
    → P p
unfolding choose
choose-All P zero ones p h c = subst P (sym (only_ones p ones c)) h.0
choose-All P (suc n) zero p h c = subst P (sym (only_zeros p (suc n) c)) h.0
choose-All P (suc n) (suc ones) [] h c = absurd (no_pattern n (suc ones) c)
choose-All P (suc n) (suc ones) (false ∷ p) h c =
    choose-All (λ q. P (false ∷ q)) n (suc ones) p
      (All-of_map P (◌∷◌ false) _ (All-append_left P _ _ h)) (tail_zero n (suc ones) p c)
choose-All P (suc n) (suc ones) (true ∷ p) h c =
    choose-All (λ q. P (true ∷ q)) (suc n) ones p
      (All-of_map P (◌∷◌ true) _ (All-append_right P (map (◌∷◌ false) (choose n (suc ones))) _ h))
      (tail_one (suc n) ones p c)

patterns_from-length : (ones n : ℕ) → All (λ p. length p ≡ n + ones) (patterns_from ones n)
unfolding patterns_from Counted
patterns_from-length zero n =
    All-imp (Counted n zero) _ (choose n zero)
      (λ p c. omega (arith, c.0, c.1, count_zeros-count_ones p)) (choose-Counted n zero)
patterns_from-length (suc ones) n =
    All-append _ (choose n (suc ones)) (patterns_from ones (suc n))
      (All-imp (Counted n (suc ones)) _ (choose n (suc ones))
        (λ p c. omega (arith, c.0, c.1, count_zeros-count_ones p)) (choose-Counted n (suc ones)))
      (All-imp _ _ (patterns_from ones (suc n)) (λ p l. omega (arith, l))
        (patterns_from-length ones (suc n)))

pub patterns_from-length_zero : (n : ℕ) → All (λ p. length p ≡ n) (patterns_from n 0)
patterns_from-length_zero n =
    All-imp _ _ (patterns_from n 0) (λ p l. omega (arith, l)) (patterns_from-length n 0)
