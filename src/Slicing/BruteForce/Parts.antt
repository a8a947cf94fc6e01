-- ===== src/Slicing/BruteForce/Parts.antt =====
-- The instructions that a pattern of `slicing/src/slicingMethods/BruteForce.cpp` marks, as a part of
-- those that may be sliced.
use llreve.Prelude.{
  ℕ, suc, ◌≡◌, refl, ap, Bool, true, false, if◌then◌else◌, length, List, [], ◌∷◌, Option, none,
  some, ok, ◌>>=◌, arith,
}
use llreve.Slicing.Patterns.Every.{count_ones}
use llreve.Slicing.BruteForce.{to_be_sliced}

-- The instructions that a pattern marks.
unfoldable pub chosen : List Bool → List ℕ → List ℕ
chosen bs [] = []
chosen [] (i ∷ is) = []
chosen (b ∷ bs) (i ∷ is) = let rest = chosen bs is in if b then i ∷ rest else rest

pub to_be_sliced-chosen :
    (bs : List Bool) (is : List ℕ) → length bs ≡ length is → to_be_sliced bs is ≡ ok (chosen bs is)
unfolding to_be_sliced chosen
to_be_sliced-chosen bs [] l = refl
to_be_sliced-chosen [] (i ∷ is) l = absurd (omega (arith, l))
to_be_sliced-chosen (b ∷ bs) (i ∷ is) l =
    ap (λ m. m >>= λ rest. ok (if b then i ∷ rest else rest))
      (to_be_sliced-chosen bs is (omega (arith, l)))

pub length-chosen :
    (bs : List Bool) (is : List ℕ) → length bs ≡ length is → length (chosen bs is) ≡ count_ones bs
unfolding chosen count_ones
length-chosen [] [] l = refl
length-chosen (b ∷ bs) [] l = absurd (omega (arith, l))
length-chosen [] (i ∷ is) l = absurd (omega (arith, l))
length-chosen (true ∷ bs) (i ∷ is) l = ap suc (length-chosen bs is (omega (arith, l)))
length-chosen (false ∷ bs) (i ∷ is) l = length-chosen bs is (omega (arith, l))

-- A part of a list, in the list's order.
pub data Part : List ℕ → List ℕ → Type 0 where
  done : Part [] []
  take : {xs ys : List ℕ} (i : ℕ) → Part xs ys → Part (i ∷ xs) (i ∷ ys)
  leave : {xs ys : List ℕ} (i : ℕ) → Part xs ys → Part xs (i ∷ ys)

pub chosen-Part : (bs : List Bool) (is : List ℕ) → length bs ≡ length is → Part (chosen bs is) is
unfolding chosen
chosen-Part bs [] l = done
chosen-Part [] (i ∷ is) l = absurd (omega (arith, l))
chosen-Part (true ∷ bs) (i ∷ is) l = take i (chosen-Part bs is (omega (arith, l)))
chosen-Part (false ∷ bs) (i ∷ is) l = leave i (chosen-Part bs is (omega (arith, l)))

pub Part-chosen :
    {cut is : List ℕ}
    → Part cut is
    → (bs : List Bool) × (length bs ≡ length is) × (chosen bs is ≡ cut)
unfolding chosen
Part-chosen done = ([], refl, refl)
Part-chosen (take i t) = let r = Part-chosen t in (true ∷ r.0, ap suc r.1, ap (◌∷◌ i) r.2)
Part-chosen (leave i t) = let r = Part-chosen t in (false ∷ r.0, ap suc r.1, r.2)

-- The instructions that a pattern marks, if there is one.
unfoldable pub cut_of : List ℕ → Option (List Bool) → Option (List ℕ)
unfolding chosen
cut_of is none = none
cut_of is (some bs) = some (chosen bs is)
