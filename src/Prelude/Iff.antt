-- ===== src/Prelude/Iff.antt =====
-- Equivalences, and equivalences of families of statements about the members of a list.
use mathlib.Core.Logic.{◌↔◌}
use mathlib.Core.List.{List, [], ◌∷◌, ◌++◌, map}
use llreve.Prelude.Lists.{All, All-append, All-append_left, All-append_right}

module _ {A B C : Type 0} where
  pub iff_trans : A ↔ B → B ↔ C → A ↔ C
  iff_trans e f = ((λ a. f.0 (e.0 a)), (λ c. e.1 (f.1 c)))

module _ {A B : Type 0} where
  pub iff_sym : A ↔ B → B ↔ A
  iff_sym e = (e.1, e.0)

module _ {A J : Type 0} where
  pub All-swap :
      (P : J → A → Type 0) (xs : List A) → All (λ x. (j : J) → P j x) xs ↔ ((j : J) → All (P j) xs)
  All-swap P [] = ((λ _ j. tt), (λ _. tt))
  All-swap P (x ∷ xs) = (
    (λ h j. (h.0 j, (All-swap P xs).0 h.1 j)),
    (λ h. ((λ j. (h j).0), (All-swap P xs).1 (λ j. (h j).1))),
  )

module _ {A B : Type 0} where
  pub All-map :
      (P : A → Type 0) (Q : B → Type 0) (f : A → B)
      → ((x : A) → Q (f x) ↔ P x)
      → (xs : List A) → All Q (map f xs) ↔ All P xs
  All-map P Q f h [] = ((λ _. tt), (λ _. tt))
  All-map P Q f h (x ∷ xs) = (
    (λ k. ((h x).0 k.0, (All-map P Q f h xs).0 k.1)),
    (λ k. ((h x).1 k.0, (All-map P Q f h xs).1 k.1)),
  )

module _ {A : Type 0} where
  pub All-append_iff : (P : A → Type 0) (xs ys : List A) → All P (xs ++ ys) ↔ (All P xs × All P ys)
  All-append_iff P xs ys = (
    (λ h. (All-append_left P xs ys h, All-append_right P xs ys h)),
    (λ h. All-append P xs ys h.0 h.1),
  )
