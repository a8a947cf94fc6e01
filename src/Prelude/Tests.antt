-- ===== src/Prelude/Tests.antt =====
-- Boolean tests on native numbers, the conditional, and lemmas to split on a computed value.
use Prim.Native.Nat.{ℕ, ◌<◌, compare, Ordering}
use Prim.Native.String.{String}
use mathlib.Core.Path.{◌≡◌, refl}
use mathlib.Core.Logic.{◌≢◌, ◌⊎◌, inl, inr}
use mathlib.Core.Bool.{Bool, true, false, not, ◌&&◌, ◌||◌}
use native.Mathlib.Omega.{arith}
use text.Mathlib.Text.{◌==◌}
use text.Mathlib.TextEquality.{eq_iff}

abbrev pub ltb : ℕ → ℕ → Bool
ltb a b = elim (compare a b) [ Ordering.lt ↦ true | _ ↦ false ]

abbrev pub nat_eq : ℕ → ℕ → Bool
nat_eq a b = elim (compare a b) [ Ordering.eq ↦ true | _ ↦ false ]

infix 1 if◌then◌else◌
abbrev pub if◌then◌else◌ {ℓ} : {A : Type ℓ} → Bool → A → A → A
if true then x else y = x
if false then x else y = y

pub Bool-cases : (b : Bool) → (b ≡ true) ⊎ (b ≡ false)
Bool-cases true = inl refl
Bool-cases false = inr refl

pub or-false : (a b : Bool) → (a || b) ≡ false → (a ≡ false) × (b ≡ false)
or-false a b h = ground arith

pub and-true : (a b : Bool) → (a && b) ≡ true → (a ≡ true) × (b ≡ true)
and-true a b h = ground arith

pub not-true : (b : Bool) → not b ≡ true → b ≡ false
not-true b h = ground arith

pub or-true_left : (a b : Bool) → a ≡ true → (a || b) ≡ true
or-true_left a b h = ground arith

pub or-true_right : (a b : Bool) → b ≡ true → (a || b) ≡ true
or-true_right a b h = ground arith

-- Texts that the test tells apart are different, and the other way round.
pub ne_of_test : (s t : String) → (s == t) ≡ false → s ≢ t
ne_of_test s t h e = ground (arith, eq_iff s t)

pub test_of_ne : (s t : String) → s ≢ t → (s == t) ≡ false
test_of_ne s t h = ground (arith, eq_iff s t)

pub nat_eq-eq : (a b : ℕ) → nat_eq a b ≡ true → a ≡ b
nat_eq-eq a b h = ground arith

pub or-merge : (a b c : Bool) {m r : Bool} → m ≡ (a || c) → r ≡ (b || m) → r ≡ ((a || b) || c)
or-merge a b c p q = ground arith

pub or_eq : (a b c d : Bool) → a ≡ c → b ≡ d → (a || b) ≡ (c || d)
or_eq a b c d p q = ground arith

-- A test on texts cannot pass at one of two texts that are the same and fail at the other.
pub test_clash : (f : String → Bool) (x y : String) → (x == y) ≡ true → f x ≡ false → f y ≡ true → ⊥
test_clash f x y e p q = ground (arith, eq_iff x y)

pub eq-nat_eq : (a b : ℕ) → a ≡ b → nat_eq a b ≡ true
eq-nat_eq a b h = ground arith

pub lt→ltb : (a b : ℕ) → a < b → ltb a b ≡ true
lt→ltb a b h = ground arith

pub and_cong : (a b c d : Bool) → a ≡ c → b ≡ d → (a && b) ≡ (c && d)
and_cong a b c d p q = ground arith

pub and_true_right : (a : Bool) → a ≡ (a && true)
and_true_right a = ground arith

pub or-cases : (a b : Bool) → (a || b) ≡ true → (a ≡ true) ⊎ (b ≡ true)
or-cases true b h = inl refl
or-cases false b h = inr h
