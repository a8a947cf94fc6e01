-- ===== src/Dynamic/Ends.antt =====
-- That a step of the interpreter ends: it returns, or it stops with a failure of the program. Only
-- a recursion that is given too few rounds does neither.
pub mod Integers
pub mod Operators
pub mod Memory
pub mod Blocks
use llreve.Prelude.{
  Bool, true, false, ◌≡◌, refl, Option, none, some, if◌then◌else◌, Result, ok, err, ◌>>=◌, Failure,
  assertion, exit_one, undefined, out_of_fuel,
}

pub data Ends {A : Type 0} : Result A → Type 0 where
  returned : (a : A) → Ends (ok a)
  failed : (e : Failure) → (e ≡ out_of_fuel → ⊥) → Ends (err e)

module _ {A : Type 0} where
  pub assertion-Ends : Ends {A = A} (err assertion)
  assertion-Ends = failed assertion (λ h. cc)

  pub exit_one-Ends : Ends {A = A} (err exit_one)
  exit_one-Ends = failed exit_one (λ h. cc)

  pub undefined-Ends : Ends {A = A} (err undefined)
  undefined-Ends = failed undefined (λ h. cc)

  pub if-Ends : (b : Bool) {m n : Result A} → Ends m → Ends n → Ends (if b then m else n)
  if-Ends true h k = h
  if-Ends false h k = k

  pub Ends-ne : {m : Result A} → Ends m → m ≡ err out_of_fuel → ⊥
  Ends-ne (returned a) h = cc
  Ends-ne (failed e n) h = n (err_injective h)
    where
      err_injective : {d e : Failure} → ◌≡◌ {A = Result A} (err d) (err e) → d ≡ e
      err_injective h = cc

module _ {A B : Type 0} where
  -- with what the first step returned
  pub >>=-Ends_of :
      {m : Result A} {f : A → Result B}
      → Ends m
      → ((a : A) → m ≡ ok a → Ends (f a))
      → Ends (m >>= f)
  >>=-Ends_of (returned a) h = h a refl
  >>=-Ends_of (failed e n) h = failed e n

  pub >>=-Ends :
      {m : Result A} {f : A → Result B} → Ends m → ((a : A) → Ends (f a)) → Ends (m >>= f)
  >>=-Ends (returned a) h = h a
  >>=-Ends (failed e n) h = failed e n

-- a branch that waits for its test
pub branch-Ends :
    {A : Type 0} (b : Bool) {m n : Result A}
    → Ends m
    → Ends n
    → Ends (elim b [ true ↦ m | false ↦ n ])
branch-Ends true h k = h
branch-Ends false h k = k

pub test-Ends :
    {A : Type 0} (b : Bool) {m n : Result A}
    → Ends m
    → (b ≡ false → Ends n)
    → Ends (elim b [ true ↦ m | false ↦ n ])
test-Ends true h k = h
test-Ends false h k = k refl

pub option-Ends :
    {A B : Type 0} (o : Option B) {m n : Result A}
    → Ends m
    → Ends n
    → Ends (elim o [ none ↦ m | some b ↦ n ])
option-Ends none h k = h
option-Ends (some b) h k = k
