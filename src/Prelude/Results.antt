-- ===== src/Prelude/Results.antt =====
-- What a function of the program returns when it may stop: by `exit(1)` behind an error message, by
-- a failed assertion, by an access out of range, or by an operation that C++ leaves undefined.
-- `out_of_fuel` is no outcome of the program: a recursion of the model was given too few rounds.
use mathlib.Core.Path.{◌≡◌, refl}
use mathlib.Core.Bool.{Bool, true, false, ◌&&◌}

pub data Failure : Type 0 where
  exit_one assertion out_of_range undefined out_of_fuel : Failure

pub data Result {ℓ} (A : Type ℓ) : Type ℓ where
  ok : A → Result A
  err : Failure → Result A

module _ {ℓ κ} {X : Type ℓ} {Y : Type κ} where
  infixl 5 ◌>>=◌
  abbrev pub ◌>>=◌ : Result X → (X → Result Y) → Result Y
  err stop >>= rest = err stop
  ok x >>= rest = rest x

  -- What is returned after a first step is returned for what that step returned.
  pub >>=-eq-ok :
      (first : Result X) (rest : X → Result Y) {y : Y} (returned : (first >>= rest) ≡ ok y)
      → (x : X) × (first ≡ ok x) × (rest x ≡ ok y)
  >>=-eq-ok (err stop) rest returned = cc
  >>=-eq-ok (ok x) rest returned = (x, refl, returned)

pub ok-injective {ℓ} : {A : Type ℓ} {a b : A} → ok a ≡ ok b → a ≡ b
ok-injective h = cc

abbrev pub is_ok {ℓ} : {A : Type ℓ} → Result A → Bool
is_ok (ok a) = true
is_ok (err e) = false

pub is_ok-bind {ℓ κ} :
    {A : Type ℓ} {B : Type κ} (m : Result A) (f : A → Result B) (b : Bool)
    → ((a : A) → is_ok (f a) ≡ b)
    → is_ok (m >>= f) ≡ (is_ok m && b)
is_ok-bind (ok a) f b h = h a
is_ok-bind (err e) f b h = refl

pub is_ok-ok {ℓ} : {A : Type ℓ} (m : Result A) → is_ok m ≡ true → (a : A) × (m ≡ ok a)
is_ok-ok (ok a) h = (a, refl)
is_ok-ok (err e) h = cc

pub err-ne-ok {ℓ} : {A : Type ℓ} (e : Failure) (a : A) → err e ≡ ok a → ⊥
err-ne-ok e a h = cc

module _ {A B C : Type 0} where
  -- Operands one after the other, and what is made of them.
  pub is_ok-two :
      (m : Result A) (n : Result B) (f : A → B → Result C) (b : Bool)
      → ((x : A) (y : B) → is_ok (f x y) ≡ b)
      → is_ok (m >>= λ x. n >>= λ y. f x y) ≡ (is_ok m && (is_ok n && b))
  is_ok-two m n f b h = is_ok-bind m _ (is_ok n && b) (λ x. is_ok-bind n (f x) b (h x))

  pub is_ok-pair :
      (m : Result A) (n : Result B) (f : A → B → C)
      → is_ok (m >>= λ x. n >>= λ y. ok (f x y)) ≡ (is_ok m && is_ok n)
  is_ok-pair (ok a) (ok b) f = refl
  is_ok-pair (ok a) (err e) f = refl
  is_ok-pair (err e) n f = refl

module _ {A B : Type 0} where
  pub is_ok-wrap : (m : Result A) (f : A → B) → is_ok (m >>= λ x. ok (f x)) ≡ is_ok m
  is_ok-wrap (ok a) f = refl
  is_ok-wrap (err e) f = refl

pub is_ok-three :
    {A B C D : Type 0} (m : Result A) (n : Result B) (k : Result C) (f : A → B → C → D)
    → is_ok (m >>= λ x. n >>= λ y. k >>= λ z. ok (f x y z)) ≡ (is_ok m && (is_ok n && is_ok k))
is_ok-three m n k f = is_ok-bind m _ (is_ok n && is_ok k) (λ x. is_ok-pair n k (f x))
