-- ===== src/Dynamic/Interpreter/Typed/Values.antt =====
-- Operators, loads and stores keep the kinds of values.
use mathlib.Core.Path.{subst}
use llreve.Prelude.{
  ℕ, ◌≡◌, ap, Bool, true, false, Bool-cases, inl, inr, nat_eq, nat_eq-eq, if◌then◌else◌, [], ◌∷◌,
  Result, ok, err, Failure, undefined, pos, ◌>>=◌,
}
use llreve.Dynamic.Integers.{Arithmetic, Integer, unbounded, bounded, NumberOptions, plus, times}
use llreve.Dynamic.Machine.{
  BinaryOp, add_op, sub_op, mul_op, sdiv_op, udiv_op, srem_op, urem_op, shl_op, lshr_op, ashr_op,
  and_op, or_op, xor_op, other_op, CastKind, zext_cast, sext_cast, trunc_cast, ptr_to_int_cast,
  int_to_ptr_cast, other_cast, VarMap, insert_or_replace, find_variable,
}
use llreve.Dynamic.Interpreter.Operators.{int_bin_op, cast_value}
use llreve.Dynamic.Interpreter.Typed.{Gives, HasKind, IsTypedMap}

module _ {A B : Type 0} where
  pub Gives-bind :
      (P : A → Type 0) (Q : B → Type 0) (m : Result A) (f : A → Result B)
      → Gives P m
      → ((a : A) → P a → Gives Q (f a))
      → Gives Q (m >>= f)
  unfolding Gives
  Gives-bind P Q (ok a) f p q = q a p
  Gives-bind P Q (err e) f p q = tt

  -- A step of which nothing is needed.
  pub Gives-after :
      (Q : B → Type 0) (m : Result A) (f : A → Result B)
      → ((a : A) → Gives Q (f a))
      → Gives Q (m >>= f)
  unfolding Gives
  Gives-after Q (ok a) f q = q a
  Gives-after Q (err e) f q = tt

pub Gives-if :
    {B : Type 0} (Q : B → Type 0) (b : Bool) (m n : Result B)
    → Gives Q m
    → Gives Q n
    → Gives Q (if b then m else n)
Gives-if Q true m n p q = p
Gives-if Q false m n p q = q

pub Gives-ok : {A : Type 0} (P : A → Type 0) (m : Result A) {a : A} → Gives P m → m ≡ ok a → P a
unfolding Gives
Gives-ok P m p e = subst (Gives P) e p

-- A failure gives nothing.
pub Gives-err : {A : Type 0} (P : A → Type 0) (e : Failure) → Gives P (err e)
unfolding Gives
Gives-err P e = tt

module _ {W Z : Type 0} (lib : Arithmetic W Z) where
  open lib use {words, numbers}

  number-HasKind : (n : Z) → HasKind lib false (unbounded n)
  unfolding HasKind
  number-HasKind n = tt

  -- An operator on numbers gives a number, or fails.
  pub plus-HasKind :
      (a b : Integer W Z)
      → HasKind lib false a
      → HasKind lib false b
      → Gives (HasKind lib false) (plus lib a b)
  unfolding HasKind plus Gives
  plus-HasKind (unbounded a) (unbounded b) h k = tt
  plus-HasKind (unbounded a) (bounded b) h k = absurd k
  plus-HasKind (bounded a) b h k = absurd h

  pub times-HasKind :
      (a b : Integer W Z)
      → HasKind lib false a
      → HasKind lib false b
      → Gives (HasKind lib false) (times lib a b)
  unfolding HasKind times Gives
  times-HasKind (unbounded a) (unbounded b) h k = tt
  times-HasKind (unbounded a) (bounded b) h k = absurd k
  times-HasKind (bounded a) b h k = absurd h

  division-HasKind :
      (b : Bool) (n : Z) → Gives (HasKind lib false) (if b then err undefined else ok (unbounded n))
  unfolding HasKind Gives
  division-HasKind true n = tt
  division-HasKind false n = tt

  int_bin_op-unbounded :
      (op : BinaryOp) (a b : Z)
      → Gives (HasKind lib false) (int_bin_op lib op (unbounded a) (unbounded b))
  unfolding HasKind Gives int_bin_op
  int_bin_op-unbounded add_op a b = tt
  int_bin_op-unbounded sub_op a b = tt
  int_bin_op-unbounded mul_op a b = tt
  int_bin_op-unbounded sdiv_op a b =
      division-HasKind (numbers.same b (numbers.of_int (pos 0))) (numbers.quotient a b)
  int_bin_op-unbounded udiv_op a b =
      division-HasKind (numbers.same b (numbers.of_int (pos 0))) (numbers.quotient a b)
  int_bin_op-unbounded srem_op a b =
      division-HasKind (numbers.same b (numbers.of_int (pos 0))) (numbers.remainder a b)
  int_bin_op-unbounded urem_op a b =
      division-HasKind (numbers.same b (numbers.of_int (pos 0))) (numbers.remainder a b)
  int_bin_op-unbounded shl_op a b = tt
  int_bin_op-unbounded lshr_op a b = tt
  int_bin_op-unbounded ashr_op a b = tt
  int_bin_op-unbounded and_op a b = tt
  int_bin_op-unbounded or_op a b = tt
  int_bin_op-unbounded xor_op a b = tt
  int_bin_op-unbounded other_op a b = tt

  pub int_bin_op-HasKind :
      (op : BinaryOp) (a b : Integer W Z)
      → HasKind lib false a
      → HasKind lib false b
      → Gives (HasKind lib false) (int_bin_op lib op a b)
  unfolding HasKind
  int_bin_op-HasKind op (unbounded a) (unbounded b) h k = int_bin_op-unbounded op a b
  int_bin_op-HasKind op (unbounded a) (bounded b) h k = absurd k
  int_bin_op-HasKind op (bounded a) b h k = absurd h

  -- Casts leave a number as it is.
  pub cast_value-HasKind :
      (opts : NumberOptions) (kind : CastKind) (width : ℕ) (a : Integer W Z)
      → HasKind lib false a
      → Gives (HasKind lib false) (cast_value lib opts kind width a)
  unfolding HasKind Gives cast_value
  cast_value-HasKind opts kind width (bounded a) h = absurd h
  cast_value-HasKind opts zext_cast width (unbounded a) h = tt
  cast_value-HasKind opts sext_cast width (unbounded a) h = tt
  cast_value-HasKind opts trunc_cast width (unbounded a) h = tt
  cast_value-HasKind opts ptr_to_int_cast width (unbounded a) h = tt
  cast_value-HasKind opts int_to_ptr_cast width (unbounded a) h = tt
  cast_value-HasKind opts other_cast width (unbounded a) h = tt

  pub insert_or_replace-IsTypedMap :
      (is_flag : ℕ → Bool) (k : ℕ) (v : Integer W Z) (vars : VarMap W Z)
      → HasKind lib (is_flag k) v
      → IsTypedMap lib is_flag vars
      → IsTypedMap lib is_flag (insert_or_replace k v vars)
  unfolding IsTypedMap insert_or_replace
  insert_or_replace-IsTypedMap is_flag k v [] h t = (h, tt)
  insert_or_replace-IsTypedMap is_flag k v (e ∷ vars) h t =
      split (nat_eq e.0 k) (insert_or_replace-IsTypedMap is_flag k v vars h t.1)
    where
      split :
          (b : Bool)
          → IsTypedMap lib is_flag (insert_or_replace k v vars)
          → IsTypedMap lib is_flag (if b then (k, v) ∷ vars else e ∷ insert_or_replace k v vars)
      split true r = (h, t.1)
      split false r = (t.0, r)

  pub same-HasKind :
      {b c : Bool} (v : Integer W Z) → b ≡ c → HasKind lib b v → Gives (HasKind lib c) (ok v)
  unfolding Gives
  same-HasKind v e h = subst (λ d. HasKind lib d v) e h

  pub find_variable-HasKind :
      (is_flag : ℕ → Bool) (vars : VarMap W Z) (k : ℕ)
      → IsTypedMap lib is_flag vars
      → Gives (HasKind lib (is_flag k)) (find_variable vars k)
  unfolding IsTypedMap find_variable
  find_variable-HasKind is_flag [] k t = Gives-err (HasKind lib (is_flag k)) undefined
  find_variable-HasKind is_flag ((j, v) ∷ vars) k t = elim (Bool-cases (nat_eq j k)) [
    | inl e ↦ rw (e) (same-HasKind v (ap is_flag (nat_eq-eq j k e)) t.0)
    | inr e ↦ rw (e) (find_variable-HasKind is_flag vars k t.1)
  ]
