-- ===== src/Serialize/Arrays/Arity.antt =====
-- Declarations and applications of invariants are instantiated alike.
use llreve.Prelude.{
  ℕ, suc, Bool, true, false, List, [], ◌∷◌, Option, none, some, ◌≡◌, refl, length, ◌⊎◌, inl, inr,
  arith,
}
use llreve.Smt.Sort.{Sort, is_array}
use llreve.Smt.Expr.{Expr, Args, nil, cons}
use llreve.Serialize.Arrays.{heap_info, index_args, instantiate_sorts}

Option-cases : {A : Type 0} (o : Option A) → (o ≡ none) ⊎ ((a : A) × (o ≡ some a))
Option-cases none = inl refl
Option-cases (some a) = inr (a, refl)

module _ {I F : Type 0} where
  abbrev pub count_args : Args I F → ℕ
  count_args nil = 0
  count_args (cons e es) = suc (count_args es)

  abbrev pub is_heap : Expr I F → Bool
  is_heap e = elim (heap_info e) [ none ↦ false | some h ↦ true ]

  -- The operands fit the sorts: as many, and the arrays are the heap variables.
  abbrev pub Fits : List Sort → Args I F → Type 0
  Fits [] nil = Unit
  Fits (s ∷ ss) (cons e es) = (is_array s ≡ is_heap e) × Fits ss es
  Fits _ _ = ⊥

  -- If the operands of an application fit the sorts of a declaration, then the instantiated
  -- application has as many operands as the instantiated declaration has sorts.
  pub count_args-index_args :
      (ss : List Sort) (es : Args I F)
      → Fits ss es
      → count_args (index_args true es) ≡ length (instantiate_sorts ss)
  unfolding index_args instantiate_sorts
  count_args-index_args [] nil h = refl
  count_args-index_args (s ∷ ss) (cons e es) h =
      let ih = count_args-index_args ss es h.1 in
      elim (Option-cases (heap_info e)) [
        | inl p ↦
            let w : is_array s ≡ false = rw (p, is_heap) at (h.0) in
            rw (p, w, index_args) (omega (arith, ih))
        | inr (i, p) ↦
            let w : is_array s ≡ true = rw (p, is_heap) at (h.0) in
            rw (p, w, index_args) (omega (arith, ih))
      ]
  count_args-index_args [] (cons e es) h = absurd h
  count_args-index_args (s ∷ ss) nil h = absurd h
