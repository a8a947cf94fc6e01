-- ===== src/Dynamic/Interpreter/Rounds.antt =====
-- How a round of the loop of `interpretFunction` ends.
use llreve.Prelude.{
  ℕ, Bool, true, false, ◌||◌, Option, none, some, ltb, ◌≡◌, refl, sym, inl, inr, ◌⊎◌, ◌∙◌,
  Bool-cases, ok, ok-injective, Result,
}
use llreve.Dynamic.Machine.{State, Call, BlockUpdate}
use llreve.Dynamic.Interpreter.Functions.{Progress, advance, finish, after_block}

some_branch :
    {A : Type 0} (m n : A) (o : Option ℕ) (b : ℕ)
    → o ≡ some b
    → (elim o [ none ↦ m | some c ↦ n ]) ≡ n
some_branch m n none b e = cc
some_branch m n (some c) b e = refl

module _ {W Z : Type 0} (next : Progress W Z → ℕ → Result (Call W Z)) (f : ℕ) (entry : State W Z)
    (max_steps : ℕ) (p : Progress W Z) (u : BlockUpdate W Z) where
  abbrev pub is_spent : Bool
  is_spent = ltb max_steps (advance p u).visited || u.stopped_early

  after_block_more :
      is_spent ≡ false
      → (b : ℕ) → u.next_block ≡ some b
      → after_block next f entry max_steps p u ≡ next (advance p u) max_steps
  unfolding after_block
  after_block_more on b e = rw (after_block, on) (some_branch _ _ u.next_block b e)

  after_block_last :
      is_spent ≡ false
      → u.next_block ≡ none
      → after_block next f entry max_steps p u ≡ ok (finish f entry false (advance p u))
  unfolding after_block
  after_block_last on e = rw (after_block, on) (rw e refl)

  after_block_spent :
      is_spent ≡ true
      → after_block next f entry max_steps p u ≡ ok (finish f entry true (advance p u))
  unfolding after_block
  after_block_spent e = rw (after_block, e) refl

  -- The steps are used up, or the function returns, or there is a next block.
  pub after_block-cases :
      (c : Call W Z)
      → after_block next f entry max_steps p u ≡ ok c
      → ((is_spent ≡ true) × (finish f entry true (advance p u) ≡ c))
        ⊎ ((is_spent ≡ false)
            × (((u.next_block ≡ none) × (finish f entry false (advance p u) ≡ c))
                ⊎ ((b : ℕ) × (u.next_block ≡ some b) × (next (advance p u) max_steps ≡ ok c))))
  after_block-cases c h = elim (Bool-cases is_spent) [
    | inl spent ↦ inl (spent, ok-injective (sym (after_block_spent spent) ∙ h))
    | inr on ↦ inr (
      on,
      elim (next-cases u.next_block) [
        | inl last ↦ inl (last, ok-injective (sym (after_block_last on last) ∙ h))
        | inr (b, e) ↦ inr (b, e, sym (after_block_more on b e) ∙ h)
      ],
    )
  ]
    where
      next-cases : (o : Option ℕ) → (o ≡ none) ⊎ ((b : ℕ) × (o ≡ some b))
      next-cases none = inl refl
      next-cases (some b) = inr (b, refl)
