-- ===== src/Dynamic/Interpreter/Budget.antt =====
-- How many blocks `interpretFunction` visits where no block makes a call.
use llreve.Prelude.{
  ℕ, zero, suc, ◌+◌, ◌^◌, ◌≤◌, ◌<◌, Bool, true, false, ◌||◌, ltb, ◌≡◌, ◌≢◌, refl, sym, ap, ◌∙◌, inl,
  inr, or-false, arith, ok, err, out_of_fuel, >>=-eq-ok, Result, err-ne-ok,
}
use llreve.Dynamic.Integers.{Arithmetic, NumberOptions}
use llreve.Dynamic.Machine.{
  Block, Function, State, Call, Steps, no_steps, step, Calls, add_step, early_exit, blocks_visited,
  call_steps, BlockUpdate,
}
use llreve.Dynamic.Interpreter.Blocks.{add_u32, sub_u32, interpret_block}
use llreve.Dynamic.Interpreter.Functions.{
  Progress, begin_at, advance, finish, call_with, after_block, interpret_from,
  interpret_function_at,
}
use llreve.Dynamic.Interpreter.Rounds.{after_block-cases}
use llreve.Dynamic.Ends.{Ends, returned, Ends-ne, >>=-Ends_of, test-Ends, option-Ends}
use llreve.Dynamic.Ends.Blocks.{IsCallFree, interpret_block-Ends, interpret_block_alone}

unfoldable pub count_steps : {W Z : Type 0} → Steps W Z → ℕ
count_steps no_steps = 0
count_steps (step b s cs steps) = suc (count_steps steps)

count_steps-add_step :
    {W Z : Type 0} (steps : Steps W Z) (b : ℕ) (s : State W Z) (cs : Calls W Z)
    → count_steps (add_step steps b s cs) ≡ suc (count_steps steps)
unfolding count_steps add_step
count_steps-add_step no_steps b s cs = refl
count_steps-add_step (step b' s' cs' steps) b s cs = ap suc (count_steps-add_step steps b s cs)

add_u32_one : (a : ℕ) → a + 1 < 2 ^ 32 → add_u32 a 1 ≡ suc a
unfolding add_u32
add_u32_one a h = omega arith

module _ {W Z : Type 0} (lib : Arithmetic W Z) (opts : NumberOptions) (functions : ℕ → Function)
    (blocks : ℕ → Block W) (free : (b : ℕ) → IsCallFree (blocks b).body) (max_steps : ℕ)
    (small : max_steps + 1 < 2 ^ 32) (f : ℕ) (entry : State W Z) where
  visited-advance :
      (p : Progress W Z) (u : BlockUpdate W Z)
      → p.visited ≤ max_steps
      → u.visited ≡ 1
      → (advance p u).visited ≡ suc p.visited
  unfolding advance
  visited-advance p u le one =
      ap (add_u32 p.visited) one ∙ add_u32_one p.visited (omega (arith, le, small))

  le_of_test : (a b : ℕ) → ltb a b ≡ false → b ≤ a
  le_of_test a b h = ground arith

  after_block-Ends :
      (next : Progress W Z → ℕ → Result (Call W Z)) (p : Progress W Z) (u : BlockUpdate W Z)
      → ((advance p u).visited ≤ max_steps → Ends (next (advance p u) max_steps))
      → Ends (after_block next f entry max_steps p u)
  unfolding after_block
  after_block-Ends next p u h =
      test-Ends (ltb max_steps (advance p u).visited || u.stopped_early) (returned _) (λ e.
        option-Ends u.next_block (returned _)
          (h (le_of_test max_steps (advance p u).visited (or-false _ _ e).0)))

  module _ (p : Progress W Z) (rest : ℕ → State W Z → Progress W Z → ℕ → Result (Call W Z)) where
    abbrev BlockOf : Result (BlockUpdate W Z)
    BlockOf =
        interpret_block lib opts functions (call_with functions rest) (blocks p.current) p.previous
          p.state p.first (sub_u32 max_steps p.visited)

    BlockOf-Ends : Ends BlockOf
    BlockOf-Ends =
        interpret_block-Ends lib opts functions (call_with functions rest)
          (sub_u32 max_steps p.visited) (blocks p.current) p.previous p.state p.first
          (free p.current)

    -- Every block counts once.
    block_counts :
        (u : BlockUpdate W Z)
        → BlockOf ≡ ok u
        → p.visited ≤ max_steps
        → (u.stopped_early ≡ false) × ((advance p u).visited ≡ suc p.visited)
    block_counts u made le =
        let (on, one) =
          interpret_block_alone lib opts functions (call_with functions rest)
            (sub_u32 max_steps p.visited) (blocks p.current) p.previous p.state p.first
            (free p.current) u made in
        (on, visited-advance p u le one)

  interpret_from-Ends :
      (fuel : ℕ) (p : Progress W Z)
      → p.visited ≤ max_steps
      → max_steps < p.visited + fuel
      → Ends (interpret_from lib opts functions blocks fuel f entry p max_steps)
  unfolding interpret_from
  interpret_from-Ends zero p le enough = absurd (omega (arith, le, enough))
  interpret_from-Ends (suc fuel) p le enough =
      let run = interpret_from lib opts functions blocks fuel in
      >>=-Ends_of (BlockOf-Ends p run) (λ u made.
        let visited = (block_counts p run u made le).1 in
        after_block-Ends (run f entry) p u
          (λ below. interpret_from-Ends fuel (advance p u) below (omega (arith, visited, enough))))

  -- What is counted in a call: its blocks are its steps, at most one more than allowed, and the
  -- call has ended early if they are more than allowed.
  abbrev pub IsCounted : Call W Z → Type 0
  IsCounted c =
      (blocks_visited c ≡ count_steps (call_steps c))
      × (blocks_visited c ≤ max_steps + 1)
      × (early_exit c ≡ ltb max_steps (blocks_visited c))

  finish-IsCounted :
      (p : Progress W Z) (early : Bool)
      → p.visited ≡ count_steps p.steps
      → p.visited ≤ max_steps + 1
      → ltb max_steps p.visited ≡ early
      → IsCounted (finish f entry early p)
  unfolding finish
  finish-IsCounted p early same le e = (same, le, sym e)

  interpret_from-IsCounted :
      (fuel : ℕ) (p : Progress W Z) (c : Call W Z)
      → p.visited ≤ max_steps
      → p.visited ≡ count_steps p.steps
      → interpret_from lib opts functions blocks fuel f entry p max_steps ≡ ok c
      → IsCounted c
  unfolding interpret_from
  interpret_from-IsCounted zero p c le same h = absurd (err-ne-ok out_of_fuel c h)
  interpret_from-IsCounted (suc fuel) p c le same h =
      let run = interpret_from lib opts functions blocks fuel in
      let (u, made, rest) = >>=-eq-ok (BlockOf p run) _ h in
      let (on, visited) = block_counts p run u made le in
      let same' : (advance p u).visited ≡ count_steps (advance p u).steps =
        visited
        ∙ (ap suc same ∙ sym (count_steps-add_step p.steps p.current u.state_after_phis u.calls)) in
      let le' : (advance p u).visited ≤ max_steps + 1 = omega (arith, visited, le) in
      elim (after_block-cases (run f entry) f entry max_steps p u c rest) [
        | inl (spent, e) ↦
            rw (← e) (finish-IsCounted (advance p u) true same' le' (or-left _ _ on spent))
        | inr (on', inl (last, e)) ↦
            rw (← e) (finish-IsCounted (advance p u) false same' le' (or-false _ _ on').0)
        | inr (on', inr (b, e, more)) ↦
            interpret_from-IsCounted fuel (advance p u) c
              (le_of_test max_steps (advance p u).visited (or-false _ _ on').0) same' more
      ]
    where
      or-left : (a b : Bool) → b ≡ false → (a || b) ≡ true → a ≡ true
      or-left a b h k = ground arith

-- Where no block makes a call and the allowed number of steps is below 2 ^ 32 - 1, more rounds than
-- the steps allowed are enough: the interpreter returns a call or stops with a failure.
pub interpret_function_at-ne-out_of_fuel :
    {W Z : Type 0} (lib : Arithmetic W Z) (opts : NumberOptions) (functions : ℕ → Function)
    (blocks : ℕ → Block W)
    → ((b : ℕ) → IsCallFree (blocks b).body)
    → (fuel f : ℕ) (entry : State W Z) (start max_steps : ℕ) → max_steps + 1 < 2 ^ 32
    → max_steps < fuel
    → interpret_function_at lib opts functions blocks fuel f entry start max_steps ≢ err out_of_fuel
unfolding interpret_function_at begin_at
interpret_function_at-ne-out_of_fuel lib opts functions blocks free fuel f entry start max_steps
      small enough =
    Ends-ne (
      interpret_from-Ends lib opts functions blocks free max_steps small f entry fuel
        (begin_at start entry) (omega arith) (omega (arith, enough)))

-- Where no block makes a call and the allowed number of steps is below 2 ^ 32 - 1, if the
-- interpreter returns a call, then the blocks visited are the steps of the call, they are at most
-- one more than allowed, and the call has ended early exactly if they are more than allowed.
pub interpret_function_at-count_steps :
    {W Z : Type 0} (lib : Arithmetic W Z) (opts : NumberOptions) (functions : ℕ → Function)
    (blocks : ℕ → Block W)
    → ((b : ℕ) → IsCallFree (blocks b).body)
    → (fuel f : ℕ) (entry : State W Z) (start max_steps : ℕ) (c : Call W Z) → max_steps + 1 < 2 ^ 32
    → interpret_function_at lib opts functions blocks fuel f entry start max_steps ≡ ok c
    → (blocks_visited c ≡ count_steps (call_steps c))
      × (blocks_visited c ≤ max_steps + 1)
      × (early_exit c ≡ ltb max_steps (blocks_visited c))
unfolding interpret_function_at begin_at count_steps
interpret_function_at-count_steps lib opts functions blocks free fuel f entry start max_steps c
      small h =
    interpret_from-IsCounted lib opts functions blocks free max_steps small f entry fuel
      (begin_at start entry) c (omega arith) refl h
