-- ===== src/Dynamic/Interpreter/Walks.antt =====
-- The steps of a call are a walk through the control flow graph.
use llreve.Prelude.{
  ℕ, zero, suc, Bool, true, false, List, [], ◌∷◌, Option, none, some, ◌≡◌, refl, sym, ap, ◌∙◌, inl,
  inr, ◌⊎◌, Bool-cases, ok, out_of_fuel, ok-injective, >>=-eq-ok, err-ne-ok, Result, if◌then◌else◌,
  or-false, ◌||◌,
}
use llreve.Marks.Sets.{false_ne_true}
use llreve.Paths.Segments.{Member}
use llreve.Dynamic.Integers.{Arithmetic, Integer, NumberOptions}
use llreve.Dynamic.Integers.Compare.{eq}
use llreve.Dynamic.Machine.{
  Terminator, return, branch, cond_branch, switch, other_terminator, Block, Function, State, Call,
  Steps, no_steps, Calls, add_step, early_exit, call_steps, no_calls, BlockUpdate,
}
use llreve.Dynamic.Interpreter.Operators.{resolve_value, unsafe_bool}
use llreve.Dynamic.Interpreter.Blocks.{
  case_value, case_successor, interpret_terminator, BodyState, finish_block, interpret_block,
  interpret_phis, interpret_body, sub_u32,
}
use llreve.Dynamic.Interpreter.Functions.{
  Progress, begin_at, advance, finish, call_with, interpret_from, interpret_function_at,
}
use llreve.Dynamic.Interpreter.Rounds.{after_block-cases}
use llreve.Dynamic.Ends.Blocks.{finish_block-ok}

module _ {W : Type 0} where
  unfoldable pub case_targets : List (W × ℕ) → List ℕ
  case_targets [] = []
  case_targets ((w, b) ∷ cases) = b ∷ case_targets cases

  -- The blocks that a terminator names.
  unfoldable pub targets : Terminator W → List ℕ
  unfolding case_targets
  targets (return key x) = []
  targets (branch b) = b ∷ []
  targets (cond_branch c b₀ b₁) = b₀ ∷ b₁ ∷ []
  targets (switch c cases default) = default ∷ case_targets cases
  targets other_terminator = []

-- The steps visit blocks of which each leads to the next, from the first one up to one that leads
-- to the last.
pub data Walk {W Z : Type 0} (blocks : ℕ → Block W) (start : ℕ) : Steps W Z → ℕ → Type 0 where
  begin : Walk blocks start no_steps start
  onward :
      {steps : Steps W Z} {b : ℕ}
      → Walk blocks start steps b
      → (c : ℕ) → Member c (targets (blocks b).terminator)
      → (s : State W Z) (cs : Calls W Z) (more : Steps W Z) → more ≡ add_step steps b s cs
      → Walk blocks start more c

module _ {W Z : Type 0} (lib : Arithmetic W Z) (opts : NumberOptions) where
  open lib use {words, numbers}

  -- What is known of the next block of a terminator.
  abbrev IsNext : Terminator W → Option ℕ → Type 0
  IsNext t none = targets t ≡ []
  IsNext t (some b) = Member b (targets t)

  case_successor-Member :
      (cases : List (W × ℕ)) (v : Integer W Z) (default b : ℕ)
      → case_successor lib opts cases v default ≡ ok b
      → Member b (default ∷ case_targets cases)
  unfolding case_successor case_targets
  case_successor-Member [] v default b h = inl (sym (ok-injective h))
  case_successor-Member ((w, c) ∷ cases) v default b h =
      let (d, found, h₁) = >>=-eq-ok (case_value lib opts w) _ h in
      let (same, test, rest) = >>=-eq-ok (eq lib d v) _ h₁ in
      elim (Bool-cases same) [
        | inl e ↦ inr (inl (sym (ok-injective (rw e at rest))))
        | inr e ↦ elim (case_successor-Member cases v default b (rw e at rest)) [
          | inl first ↦ inl first
          | inr m ↦ inr (inr m)
        ]
      ]

  interpret_terminator-IsNext :
      (t : Terminator W) (s : State W Z) (r : State W Z × Option ℕ)
      → interpret_terminator lib opts t s ≡ ok r
      → IsNext t r.1
  unfolding interpret_terminator targets
  interpret_terminator-IsNext (return key none) s r h = rw (← ok-injective h) refl
  interpret_terminator-IsNext (return key (some x)) s r h =
      let (v, found, made) = >>=-eq-ok (resolve_value lib opts x s) _ h in
      rw (← ok-injective made) refl
  interpret_terminator-IsNext (branch b) s r h = rw (← ok-injective h) (inl refl)
  interpret_terminator-IsNext (cond_branch c b₀ b₁) s r h =
      let (cond, found, h₁) = >>=-eq-ok (resolve_value lib opts c s) _ h in
      let (t, truth, made) = >>=-eq-ok (unsafe_bool lib cond) _ h₁ in
      rw (← ok-injective made) (chosen t)
    where
      chosen : (t : Bool) → Member (if t then b₀ else b₁) (b₀ ∷ b₁ ∷ [])
      chosen true = inl refl
      chosen false = inr (inl refl)
  interpret_terminator-IsNext (switch c cases default) s r h =
      let (v, found, h₁) = >>=-eq-ok (resolve_value lib opts c s) _ h in
      let (b, chosen, made) = >>=-eq-ok (case_successor lib opts cases v default) _ h₁ in
      rw (← ok-injective made) (case_successor-Member cases v default b chosen)
  interpret_terminator-IsNext other_terminator s r h = rw (← ok-injective h) refl

  finish_block-IsNext :
      (block : Block W) (after : State W Z) (b : BodyState W Z) (u : BlockUpdate W Z)
      → finish_block lib opts block after b ≡ ok u
      → (u.stopped_early ≡ true) ⊎ IsNext block.terminator u.next_block
  unfolding finish_block
  finish_block-IsNext block after b u h = elim (Bool-cases b.stopped) [
    | inl e ↦ inl (ap (λ (c : BlockUpdate W Z). c.stopped_early) (sym (ok-injective (rw e at h))))
    | inr e ↦
        let (t, end, same) = finish_block-ok lib opts block after b u e h in
        inr (rw same (interpret_terminator-IsNext block.terminator b.state t end))
  ]

module _ {W Z : Type 0} (lib : Arithmetic W Z) (opts : NumberOptions) (functions : ℕ → Function)
    (blocks : ℕ → Block W) where
  interpret_block-IsNext :
      (interpret_call : ℕ → State W Z → ℕ → Result (Call W Z)) (block : Block W) (prev : Option ℕ)
      (s : State W Z) (skip_phi : Bool) (max_steps : ℕ) (u : BlockUpdate W Z)
      → interpret_block lib opts functions interpret_call block prev s skip_phi max_steps ≡ ok u
      → (u.stopped_early ≡ true) ⊎ IsNext lib opts block.terminator u.next_block
  unfolding interpret_block
  interpret_block-IsNext interpret_call block prev s skip_phi max_steps u h =
      let (after, phis, h₁) =
        >>=-eq-ok (if skip_phi then ok s else interpret_phis lib opts prev block.phis s) _ h in
      let (b, body, h₂) =
        >>=-eq-ok
          (interpret_body lib opts functions interpret_call max_steps block.body
            (record { state = after; calls = no_calls; visited = 1; stopped = false }))
          _ h₁ in
      finish_block-IsNext lib opts block after b u h₂

  -- The steps end at a block that a walk leads to, which has no next block unless the call has
  -- ended early.
  abbrev pub EndsWalk : ℕ → Call W Z → Type 0
  EndsWalk start c =
      (steps : Steps W Z) × (b : ℕ) × (s : State W Z) × (cs : Calls W Z) × Walk blocks start steps b
      × (call_steps c ≡ add_step steps b s cs)
      × (early_exit c ≡ false → targets (blocks b).terminator ≡ [])

  finish-EndsWalk :
      (start f : ℕ) (entry : State W Z) (early : Bool) (p : Progress W Z) (u : BlockUpdate W Z)
      → Walk blocks start p.steps p.current
      → (early ≡ false → targets (blocks p.current).terminator ≡ [])
      → EndsWalk start (finish f entry early (advance p u))
  unfolding finish advance
  finish-EndsWalk start f entry early p u walk last =
      (p.steps, p.current, u.state_after_phis, u.calls, walk, refl, last)

  Walk-advance :
      (start : ℕ) (p : Progress W Z) (u : BlockUpdate W Z) (b : ℕ)
      → Walk blocks start p.steps p.current
      → u.next_block ≡ some b
      → IsNext lib opts (blocks p.current).terminator u.next_block
      → Walk blocks start (advance p u).steps (advance p u).current
  unfolding advance
  Walk-advance start p u b walk e next =
      rw e (onward walk b (rw e at next) u.state_after_phis u.calls _ refl)

  not_stopped :
      (spent stopped : Bool) {P : Type 0} → (spent || stopped) ≡ false → (stopped ≡ true) ⊎ P → P
  not_stopped spent stopped e (inl h) =
      absurd (false_ne_true (sym (or-false spent stopped e).1 ∙ h))
  not_stopped spent stopped e (inr p) = p

  interpret_from-EndsWalk :
      (fuel start f : ℕ) (entry : State W Z) (max_steps : ℕ) (p : Progress W Z) (c : Call W Z)
      → Walk blocks start p.steps p.current
      → interpret_from lib opts functions blocks fuel f entry p max_steps ≡ ok c
      → EndsWalk start c
  unfolding interpret_from
  interpret_from-EndsWalk zero start f entry max_steps p c walk h =
      absurd (err-ne-ok out_of_fuel c h)
  interpret_from-EndsWalk (suc fuel) start f entry max_steps p c walk h =
      let run = interpret_from lib opts functions blocks fuel in
      let (u, made, rest) =
        >>=-eq-ok
          (interpret_block lib opts functions (call_with functions run) (blocks p.current)
            p.previous p.state p.first (sub_u32 max_steps p.visited))
          _ h in
      let next =
        interpret_block-IsNext (call_with functions run) (blocks p.current) p.previous p.state
          p.first (sub_u32 max_steps p.visited) u made in
      elim (after_block-cases (run f entry) f entry max_steps p u c rest) [
        | inl (spent, e) ↦
            rw (← e)
              (finish-EndsWalk start f entry true p u walk (λ k. absurd (false_ne_true (sym k))))
        | inr (on, inl (last, e)) ↦ rw (← e) (
            finish-EndsWalk start f entry false p u walk
              (λ k. rw last at (not_stopped _ u.stopped_early on next)))
        | inr (on, inr (b, e, more)) ↦
            interpret_from-EndsWalk fuel start f entry max_steps (advance p u) c
              (Walk-advance start p u b walk e (not_stopped _ u.stopped_early on next)) more
      ]

-- If the interpreter returns a call, then the steps of the call are a walk through the control flow
-- graph: the first is the block of the start, every other block is one that the terminator of the
-- block before it names, and if the call has not ended early, the terminator of the last block
-- names no block.
pub interpret_function_at-Walk :
    {W Z : Type 0} (lib : Arithmetic W Z) (opts : NumberOptions) (functions : ℕ → Function)
    (blocks : ℕ → Block W) (fuel f : ℕ) (entry : State W Z) (start max_steps : ℕ) (c : Call W Z)
    → interpret_function_at lib opts functions blocks fuel f entry start max_steps ≡ ok c
    → (steps : Steps W Z) × (b : ℕ) × (s : State W Z) × (cs : Calls W Z) × Walk blocks start steps b
      × (call_steps c ≡ add_step steps b s cs)
      × (early_exit c ≡ false → targets (blocks b).terminator ≡ [])
unfolding interpret_function_at begin_at
interpret_function_at-Walk lib opts functions blocks fuel f entry start max_steps c h =
    interpret_from-EndsWalk lib opts functions blocks fuel start f entry max_steps
      (begin_at start entry) c begin h
