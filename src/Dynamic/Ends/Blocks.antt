-- ===== src/Dynamic/Ends/Blocks.antt =====
-- Instructions and terminators of the interpreter end, and so do blocks without calls.
use llreve.Prelude.{
  ℕ, Bool, true, false, nat_eq, List, [], ◌∷◌, Option, none, some, ◌≡◌, refl, sym, ap, ◌∙◌,
  if◌then◌else◌, All, Result, ok, ok-injective, >>=-eq-ok, ◌>>=◌,
}
use llreve.Dynamic.Integers.{Arithmetic, Integer, NumberOptions}
use llreve.Dynamic.Integers.Compare.{eq}
use llreve.Dynamic.Machine.{
  Operand, Instruction, bin_op, icmp, cast, gep, load, store, select, call, unsupported, Terminator,
  return, branch, cond_branch, switch, other_terminator, Block, Function, State, Call, no_calls,
  BlockUpdate,
}
use llreve.Dynamic.Interpreter.Blocks.{
  interpret_select, interpret_instruction, incoming_operand, interpret_phis, case_value,
  case_successor, interpret_terminator, BodyState, interpret_body_instruction, interpret_body,
  finish_block, interpret_block,
}
use llreve.Dynamic.Ends.{Ends, returned, assertion-Ends, if-Ends, branch-Ends, >>=-Ends}
use llreve.Dynamic.Ends.Integers.{compare_by-Ends, sext_number-Ends}
use llreve.Dynamic.Ends.Operators.{
  unsafe_bool-Ends, resolve_value-Ends, interpret_icmp-Ends, interpret_bin_op-Ends,
  interpret_cast-Ends,
}
use llreve.Dynamic.Ends.Memory.{interpret_store-Ends, interpret_load-Ends, resolve_gep-Ends}

unfoldable pub is_call : {W : Type 0} → Instruction W → Bool
is_call (call f xs) = true
is_call i = false

incoming_operand-Ends :
    {W : Type 0} (xs : List (ℕ × Operand W)) (prev : Option ℕ) → Ends (incoming_operand xs prev)
unfolding incoming_operand
incoming_operand-Ends [] none = assertion-Ends
incoming_operand-Ends (x ∷ xs) none = assertion-Ends
incoming_operand-Ends [] (some prev) = assertion-Ends
incoming_operand-Ends ((b, x) ∷ xs) (some prev) =
    if-Ends (nat_eq b prev) (returned x) (incoming_operand-Ends xs (some prev))

module _ {W Z : Type 0} (lib : Arithmetic W Z) (opts : NumberOptions) where
  open lib use {words, numbers}

  interpret_instruction-Ends :
      (key : ℕ) (i : Instruction W) (s : State W Z) → Ends (interpret_instruction lib opts key i s)
  unfolding interpret_instruction interpret_select
  interpret_instruction-Ends key (bin_op op width x y) s =
      interpret_bin_op-Ends lib opts key op width x y s
  interpret_instruction-Ends key (icmp pred x y) s = interpret_icmp-Ends lib opts key pred x y s
  interpret_instruction-Ends key (cast kind from_bool width x) s =
      interpret_cast-Ends lib opts key kind from_bool width x s
  interpret_instruction-Ends key (gep x indices) s =
      >>=-Ends (resolve_gep-Ends lib opts x indices s) (λ v. returned _)
  interpret_instruction-Ends key (load width x) s = interpret_load-Ends lib opts key width x s
  interpret_instruction-Ends key (store width x y) s = interpret_store-Ends lib opts width x y s
  interpret_instruction-Ends key (select c x y) s =
      >>=-Ends (resolve_value-Ends lib opts c s) (λ cond.
        >>=-Ends (unsafe_bool-Ends lib cond)
          (λ b. >>=-Ends (resolve_value-Ends lib opts (if b then x else y) s) (λ v. returned _)))
  interpret_instruction-Ends key (call f xs) s = returned _
  interpret_instruction-Ends key unsupported s = returned _

  interpret_phis-Ends :
      (prev : Option ℕ) (phis : List (ℕ × List (ℕ × Operand W))) (s : State W Z)
      → Ends (interpret_phis lib opts prev phis s)
  unfolding interpret_phis
  interpret_phis-Ends prev [] s = returned s
  interpret_phis-Ends prev ((key, xs) ∷ phis) s =
      >>=-Ends (incoming_operand-Ends xs prev)
        (λ x. >>=-Ends (resolve_value-Ends lib opts x s) (λ v. interpret_phis-Ends prev phis _))

  case_successor-Ends :
      (cases : List (W × ℕ)) (v : Integer W Z) (default : ℕ)
      → Ends (case_successor lib opts cases v default)
  unfolding case_successor case_value eq
  case_successor-Ends [] v default = returned default
  case_successor-Ends ((w, b) ∷ cases) v default =
      >>=-Ends
        (if-Ends opts.bit_vect (returned _) (>>=-Ends (sext_number-Ends lib w) (λ n. returned _)))
        (λ c.
          >>=-Ends (compare_by-Ends lib numbers.same words.equal c v)
            (λ same. branch-Ends same (returned b) (case_successor-Ends cases v default)))

  pub interpret_terminator-Ends :
      (t : Terminator W) (s : State W Z) → Ends (interpret_terminator lib opts t s)
  unfolding interpret_terminator
  interpret_terminator-Ends (return key none) s = returned _
  interpret_terminator-Ends (return key (some x)) s =
      >>=-Ends (resolve_value-Ends lib opts x s) (λ v. returned _)
  interpret_terminator-Ends (branch b) s = returned _
  interpret_terminator-Ends (cond_branch c b₀ b₁) s =
      >>=-Ends (resolve_value-Ends lib opts c s)
        (λ cond. >>=-Ends (unsafe_bool-Ends lib cond) (λ t. returned _))
  interpret_terminator-Ends (switch c cases default) s =
      >>=-Ends (resolve_value-Ends lib opts c s)
        (λ v. >>=-Ends (case_successor-Ends cases v default) (λ b. returned _))
  interpret_terminator-Ends other_terminator s = returned _

module _ {W Z : Type 0} (lib : Arithmetic W Z) (opts : NumberOptions) where
  -- A block that has not stopped ends with its terminator.
  pub finish_block-ok :
      (block : Block W) (after : State W Z) (b : BodyState W Z) (u : BlockUpdate W Z)
      → b.stopped ≡ false
      → finish_block lib opts block after b ≡ ok u
      → (t : State W Z × Option ℕ) × (interpret_terminator lib opts block.terminator b.state ≡ ok t)
        × (u ≡ record {
          state_after_phis = after;
          end_state = t.0;
          next_block = t.1;
          calls = b.calls;
          stopped_early = false;
          visited = b.visited;
        })
  unfolding finish_block
  finish_block-ok block after b u on h =
      let (t, end, made) =
        >>=-eq-ok (interpret_terminator lib opts block.terminator b.state) _ (rw on at h) in
      (t, end, sym (ok-injective made))

-- A block that makes no calls.
abbrev pub IsCallFree : {W : Type 0} → List (ℕ × Instruction W) → Type 0
IsCallFree is = All (λ i. is_call i.1 ≡ false) is

module _ {W Z : Type 0} (lib : Arithmetic W Z) (opts : NumberOptions) (functions : ℕ → Function)
    (interpret_call : ℕ → State W Z → ℕ → Result (Call W Z)) (max_steps : ℕ) where
  -- An instruction that is no call changes the state alone.
  body_instruction_alone :
      (key : ℕ) (i : Instruction W) (b : BodyState W Z)
      → is_call i ≡ false
      → interpret_body_instruction lib opts functions interpret_call max_steps key i b
        ≡ (interpret_instruction lib opts key i b.state >>= (λ s. ok (record b { state = s })))
  unfolding interpret_body_instruction is_call
  body_instruction_alone key (bin_op op width x y) b h = refl
  body_instruction_alone key (icmp pred x y) b h = refl
  body_instruction_alone key (cast kind from_bool width x) b h = refl
  body_instruction_alone key (gep x indices) b h = refl
  body_instruction_alone key (load width x) b h = refl
  body_instruction_alone key (store width x y) b h = refl
  body_instruction_alone key (select c x y) b h = refl
  body_instruction_alone key (call f xs) b h = cc
  body_instruction_alone key unsupported b h = refl

  interpret_body-Ends :
      (is : List (ℕ × Instruction W)) (b : BodyState W Z)
      → IsCallFree is
      → Ends (interpret_body lib opts functions interpret_call max_steps is b)
  unfolding interpret_body
  interpret_body-Ends [] b free = returned b
  interpret_body-Ends ((key, i) ∷ is) b free = rw (body_instruction_alone key i b free.0) (
      >>=-Ends (>>=-Ends (interpret_instruction-Ends lib opts key i b.state) (λ s. returned _))
        (λ b'. branch-Ends b'.stopped (returned b') (interpret_body-Ends is b' free.1)))

  -- It neither stops nor visits other blocks.
  interpret_body_alone :
      (is : List (ℕ × Instruction W)) (b b' : BodyState W Z)
      → IsCallFree is
      → b.stopped ≡ false
      → interpret_body lib opts functions interpret_call max_steps is b ≡ ok b'
      → (b'.stopped ≡ false) × (b'.visited ≡ b.visited)
  unfolding interpret_body
  interpret_body_alone [] b b' free on h =
      let same = ok-injective h in
      (
        ap (λ (c : BodyState W Z). c.stopped) (sym same) ∙ on,
        ap (λ (c : BodyState W Z). c.visited) (sym same),
      )
  interpret_body_alone ((key, i) ∷ is) b b' free on h =
      let (b₁, first, rest) =
        >>=-eq-ok (interpret_body_instruction lib opts functions interpret_call max_steps key i b) _
          h in
      let (s, done, made) =
        >>=-eq-ok (interpret_instruction lib opts key i b.state) _
          (sym (body_instruction_alone key i b free.0) ∙ first) in
      let same = ok-injective made in
      let on₁ : b₁.stopped ≡ false = ap (λ (c : BodyState W Z). c.stopped) (sym same) ∙ on in
      let (stopped, visited) = interpret_body_alone is b₁ b' free.1 on₁ (rw on₁ at rest) in
      (stopped, visited ∙ ap (λ (c : BodyState W Z). c.visited) (sym same))

  module _ (block : Block W) (prev : Option ℕ) (s : State W Z) (skip_phi : Bool)
      (free : IsCallFree block.body) where
    pub interpret_block-Ends :
        Ends (interpret_block lib opts functions interpret_call block prev s skip_phi max_steps)
    unfolding interpret_block finish_block
    interpret_block-Ends =
        >>=-Ends (if-Ends skip_phi (returned s) (interpret_phis-Ends lib opts prev block.phis s))
          (λ after. >>=-Ends (interpret_body-Ends block.body _ free) (λ b.
            branch-Ends b.stopped (returned _) (
              >>=-Ends (interpret_terminator-Ends lib opts block.terminator b.state)
                (λ t. returned _))))

    -- A block without calls counts once, and does not stop the interpreter.
    pub interpret_block_alone :
        (u : BlockUpdate W Z)
        → interpret_block lib opts functions interpret_call block prev s skip_phi max_steps ≡ ok u
        → (u.stopped_early ≡ false) × (u.visited ≡ 1)
    unfolding interpret_block finish_block
    interpret_block_alone u h =
        let (after, phis, h₁) =
          >>=-eq-ok (if skip_phi then ok s else interpret_phis lib opts prev block.phis s) _ h in
        let (b, body, h₂) =
          >>=-eq-ok
            (interpret_body lib opts functions interpret_call max_steps block.body
              (record { state = after; calls = no_calls; visited = 1; stopped = false }))
            _ h₁ in
        let (on, visited) = interpret_body_alone block.body _ b free refl body in
        let (t, end, same) = finish_block-ok lib opts block after b u on h₂ in
        (
          ap (λ (c : BlockUpdate W Z). c.stopped_early) same,
          ap (λ (c : BlockUpdate W Z). c.visited) same ∙ visited,
        )
