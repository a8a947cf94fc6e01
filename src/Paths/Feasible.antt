-- ===== src/Paths/Feasible.antt =====
-- The paths of `traverse` split the executions: whatever the conditions evaluate to, exactly one
-- path can be taken.
use llreve.Prelude.{
  ℕ, zero, suc, ◌+◌, Bool, true, false, not, List, [], ◌∷◌, ◌++◌, map, Option, none, some, ◌&&◌,
  ◌||◌, ◌≡◌, ◌↔◌, refl, ◌∙◌, if◌then◌else◌, Bool-cases, inl, inr, or-false, and-true, not-true,
  arith,
}
use llreve.Prelude.{Result, ok, err-ne-ok, exit_one, >>=-eq-ok, ok-injective}
use llreve.Marks.{BidirBlockMarkMap, member}
use llreve.Paths.{
  Condition, boolean, switch_case, switch_default, Edge, Terminator, branch, cond_branch, switch,
  unreachable, unknown, case_edges, case_values, outgoing, follow, stops, traverse, is_return,
  is_marked,
}

-- What the conditions evaluate to in an execution, and the equality of LLVM's integers.
pub record Execution (C I : Type 0) : Type 0 where
  pub truth : C → Bool
  pub value : C → I
  pub same : I → I → Bool
  pub same_iff : (v w : I) → (same v w ≡ true) ↔ (v ≡ w)

module _ {C I : Type 0} (x : Execution C I) where
  unfoldable pub any_same : I → List I → Bool
  any_same v [] = false
  any_same v (w ∷ ws) = x.same v w || any_same v ws

  -- The case values of a switch are pairwise different.
  unfoldable pub distinct_values : List I → Bool
  unfolding any_same
  distinct_values [] = true
  distinct_values (v ∷ vs) = not (any_same v vs) && distinct_values vs

  unfoldable pub satisfied : Condition C I → Bool
  unfolding any_same
  satisfied (boolean c true) = x.truth c
  satisfied (boolean c false) = not (x.truth c)
  satisfied (switch_case c v) = x.same (x.value c) v
  satisfied (switch_default c vs) = not (any_same (x.value c) vs)

  unfoldable pub edge_taken : Option (Condition C I) → Bool
  unfolding satisfied
  edge_taken none = true
  edge_taken (some c) = satisfied c

  -- Every condition on the path is satisfied.
  unfoldable pub feasible : List (Edge C I) → Bool
  unfolding edge_taken
  feasible [] = true
  feasible (e ∷ es) = edge_taken e.condition && feasible es

  unfoldable pub count_feasible : List (List (Edge C I)) → ℕ
  unfolding feasible
  count_feasible [] = 0
  count_feasible (p ∷ ps) = (if feasible p then 1 else 0) + count_feasible ps

  count_taken : List (Edge C I) → ℕ
  count_taken [] = 0
  count_taken (e ∷ es) = (if edge_taken e.condition then 1 else 0) + count_taken es

  count_taken-append :
      (es fs : List (Edge C I)) → count_taken (es ++ fs) ≡ count_taken es + count_taken fs
  unfolding count_taken
  count_taken-append [] fs = omega arith
  count_taken-append (e ∷ es) fs = omega (arith, count_taken-append es fs)

  count_feasible-append :
      (ps qs : List (List (Edge C I)))
      → count_feasible (ps ++ qs) ≡ count_feasible ps + count_feasible qs
  unfolding count_feasible
  count_feasible-append [] qs = omega arith
  count_feasible-append (p ∷ ps) qs = omega (arith, count_feasible-append ps qs)

  count_feasible-map :
      (e : Edge C I) (ps : List (List (Edge C I)))
      → count_feasible (map (λ p. e ∷ p) ps)
        ≡ (if edge_taken e.condition then count_feasible ps else 0)
  unfolding count_feasible feasible
  count_feasible-map e [] = elim (Bool-cases (edge_taken e.condition)) [
    | inl h ↦ rw h
    | inr h ↦ rw h
  ]
  count_feasible-map e (p ∷ ps) = elim (Bool-cases (edge_taken e.condition)) [
    | inl h ↦ rw h (omega (arith, (rw h at (count_feasible-map e ps))))
    | inr h ↦ rw h (omega (arith, (rw h at (count_feasible-map e ps))))
  ]

  -- A value that is no case value is the value of no case edge, and a case value of exactly one.
  count_taken-cases :
      (c : C) (cases : List (I × ℕ))
      → distinct_values (case_values cases) ≡ true
      → count_taken (case_edges c cases)
        ≡ (if any_same (x.value c) (case_values cases) then 1 else 0)
  unfolding count_taken case_edges case_values any_same distinct_values edge_taken
  count_taken-cases c [] d = refl
  count_taken-cases c ((v, b) ∷ cases) d =
      let w =
        and-true (not (any_same v (case_values cases))) (distinct_values (case_values cases)) d in
      let rest = count_taken-cases c cases w.1 in
      elim (Bool-cases (x.same (x.value c) v)) [
        | inl h ↦
            let other : any_same (x.value c) (case_values cases) ≡ false =
              rw ((x.same_iff (x.value c) v).0 h) (not-true (any_same v (case_values cases)) w.0) in
            rw h (omega (arith, (rw other at rest)))
        | inr h ↦ rw h (omega (arith, rest))
      ]

  -- A block whose terminator `traverse` knows, with different case values.
  unfoldable pub known : Terminator C I → Bool
  unfolding distinct_values case_values
  known (branch b) = true
  known (cond_branch c b₀ b₁) = true
  known (switch c cases b) = distinct_values (case_values cases)
  known unreachable = false
  known unknown = false

  count_taken-outgoing : (t : Terminator C I) → known t ≡ true → count_taken (outgoing t) ≡ 1
  unfolding count_taken outgoing known edge_taken
  count_taken-outgoing (branch b) k = refl
  count_taken-outgoing (cond_branch c b₀ b₁) k = elim (Bool-cases (x.truth c)) [
    | inl h ↦ rw h
    | inr h ↦ rw h
  ]
  count_taken-outgoing (switch c cases b) k =
      count_taken-append (case_edges c cases) _
      ∙ rw (count_taken-cases c cases k)
          (elim (Bool-cases (any_same (x.value c) (case_values cases))) [
            | inl h ↦ rw h
            | inr h ↦ rw h
          ])
  count_taken-outgoing unreachable k = cc
  count_taken-outgoing unknown k = cc

  count_feasible-follow :
      (next : ℕ → Result (List (List (Edge C I)))) (es : List (Edge C I))
      (ps : List (List (Edge C I)))
      → ((b : ℕ) (qs : List (List (Edge C I))) → next b ≡ ok qs → count_feasible qs ≡ 1)
      → follow next es ≡ ok ps
      → count_feasible ps ≡ count_taken es
  unfolding follow count_taken
  count_feasible-follow next [] ps one h = rw (← ok-injective h) (unfold count_feasible in refl)
  count_feasible-follow next (e ∷ es) ps one h =
      let (qs, p, r) = >>=-eq-ok (next e.block) _ h in
      let (rs, q, s) = >>=-eq-ok (follow next es) _ r in
      rw (← ok-injective s) (
        rw (
          count_feasible-append (map (λ p. e ∷ p) qs) rs,
          count_feasible-map e qs,
          one e.block qs p,
          count_feasible-follow next es rs one q,
        ))

module _ {C I : Type 0} (x : Execution C I) (terminator : ℕ → Terminator C I)
    (marked : BidirBlockMarkMap) where
  -- Every block at which `traverse` does not stop for good has a terminator that it knows.
  abbrev pub IsTerminated : Type 0
  IsTerminated = (b : ℕ) → is_return terminator marked b ≡ false → known x (terminator b) ≡ true

  stops-not_return :
      (first : Bool) (b : ℕ)
      → stops terminator marked first b ≡ false
      → is_return terminator marked b ≡ false
  unfolding stops
  stops-not_return first b h =
      (or-false (not first && is_marked terminator marked b) (is_return terminator marked b) h).1

  -- If the blocks end in branches or switches with different case values, then of the paths that
  -- `traverse` returns exactly one is feasible, in every execution.
  pub traverse-count_feasible :
      (fuel b : ℕ) (first : Bool) (visited : List ℕ) (ps : List (List (Edge C I)))
      → IsTerminated
      → traverse terminator marked fuel b first visited ≡ ok ps
      → count_feasible x ps ≡ 1
  unfolding traverse
  traverse-count_feasible zero b first visited ps t h = cc
  traverse-count_feasible (suc fuel) b first visited ps t h =
      elim (Bool-cases (stops terminator marked first b)) [
        | inl s ↦ rw (← ok-injective (rw s at h)) (unfold count_feasible in refl)
        | inr s ↦ elim (Bool-cases (member visited b)) [
          | inl v ↦ absurd (err-ne-ok exit_one ps (rw (s, v) at h))
          | inr v ↦
              count_feasible-follow x _ (outgoing (terminator b)) ps
                (λ b' qs. traverse-count_feasible fuel b' false (b ∷ visited) qs t) (rw (s, v) at h)
              ∙ count_taken-outgoing x (terminator b) (t b (stops-not_return first b s))
        ]
      ]
