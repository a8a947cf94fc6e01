-- ===== src/FreeVars/Search/Least.antt =====
-- The search of `freeVars` ends at the least fixpoint: a round that changes nothing shows the sets
-- closed, and no round loses a variable.
use llreve.Prelude.{
  String, true, false, ℕ, zero, suc, List, [], ◌∷◌, ◌≡◌, sym, ap, ◌∙◌, inl, inr, ◌↔◌, Bool-cases,
  All, ok, ok-injective, >>=-eq-ok, err-ne-ok, or-true_left, out_of_fuel,
}
use llreve.Smt.Sort.{SortedVar}
use llreve.Marks.{Mark}
use llreve.Marks.Sets.{false_ne_true}
use llreve.FreeVars.Gather.{MarkMap}
use llreve.FreeVars.Search.{
  VarSets, Round, at, offer, offer_all, visit_ends, visit_starts, search_sets,
}
use llreve.FreeVars.Search.Sets.{at-find_at, held, held-add, add_quiet}
use llreve.FreeVars.Search.Needed.{
  built, EndsAt, Goes, Needed, read, onward, All-has_name, held-has_name, offer-cases, IsSound,
  visit_starts-IsSound,
}
use llreve.FreeVars.Search.Keeps.{visit_starts_keeps}

module _ (constructed : MarkMap VarSets) where
  -- What is needed at the end of a way, and not constructed on it, is in the set of its start.
  abbrev IsClosedAt : VarSets → Mark → Mark → Type 0
  IsClosedAt sets start end =
      (x : String)
      → held sets end x ≡ true
      → built constructed start end x ≡ false
      → held sets start x ≡ true

  abbrev IsQuiet : Round → Round → Type 0
  IsQuiet r r' = (r.changed ≡ false) × (r'.sets ≡ r.sets)

  offer-IsQuiet :
      (start end : Mark) (v : SortedVar) (r r' : Round)
      → offer constructed start end v r ≡ ok r'
      → r'.changed ≡ false
      → IsQuiet r r'
        × (built constructed start end v.name ≡ false → held r.sets start v.name ≡ true)
  offer-IsQuiet start end v r r' h quiet = elim (offer-cases constructed start end v r r' h) [
    | inl (b, e) ↦ (
      (ap (λ (s : Round). s.changed) e ∙ quiet, ap (λ (s : Round). s.sets) (sym e)),
      (λ c. absurd (false_ne_true (sym c ∙ b))),
    )
    | inr (b, added) ↦
        let (before, same, there) = add_quiet start v r r' added quiet in
        ((before, same), (λ c. there))
  ]

  offer_all-IsQuiet :
      (start end : Mark) (vars : List SortedVar) (r r' : Round)
      → offer_all constructed start end vars r ≡ ok r'
      → r'.changed ≡ false
      → IsQuiet r r'
        × All
            (λ (v : SortedVar).
              built constructed start end v.name ≡ false → held r.sets start v.name ≡ true)
            vars
  unfolding offer_all
  offer_all-IsQuiet start end [] r r' h quiet =
      let e = ok-injective h in
      ((ap (λ (s : Round). s.changed) e ∙ quiet, ap (λ (s : Round). s.sets) (sym e)), tt)
  offer_all-IsQuiet start end (v ∷ vars) r r' h quiet =
      let (r₁, first, rest) = >>=-eq-ok (offer constructed start end v r) _ h in
      let (q₁, all) = offer_all-IsQuiet start end vars r₁ r' rest quiet in
      let (q, here) = offer-IsQuiet start end v r r₁ first q₁.0 in
      ((q.0, q₁.1 ∙ q.1), (here, rw q.1 at all))

  module _ {X : Type 0} where
    visit_ends-IsQuiet :
        (start : Mark) (ends : MarkMap X) (r r' : Round)
        → visit_ends constructed start ends r ≡ ok r'
        → r'.changed ≡ false
        → IsQuiet r r' × ((end : Mark) → EndsAt end ends → IsClosedAt r.sets start end)
    unfolding visit_ends
    visit_ends-IsQuiet start [] r r' h quiet =
        let e = ok-injective h in
        (
          (ap (λ (s : Round). s.changed) e ∙ quiet, ap (λ (s : Round). s.sets) (sym e)),
          (λ end m. absurd m),
        )
    visit_ends-IsQuiet start ((end, paths) ∷ rest) r r' h quiet =
        let (vars, found, h₁) = >>=-eq-ok (at r.sets end) _ h in
        let (r₁, first, h₂) = >>=-eq-ok (offer_all constructed start end vars r) _ h₁ in
        let (q₁, closed) = visit_ends-IsQuiet start rest r₁ r' h₂ quiet in
        let (q, all) = offer_all-IsQuiet start end vars r r₁ first q₁.0 in
        let here : IsClosedAt r.sets start end = λ x k.
          All-has_name (λ y. built constructed start end y ≡ false → held r.sets start y ≡ true)
            vars all x
            (sym (held-has_name r.sets end vars x (at-find_at r.sets end vars found)) ∙ k) in
        (
          (q.0, q₁.1 ∙ q.1),
          (λ e m. elim m [ inl same ↦ rw (← same) here | inr later ↦ rw q.1 at (closed e later) ]),
        )

    -- A round that changes nothing shows that the sets are closed.
    visit_starts-IsQuiet :
        (starts : MarkMap (MarkMap X)) (r r' : Round)
        → visit_starts constructed starts r ≡ ok r'
        → r'.changed ≡ false
        → IsQuiet r r' × ((start end : Mark) → Goes start end starts → IsClosedAt r.sets start end)
    unfolding visit_starts
    visit_starts-IsQuiet [] r r' h quiet =
        let e = ok-injective h in
        (
          (ap (λ (s : Round). s.changed) e ∙ quiet, ap (λ (s : Round). s.sets) (sym e)),
          (λ start end m. absurd m),
        )
    visit_starts-IsQuiet ((start, ends) ∷ rest) r r' h quiet =
        let (r₁, first, h₁) = >>=-eq-ok (visit_ends constructed start ends r) _ h in
        let (q₁, closed) = visit_starts-IsQuiet rest r₁ r' h₁ quiet in
        let (q, here) = visit_ends-IsQuiet start ends r r₁ first q₁.0 in
        (
          (q.0, q₁.1 ∙ q.1),
          (λ s e m. elim m [
            | inl (same, at_end) ↦ rw (← same) (here e at_end)
            | inr later ↦ rw q.1 at (closed s e later)
          ]),
        )

module _ {X : Type 0} (map : MarkMap (MarkMap X)) (constructed : MarkMap VarSets)
    (sets : VarSets) where
  abbrev Includes : VarSets → Type 0
  Includes found = (m : Mark) (x : String) → held sets m x ≡ true → held found m x ≡ true

  -- What the search is between two rounds.
  abbrev Between : VarSets → Type 0
  Between found =
      IsSound map constructed sets (record { sets = found; changed = false }) × Includes found

  search_sets-least :
      (fuel : ℕ) (now found : VarSets)
      → Between now
      → search_sets constructed fuel map now ≡ ok found
      → Between found
        × ((start end : Mark) → Goes start end map → IsClosedAt constructed found start end)
  unfolding search_sets
  search_sets-least zero now found between h = absurd (err-ne-ok out_of_fuel found h)
  search_sets-least (suc fuel) now found between h =
      let r₀ : Round = record { sets = now; changed = false } in
      let (r, round, rest) = >>=-eq-ok (visit_starts constructed map r₀) _ h in
      let sound = visit_starts-IsSound map constructed sets map r₀ r (λ s e m. m) between.0 round in
      let includes =
        visit_starts_keeps constructed (λ s. Includes s.sets)
          (λ start v s s' added p m x k.
            held-add start v s s' added m x ∙ or-true_left _ _ (p m x k))
          map r₀ r round between.1 in
      elim (Bool-cases r.changed) [
        | inl more ↦ search_sets-least fuel r.sets found (sound, includes) (rw more at rest)
        | inr quiet ↦
            let same = ok-injective (rw quiet at rest) in
            let (q, closed) = visit_starts-IsQuiet constructed map r₀ r round quiet in
            rw (← same) ((sound, includes), (rw (← q.1) at closed))
      ]

  closed-held :
      (found : VarSets)
      → Includes found
      → ((start end : Mark) → Goes start end map → IsClosedAt constructed found start end)
      → {m : Mark} {x : String} → Needed map constructed sets m x
      → held found m x ≡ true
  closed-held found includes closed (read h) = includes _ _ h
  closed-held found includes closed (onward goes b needed) =
      closed _ _ goes _ (closed-held found includes closed needed) b

-- If the search returns sets, then a set has a variable exactly if the variable is needed at the
-- mark: it is in the mark's set at the start of the search, or at the end of a chain of ways
-- between marks none of which constructs it.
pub search_sets-Needed :
    {X : Type 0} (map : MarkMap (MarkMap X)) (constructed : MarkMap VarSets) (sets found : VarSets)
    (fuel : ℕ)
    → search_sets constructed fuel map sets ≡ ok found
    → (m : Mark) (x : String) → (held found m x ≡ true) ↔ Needed map constructed sets m x
search_sets-Needed map constructed sets found fuel h m x =
    let (between, closed) =
      search_sets-least map constructed sets fuel sets found ((λ n y. read), (λ n y k. k)) h in
    (between.0 m x, closed-held map constructed sets found between.1 closed)
