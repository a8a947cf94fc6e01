-- ===== src/FreeVars/Search/Keeps.antt =====
-- What every insertion keeps, a round of the search of `freeVars` keeps.
use llreve.Prelude.{List, [], ◌∷◌, ◌≡◌, inl, inr, ok, ok-injective, >>=-eq-ok}
use llreve.Smt.Sort.{SortedVar}
use llreve.Marks.{Mark}
use llreve.FreeVars.Gather.{MarkMap}
use llreve.FreeVars.Search.{VarSets, Round, at, add, offer, offer_all, visit_ends, visit_starts}
use llreve.FreeVars.Search.Needed.{offer-cases}

module _ (constructed : MarkMap VarSets) (P : Round → Type 0)
    (keep : (start : Mark) (v : SortedVar) (r r' : Round)
      → add start v r ≡ ok r'
      → P r
      → P r') where
  offer_keeps :
      (start end : Mark) (v : SortedVar) (r r' : Round)
      → offer constructed start end v r ≡ ok r'
      → P r
      → P r'
  offer_keeps start end v r r' h p = elim (offer-cases constructed start end v r r' h) [
    | inl (b, e) ↦ rw (← e) p
    | inr (b, added) ↦ keep start v r r' added p
  ]

  offer_all_keeps :
      (start end : Mark) (vars : List SortedVar) (r r' : Round)
      → offer_all constructed start end vars r ≡ ok r'
      → P r
      → P r'
  unfolding offer_all
  offer_all_keeps start end [] r r' h p = rw (← ok-injective h) p
  offer_all_keeps start end (v ∷ vars) r r' h p =
      let (r₁, first, rest) = >>=-eq-ok (offer constructed start end v r) _ h in
      offer_all_keeps start end vars r₁ r' rest (offer_keeps start end v r r₁ first p)

  module _ {X : Type 0} where
    visit_ends_keeps :
        (start : Mark) (ends : MarkMap X) (r r' : Round)
        → visit_ends constructed start ends r ≡ ok r'
        → P r
        → P r'
    unfolding visit_ends
    visit_ends_keeps start [] r r' h p = rw (← ok-injective h) p
    visit_ends_keeps start ((end, paths) ∷ rest) r r' h p =
        let (vars, found, h₁) = >>=-eq-ok (at r.sets end) _ h in
        let (r₁, first, h₂) = >>=-eq-ok (offer_all constructed start end vars r) _ h₁ in
        visit_ends_keeps start rest r₁ r' h₂ (offer_all_keeps start end vars r r₁ first p)

    -- What every insertion keeps, a round keeps.
    pub visit_starts_keeps :
        (starts : MarkMap (MarkMap X)) (r r' : Round)
        → visit_starts constructed starts r ≡ ok r'
        → P r
        → P r'
    unfolding visit_starts
    visit_starts_keeps [] r r' h p = rw (← ok-injective h) p
    visit_starts_keeps ((start, ends) ∷ rest) r r' h p =
        let (r₁, first, h₁) = >>=-eq-ok (visit_ends constructed start ends r) _ h in
        visit_starts_keeps rest r₁ r' h₁ (visit_ends_keeps start ends r r₁ first p)
