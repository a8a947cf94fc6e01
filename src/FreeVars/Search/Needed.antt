-- ===== src/FreeVars/Search/Needed.antt =====
-- The specification of the search of `freeVars`: the variables that are needed at a mark.
use llreve.Prelude.{
  String, Bool, true, false, List, [], ◌∷◌, none, some, ◌≡◌, refl, sym, ◌∙◌, ◌⊎◌, inl, inr, ◌==◌,
  eq_iff, Bool-cases, All, and-true, ok, ok-injective, >>=-eq-ok, or-cases, or-true_left,
  or-true_right, eq_refl,
}
use llreve.Smt.Sort.{SortedVar}
use llreve.Marks.{Mark, mark_eq, mark_eq-eq}
use llreve.Marks.Sets.{false_ne_true}
use llreve.FreeVars.Instructions.{has_name, sorted_name}
use llreve.FreeVars.Gather.{MarkMap, find_at}
use llreve.FreeVars.Search.{VarSets, Round, at, add, offer, offer_all, visit_ends, visit_starts}
use llreve.FreeVars.Search.Sets.{at-find_at, held, held-add}

-- Whether a name is constructed on the ways from one mark to another.
unfoldable pub built : MarkMap VarSets → Mark → Mark → String → Bool
unfolding find_at held
built constructed start end x = elim (find_at constructed start) [
  | none ↦ false
  | some sets ↦ held sets end x
]

module _ {X : Type 0} where
  abbrev pub EndsAt : Mark → MarkMap X → Type 0
  EndsAt end [] = ⊥
  EndsAt end ((e, paths) ∷ rest) = (e ≡ end) ⊎ EndsAt end rest

  -- There are paths from one mark to another.
  abbrev pub Goes : Mark → Mark → MarkMap (MarkMap X) → Type 0
  Goes start end [] = ⊥
  Goes start end ((s, ends) ∷ rest) = ((s ≡ start) × EndsAt end ends) ⊎ Goes start end rest

-- A variable is needed at a mark if it is read there, or if it is needed at a mark to which paths
-- go and is not constructed on the way.
pub data Needed {X : Type 0} (map : MarkMap (MarkMap X)) (constructed : MarkMap VarSets)
    (sets : VarSets) : Mark → String → Type 0 where
  read : {m : Mark} {x : String} → held sets m x ≡ true → Needed map constructed sets m x
  onward :
      {start end : Mark} {x : String}
      → Goes start end map
      → built constructed start end x ≡ false
      → Needed map constructed sets end x
      → Needed map constructed sets start x

-- What holds of the names of all variables of a set holds of every name that the set has, and the
-- other way round.
pub All-has_name :
    (P : String → Type 0) (vars : List SortedVar)
    → All (λ (v : SortedVar). P v.name) vars
    → (x : String) → has_name sorted_name vars x ≡ true
    → P x
unfolding has_name
All-has_name P [] h x e = absurd (false_ne_true e)
All-has_name P (v ∷ vars) h x e = elim (Bool-cases (v.name == x)) [
  | inl f ↦ rw (← (eq_iff v.name x).0 f) h.0
  | inr f ↦ All-has_name P vars h.1 x (rw f at e)
]

pub has_name-All :
    (P : String → Type 0) (vars : List SortedVar)
    → ((x : String) → has_name sorted_name vars x ≡ true → P x)
    → All (λ (v : SortedVar). P v.name) vars
unfolding has_name
has_name-All P [] h = tt
has_name-All P (v ∷ vars) h = (
  h v.name (or-true_left (v.name == v.name) _ (eq_refl v.name)),
  has_name-All P vars (λ x e. h x (or-true_right (v.name == x) _ e)),
)

built-has_name :
    (constructed : MarkMap VarSets) (start end : Mark) (sets : VarSets) (vars : List SortedVar)
    (x : String)
    → find_at constructed start ≡ some sets
    → find_at sets end ≡ some vars
    → built constructed start end x ≡ has_name sorted_name vars x
unfolding built held has_name
built-has_name constructed start end sets vars x p q = rw (built, p, held, q)

-- An offer is no change where the variable is constructed on the way, and an insertion elsewhere.
pub offer-cases :
    (constructed : MarkMap VarSets) (start end : Mark) (v : SortedVar) (r r' : Round)
    → offer constructed start end v r ≡ ok r'
    → ((built constructed start end v.name ≡ true) × (r ≡ r'))
      ⊎ ((built constructed start end v.name ≡ false) × (add start v r ≡ ok r'))
unfolding offer
offer-cases constructed start end v r r' h =
    let (sets, found, h₁) = >>=-eq-ok (at constructed start) _ h in
    let (vars, found', h₂) = >>=-eq-ok (at sets end) _ h₁ in
    let b : built constructed start end v.name ≡ has_name sorted_name vars v.name =
      built-has_name constructed start end sets vars v.name
        (at-find_at constructed start sets found) (at-find_at sets end vars found') in
    elim (Bool-cases (has_name sorted_name vars v.name)) [
      | inl e ↦ inl (b ∙ e, ok-injective (rw e at h₂))
      | inr e ↦ inr (b ∙ e, rw e at h₂)
    ]

pub held-has_name :
    (sets : VarSets) (m : Mark) (vars : List SortedVar) (x : String)
    → find_at sets m ≡ some vars
    → held sets m x ≡ has_name sorted_name vars x
unfolding held has_name
held-has_name sets m vars x p = rw (held, p)

module _ {X : Type 0} (map : MarkMap (MarkMap X)) (constructed : MarkMap VarSets)
    (sets : VarSets) where
  abbrev pub IsSound : Round → Type 0
  IsSound r = (m : Mark) (x : String) → held r.sets m x ≡ true → Needed map constructed sets m x

  offer-IsSound :
      (start end : Mark) (v : SortedVar) (r r' : Round)
      → Goes start end map
      → Needed map constructed sets end v.name
      → IsSound r
      → offer constructed start end v r ≡ ok r'
      → IsSound r'
  offer-IsSound start end v r r' goes needed sound h =
      elim (offer-cases constructed start end v r r' h) [
        | inl (b, e) ↦ rw (← e) sound
        | inr (b, added) ↦ λ m x k.
            elim (or-cases _ _ (sym (held-add start v r r' added m x) ∙ k)) [
              | inl before ↦ sound m x before
              | inr now ↦
                  let parts = and-true (mark_eq start m) (v.name == x) now in
                  rw (← mark_eq-eq start m parts.0, ← (eq_iff v.name x).0 parts.1)
                    (onward goes b needed)
            ]
      ]

  offer_all-IsSound :
      (start end : Mark) (vars : List SortedVar) (r r' : Round)
      → Goes start end map
      → All (λ (v : SortedVar). Needed map constructed sets end v.name) vars
      → IsSound r
      → offer_all constructed start end vars r ≡ ok r'
      → IsSound r'
  unfolding offer_all
  offer_all-IsSound start end [] r r' goes needed sound h = rw (← ok-injective h) sound
  offer_all-IsSound start end (v ∷ vars) r r' goes needed sound h =
      let (r₁, first, rest) = >>=-eq-ok (offer constructed start end v r) _ h in
      offer_all-IsSound start end vars r₁ r' goes needed.1
        (offer-IsSound start end v r r₁ goes needed.0 sound first) rest

  visit_ends-IsSound :
      (start : Mark) (ends : MarkMap X) (r r' : Round)
      → ((end : Mark) → EndsAt end ends → Goes start end map)
      → IsSound r
      → visit_ends constructed start ends r ≡ ok r'
      → IsSound r'
  unfolding visit_ends
  visit_ends-IsSound start [] r r' goes sound h = rw (← ok-injective h) sound
  visit_ends-IsSound start ((end, paths) ∷ rest) r r' goes sound h =
      let (vars, found, h₁) = >>=-eq-ok (at r.sets end) _ h in
      let (r₁, first, h₂) = >>=-eq-ok (offer_all constructed start end vars r) _ h₁ in
      let same =
        λ (x : String). held-has_name r.sets end vars x (at-find_at r.sets end vars found) in
      let needed =
        has_name-All (Needed map constructed sets end) vars (λ x e. sound end x (same x ∙ e)) in
      visit_ends-IsSound start rest r₁ r' (λ e m. goes e (inr m))
        (offer_all-IsSound start end vars r r₁ (goes end (inl refl)) needed sound first) h₂

  pub visit_starts-IsSound :
      (starts : MarkMap (MarkMap X)) (r r' : Round)
      → ((start end : Mark) → Goes start end starts → Goes start end map)
      → IsSound r
      → visit_starts constructed starts r ≡ ok r'
      → IsSound r'
  unfolding visit_starts
  visit_starts-IsSound [] r r' goes sound h = rw (← ok-injective h) sound
  visit_starts-IsSound ((start, ends) ∷ rest) r r' goes sound h =
      let (r₁, first, h₁) = >>=-eq-ok (visit_ends constructed start ends r) _ h in
      visit_starts-IsSound rest r₁ r' (λ s e m. goes s e (inr m))
        (visit_ends-IsSound start ends r r₁ (λ e m. goes start e (inl (refl, m))) sound first) h₁
