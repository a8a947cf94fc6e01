-- ===== src/FreeVars/Search/Total.antt =====
-- The search of `freeVars` ends: a round that changes something leaves fewer names missing.
use llreve.Prelude.{
  String, Bool, true, false, not, ℕ, zero, suc, ◌+◌, ◌*◌, ◌≤◌, ◌<◌, List, [], ◌∷◌, length, ◌≡◌,
  refl, sym, ◌∙◌, inl, inr, ◌||◌, eq_iff, Bool-cases, arith, All, contains, ok, is_ok, and-true,
  Result, ◌>>=◌, or-cases,
}
use llreve.Smt.Sort.{SortedVar}
use llreve.Marks.{Mark, mark_eq}
use llreve.FreeVars.Instructions.{has_name, insert_named, sorted_name}
use llreve.FreeVars.Gather.{MarkMap}
use llreve.FreeVars.Search.{
  VarSets, Round, at, assign_at, add, offer, offer_all, visit_ends, visit_starts, search_sets,
}
use llreve.FreeVars.Search.Sets.{held, held-add}
use llreve.FreeVars.Search.Needed.{has_name-All, held-has_name}
use llreve.FreeVars.Search.Entries.{
  has_entry, entry, has_entry-assign_at, all_names, held-all_names, has_way, way, AreReady, IsReady,
}
use llreve.FreeVars.Search.Missing.{missing, missing-le, missing-assign_at, step_of}

-- What the rounds keep: the marks have entries, every variable is one of those at the start, and
-- the names missing, with one more if the round has changed something, are no more than before.
record Fits (start_sets : VarSets) (bound : ℕ) (r : Round) : Type 0 where
  entries : (m : Mark) → has_entry start_sets m ≡ true → has_entry r.sets m ≡ true
  inside :
      (m : Mark) (x : String) → held r.sets m x ≡ true → contains (all_names start_sets) x ≡ true
  left : missing (all_names start_sets) r.sets + step_of r.changed ≤ bound

step_of-or : (a b : Bool) → step_of (a || b) ≤ step_of a + step_of b
unfolding step_of
step_of-or a b = ground arith

module _ (constructed : MarkMap VarSets) (start_sets : VarSets) (bound : ℕ) where
  abbrev Known : SortedVar → Type 0
  Known v = contains (all_names start_sets) v.name ≡ true

  abbrev Returns : Result Round → Type 0
  Returns m = (r : Round) × (m ≡ ok r) × Fits start_sets bound r

  add-Returns :
      (start : Mark) (v : SortedVar) (r : Round)
      → has_entry start_sets start ≡ true
      → Known v
      → Fits start_sets bound r
      → Returns (add start v r)
  unfolding add assign_at has_name
  add-Returns start v r there known fits =
      let (vars, found, at_start) = entry r.sets start (fits.entries start there) in
      let r' : Round = record {
        sets = assign_at start (insert_named sorted_name v vars) r.sets;
        changed = r.changed || not (has_name sorted_name vars v.name);
      } in
      let added : add start v r ≡ ok r' = rw (add, at_start) refl in
      (
        r',
        added,
        record {
          entries = λ m h.
              has_entry-assign_at start (insert_named sorted_name v vars) r.sets m
                (fits.entries m h);
          inside = λ m x h. elim (or-cases _ _ (sym (held-add start v r r' added m x) ∙ h)) [
            | inl before ↦ fits.inside m x before
            | inr now ↦ rw (← (eq_iff v.name x).0 (and-true (mark_eq start m) _ now).1) known
          ];
          left = omega (
            arith,
            missing-assign_at (all_names start_sets) start v r.sets vars found known,
            step_of-or r.changed (not (has_name sorted_name vars v.name)),
            fits.left,
          );
        },
      )

  offer-Returns :
      (start end : Mark) (v : SortedVar) (r : Round) (sets : VarSets) (built : List SortedVar)
      → at constructed start ≡ ok sets
      → at sets end ≡ ok built
      → has_entry start_sets start ≡ true
      → Known v
      → Fits start_sets bound r
      → Returns (offer constructed start end v r)
  unfolding offer
  offer-Returns start end v r sets built p q there known fits =
      elim (Bool-cases (has_name sorted_name built v.name)) [
        | inl e ↦ (r, rw (offer, p, q, e) refl, fits)
        | inr e ↦
            let (r', added, fits') = add-Returns start v r there known fits in
            (r', rw (offer, p, q, e) added, fits')
      ]

  offer_all-Returns :
      (start end : Mark) (vars : List SortedVar) (r : Round)
      → has_way constructed start end ≡ true
      → has_entry start_sets start ≡ true
      → All Known vars
      → Fits start_sets bound r
      → Returns (offer_all constructed start end vars r)
  unfolding offer_all
  offer_all-Returns start end [] r w there known fits = (r, refl, fits)
  offer_all-Returns start end (v ∷ vars) r w there known fits =
      let (sets, built, p, q) = way constructed start end w in
      let (r₁, first, fits₁) = offer-Returns start end v r sets built p q there known.0 fits in
      let (r', rest, fits') = offer_all-Returns start end vars r₁ w there known.1 fits₁ in
      (r', rw first rest, fits')

  module _ {X : Type 0} where
    visit_ends-Returns :
        (start : Mark) (ends : MarkMap X) (r : Round)
        → has_entry start_sets start ≡ true
        → AreReady constructed start_sets start ends
        → Fits start_sets bound r
        → Returns (visit_ends constructed start ends r)
    unfolding visit_ends
    visit_ends-Returns start [] r there ready fits = (r, refl, fits)
    visit_ends-Returns start ((end, paths) ∷ rest) r there ready fits =
        let (vars, found, at_end) = entry r.sets end (fits.entries end ready.0) in
        let known =
          has_name-All (λ x. contains (all_names start_sets) x ≡ true) vars
            (λ x e. fits.inside end x (held-has_name r.sets end vars x found ∙ e)) in
        let (r₁, first, fits₁) = offer_all-Returns start end vars r ready.1 there known fits in
        let (r', later, fits') = visit_ends-Returns start rest r₁ there ready.2 fits₁ in
        (r', rw (at_end, first) later, fits')

    visit_starts-Returns :
        (starts : MarkMap (MarkMap X)) (r : Round)
        → IsReady constructed start_sets starts
        → Fits start_sets bound r
        → Returns (visit_starts constructed starts r)
    unfolding visit_starts
    visit_starts-Returns [] r ready fits = (r, refl, fits)
    visit_starts-Returns ((start, ends) ∷ rest) r ready fits =
        let (r₁, first, fits₁) = visit_ends-Returns start ends r ready.0 ready.1 fits in
        let (r', later, fits') = visit_starts-Returns rest r₁ ready.2 fits₁ in
        (r', rw first later, fits')

module _ {X : Type 0} (map : MarkMap (MarkMap X)) (constructed : MarkMap VarSets) (fuel : ℕ)
    (r₀ r : Round) (round : visit_starts constructed map r₀ ≡ ok r) where
  abbrev AfterRound : Result VarSets
  AfterRound = do
    s ← visit_starts constructed map r₀
    elim s.changed [ true ↦ search_sets constructed fuel map s.sets | false ↦ ok s.sets ]

  next_round :
      r.changed ≡ true
      → is_ok (search_sets constructed fuel map r.sets) ≡ true
      → is_ok AfterRound ≡ true
  next_round more returns = rw round (rw more returns)

  last_round : r.changed ≡ false → is_ok AfterRound ≡ true
  last_round quiet = rw round (rw quiet refl)

search_sets-Returns :
    {X : Type 0} (map : MarkMap (MarkMap X)) (constructed : MarkMap VarSets) (start_sets : VarSets)
    (fuel : ℕ) (now : VarSets)
    → IsReady constructed start_sets map
    → ((m : Mark) → has_entry start_sets m ≡ true → has_entry now m ≡ true)
    → ((m : Mark) (x : String) → held now m x ≡ true → contains (all_names start_sets) x ≡ true)
    → missing (all_names start_sets) now < fuel
    → is_ok (search_sets constructed fuel map now) ≡ true
unfolding search_sets step_of
search_sets-Returns map constructed start_sets zero now ready entries inside enough =
    absurd (omega (arith, enough))
search_sets-Returns map constructed start_sets (suc fuel) now ready entries inside enough =
    let r₀ : Round = record { sets = now; changed = false } in
    let bound = missing (all_names start_sets) now in
    let fits₀ : Fits start_sets bound r₀ = record {
      entries = entries;
      inside = inside;
      left = omega arith;
    } in
    let (r, round, fits) = visit_starts-Returns constructed start_sets bound map r₀ ready fits₀ in
    elim (Bool-cases r.changed) [
      | inl more ↦
          let left : missing (all_names start_sets) r.sets + 1 ≤ bound = rw more at fits.left in
          next_round map constructed fuel r₀ r round more (
            search_sets-Returns map constructed start_sets fuel r.sets ready fits.entries
              fits.inside (omega (arith, left, enough)))
      | inr quiet ↦ last_round map constructed fuel r₀ r round quiet
    ]

-- If every mark that paths lead from or to has a set, and every pair of them a set of what is
-- constructed on the ways, then more rounds than there are pairs of a mark and a name are enough
-- for the search to return.
pub search_sets-is_ok :
    {X : Type 0} (map : MarkMap (MarkMap X)) (constructed : MarkMap VarSets) (sets : VarSets)
    (fuel : ℕ)
    → IsReady constructed sets map
    → length sets * length (all_names sets) < fuel
    → is_ok (search_sets constructed fuel map sets) ≡ true
search_sets-is_ok map constructed sets fuel ready enough =
    search_sets-Returns map constructed sets fuel sets ready (λ m h. h) (held-all_names sets)
      (omega (arith, missing-le (all_names sets) sets, enough))
