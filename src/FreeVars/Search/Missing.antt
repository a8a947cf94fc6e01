-- ===== src/FreeVars/Search/Missing.antt =====
-- How many names are missing in the sets of `freeVars`, before and after an insertion.
use llreve.Prelude.{
  String, Bool, true, false, not, ℕ, ◌+◌, ◌*◌, ◌≤◌, ◌<◌, List, [], ◌∷◌, length, some, ◌≡◌, refl,
  ◌∙◌, inl, inr, ◌==◌, eq_iff, if◌then◌else◌, Bool-cases, arith, contains, or-true_left,
  or-true_right,
}
use llreve.Smt.Sort.{SortedVar}
use llreve.Marks.{Mark, mark_eq}
use llreve.FreeVars.Instructions.{has_name, insert_named, sorted_name}
use llreve.FreeVars.Gather.{find_at}
use llreve.FreeVars.Search.{VarSets, assign_at}
use llreve.FreeVars.Search.Sets.{has_name-insert_named}

-- How many of some names fail a test.
unfoldable pub absent : List String → (String → Bool) → ℕ
absent [] p = 0
absent (u ∷ us) p = (if p u then 0 else 1) + absent us p

absent-le-length : (us : List String) (p : String → Bool) → absent us p ≤ length us
unfolding absent
absent-le-length [] p = omega arith
absent-le-length (u ∷ us) p = ground (arith, absent-le-length us p)

absent_mono :
    (us : List String) (p q : String → Bool)
    → ((u : String) → p u ≡ true → q u ≡ true)
    → absent us q ≤ absent us p
unfolding absent
absent_mono [] p q h = omega arith
absent_mono (u ∷ us) p q h = ground (arith, absent_mono us p q h, h u)

-- One more name passes.
absent-lt :
    (us : List String) (p q : String → Bool) (x : String)
    → ((u : String) → p u ≡ true → q u ≡ true)
    → p x ≡ false
    → q x ≡ true
    → contains us x ≡ true
    → absent us q < absent us p
unfolding absent contains
absent-lt [] p q x h out into c = cc
absent-lt (u ∷ us) p q x h out into c = elim (Bool-cases (u == x)) [
  | inl e ↦ rw ((eq_iff u x).0 e, out, into) (omega (arith, absent_mono us p q h))
  | inr e ↦ ground (arith, absent-lt us p q x h out into (rw e at c), h u)
]

-- How many names are missing in the sets of all marks.
unfoldable pub missing : List String → VarSets → ℕ
unfolding absent
missing us [] = 0
missing us ((m, vars) ∷ rest) = absent us (has_name sorted_name vars) + missing us rest

pub missing-le : (us : List String) (sets : VarSets) → missing us sets ≤ length sets * length us
unfolding missing
missing-le us [] = omega arith
missing-le us ((m, vars) ∷ rest) =
    grind (arith, absent-le-length us (has_name sorted_name vars), missing-le us rest)

unfoldable pub step_of : Bool → ℕ
step_of b = if b then 1 else 0

absent-insert_named :
    (us : List String) (v : SortedVar) (vars : List SortedVar)
    → contains us v.name ≡ true
    → absent us (has_name sorted_name (insert_named sorted_name v vars))
        + step_of (not (has_name sorted_name vars v.name))
      ≤ absent us (has_name sorted_name vars)
unfolding step_of
absent-insert_named us v vars c =
    let grows = λ (u : String) (h : has_name sorted_name vars u ≡ true).
      has_name-insert_named sorted_name v vars u ∙ or-true_left _ _ h in
    elim (Bool-cases (has_name sorted_name vars v.name)) [
      | inl e ↦ rw e (omega (arith, absent_mono us _ _ grows))
      | inr e ↦ rw e (
          omega (
            arith,
            absent-lt us _ _ v.name grows e
                (has_name-insert_named sorted_name v vars v.name
                  ∙ or-true_right _ _ ((eq_iff v.name v.name).1 refl))
                c,
          ))
    ]

pub missing-assign_at :
    (us : List String) (m : Mark) (v : SortedVar) (sets : VarSets) (vars : List SortedVar)
    → find_at sets m ≡ some vars
    → contains us v.name ≡ true
    → missing us (assign_at m (insert_named sorted_name v vars) sets)
        + step_of (not (has_name sorted_name vars v.name))
      ≤ missing us sets
unfolding missing assign_at find_at
missing-assign_at us m v [] vars h c = cc
missing-assign_at us m v ((n, ws) ∷ rest) vars h c = elim (Bool-cases (mark_eq n m)) [
  | inl e ↦
      let same : ws ≡ vars = some_injective (rw e at h) in
      rw (e, same) (omega (arith, absent-insert_named us v vars c))
  | inr e ↦ rw e (omega (arith, missing-assign_at us m v rest vars (rw e at h) c))
]
  where
    some_injective : {x y : List SortedVar} → some x ≡ some y → x ≡ y
    some_injective h = cc
