-- ===== src/Slicing/BruteForce/Tries.antt =====
-- What a single try of `slicing/src/slicingMethods/BruteForce.cpp` does, and a walk of tries along a
-- list of patterns.
use mathlib.Core.Path.{subst}
use llreve.Prelude.{
  ℕ, ◌≡◌, inl, inr, refl, sym, ap, ◌∙◌, Bool, true, false, not, ◌&&◌, Bool-cases, and-true,
  not-true, length, List, [], ◌∷◌, none, some, negsuc, All, Result, ok, arith,
}
use llreve.Slicing.Patterns.Visited.{visit, visit-done, visit-onward}
use llreve.Slicing.Patterns.First.{first_of, first_of-true, first_of-false}
use llreve.Slicing.BruteForce.{
  Checks, Search, ValidationResult, valid, invalid, unknown, at_least, validated, try_candidate,
  try_pattern,
}
use llreve.Slicing.BruteForce.Parts.{chosen, cut_of, to_be_sliced-chosen}

at_least-start : (n : ℕ) → at_least n (negsuc 0) ≡ true
unfolding at_least
at_least-start n = refl

is_valid : ValidationResult → Bool
is_valid valid = true
is_valid invalid = false
is_valid unknown = false

module _ (checks : Checks) where
  open checks use {has_unsliced_instructions, validate}

  -- All the instructions can be sliced, and the validation finds the candidate valid.
  unfoldable pub is_slice : List ℕ → Bool
  unfolding is_valid
  is_slice cut = not (has_unsliced_instructions cut) && is_valid (validate cut)

  -- The search goes on after a candidate that is no slice, and ends with one that is.
  GoesOn : Search → Result (Search × Bool) → Type 0
  GoesOn s r =
      (s' : Search) × (r ≡ ok (s', false))
      × (s'.best_candidate ≡ s.best_candidate)
      × (s'.max_sliced ≡ s.max_sliced)

  EndsWith : List ℕ → Result (Search × Bool) → Type 0
  EndsWith cut r = (s' : Search) × (r ≡ ok (s', true)) × (s'.best_candidate ≡ some cut)

  try_candidate-unsliced :
      (cut : List ℕ) (s : Search)
      → has_unsliced_instructions cut ≡ true
      → GoesOn s (try_candidate checks cut s)
  unfolding GoesOn try_candidate
  try_candidate-unsliced cut s h = rw (try_candidate, h) (_, refl, refl, refl)

  try_candidate-validated :
      (cut : List ℕ) (s : Search)
      → has_unsliced_instructions cut ≡ false
      → s.max_sliced ≡ negsuc 0
      → try_candidate checks cut s ≡ ok (validated checks cut s)
  unfolding try_candidate
  try_candidate-validated cut s h m =
      rw (try_candidate, h, ap (at_least (length cut)) m ∙ at_least-start (length cut)) refl

  validated-valid :
      (cut : List ℕ) (s : Search)
      → validate cut ≡ valid
      → EndsWith cut (ok (validated checks cut s))
  unfolding EndsWith validated
  validated-valid cut s h = rw (validated, h) (_, refl, refl)

  validated-other :
      (cut : List ℕ) (s : Search) (v : ValidationResult)
      → validate cut ≡ v
      → is_valid v ≡ false
      → GoesOn s (ok (validated checks cut s))
  unfolding GoesOn validated is_valid
  validated-other cut s valid h k = cc
  validated-other cut s invalid h k = rw (validated, h) (_, refl, refl, refl)
  validated-other cut s unknown h k = rw (validated, h) (_, refl, refl, refl)

  valid_only : (v : ValidationResult) → is_valid v ≡ true → v ≡ valid
  unfolding is_valid
  valid_only valid h = refl
  valid_only invalid h = cc
  valid_only unknown h = cc

  try_candidate-slice :
      (cut : List ℕ) (s : Search)
      → is_slice cut ≡ true
      → s.max_sliced ≡ negsuc 0
      → EndsWith cut (try_candidate checks cut s)
  unfolding is_slice
  try_candidate-slice cut s h m =
      let both = and-true (not (has_unsliced_instructions cut)) (is_valid (validate cut)) h in
      subst (EndsWith cut) (sym (try_candidate-validated cut s (not-true _ both.0) m))
        (validated-valid cut s (valid_only (validate cut) both.1))

  try_candidate-other :
      (cut : List ℕ) (s : Search)
      → is_slice cut ≡ false
      → s.max_sliced ≡ negsuc 0
      → GoesOn s (try_candidate checks cut s)
  unfolding is_slice
  try_candidate-other cut s h m = elim (Bool-cases (has_unsliced_instructions cut)) [
    | inl e ↦ try_candidate-unsliced cut s e
    | inr e ↦
        subst (GoesOn s) (sym (try_candidate-validated cut s e m))
          (validated-other cut s (validate cut) refl (rest_false e h))
  ]
    where
      rest_false : {b c : Bool} → b ≡ false → (not b && c) ≡ false → c ≡ false
      rest_false e h = ground (arith, e, h)

  -- The cut of the first pattern of a list whose cut is a slice.
  unfoldable pub accepted : List ℕ → List Bool → Bool
  unfolding is_slice chosen
  accepted is bs = is_slice (chosen bs is)

  try_pattern-chosen :
      (is : List ℕ) (bs : List Bool) (s : Search)
      → length bs ≡ length is
      → try_pattern checks is bs s ≡ try_candidate checks (chosen bs is) s
  unfolding try_pattern
  try_pattern-chosen is bs s l = rw (try_pattern, to_be_sliced-chosen bs is l) refl

  pub visit-first_of :
      (is : List ℕ) (ps : List (List Bool)) (s : Search)
      → All (λ p. length p ≡ length is) ps
      → s.max_sliced ≡ negsuc 0
      → s.best_candidate ≡ none
      → (s' : Search) × (visit (try_pattern checks is) ps ok s ≡ ok s')
        × (s'.best_candidate ≡ cut_of is (first_of (accepted is) ps))
  unfolding visit first_of cut_of is_slice accepted EndsWith GoesOn
  visit-first_of is [] s l m b = (s, refl, b)
  visit-first_of is (p ∷ ps) s l m b = elim (Bool-cases (accepted is p)) [
    | inl e ↦
        let t = try_candidate-slice (chosen p is) s e m in
        (
          t.0,
          visit-done (try_pattern checks is) p ps ok s (try_pattern-chosen is p s l.0 ∙ t.1),
          t.2 ∙ sym (ap (cut_of is) (first_of-true (accepted is) p ps e)),
        )
    | inr e ↦
        let t = try_candidate-other (chosen p is) s e m in
        let r = visit-first_of is ps t.0 l.1 (t.3 ∙ m) (t.2 ∙ b) in
        (
          r.0,
          visit-onward (try_pattern checks is) p ps ok s (try_pattern-chosen is p s l.0 ∙ t.1)
              ∙ r.1,
          r.2 ∙ sym (ap (cut_of is) (first_of-false (accepted is) p ps e)),
        )
  ]
