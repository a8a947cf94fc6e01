-- ===== src/FreeVars/Search/Sets.antt =====
-- Membership of names in the sets of `freeVars`, before and after an insertion.
use llreve.Prelude.{
  String, Bool, true, false, List, [], ◌∷◌, Option, none, some, ◌≡◌, refl, sym, ap, ◌∙◌, ◌&&◌, ◌||◌,
  if◌then◌else◌, ◌==◌, eq_iff, Bool-cases, inl, inr, arith, ok, ok-injective, >>=-eq-ok, not,
  or-false,
}
use llreve.Smt.Sort.{SortedVar}
use llreve.Marks.{Mark, mark_eq, mark_eq-eq, mark_eq_refl}
use llreve.Marks.Sets.{IsTest, apart}
use llreve.FreeVars.Instructions.{has_name, put_in_order, insert_named, sorted_name}
use llreve.FreeVars.Gather.{MarkMap, find_at}
use llreve.FreeVars.Search.{VarSets, Round, at, assign_at, add}

pub mark-IsTest : IsTest mark_eq
mark-IsTest = record { sound = mark_eq-eq; reflexive = mark_eq_refl }

module _ {A : Type 0} (name_of : A → String) where
  has_name-put_in_order :
      (a : A) (bs : List A) (x : String)
      → has_name name_of (put_in_order name_of a bs) x ≡ ((name_of a == x) || has_name name_of bs x)
  unfolding put_in_order has_name
  has_name-put_in_order a [] x = refl
  has_name-put_in_order a (b ∷ bs) x = ground (arith, has_name-put_in_order a bs x)

  pub has_name-insert_named :
      (a : A) (bs : List A) (x : String)
      → has_name name_of (insert_named name_of a bs) x ≡ (has_name name_of bs x || (name_of a == x))
  unfolding insert_named
  has_name-insert_named a bs x = ground (arith, has_name-put_in_order a bs x, eq_iff (name_of a) x)

-- Whether the set of a mark has a variable of a name.
unfoldable pub held : VarSets → Mark → String → Bool
unfolding find_at has_name
held sets m x = elim (find_at sets m) [ none ↦ false | some vars ↦ has_name sorted_name vars x ]

module _ {A : Type 0} where
  pub at-find_at : (map : MarkMap A) (m : Mark) (a : A) → at map m ≡ ok a → find_at map m ≡ some a
  unfolding at
  at-find_at map m a h = ground arith

  pub find_at-assign_at :
      (m : Mark) (a : A) (map : MarkMap A) (k : Mark)
      → find_at (assign_at m a map) k ≡ (if mark_eq m k then some a else find_at map k)
  unfolding find_at assign_at
  find_at-assign_at m a [] k = refl
  find_at-assign_at m a ((n, b) ∷ rest) k = elim (Bool-cases (mark_eq n m)) [
    | inl e ↦ rw (e, mark_eq-eq n m e) (if_twice (mark_eq m k) (some a) (some b) (find_at rest k))
    | inr e ↦ elim (Bool-cases (mark_eq n k)) [
      | inl f ↦ rw (e, f, apart mark-IsTest n m k e f)
      | inr f ↦ rw (e, f) (find_at-assign_at m a rest k)
    ]
  ]
    where
      if_twice :
          (b : Bool) (x z y : Option A)
          → (if b then x else y) ≡ (if b then x else (if b then z else y))
      if_twice true x z y = refl
      if_twice false x z y = refl

  -- An entry that is assigned what it has stays as it is.
  assign_at_same :
      (m : Mark) (a : A) (map : MarkMap A) → find_at map m ≡ some a → assign_at m a map ≡ map
  unfolding find_at assign_at
  assign_at_same m a [] h = cc
  assign_at_same m a ((n, b) ∷ rest) h = elim (Bool-cases (mark_eq n m)) [
    | inl e ↦ rw e (ap (λ c. (n, c) ∷ rest) (some_injective (sym (rw e at h))))
    | inr e ↦ rw (e, assign_at_same m a rest (rw e at h))
  ]
    where
      some_injective : {x y : A} → some x ≡ some y → x ≡ y
      some_injective h = cc

-- What `add` finds and leaves.
pub add-ok :
    (start : Mark) (v : SortedVar) (r r' : Round)
    → add start v r ≡ ok r'
    → (vars : List SortedVar) × (find_at r.sets start ≡ some vars)
      × (r'.sets ≡ assign_at start (insert_named sorted_name v vars) r.sets)
      × (r'.changed ≡ (r.changed || not (has_name sorted_name vars v.name)))
unfolding add
add-ok start v r r' h =
    let (vars, found, rest) = >>=-eq-ok (at r.sets start) _ h in
    (
      vars,
      at-find_at r.sets start vars found,
      ap (λ (s : Round). s.sets) (sym (ok-injective rest)),
      ap (λ (s : Round). s.changed) (sym (ok-injective rest)),
    )

-- After an insertion a set has what it had, and the name inserted.
pub held-add :
    (start : Mark) (v : SortedVar) (r r' : Round)
    → add start v r ≡ ok r'
    → (m : Mark) (x : String)
    → held r'.sets m x ≡ (held r.sets m x || (mark_eq start m && (v.name == x)))
unfolding held
held-add start v r r' h m x =
    let (vars, found, sets, changed) = add-ok start v r r' h in
    elim (Bool-cases (mark_eq start m)) [
      | inl e ↦
          rw
            (
              sets,
              held,
              find_at-assign_at start (insert_named sorted_name v vars) r.sets m,
              e,
              ← mark_eq-eq start m e,
              found,
            )
            (has_name-insert_named sorted_name v vars x)
      | inr e ↦
          rw (sets, held, find_at-assign_at start (insert_named sorted_name v vars) r.sets m, e)
            (or_nothing
              (elim (find_at r.sets m) [ none ↦ false | some vars ↦ has_name sorted_name vars x ]))
    ]
  where
    or_nothing : (b : Bool) → b ≡ (b || false)
    or_nothing b = ground arith

-- An insertion that is no change.
pub add_quiet :
    (start : Mark) (v : SortedVar) (r r' : Round)
    → add start v r ≡ ok r'
    → r'.changed ≡ false
    → (r.changed ≡ false) × (r'.sets ≡ r.sets) × (held r.sets start v.name ≡ true)
unfolding held
add_quiet start v r r' h quiet =
    let (vars, found, sets, changed) = add-ok start v r r' h in
    let parts = or-false r.changed (not (has_name sorted_name vars v.name)) (sym changed ∙ quiet) in
    let has : has_name sorted_name vars v.name ≡ true =
      not-false (has_name sorted_name vars v.name) parts.1 in
    (
      parts.0,
      sets
          ∙ (ap (λ vs. assign_at start vs r.sets) (insert_named_same v vars has)
              ∙ assign_at_same start vars r.sets found),
      rw (held, found) has,
    )
  where
    not-false : (b : Bool) → not b ≡ false → b ≡ true
    not-false b e = ground arith

    insert_named_same :
        (w : SortedVar) (ws : List SortedVar)
        → has_name sorted_name ws w.name ≡ true
        → insert_named sorted_name w ws ≡ ws
    insert_named_same w ws e = unfold insert_named in (rw e refl)
