-- ===== src/FreeVars/Search/Entries.antt =====
-- When `freeVars` finds the entries that it looks up, and the names that its sets have.
use llreve.Prelude.{
  String, Bool, true, false, List, [], ◌∷◌, ◌++◌, Option, none, some, ◌≡◌, refl, ◌∙◌, inl, inr,
  Bool-cases, arith, contains, contains-append, ok, err, out_of_range, or-true_left, or-true_right,
}
use llreve.Smt.Sort.{SortedVar}
use llreve.Marks.{Mark, mark_eq}
use llreve.Marks.Sets.{false_ne_true}
use llreve.FreeVars.Instructions.{has_name, sorted_name}
use llreve.FreeVars.Gather.{MarkMap, find_at}
use llreve.FreeVars.Search.{VarSets, at, assign_at}
use llreve.FreeVars.Search.Sets.{held, find_at-assign_at}

module _ {A : Type 0} where
  unfoldable pub has_entry : MarkMap A → Mark → Bool
  unfolding find_at
  has_entry map m = elim (find_at map m) [ none ↦ false | some a ↦ true ]

  pub entry :
      (map : MarkMap A) (m : Mark)
      → has_entry map m ≡ true
      → (a : A) × (find_at map m ≡ some a) × (at map m ≡ ok a)
  unfolding has_entry at
  entry map m h = go (find_at map m) h
    where
      go :
          (o : Option A)
          → (elim o [ none ↦ false | some a ↦ true ]) ≡ true
          → (a : A) × (o ≡ some a) × ((elim o [ none ↦ err out_of_range | some a ↦ ok a ]) ≡ ok a)
      go none h = absurd (false_ne_true h)
      go (some a) h = (a, refl, refl)

  pub has_entry-assign_at :
      (m : Mark) (a : A) (map : MarkMap A) (k : Mark)
      → has_entry map k ≡ true
      → has_entry (assign_at m a map) k ≡ true
  unfolding has_entry
  has_entry-assign_at m a map k h = ground (arith, find_at-assign_at m a map k)

-- The names in the sets of all marks.
unfoldable pub set_names : List SortedVar → List String
set_names [] = []
set_names (v ∷ vars) = v.name ∷ set_names vars

unfoldable pub all_names : VarSets → List String
unfolding set_names
all_names [] = []
all_names ((m, vars) ∷ rest) = set_names vars ++ all_names rest

pub contains-set_names :
    (vars : List SortedVar) (x : String) → contains (set_names vars) x ≡ has_name sorted_name vars x
unfolding contains set_names has_name
contains-set_names [] x = refl
contains-set_names (v ∷ vars) x = rw (contains-set_names vars x)

pub held-all_names :
    (sets : VarSets) (m : Mark) (x : String)
    → held sets m x ≡ true
    → contains (all_names sets) x ≡ true
unfolding held all_names find_at
held-all_names [] m x h = cc
held-all_names ((n, vars) ∷ rest) m x h = elim (Bool-cases (mark_eq n m)) [
  | inl e ↦
      contains-append (set_names vars) (all_names rest) x
      ∙ or-true_left _ _ (contains-set_names vars x ∙ (rw (held, e) at h))
  | inr e ↦
      contains-append (set_names vars) (all_names rest) x
      ∙ or-true_right _ _ (held-all_names rest m x (rw (held, e) at h))
]

-- Whether `constructed.at(start).at(end)` is there.
unfoldable pub has_way : MarkMap VarSets → Mark → Mark → Bool
unfolding has_entry find_at
has_way constructed start end = elim (find_at constructed start) [
  | none ↦ false
  | some sets ↦ has_entry sets end
]

pub way :
    (constructed : MarkMap VarSets) (start end : Mark)
    → has_way constructed start end ≡ true
    → (sets : VarSets) × (built : List SortedVar) × (at constructed start ≡ ok sets)
      × (at sets end ≡ ok built)
unfolding has_way
way constructed start end h = elim (Bool-cases (has_entry constructed start)) [
  | inl e ↦
      let (sets, found, at_start) = entry constructed start e in
      let (built, found', at_end) = entry sets end (rw (has_way, found) at h) in
      (sets, built, at_start, at_end)
  | inr e ↦ absurd (no_entry (find_at constructed start) e h)
]
  where
    no_entry :
        (o : Option VarSets)
        → (elim o [ none ↦ false | some a ↦ true ]) ≡ false
        → (elim o [ none ↦ false | some sets ↦ has_entry sets end ]) ≡ true
        → ⊥
    no_entry none e h = false_ne_true h
    no_entry (some a) e h = cc

-- Every mark that paths lead from or to has a set, and every pair of them a set constructed.
module _ {X : Type 0} (constructed : MarkMap VarSets) (sets : VarSets) where
  abbrev pub AreReady : Mark → MarkMap X → Type 0
  AreReady start [] = Unit {0}
  AreReady start ((end, paths) ∷ rest) =
      (has_entry sets end ≡ true) × (has_way constructed start end ≡ true) × AreReady start rest

  abbrev pub IsReady : MarkMap (MarkMap X) → Type 0
  IsReady [] = Unit {0}
  IsReady ((start, ends) ∷ rest) =
      (has_entry sets start ≡ true) × AreReady start ends × IsReady rest
