-- ===== src/FreeVars/Gather/Recorded.antt =====
-- What `freeVarsOnPaths` records as constructed on the paths to a mark.
use llreve.Prelude.{
  ℕ, List, [], ◌∷◌, none, some, ◌≡◌, refl, inl, inr, Bool-cases, ok, ok-injective, >>=-eq-ok,
}
use llreve.Marks.{Mark, mark_eq, mark_eq_refl}
use llreve.Paths.{BlockPath}
use llreve.FreeVars.Instructions.{FreeVar, Instr, Reads}
use llreve.FreeVars.Gather.{
  MarkMap, find_at, insert_at, record_constructed, intersection, VariablesResult, path_reads,
  on_paths,
}

module _ {A : Type 0} where
  insert_at_kept :
      (m : Mark) (a b : A) (map : MarkMap A)
      → find_at map m ≡ some b
      → find_at (insert_at m a map) m ≡ some b
  unfolding find_at insert_at
  insert_at_kept m a b [] h = cc
  insert_at_kept m a b ((n, c) ∷ rest) h = elim (Bool-cases (mark_eq n m)) [
    | inl e ↦ rw (e, e) (rw e at h)
    | inr e ↦ rw (e, e) (insert_at_kept m a b rest (rw e at h))
  ]

  insert_at_new :
      (m : Mark) (a : A) (map : MarkMap A)
      → find_at map m ≡ none
      → find_at (insert_at m a map) m ≡ some a
  unfolding find_at insert_at
  insert_at_new m a [] h = rw (mark_eq_refl m) refl
  insert_at_new m a ((n, c) ∷ rest) h = elim (Bool-cases (mark_eq n m)) [
    | inl e ↦ absurd (some-ne-none (rw e at h))
    | inr e ↦ rw (e, e) (insert_at_new m a rest (rw e at h))
  ]
    where
      some-ne-none : some c ≡ none → ⊥
      some-ne-none k = cc

module _ (m : Mark) (vars : List FreeVar) (map : MarkMap (List FreeVar)) where
  record_constructed-none :
      find_at map m ≡ none → record_constructed m vars map ≡ insert_at m vars map
  unfolding record_constructed
  record_constructed-none h = rw (record_constructed, h) refl

  record_constructed-some :
      (before : List FreeVar)
      → find_at map m ≡ some before
      → record_constructed m vars map ≡ insert_at m (intersection vars before) map
  unfolding record_constructed
  record_constructed-some before h = rw (record_constructed, h) refl

  record_constructed_new :
      find_at map m ≡ none → find_at (record_constructed m vars map) m ≡ some vars
  record_constructed_new h = rw (record_constructed-none h) (insert_at_new m vars map h)

  record_constructed_kept :
      (before : List FreeVar)
      → find_at map m ≡ some before
      → find_at (record_constructed m vars map) m ≡ some before
  record_constructed_kept before h =
      rw (record_constructed-some before h)
        (insert_at_kept m (intersection vars before) before map h)

module _ {C I : Type 0} (instructions : ℕ → List Instr) where
  on_paths_kept :
      (m : Mark) (ps : List (BlockPath C I)) (found found' : VariablesResult)
      (before : List FreeVar)
      → find_at found.constructed m ≡ some before
      → on_paths instructions m ps found ≡ ok found'
      → find_at found'.constructed m ≡ some before
  unfolding on_paths
  on_paths_kept m [] found found' before h e = rw (← ok-injective e) h
  on_paths_kept m (p ∷ ps) found found' before h e =
      let (r, first, rest) = >>=-eq-ok (path_reads instructions p found.accessed) _ e in
      on_paths_kept m ps _ found' before
        (record_constructed_kept m r.constructed found.constructed before h) rest

  -- Of several paths to a mark that has no entry yet, the first alone decides which variables are
  -- recorded as constructed on the way: they are those that it constructs, whether or not the
  -- other paths construct them.
  pub on_paths-path_reads :
      (m : Mark) (p : BlockPath C I) (ps : List (BlockPath C I)) (found found' : VariablesResult)
      → find_at found.constructed m ≡ none
      → on_paths instructions m (p ∷ ps) found ≡ ok found'
      → (r : Reads) × (path_reads instructions p found.accessed ≡ ok r)
        × (find_at found'.constructed m ≡ some r.constructed)
  unfolding on_paths
  on_paths-path_reads m p ps found found' new e =
      let (r, first, rest) = >>=-eq-ok (path_reads instructions p found.accessed) _ e in
      (
        r,
        first,
        on_paths_kept m ps _ found' r.constructed
            (record_constructed_new m r.constructed found.constructed new) rest,
      )
