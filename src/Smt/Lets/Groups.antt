-- ===== src/Smt/Lets/Groups.antt =====
-- The parallel `let`s of `nest_lets` are independent, which is what `inline_lets` needs of a `let`:
-- it adds the assignments one after the other.
use llreve.Prelude.{
  String, Bool, true, false, List, [], ◌∷◌, ◌++◌, ◌≡◌, refl, contains, Bool-cases, inl, inr, ◌&&◌,
  and-true, or-false, not, All,
}
use llreve.Smt.Expr.{
  Expr, assert, let_in, forall, op, fp_cmp, binary_fp, type_cast, fun_def, Args, nil, cons, Defs,
  done, bind, of_assignments,
}
use llreve.Smt.Meaning.Occurs.{occurs, bindings_occur, avoids}
use llreve.Smt.Inline.Safe.{independent}
use llreve.Smt.Lets.{Assignment, NestState, flush, nest_step, nest_finish, nest_lets}
use llreve.Smt.Lets.Chain.{nest_fold, start, nest_lets-fold, NoComparison, Covers, Covers-nest_fold}

module _ {I F : Type 0} where
  -- No binding of a `let`, at any depth, names what an earlier binding of the same `let` declares.
  unfoldable mutual
    pub lets_independent : Expr I F → Bool
    lets_independent (assert e) = lets_independent e
    lets_independent (forall vars e) = lets_independent e
    lets_independent (let_in ds e) =
        independent [] ds && (bindings_independent ds && lets_independent e)
    lets_independent (op name args inst) = args_independent args
    lets_independent (fp_cmp p sort a b) = lets_independent a && lets_independent b
    lets_independent (binary_fp o sort a b) = lets_independent a && lets_independent b
    lets_independent (type_cast o from to e) = lets_independent e
    lets_independent (fun_def name vars out body) = lets_independent body
    lets_independent e = true

    bindings_independent : Defs I F → Bool
    bindings_independent done = true
    bindings_independent (bind x e ds) = lets_independent e && bindings_independent ds

    args_independent : Args I F → Bool
    args_independent nil = true
    args_independent (cons e es) = lets_independent e && args_independent es

  -- Each bound expression has only independent `let`s.
  abbrev pub AllIndependent : List (Assignment I F) → Type 0
  AllIndependent ds = All (λ (d : Assignment I F). lets_independent d.1 ≡ true) ds

  avoids-insert :
      (pre xs : List String) (x : String) (e : Expr I F)
      → avoids (pre ++ xs) e ≡ true
      → occurs e x ≡ false
      → avoids (pre ++ (x ∷ xs)) e ≡ true
  unfolding avoids
  avoids-insert [] xs x e h o = rw (h, o)
  avoids-insert (y ∷ pre) xs x e h o =
      let w = and-true (not (occurs e y)) (avoids (pre ++ xs) e) h in
      rw (w.0, avoids-insert pre xs x e w.1 o)

  independent-insert :
      (ds : Defs I F) (pre xs : List String) (x : String)
      → independent (pre ++ xs) ds ≡ true
      → bindings_occur ds x ≡ false
      → independent (pre ++ (x ∷ xs)) ds ≡ true
  unfolding independent occurs
  independent-insert done pre xs x h o = refl
  independent-insert (bind y e ds) pre xs x h o =
      let w = and-true (avoids (pre ++ xs) e) (independent (y ∷ (pre ++ xs)) ds) h in
      let u = or-false (occurs e x) (bindings_occur ds x) o in
      rw (avoids-insert pre xs x e w.0 u.0, independent-insert ds (y ∷ pre) xs x w.1 u.1)

  record AreIndependent (s : NestState I F) : Type 0 where
    group : independent [] (of_assignments s.accum) ≡ true
    bound : bindings_independent (of_assignments s.accum) ≡ true
    outside : lets_independent s.lets ≡ true

  AreIndependent-nest_step :
      (x : String) (d : Expr I F) (s : NestState I F)
      → Covers s
      → lets_independent d ≡ true
      → AreIndependent s
      → AreIndependent (nest_step (x, d) s)
  unfolding nest_step flush of_assignments independent avoids lets_independent
  AreIndependent-nest_step x d s c i h = elim (Bool-cases (contains s.uses x)) [
    | inl u ↦
        rw u
          (record { group = refl; bound = rw i refl; outside = rw (h.group, h.bound, h.outside) })
    | inr u ↦ rw u (record {
      group = independent-insert (of_assignments s.accum) [] [] x h.group (c x u);
      bound = rw (i, h.bound);
      outside = h.outside;
    })
  ]

  AreIndependent-nest_fold :
      (e : Expr I F) (ds : List (Assignment I F))
      → NoComparison ds
      → AllIndependent ds
      → lets_independent e ≡ true
      → AreIndependent (nest_fold (start e) ds)
  unfolding nest_fold start of_assignments independent lets_independent
  AreIndependent-nest_fold e [] h i k = record { group = refl; bound = refl; outside = k }
  AreIndependent-nest_fold e ((x, d) ∷ ds) h i k =
      AreIndependent-nest_step x d (nest_fold (start e) ds) (Covers-nest_fold e ds h.1) i.0
        (AreIndependent-nest_fold e ds h.1 i.1 k)

  finish-independent :
      (e : Expr I F) (g : List (Assignment I F))
      → independent [] (of_assignments g) ≡ true
      → bindings_independent (of_assignments g) ≡ true
      → lets_independent e ≡ true
      → lets_independent (nest_finish e g) ≡ true
  unfolding nest_finish lets_independent
  finish-independent e [] i b k = k
  finish-independent e (d ∷ g) i b k = rw (i, b, k)

  -- If no assignment has a floating point comparison, and in the `let`s of the clause and of the
  -- assignments, at any depth, no binding names what an earlier binding of the same `let` declares,
  -- then the same holds of all `let`s of the result of `nest_lets`, at any depth.
  pub lets_independent-nest_lets :
      (e : Expr I F) (ds : List (Assignment I F))
      → NoComparison ds
      → AllIndependent ds
      → lets_independent e ≡ true
      → lets_independent (nest_lets e ds) ≡ true
  lets_independent-nest_lets e ds h i k =
      let r = AreIndependent-nest_fold e ds h i k in
      rw (nest_lets-fold e ds)
        (finish-independent _ (nest_fold (start e) ds).accum r.group r.bound r.outside)
