-- ===== src/Smt/Split/Pieces.antt =====
-- The pieces that `split_conjunctions` of `reve/reve/lib/SMT.cpp` leaves.
use llreve.Prelude.{
  Bool, true, false, not, List, [], ◌∷◌, map, ◌≡◌, refl, ◌==◌, Bool-cases, inl, inr, All,
  All-append, if◌then◌else◌, ok, >>=-eq-ok, ok-injective,
}
use llreve.Smt.Expr.{Expr, assert, forall, let_in, op, Args, nil, cons}
use llreve.Smt.Split.{split_conjunctions, split_implication, split_args, implies}

module _ {I F : Type 0} where
  -- No conjunction at the root, below assertions, quantifiers and the bodies of `let`s there, or in
  -- the conclusions of implications there; these have a premise and a conclusion.
  unfoldable mutual
    pub conjunction_free : Expr I F → Bool
    conjunction_free (assert e) = conjunction_free e
    conjunction_free (let_in ds e) = conjunction_free e
    conjunction_free (forall vars e) = conjunction_free e
    conjunction_free (op name args inst) =
        if name == "=>" then conclusion_free args else not (name == "and")
    conjunction_free e = true

    conclusion_free : Args I F → Bool
    conclusion_free (cons a (cons b nil)) = conjunction_free b
    conclusion_free _ = false

  abbrev IsFree : Expr I F → Type 0
  IsFree e = conjunction_free e ≡ true

  IsFree-map :
      (f : Expr I F → Expr I F) (xs : List (Expr I F))
      → ((x : Expr I F) → IsFree x → IsFree (f x))
      → All IsFree xs
      → All IsFree (map f xs)
  IsFree-map f [] h k = tt
  IsFree-map f (x ∷ xs) h k = (h x k.0, IsFree-map f xs h k.1)

  mutual
    unfolding split_conjunctions conjunction_free

    split-IsFree :
        (e : Expr I F) (es : List (Expr I F)) → split_conjunctions e ≡ ok es → All IsFree es
    split-IsFree (assert e) es h =
        let (xs, p, q) = >>=-eq-ok (split_conjunctions e) _ h in
        rw (← ok-injective q) (IsFree-map assert xs (λ x k. k) (split-IsFree e xs p))
    split-IsFree (let_in ds e) es h =
        let (xs, p, q) = >>=-eq-ok (split_conjunctions e) _ h in
        rw (← ok-injective q) (IsFree-map (let_in ds) xs (λ x k. k) (split-IsFree e xs p))
    split-IsFree (forall vars e) es h =
        let (xs, p, q) = >>=-eq-ok (split_conjunctions e) _ h in
        rw (← ok-injective q) (IsFree-map (forall vars) xs (λ x k. k) (split-IsFree e xs p))
    split-IsFree (op name args inst) es h = elim (Bool-cases (name == "=>")) [
      | inl c ↦ split_implication-IsFree args es (rw c at h)
      | inr c ↦ elim (Bool-cases (name == "and")) [
        | inl d ↦ split_args-IsFree args es (rw (c, d) at h)
        | inr d ↦ rw (← ok-injective (rw (c, d) at h)) ((rw (c, d) refl), tt)
      ]
    ]
    split-IsFree _ es h = rw (← ok-injective h) (refl, tt)

    split_implication-IsFree :
        (args : Args I F) (es : List (Expr I F)) → split_implication args ≡ ok es → All IsFree es
    split_implication-IsFree (cons a (cons b nil)) es h =
        let (xs, p, q) = >>=-eq-ok (split_conjunctions b) _ h in
        rw (← ok-injective q) (IsFree-map (implies a) xs (λ x k. k) (split-IsFree b xs p))
    split_implication-IsFree _ es h = cc

    split_args-IsFree :
        (args : Args I F) (es : List (Expr I F)) → split_args args ≡ ok es → All IsFree es
    split_args-IsFree nil es h = rw (← ok-injective h) tt
    split_args-IsFree (cons e args) es h =
        let (xs, p, r) = >>=-eq-ok (split_conjunctions e) _ h in
        let (ys, q, s) = >>=-eq-ok (split_args args) _ r in
        rw (← ok-injective s)
          (All-append IsFree xs ys (split-IsFree e xs p) (split_args-IsFree args ys q))

  -- The pieces of a split have no conjunction at their root, below assertions, quantifiers and
  -- the bodies of `let`s there, or in the conclusions of implications there, and each implication
  -- there has two operands.
  pub split_conjunctions-conjunction_free :
      (e : Expr I F) (es : List (Expr I F))
      → split_conjunctions e ≡ ok es
      → All (λ piece. conjunction_free piece ≡ true) es
  split_conjunctions-conjunction_free e es h = split-IsFree e es h
