-- ===== src/Marks/Analysis/Rotated.antt =====
-- The loop of `MarkAnalysis::run` that removes the marks outside loops only removes.
use llreve.Prelude.{
  ℕ, Bool, true, false, List, [], ◌∷◌, ◌≡◌, refl, sym, ◌∙◌, if◌then◌else◌, nat_eq, nat_eq-eq, ltb,
  length, Bool-cases, inl, inr, ap,
}
use llreve.Prelude.{ok, err, assertion, >>=-eq-ok, ok-injective}
use llreve.Marks.{Mark, mark_eq, BidirBlockMarkMap}
use llreve.Marks.Sets.{has, take_out, has-take_out, values, false_ne_true}
use llreve.Marks.Analysis.{
  Function, scan, erase_block, keep_entry, erase_mark, remove_blocks, remove_rotated, MarkAnalysis,
  run,
}
use llreve.Marks.Analysis.Agree.{block_has, mark_has, scan-Agree}

-- Every mark of a block in the first map is one in the second.
abbrev Shrinks : List (ℕ × List Mark) → List (ℕ × List Mark) → Type 0
Shrinks less more =
    (c : ℕ) (n : Mark)
    → has mark_eq (values nat_eq mark_eq less c) n ≡ true
    → has mark_eq (values nat_eq mark_eq more c) n ≡ true

erase_block-values :
    (b : ℕ) (marks : List (ℕ × List Mark)) (c : ℕ)
    → nat_eq b c ≡ false
    → values nat_eq mark_eq (erase_block b marks) c ≡ values nat_eq mark_eq marks c
unfolding erase_block values
erase_block-values b [] c e = refl
erase_block-values b ((d, ms) ∷ marks) c e = elim (Bool-cases (nat_eq d b)) [
  | inl p ↦ rw (p, nat_eq-eq d b p, e) (erase_block-values b marks c e)
  | inr p ↦ elim (Bool-cases (nat_eq d c)) [
    | inl q ↦ rw (p, q)
    | inr q ↦ rw (p, q) (erase_block-values b marks c e)
  ]
]

erase_block-own :
    (b : ℕ) (marks : List (ℕ × List Mark)) → values nat_eq mark_eq (erase_block b marks) b ≡ []
unfolding erase_block values
erase_block-own b [] = refl
erase_block-own b ((d, ms) ∷ marks) = elim (Bool-cases (nat_eq d b)) [
  | inl p ↦ rw p (erase_block-own b marks)
  | inr p ↦ rw (p, p) (erase_block-own b marks)
]

erase_block-none :
    (b : ℕ) (marks : List (ℕ × List Mark)) (c : ℕ) (n : Mark)
    → nat_eq b c ≡ true
    → has mark_eq (values nat_eq mark_eq (erase_block b marks) c) n ≡ false
unfolding has
erase_block-none b marks c n e = rw (← nat_eq-eq b c e, erase_block-own b marks)

erase_block-Shrinks : (b : ℕ) (marks : List (ℕ × List Mark)) → Shrinks (erase_block b marks) marks
unfolding has
erase_block-Shrinks b marks c n h = elim (Bool-cases (nat_eq b c)) [
  | inl e ↦ absurd (false_ne_true (sym (erase_block-none b marks c n e) ∙ h))
  | inr e ↦ ap (λ ms. has mark_eq ms n) (sym (erase_block-values b marks c e)) ∙ h
]

erase_block-behind :
    (b : ℕ) (ms : List Mark) (marks : List (ℕ × List Mark))
    → Shrinks (erase_block b marks) ((b, ms) ∷ marks)
unfolding has values
erase_block-behind b ms marks c n h = elim (Bool-cases (nat_eq b c)) [
  | inl e ↦ absurd (false_ne_true (sym (erase_block-none b marks c n e) ∙ h))
  | inr e ↦ rw e (erase_block-Shrinks b marks c n h)
]

keep_entry-Shrinks :
    (b : ℕ) (left ms : List Mark) (marks : List (ℕ × List Mark))
    → ((n : Mark) → has mark_eq left n ≡ true → has mark_eq ms n ≡ true)
    → Shrinks (keep_entry b left marks) ((b, ms) ∷ marks)
unfolding keep_entry values
keep_entry-Shrinks b [] ms marks f c n h = erase_block-behind b ms marks c n h
keep_entry-Shrinks b (m ∷ left) ms marks f c n h = elim (Bool-cases (nat_eq b c)) [
  | inl e ↦ rw e (f n (rw e at h))
  | inr e ↦ rw e (rw e at h)
]

cons-Shrinks :
    (b : ℕ) (ms : List Mark) (less more : List (ℕ × List Mark))
    → Shrinks less more
    → Shrinks ((b, ms) ∷ less) ((b, ms) ∷ more)
unfolding values
cons-Shrinks b ms less more f c n h = elim (Bool-cases (nat_eq b c)) [
  | inl e ↦ rw e (rw e at h)
  | inr e ↦ rw e (f c n (rw e at h))
]

erase_mark-Shrinks :
    (m : Mark) (b : ℕ) (marks less : List (ℕ × List Mark))
    → erase_mark m b marks ≡ ok less
    → Shrinks less marks
unfolding erase_mark
erase_mark-Shrinks m b [] less h = cc
erase_mark-Shrinks m b ((c, ms) ∷ marks) less h = elim (Bool-cases (nat_eq c b)) [
  | inl e ↦
      rw (← ok-injective (rw e at h)) (
        keep_entry-Shrinks c (take_out mark_eq ms m) ms marks
          (λ n k. has-take_out mark_eq ms m n k))
  | inr e ↦
      let (rest, p, q) = >>=-eq-ok (erase_mark m b marks) _ (rw e at h) in
      rw (← ok-injective q) (cons-Shrinks c ms rest marks (erase_mark-Shrinks m b marks rest p))
]

remove_blocks-Shrinks :
    (in_loop : ℕ → Bool) (m : Mark) (bs : List ℕ) (marks less : List (ℕ × List Mark)) (k : ℕ)
    → remove_blocks in_loop m bs marks ≡ ok (less, k)
    → Shrinks less marks
unfolding remove_blocks
remove_blocks-Shrinks in_loop m [] marks less k h =
    rw (← ap (λ r. r.0) (ok-injective h)) (λ c n g. g)
remove_blocks-Shrinks in_loop m (b ∷ bs) marks less k h = elim (Bool-cases (in_loop b)) [
  | inl e ↦
      let ((rest, j), p, q) = >>=-eq-ok (remove_blocks in_loop m bs marks) _ (rw e at h) in
      rw (← ap (λ r. r.0) (ok-injective q)) (remove_blocks-Shrinks in_loop m bs marks rest j p)
  | inr e ↦
      let (rest, p, q) = >>=-eq-ok (erase_mark m b marks) _ (rw e at h) in
      (λ c n g.
        erase_mark-Shrinks m b marks rest p c n
          (remove_blocks-Shrinks in_loop m bs rest less k q c n g))
]

remove_rotated-Shrinks :
    (in_loop : ℕ → Bool) (marked : List (Mark × List ℕ)) (marks less : List (ℕ × List Mark))
    → remove_rotated in_loop marked marks ≡ ok less
    → Shrinks less marks
unfolding remove_rotated
remove_rotated-Shrinks in_loop [] marks less h = rw (← ok-injective h) (λ c n g. g)
remove_rotated-Shrinks in_loop ((m, bs) ∷ marked) marks less h =
    elim (Bool-cases (ltb 1 (length bs))) [
      | inl e ↦
          let ((rest, k), p, q) = >>=-eq-ok (remove_blocks in_loop m bs marks) _ (rw e at h) in
          let (checked, r, s) = >>=-eq-ok (if nat_eq k 1 then ok rest else err assertion) _ q in
          (λ c n g. remove_blocks-Shrinks in_loop m bs marks rest k p c n (
            rw (passed (nat_eq k 1) rest checked r)
              (remove_rotated-Shrinks in_loop marked checked less s c n g)))
      | inr e ↦ remove_rotated-Shrinks in_loop marked marks less (rw e at h)
    ]
  where
    passed :
        (c : Bool) (rest checked : List (ℕ × List Mark))
        → (if c then ok rest else err assertion) ≡ ok checked
        → rest ≡ checked
    passed true rest checked h = ok-injective h
    passed false rest checked h = cc

-- If the first run of the analysis returns, then every mark that its result gives a block is one
-- whose blocks, in the result, include that block, and the analysis runs no second time.
pub run-mark_has :
    (f : Function) (s s' : MarkAnalysis) (maps : BidirBlockMarkMap)
    → s.first_run ≡ true
    → run f s ≡ ok (maps, s')
    → ((b : ℕ) (m : Mark) → block_has maps b m ≡ true → mark_has maps m b ≡ true)
      × ((g : Function) → run g s' ≡ ok (maps, s'))
unfolding run
run-mark_has f s s' maps first h =
    let (marks, p, q) =
      >>=-eq-ok (remove_rotated f.in_loop (scan f).mark_to_blocks (scan f).block_to_marks) _
        (rw first at h) in
    let kept =
      remove_rotated-Shrinks f.in_loop (scan f).mark_to_blocks (scan f).block_to_marks marks p in
    let same = ok-injective q in
    rw (← ap (λ r. r.0) same, ← ap (λ r. r.1) same)
      ((λ b m g. sym (scan-Agree f b m) ∙ kept b m g), (λ g. refl))
