-- ===== src/Marks/Infer/Agree.antt =====
-- The two maps of inferred marks.
use llreve.Prelude.{
  ℕ, suc, ◌≤◌, Bool, true, false, not, List, [], ◌∷◌, ◌++◌, ◌≡◌, refl, ◌∙◌, ◌&&◌, ◌||◌, and-true,
  not-true, or-false, nat_eq, pos, arith,
}
use llreve.Marks.{Mark, entry_mark, exit_mark, mark_eq, BidirBlockMarkMap, member}
use llreve.Marks.Sets.{has_key, enter, insert_new-enter, has_key-enter}
use llreve.Marks.Analysis.{mark_block, no_marks}
use llreve.Marks.Analysis.Agree.{Agree, mark-IsTest, block-IsTest, mark_block-Agree, no_marks-Agree}
use llreve.Marks.Infer.{
  Loop, number_block, number_blocks, number_loops, entry_and_exit, infer_marks,
}

abbrev known_block : BidirBlockMarkMap → ℕ → Bool
known_block maps b = has_key nat_eq mark_eq maps.block_to_marks b

abbrev known_mark : BidirBlockMarkMap → Mark → Bool
known_mark maps m = has_key mark_eq nat_eq maps.mark_to_blocks m

abbrev number : ℕ → Mark
number i = record { index = pos i }

-- The headers in the order in which they are numbered.
unfoldable pub headers : List Loop → List ℕ
headers [] = []
headers (loop ∷ loops) = loop.sub_headers ++ (loop.header ∷ headers loops)

-- No header is in the map, and no header is there twice.
unfoldable pub new_headers : BidirBlockMarkMap → List ℕ → Bool
new_headers maps [] = true
new_headers maps (b ∷ bs) = not (known_block maps b) && (not (member bs b) && new_headers maps bs)

record Numbered (i : ℕ) (maps : BidirBlockMarkMap) (bs : List ℕ) : Type 0 where
  agree : Agree maps
  unused : (j : ℕ) → i ≤ j → known_mark maps (number j) ≡ false
  ahead : new_headers maps bs ≡ true

number_block-mark_block :
    (i b : ℕ) (maps : BidirBlockMarkMap)
    → known_block maps b ≡ false
    → known_mark maps (number i) ≡ false
    → number_block i b maps ≡ mark_block (number i) b maps
unfolding number_block mark_block
number_block-mark_block i b maps h k = rw (
  insert_new-enter nat_eq mark_eq b (number i) maps.block_to_marks h,
  insert_new-enter mark_eq nat_eq (number i) b maps.mark_to_blocks k,
)

still_new :
    (i b : ℕ) (maps : BidirBlockMarkMap) (bs : List ℕ)
    → member bs b ≡ false
    → new_headers maps bs ≡ true
    → new_headers (mark_block (number i) b maps) bs ≡ true
unfolding new_headers member mark_block
still_new i b maps [] m h = refl
still_new i b maps (c ∷ bs) m h =
    let u = or-false (nat_eq c b) (member bs b) m in
    let w = and-true (not (known_block maps c)) (not (member bs c) && new_headers maps bs) h in
    let v = and-true (not (member bs c)) (new_headers maps bs) w.1 in
    rw (
      has_key-enter nat_eq mark_eq block-IsTest b (number i) maps.block_to_marks c,
      not-true (known_block maps c) w.0,
      swapped b c u.0,
      v.0,
      still_new i b maps bs u.1 v.1,
    )
  where
    swapped : (b c : ℕ) → nat_eq c b ≡ false → nat_eq b c ≡ false
    swapped b c h = ground arith

number_block-Numbered :
    (i b : ℕ) (maps : BidirBlockMarkMap) (bs : List ℕ)
    → Numbered i maps (b ∷ bs)
    → Numbered (suc i) (number_block i b maps) bs
unfolding new_headers mark_block
number_block-Numbered i b maps bs n =
    let w =
      and-true (not (known_block maps b)) (not (member bs b) && new_headers maps bs) n.ahead in
    let v = and-true (not (member bs b)) (new_headers maps bs) w.1 in
    rw
      (number_block-mark_block i b maps (not-true (known_block maps b) w.0)
        (n.unused i (omega arith)))
      (record {
        agree = mark_block-Agree (number i) b maps n.agree;
        unused = λ j l.
            has_key-enter mark_eq nat_eq mark-IsTest (number i) b maps.mark_to_blocks (number j)
            ∙ rw (n.unused j (omega (arith, l))) (other_number i j l);
        ahead = still_new i b maps bs (not-true (member bs b) v.0) v.1;
      })
  where
    other_number : (i j : ℕ) → suc i ≤ j → (false || nat_eq i j) ≡ false
    other_number i j l = ground arith

number_blocks-Numbered :
    (i : ℕ) (bs rest : List ℕ) (maps : BidirBlockMarkMap)
    → Numbered i maps (bs ++ rest)
    → Numbered (number_blocks i bs maps).0 (number_blocks i bs maps).1 rest
unfolding number_blocks
number_blocks-Numbered i [] rest maps n = n
number_blocks-Numbered i (b ∷ bs) rest maps n =
    number_blocks-Numbered (suc i) bs rest (number_block i b maps)
      (number_block-Numbered i b maps (bs ++ rest) n)

number_loops-Agree :
    (i : ℕ) (loops : List Loop) (maps : BidirBlockMarkMap)
    → Numbered i maps (headers loops)
    → Agree (number_loops i loops maps)
unfolding number_loops headers
number_loops-Agree i [] maps n = n.agree
number_loops-Agree i (loop ∷ loops) maps n =
    let inner = number_blocks i loop.sub_headers maps in
    let k = number_blocks-Numbered i loop.sub_headers (loop.header ∷ headers loops) maps n in
    number_loops-Agree (suc inner.0) loops (number_block inner.0 loop.header inner.1)
      (number_block-Numbered inner.0 loop.header inner.1 (headers loops) k)

-- If the headers of the loops are different blocks, and neither the entry nor the block that
-- returns, then in the inferred maps a block has a mark exactly if the mark has the block.
pub infer_marks-Agree :
    (entry return_block : ℕ) (loops : List Loop)
    → new_headers (entry_and_exit entry return_block) (headers loops) ≡ true
    → Agree (infer_marks entry return_block loops)
unfolding infer_marks entry_and_exit mark_block has_key enter
infer_marks-Agree entry return_block loops h =
    number_loops-Agree 1 loops (entry_and_exit entry return_block) (record {
      agree =
          mark_block-Agree exit_mark return_block (mark_block entry_mark entry no_marks)
            (mark_block-Agree entry_mark entry no_marks no_marks-Agree);
      unused = λ j l. refl;
      ahead = h;
    })
