-- ===== src/Marks/Analysis/Agree.antt =====
-- The two maps of `MarkAnalysis`.
use llreve.Prelude.{
  ℕ, Bool, true, false, List, [], ◌∷◌, ◌≡◌, refl, sym, ◌∙◌, ◌||◌, ◌&&◌, ◌==◌, if◌then◌else◌, nat_eq,
  nat_eq-eq, eq-nat_eq, arith,
}
use llreve.Marks.{
  Mark, mark_eq, mark_eq-eq, mark_eq_refl, BidirBlockMarkMap, unreachable_mark, entry_mark,
  exit_mark,
}
use llreve.Marks.Sets.{has, values, has-enter, IsTest}
use llreve.Marks.Analysis.{
  Instruction, call, other, Block, Function, call_mark, mark_block, scan_instructions, scan_blocks,
  scan, no_marks,
}

pub mark-IsTest : IsTest mark_eq
mark-IsTest = record { sound = mark_eq-eq; reflexive = mark_eq_refl }

pub block-IsTest : IsTest nat_eq
block-IsTest = record { sound = nat_eq-eq; reflexive = λ b. eq-nat_eq b b refl }

abbrev pub block_has : BidirBlockMarkMap → ℕ → Mark → Bool
block_has maps b m = has mark_eq (values nat_eq mark_eq maps.block_to_marks b) m

abbrev pub mark_has : BidirBlockMarkMap → Mark → ℕ → Bool
mark_has maps m b = has nat_eq (values mark_eq nat_eq maps.mark_to_blocks m) b

-- Each of the two maps is the other, read backwards.
abbrev pub Agree : BidirBlockMarkMap → Type 0
Agree maps = (b : ℕ) (m : Mark) → block_has maps b m ≡ mark_has maps m b

both_more : (a b c d : Bool) → a ≡ b → (a || (c && d)) ≡ (b || (d && c))
both_more a b c d h = ground arith

pub no_marks-Agree : Agree no_marks
unfolding values has
no_marks-Agree b m = refl

pub mark_block-Agree :
    (m : Mark) (b : ℕ) (maps : BidirBlockMarkMap) → Agree maps → Agree (mark_block m b maps)
unfolding mark_block
mark_block-Agree m b maps h c n =
    has-enter nat_eq mark_eq block-IsTest mark-IsTest b m maps.block_to_marks c n
    ∙ (both_more (block_has maps c n) (mark_has maps n c) (nat_eq b c) (mark_eq m n) (h c n)
        ∙ sym (has-enter mark_eq nat_eq mark-IsTest block-IsTest m b maps.mark_to_blocks n c))

if-Agree :
    (c : Bool) (maps maps' : BidirBlockMarkMap)
    → Agree maps
    → Agree maps'
    → Agree (if c then maps else maps')
if-Agree true maps maps' h k = h
if-Agree false maps maps' h k = k

scan_instructions-Agree :
    (b : ℕ) (is : List Instruction) (maps : BidirBlockMarkMap)
    → Agree maps
    → Agree (scan_instructions b is maps)
unfolding scan_instructions
scan_instructions-Agree b [] maps h = h
scan_instructions-Agree b (other ∷ is) maps h = scan_instructions-Agree b is maps h
scan_instructions-Agree b (call name id ∷ is) maps h = scan_instructions-Agree b is _ (
    if-Agree ((name == "__mark") || (name == "__splitmark")) _ maps
      (mark_block-Agree (call_mark id) b maps h) h)

scan_blocks-Agree :
    (blocks : List Block) (maps : BidirBlockMarkMap) → Agree maps → Agree (scan_blocks blocks maps)
unfolding scan_blocks
scan_blocks-Agree [] maps h = h
scan_blocks-Agree (block ∷ blocks) maps h =
    let scanned = scan_instructions block.number block.instructions maps in
    let k = scan_instructions-Agree block.number block.instructions maps h in
    scan_blocks-Agree blocks _ (
      if-Agree block.ends_unreachable _ scanned
        (mark_block-Agree unreachable_mark block.number scanned k) k)

-- After the scan of a function, a block has a mark exactly if the mark has the block.
pub scan-Agree : (f : Function) → Agree (scan f)
unfolding scan
scan-Agree f = scan_blocks-Agree f.blocks _ (
    mark_block-Agree exit_mark f.return_block (mark_block entry_mark f.entry no_marks)
      (mark_block-Agree entry_mark f.entry no_marks no_marks-Agree))
