-- ===== src/Marks/Analysis.antt =====
-- `MarkAnalysis` of `reve/reve/lib/MarkAnalysis.cpp`: the marks that calls of `__mark` give to blocks.
pub mod Agree
pub mod Rotated
use llreve.Prelude.{
  ℕ, suc, ◌+◌, ◌-◌, ◌%◌, ◌^◌, String, Bool, true, false, not, List, [], ◌∷◌, Option, none, some,
  ◌==◌, ◌&&◌, ◌||◌, if◌then◌else◌, nat_eq, ltb, length, ℤ, pos, negsuc,
}
use llreve.Prelude.{Result, ok, err, assertion, out_of_range, ◌>>=◌}
use llreve.Marks.{Mark, entry_mark, exit_mark, unreachable_mark, mark_eq, BidirBlockMarkMap}
use llreve.Marks.Sets.{has, put, take_out, values, enter}

-- An instruction, as far as the analysis reads it: a call of a known function, with its first
-- argument if that is a constant, or anything else.
pub data Instruction : Type 0 where
  call : String → Option ℤ → Instruction
  other : Instruction

pub record Block : Type 0 where
  pub number : ℕ
  pub instructions : List Instruction
  pub ends_unreachable : Bool

-- The function, with the results of LLVM's analyses on it: the block that returns, and whether a
-- block is in a loop.
pub record Function : Type 0 where
  pub entry : ℕ
  pub blocks : List Block
  pub return_block : ℕ
  pub in_loop : ℕ → Bool

-- `static_cast<int>` of the 64 bits of a constant
unfoldable pub to_int : ℤ → ℤ
to_int (pos n) =
    if ltb (n % 2 ^ 32) (2 ^ 31) then pos (n % 2 ^ 32) else negsuc (2 ^ 32 - 1 - n % 2 ^ 32)
to_int (negsuc n) =
    if ltb (n % 2 ^ 32) (2 ^ 31) then negsuc (n % 2 ^ 32) else pos (2 ^ 32 - 1 - n % 2 ^ 32)

-- `MarkedBlocks[m].insert(b)` and `BlockedMarks[b].insert(m)`
unfoldable pub mark_block : Mark → ℕ → BidirBlockMarkMap → BidirBlockMarkMap
unfolding enter
mark_block m b maps = record {
  block_to_marks = enter nat_eq mark_eq b m maps.block_to_marks;
  mark_to_blocks = enter mark_eq nat_eq m b maps.mark_to_blocks;
}

-- The mark of a call; an argument that is no constant counts as 0.
unfoldable pub call_mark : Option ℤ → Mark
unfolding to_int
call_mark none = record { index = pos 0 }
call_mark (some id) = record { index = to_int id }

unfoldable pub scan_instructions : ℕ → List Instruction → BidirBlockMarkMap → BidirBlockMarkMap
unfolding mark_block call_mark
scan_instructions b [] maps = maps
scan_instructions b (other ∷ is) maps = scan_instructions b is maps
scan_instructions b (call name id ∷ is) maps = scan_instructions b is (
    if (name == "__mark") || (name == "__splitmark")
    then mark_block (call_mark id) b maps
    else maps)

unfoldable pub scan_blocks : List Block → BidirBlockMarkMap → BidirBlockMarkMap
unfolding scan_instructions
scan_blocks [] maps = maps
scan_blocks (block ∷ blocks) maps =
    let scanned = scan_instructions block.number block.instructions maps in
    scan_blocks blocks
      (if block.ends_unreachable then mark_block unreachable_mark block.number scanned else scanned)

abbrev pub no_marks : BidirBlockMarkMap
no_marks = record { block_to_marks = []; mark_to_blocks = [] }

unfoldable pub scan : Function → BidirBlockMarkMap
unfolding scan_blocks
scan f =
    scan_blocks f.blocks
      (mark_block exit_mark f.return_block (mark_block entry_mark f.entry no_marks))

-- `erase(b)` of the map
unfoldable pub erase_block : ℕ → List (ℕ × List Mark) → List (ℕ × List Mark)
erase_block b [] = []
erase_block b ((c, ms) ∷ marks) =
    let rest = erase_block b marks in if nat_eq c b then rest else (c, ms) ∷ rest

-- The entry of a block after a mark was erased; an empty one is erased.
unfoldable pub keep_entry : ℕ → List Mark → List (ℕ × List Mark) → List (ℕ × List Mark)
unfolding erase_block
keep_entry b [] marks = erase_block b marks
keep_entry b (m ∷ ms) marks = (b, m ∷ ms) ∷ marks

-- `BlockedMarks.at(b).erase(m)`, and `erase(b)` if that leaves no mark
unfoldable pub erase_mark : Mark → ℕ → List (ℕ × List Mark) → Result (List (ℕ × List Mark))
unfolding take_out keep_entry
erase_mark m b [] = err out_of_range
erase_mark m b ((c, ms) ∷ marks) =
    let rest = erase_mark m b marks in
    if nat_eq c b
    then ok (keep_entry c (take_out mark_eq ms m) marks)
    else (do marks' ← rest; ok ((c, ms) ∷ marks'))

-- The loop over the blocks of a mark that has several: what is left of `BlockedMarks`, and the
-- number of blocks in loops.
unfoldable pub remove_blocks :
    (ℕ → Bool) → Mark → List ℕ → List (ℕ × List Mark) → Result (List (ℕ × List Mark) × ℕ)
unfolding erase_mark
remove_blocks in_loop m [] marks = ok (marks, 0)
remove_blocks in_loop m (b ∷ bs) marks =
    if in_loop b
    then (do (marks', n) ← remove_blocks in_loop m bs marks; ok (marks', suc n))
    else (do marks' ← erase_mark m b marks; remove_blocks in_loop m bs marks')

-- The loop over the marks. It copies its entries, so `MarkedBlocks` does not change.
unfoldable pub remove_rotated :
    (ℕ → Bool) → List (Mark × List ℕ) → List (ℕ × List Mark) → Result (List (ℕ × List Mark))
unfolding remove_blocks
remove_rotated in_loop [] marks = ok marks
remove_rotated in_loop ((m, bs) ∷ marked) marks =
    if ltb 1 (length bs)
    then (do
      (marks', n) ← remove_blocks in_loop m bs marks
      checked ← (if nat_eq n 1 then ok marks' else err assertion)
      remove_rotated in_loop marked checked)
    else remove_rotated in_loop marked marks

-- The fields of the analysis.
pub record MarkAnalysis : Type 0 where
  pub block_mark_map : BidirBlockMarkMap
  pub first_run : Bool

unfoldable pub run : Function → MarkAnalysis → Result (BidirBlockMarkMap × MarkAnalysis)
unfolding scan remove_rotated
run f s =
    let maps = scan f in
    let fresh = (do
      marks ← remove_rotated f.in_loop maps.mark_to_blocks maps.block_to_marks
      let result : BidirBlockMarkMap = record {
        block_to_marks = marks;
        mark_to_blocks = maps.mark_to_blocks;
      }
      ok (result, record { block_mark_map = result; first_run = false })) in
    if s.first_run then fresh else ok (s.block_mark_map, s)
