-- ===== src/Marks/Infer.antt =====
-- `InferMarksAnalysis` of `reve/reve/lib/InferMarks.cpp`: the headers of loops get marks by
-- themselves.
pub mod Agree
use llreve.Prelude.{ℕ, suc, List, [], ◌∷◌, if◌then◌else◌, nat_eq, pos}
use llreve.Marks.{Mark, entry_mark, exit_mark, mark_eq, BidirBlockMarkMap}
use llreve.Marks.Sets.{insert_new}
use llreve.Marks.Analysis.{mark_block, no_marks}

-- An outermost loop of `LoopInfo`, with the headers of the loops directly inside.
pub record Loop : Type 0 where
  pub header : ℕ
  pub sub_headers : List ℕ

-- `insert` of both maps, which keeps an entry that is there
unfoldable pub number_block : ℕ → ℕ → BidirBlockMarkMap → BidirBlockMarkMap
unfolding insert_new
number_block i b maps = record {
  block_to_marks = insert_new nat_eq mark_eq b (record { index = pos i }) maps.block_to_marks;
  mark_to_blocks = insert_new mark_eq nat_eq (record { index = pos i }) b maps.mark_to_blocks;
}

-- The loop over the loops inside: the next number, and the maps.
unfoldable pub number_blocks : ℕ → List ℕ → BidirBlockMarkMap → ℕ × BidirBlockMarkMap
unfolding number_block
number_blocks i [] maps = (i, maps)
number_blocks i (b ∷ bs) maps = number_blocks (suc i) bs (number_block i b maps)

unfoldable pub number_loops : ℕ → List Loop → BidirBlockMarkMap → BidirBlockMarkMap
unfolding number_blocks
number_loops i [] maps = maps
number_loops i (loop ∷ loops) maps =
    let (j, inner) = number_blocks i loop.sub_headers maps in
    number_loops (suc j) loops (number_block j loop.header inner)

-- The maps before the loops are numbered.
unfoldable pub entry_and_exit : ℕ → ℕ → BidirBlockMarkMap
unfolding mark_block
entry_and_exit entry return_block =
    mark_block exit_mark return_block (mark_block entry_mark entry no_marks)

unfoldable pub infer_marks : ℕ → ℕ → List Loop → BidirBlockMarkMap
unfolding number_loops entry_and_exit
infer_marks entry return_block loops = number_loops 1 loops (entry_and_exit entry return_block)
