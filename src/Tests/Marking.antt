-- ===== src/Tests/Marking.antt =====
-- The analysis of a function whose loop was rotated, so that block 0, before the loop, has a copy of
-- the mark of block 1.
use llreve.Prelude.{ℕ, true, false, List, [], ◌∷◌, ◌≡◌, refl, some, ok, nat_eq, pos}
use llreve.Marks.{Mark, entry_mark, exit_mark, BidirBlockMarkMap, member}
use llreve.Marks.Sets.{has, put, take_out, enter}
use llreve.Marks.Analysis.{
  Instruction, call, other, Function, to_int, call_mark, mark_block, scan_instructions, scan_blocks,
  scan, erase_block, keep_entry, erase_mark, remove_blocks, remove_rotated, MarkAnalysis, run,
  no_marks,
}
use llreve.Marks.Analysis.Agree.{Agree, block_has, mark_has, scan-Agree}
use llreve.Marks.Infer.{Loop, entry_and_exit, infer_marks}
use llreve.Marks.Infer.Agree.{headers, new_headers, infer_marks-Agree}
use llreve.Marks.Sets.{has_key}
use llreve.Marks.Analysis.Rotated.{run-mark_has}

abbrev loop_mark : Mark
loop_mark = record { index = pos 1 }

abbrev marking : List Instruction
marking = other ∷ call "__mark" (some (pos 1)) ∷ []

abbrev rotated : Function
rotated = record {
  entry = 0;
  blocks =
      record { number = 0; instructions = marking; ends_unreachable = false }
      ∷ record { number = 1; instructions = marking; ends_unreachable = false }
      ∷ record { number = 2; instructions = []; ends_unreachable = false }
      ∷ [];
  return_block = 2;
  in_loop = λ b. nat_eq b 1;
}

abbrev fresh : MarkAnalysis
fresh = record { block_mark_map = no_marks; first_run = true }

-- Block 0 has lost the mark, and the mark has kept block 0.
abbrev result : BidirBlockMarkMap
result = record {
  block_to_marks = (0, entry_mark ∷ []) ∷ (2, exit_mark ∷ []) ∷ (1, loop_mark ∷ []) ∷ [];
  mark_to_blocks = (entry_mark, 0 ∷ []) ∷ (exit_mark, 2 ∷ []) ∷ (loop_mark, 1 ∷ 0 ∷ []) ∷ [];
}

run-rotated : run rotated fresh ≡ ok (result, record { block_mark_map = result; first_run = false })
unfolding run scan scan_blocks scan_instructions mark_block call_mark to_int enter put has
    remove_rotated remove_blocks erase_mark erase_block keep_entry take_out
run-rotated = refl

run-mark_has_example :
    ((b : ℕ) (m : Mark) → block_has result b m ≡ true → mark_has result m b ≡ true)
    × ((g : Function)
        → run g (record { block_mark_map = result; first_run = false })
          ≡ ok (result, record { block_mark_map = result; first_run = false }))
run-mark_has_example = run-mark_has rotated fresh _ result refl run-rotated

scan-Agree_example : Agree (scan rotated)
scan-Agree_example = scan-Agree rotated

-- A loop at block 1 with a loop at block 2 inside, and another at block 4.
abbrev loops : List Loop
loops = record { header = 1; sub_headers = 2 ∷ [] } ∷ record { header = 4; sub_headers = [] } ∷ []

infer_marks-Agree_example : Agree (infer_marks 0 5 loops)
unfolding new_headers headers entry_and_exit mark_block enter has_key member put
infer_marks-Agree_example = infer_marks-Agree 0 5 loops refl
