-- ===== src/Bytecode/Tests.antt =====
-- The theorems of the bytecode's parts at concrete code.
use charly_vm.Common.{ℕ, ◌+◌, ◌-◌, ◌%◌, ◌^◌, ◌≤◌, ◌≡◌, false, refl, arith}
use charly_vm.Common.{none, some, List, [], ◌∷◌, ◌++◌}
use charly_vm.Common.Int.{negsuc}
use charly_vm.Bytecode.Opcode.{Opcode}
use charly_vm.Bytecode.MemoryBlock.{MemoryBlock, grow_loop, write_block, moved_from}
use charly_vm.Bytecode.MemoryBlock.Growth.{write_block_total, write_block-moved_from}
use charly_vm.Bytecode.InstructionBlock.Instruction.{Instruction}
use charly_vm.Bytecode.InstructionBlock.Decode.{fetch_all}
use charly_vm.Bytecode.InstructionBlock.Decode.RoundTrip.{emit_all, fetch_all-emit_all}
use charly_vm.Bytecode.Assembler.{
  Assembler, UnresolvedReference, find_label, write_to_label, place_label,
}
use charly_vm.Bytecode.Assembler.{write_putfunction_to_label}
use charly_vm.Bytecode.Assembler.Fields.{field}
use charly_vm.Bytecode.Assembler.Resolve.{Correct, Labels}
use charly_vm.Bytecode.Assembler.Writes.{Writes}
use charly_vm.Bytecode.Assembler.Functions.{putfunction_backward_misses}

-- A block with two bytes of its four used.
abbrev small_block : MemoryBlock
small_block = record { data_bytes = 1 ∷ 2 ∷ []; capacity = 4 }

write_block_total_example :
    (c : ℕ) × (write_block (3 ∷ 4 ∷ 5 ∷ []) small_block
      ≡ some (record { data_bytes = 1 ∷ 2 ∷ 3 ∷ 4 ∷ 5 ∷ []; capacity = c }))
    × (5 ≤ c)
    × (4 ≤ c)
write_block_total_example = write_block_total (3 ∷ 4 ∷ 5 ∷ []) small_block (omega arith)

write_block-moved_from_example :
    (grow_loop 100 2 moved_from.capacity ≡ none) × (write_block (7 ∷ 8 ∷ []) moved_from ≡ none)
write_block-moved_from_example = write_block-moved_from 100 7 (8 ∷ [])

abbrev program : List Instruction
program = Instruction.readlocal 3 1 ∷ Instruction.branch (negsuc 8) ∷ Instruction.halt ∷ []

fetch_all-emit_all_example : fetch_all 3 (emit_all [] program ++ 9 ∷ []) ≡ program
fetch_all-emit_all_example =
    fetch_all-emit_all program (9 ∷ [])
      ((omega arith, omega arith), ((omega arith, omega arith), (tt, tt)))

abbrev empty_assembler : Assembler
empty_assembler = record { code = []; labels = []; unresolved = []; next_label_id = 2 }

-- A forward branch to label 0, whose place is behind it.
abbrev branched : Assembler
branched = place_label 0 (write_to_label Opcode.branch 0 empty_assembler)

abbrev reference : UnresolvedReference
reference = record { id = 0; target_offset = 1; instruction_base = 0 }

abbrev placed_at_3 : Labels
placed_at_3 = (0, 3) ∷ []

reference-Correct : Correct placed_at_3 (49 ∷ 3 ∷ 0 ∷ 0 ∷ 0 ∷ []) reference
unfolding find_label field charly_vm.Bytecode.MemoryBlock.read_le
reference-Correct = (3, refl, refl)

find-placed : find_label placed_at_3 0 ≡ some 3
unfolding find_label
find-placed = refl

-- Eight bytes of code, and a label behind them.
abbrev eight_bytes : Assembler
eight_bytes = record {
  code = 0 ∷ 0 ∷ 0 ∷ 0 ∷ 0 ∷ 0 ∷ 0 ∷ 0 ∷ [];
  labels = (0, 8) ∷ [];
  unresolved = [];
  next_label_id = 1;
}

find-eight : find_label eight_bytes.labels 0 ≡ some 8
unfolding find_label
find-eight = refl

putfunction_backward_misses_example :
    (8 + field (write_putfunction_to_label 5 0 false false 1 1 2 eight_bytes).code 17) % 2 ^ 32
    ≡ 8 - 8
putfunction_backward_misses_example =
    putfunction_backward_misses false false 1 1 2 eight_bytes 5 0 8 find-eight (omega arith)
      (omega arith) (omega arith)
