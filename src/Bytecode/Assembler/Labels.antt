-- ===== src/Bytecode/Assembler/Labels.antt =====
-- Every reference that the assembler writes, backwards or forwards, is the distance from its
-- instruction to its label once all labels are placed.
use charly_vm.Common.{ℕ, ◌^◌, ◌<◌, ◌≡◌, arith}
use charly_vm.Common.{some}
use charly_vm.Common.Int.{pos, ◌+ℤ◌}
use charly_vm.Bytecode.InstructionBlock.Decode.{int32_of_word}
use charly_vm.Bytecode.InstructionBlock.{Code}
use charly_vm.Bytecode.Assembler.{Assembler, UnresolvedReference, find_label}
use charly_vm.Bytecode.Assembler.Fields.{field}
use charly_vm.Bytecode.Assembler.Resolve.{Labels, Correct}
use charly_vm.Bytecode.Assembler.Writes.{Writes}

-- Read as an `int32_t`, as the machine does, the field leads from the instruction to the label.
pub Correct-target :
    (labels : Labels) (code : Code) (r : UnresolvedReference) (offset : ℕ)
    → find_label labels r.id ≡ some offset
    → Correct labels code r
    → offset < 2 ^ 31
    → r.instruction_base < 2 ^ 31
    → pos r.instruction_base +ℤ int32_of_word (field code r.target_offset) ≡ pos offset
unfolding int32_of_word ◌+ℤ◌
Correct-target labels code r offset here (o, found, same) h k = ground arith
