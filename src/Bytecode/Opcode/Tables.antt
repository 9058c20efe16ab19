-- ===== src/Bytecode/Opcode/Tables.antt =====
-- The opcode enum and the tables agree: each byte below the number of opcodes is one opcode.
use charly_vm.Common.{◌≤◌, ◌≡◌, refl, arith, some, length}
use charly_vm.Bytecode.Opcode.{Opcode, nop, byte_of, of_byte, all_opcodes, instruction_lengths}
use charly_vm.Bytecode.Opcode.{opcode_mnemonics, instruction_length}

pub of_byte-byte_of : (op : Opcode) → of_byte (byte_of op) ≡ some op
unfolding of_byte byte_of
of_byte-byte_of nop = refl
of_byte-byte_of _ = refl

-- Each opcode is decoded from its own byte, the two tables have one entry for each opcode, and an
-- instruction takes between 1 and 27 bytes, so the instruction pointer always moves on.
pub tables_agree :
    (op : Opcode)
    → (of_byte (byte_of op) ≡ some op)
      × (length instruction_lengths ≡ length all_opcodes)
      × (length opcode_mnemonics ≡ length all_opcodes)
      × (1 ≤ instruction_length op)
      × (instruction_length op ≤ 27)
unfolding instruction_length byte_of
tables_agree op = (of_byte-byte_of op, refl, refl, at_least op, at_most op)
  where
    at_least : (o : Opcode) → 1 ≤ instruction_length o
    at_least nop = omega arith
    at_least _ = omega arith

    at_most : (o : Opcode) → instruction_length o ≤ 27
    at_most nop = omega arith
    at_most _ = omega arith
