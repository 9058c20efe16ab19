-- ===== src/Bytecode/InstructionBlock/Decode.antt =====
-- src/vm/vm.cpp, VM::run: how the main switch reads an opcode and its operands at the instruction
-- pointer; and that it reads back what the writers wrote.
pub mod Operands
pub mod First
pub mod Append
pub mod RoundTrip
use charly_vm.Common.{
  zero, suc, [], ◌∷◌, ℕ, ◌-◌, ◌%◌, ◌^◌, Bool, true, false, not, ltb, ◌==◌, if◌then◌else◌,
}
use charly_vm.Common.{Option, none, some, List, drop}
use charly_vm.Common.Int.{ℤ, pos, negsuc}
use charly_vm.Value.Word.{Value}
use charly_vm.Bytecode.MemoryBlock.{read_le}
use charly_vm.Bytecode.Opcode.{Opcode, of_byte, instruction_length}
use charly_vm.Bytecode.InstructionBlock.{Code}
use charly_vm.Bytecode.InstructionBlock.Instruction.{Instruction, opcode_of}

-- The `int32_t` that has the bits.
unfoldable pub int32_of_word : ℕ → ℤ
int32_of_word w = if ltb w (2 ^ 31) then pos w else negsuc (2 ^ 32 - 1 - w)

-- The operand at a distance from the end of the opcode, by type.
abbrev pub bool_at : ℕ → Code → Bool
bool_at offset bs = not (read_le 1 (drop offset bs) == 0)

abbrev pub u16_at : ℕ → Code → ℕ
u16_at offset bs = read_le 2 (drop offset bs)

abbrev pub u32_at : ℕ → Code → ℕ
u32_at offset bs = read_le 4 (drop offset bs)

abbrev pub i32_at : ℕ → Code → ℤ
i32_at offset bs = int32_of_word (read_le 4 (drop offset bs))

abbrev pub u64_at : ℕ → Code → ℕ
u64_at offset bs = read_le 8 (drop offset bs)

-- The operands of each opcode; `bs` is the code after the opcode. The property count of `putclass`
-- is read as a 64-bit word and cut to 32 bits.
unfoldable pub operands : Opcode → Code → Instruction
operands Opcode.nop bs = Instruction.nop
operands Opcode.read_local bs = Instruction.readlocal (u32_at 0 bs) (u32_at 4 bs)
operands Opcode.read_member_symbol bs = Instruction.readmembersymbol (u64_at 0 bs)
operands Opcode.read_member_value bs = Instruction.readmembervalue
operands Opcode.read_array_index bs = Instruction.readarrayindex (u32_at 0 bs)
operands Opcode.read_global bs = Instruction.readglobal (u64_at 0 bs)
operands Opcode.set_local_push bs = Instruction.setlocalpush (u32_at 0 bs) (u32_at 4 bs)
operands Opcode.set_member_symbol_push bs = Instruction.setmembersymbolpush (u64_at 0 bs)
operands Opcode.set_member_value_push bs = Instruction.setmembervaluepush
operands Opcode.set_array_index_push bs = Instruction.setarrayindexpush (u32_at 0 bs)
operands Opcode.set_local bs = Instruction.setlocal (u32_at 0 bs) (u32_at 4 bs)
operands Opcode.set_member_symbol bs = Instruction.setmembersymbol (u64_at 0 bs)
operands Opcode.set_member_value bs = Instruction.setmembervalue
operands Opcode.set_array_index bs = Instruction.setarrayindex (u32_at 0 bs)
operands Opcode.set_global bs = Instruction.setglobal (u64_at 0 bs)
operands Opcode.set_global_push bs = Instruction.setglobalpush (u64_at 0 bs)
operands Opcode.put_self bs = Instruction.putself
operands Opcode.put_super bs = Instruction.putsuper
operands Opcode.put_super_member bs = Instruction.putsupermember (u64_at 0 bs)
operands Opcode.put_value bs = Instruction.putvalue (u64_at 0 bs)
operands Opcode.put_string bs = Instruction.putstring (u32_at 0 bs) (u32_at 4 bs)
operands Opcode.put_function bs =
    Instruction.putfunction (u64_at 0 bs) (i32_at 8 bs) (bool_at 12 bs) (bool_at 13 bs)
      (u32_at 14 bs) (u32_at 18 bs) (u32_at 22 bs)
operands Opcode.put_array bs = Instruction.putarray (u32_at 0 bs)
operands Opcode.put_hash bs = Instruction.puthash (u32_at 0 bs)
operands Opcode.put_class bs =
    Instruction.putclass (u64_at 0 bs) (u64_at 8 bs % 2 ^ 32) (u32_at 12 bs) (u32_at 16 bs)
      (u32_at 20 bs) (bool_at 24 bs) (bool_at 25 bs)
operands Opcode.pop_op bs = Instruction.pop
operands Opcode.dup bs = Instruction.dup
operands Opcode.dupn bs = Instruction.dupn (u32_at 0 bs)
operands Opcode.swap bs = Instruction.swap
operands Opcode.call bs = Instruction.call (u32_at 0 bs)
operands Opcode.call_member bs = Instruction.callmember (u32_at 0 bs)
operands Opcode.new_op bs = Instruction.new (u32_at 0 bs)
operands Opcode.return_op bs = Instruction.return_op
operands Opcode.yield_op bs = Instruction.yield
operands Opcode.throw_op bs = Instruction.throw
operands Opcode.register_catch_table bs = Instruction.registercatchtable (i32_at 0 bs)
operands Opcode.pop_catch_table bs = Instruction.popcatchtable
operands Opcode.branch bs = Instruction.branch (i32_at 0 bs)
operands Opcode.branch_if bs = Instruction.branchif (i32_at 0 bs)
operands Opcode.branch_unless bs = Instruction.branchunless (i32_at 0 bs)
operands Opcode.branch_lt bs = Instruction.branchlt (i32_at 0 bs)
operands Opcode.branch_gt bs = Instruction.branchgt (i32_at 0 bs)
operands Opcode.branch_le bs = Instruction.branchle (i32_at 0 bs)
operands Opcode.branch_ge bs = Instruction.branchge (i32_at 0 bs)
operands Opcode.branch_eq bs = Instruction.brancheq (i32_at 0 bs)
operands Opcode.branch_neq bs = Instruction.branchneq (i32_at 0 bs)
operands Opcode.add_op bs = Instruction.operator Opcode.add_op
operands Opcode.sub_op bs = Instruction.operator Opcode.sub_op
operands Opcode.mul_op bs = Instruction.operator Opcode.mul_op
operands Opcode.div_op bs = Instruction.operator Opcode.div_op
operands Opcode.mod_op bs = Instruction.operator Opcode.mod_op
operands Opcode.pow_op bs = Instruction.operator Opcode.pow_op
operands Opcode.eq_op bs = Instruction.operator Opcode.eq_op
operands Opcode.neq_op bs = Instruction.operator Opcode.neq_op
operands Opcode.lt_op bs = Instruction.operator Opcode.lt_op
operands Opcode.gt_op bs = Instruction.operator Opcode.gt_op
operands Opcode.le_op bs = Instruction.operator Opcode.le_op
operands Opcode.ge_op bs = Instruction.operator Opcode.ge_op
operands Opcode.shr bs = Instruction.operator Opcode.shr
operands Opcode.shl bs = Instruction.operator Opcode.shl
operands Opcode.and_op bs = Instruction.operator Opcode.and_op
operands Opcode.or_op bs = Instruction.operator Opcode.or_op
operands Opcode.xor_op bs = Instruction.operator Opcode.xor_op
operands Opcode.uadd bs = Instruction.operator Opcode.uadd
operands Opcode.usub bs = Instruction.operator Opcode.usub
operands Opcode.unot bs = Instruction.operator Opcode.unot
operands Opcode.ubnot bs = Instruction.operator Opcode.ubnot
operands Opcode.halt bs = Instruction.halt
operands Opcode.typeof bs = Instruction.typeof
operands Opcode.syscall bs = Instruction.syscall (u16_at 0 bs)

-- The instruction at the front of the code; `none` for a byte that is no opcode.
unfoldable pub decode : Code → Option Instruction
unfolding of_byte read_le operands
decode bs = elim (of_byte (read_le 1 bs)) [ none ↦ none | some op ↦ some (operands op (drop 1 bs)) ]

-- The instructions that the main switch meets when it moves on by the table of lengths, as
-- `NEXTOP` does; as many as the fuel.
unfoldable pub fetch_all : ℕ → Code → List Instruction
fetch_all zero bs = []
fetch_all (suc n) bs = elim (decode bs) [
  | none ↦ []
  | some i ↦ i ∷ fetch_all n (drop (instruction_length (opcode_of i)) bs)
]
