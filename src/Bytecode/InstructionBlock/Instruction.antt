-- ===== src/Bytecode/InstructionBlock/Instruction.antt =====
-- The instructions that the writers of include/instructionblock.h emit, with their operands.
use charly_vm.Common.{ℕ, ◌-◌, ◌^◌, ◌≤◌, ◌<◌, Bool}
use charly_vm.Common.Int.{ℤ, pos, negsuc, ◌≤ℤ◌}
use charly_vm.Value.Word.{Value}
use charly_vm.Bytecode.Opcode.{Opcode, byte_of}
use charly_vm.Bytecode.InstructionBlock.{Code}
use charly_vm.Bytecode.InstructionBlock.{
  write_nop, write_readlocal, write_readmembersymbol, write_readmembervalue,
}
use charly_vm.Bytecode.InstructionBlock.{
  write_readarrayindex, write_readglobal, write_setlocal, write_setmembersymbol,
}
use charly_vm.Bytecode.InstructionBlock.{
  write_setmembervalue, write_setglobal, write_setglobalpush, write_setarrayindex,
}
use charly_vm.Bytecode.InstructionBlock.{
  write_setlocalpush, write_setmembersymbolpush, write_setmembervaluepush, write_setarrayindexpush,
}
use charly_vm.Bytecode.InstructionBlock.{
  write_putself, write_putvalue, write_putstring, write_putarray,
}
use charly_vm.Bytecode.InstructionBlock.{write_puthash, write_putclass, write_pop, write_dup}
use charly_vm.Bytecode.InstructionBlock.{write_dupn, write_swap, write_call, write_callmember}
use charly_vm.Bytecode.InstructionBlock.{
  write_putsuper, write_putsupermember, write_new, write_return,
}
use charly_vm.Bytecode.InstructionBlock.{
  write_yield, write_throw, write_registercatchtable, write_popcatchtable,
}
use charly_vm.Bytecode.InstructionBlock.{
  write_branch, write_branchif, write_branchunless, write_branchlt,
}
use charly_vm.Bytecode.InstructionBlock.{
  write_branchgt, write_branchle, write_branchge, write_brancheq,
}
use charly_vm.Bytecode.InstructionBlock.{write_branchneq, write_operator, write_halt, write_typeof}
use charly_vm.Bytecode.InstructionBlock.{write_syscall}

-- The operands of `putfunction` are those of Assembler::write_putfunction_to_label.
pub data Instruction : Type 0 where
  nop : Instruction
  readlocal : ℕ → ℕ → Instruction
  readmembersymbol : Value → Instruction
  readmembervalue : Instruction
  readarrayindex : ℕ → Instruction
  readglobal : Value → Instruction
  setlocal : ℕ → ℕ → Instruction
  setmembersymbol : Value → Instruction
  setmembervalue : Instruction
  setglobal : Value → Instruction
  setglobalpush : Value → Instruction
  setarrayindex : ℕ → Instruction
  setlocalpush : ℕ → ℕ → Instruction
  setmembersymbolpush : Value → Instruction
  setmembervaluepush : Instruction
  setarrayindexpush : ℕ → Instruction
  putself : Instruction
  putvalue : Value → Instruction
  putstring : ℕ → ℕ → Instruction
  putfunction : Value → ℤ → Bool → Bool → ℕ → ℕ → ℕ → Instruction
  putarray : ℕ → Instruction
  puthash : ℕ → Instruction
  putclass : Value → ℕ → ℕ → ℕ → ℕ → Bool → Bool → Instruction
  pop : Instruction
  dup : Instruction
  dupn : ℕ → Instruction
  swap : Instruction
  call : ℕ → Instruction
  callmember : ℕ → Instruction
  putsuper : Instruction
  putsupermember : Value → Instruction
  new : ℕ → Instruction
  return_op : Instruction
  yield : Instruction
  throw : Instruction
  registercatchtable : ℤ → Instruction
  popcatchtable : Instruction
  branch : ℤ → Instruction
  branchif : ℤ → Instruction
  branchunless : ℤ → Instruction
  branchlt : ℤ → Instruction
  branchgt : ℤ → Instruction
  branchle : ℤ → Instruction
  branchge : ℤ → Instruction
  brancheq : ℤ → Instruction
  branchneq : ℤ → Instruction
  operator : Opcode → Instruction
  halt : Instruction
  typeof : Instruction
  syscall : ℕ → Instruction

-- The writer of an instruction. `putfunction` has none here: its code is written by the assembler.
unfoldable pub emit : Code → Instruction → Code
unfolding write_nop write_readlocal write_readmembersymbol write_readmembervalue
    write_readarrayindex write_readglobal write_setlocal write_setmembersymbol write_setmembervalue
    write_setglobal write_setglobalpush write_setarrayindex write_setlocalpush
    write_setmembersymbolpush write_setmembervaluepush write_setarrayindexpush write_putself
    write_putvalue write_putstring write_putarray write_puthash write_putclass write_pop write_dup
    write_dupn write_swap write_call write_callmember write_putsuper write_putsupermember write_new
    write_return write_yield write_throw write_registercatchtable write_popcatchtable write_branch
    write_branchif write_branchunless write_branchlt write_branchgt write_branchle write_branchge
    write_brancheq write_branchneq write_operator write_halt write_typeof write_syscall
emit b nop = write_nop b
emit b (readlocal index level) = write_readlocal b index level
emit b (readmembersymbol symbol) = write_readmembersymbol b symbol
emit b readmembervalue = write_readmembervalue b
emit b (readarrayindex index) = write_readarrayindex b index
emit b (readglobal symbol) = write_readglobal b symbol
emit b (setlocal index level) = write_setlocal b index level
emit b (setmembersymbol symbol) = write_setmembersymbol b symbol
emit b setmembervalue = write_setmembervalue b
emit b (setglobal symbol) = write_setglobal b symbol
emit b (setglobalpush symbol) = write_setglobalpush b symbol
emit b (setarrayindex index) = write_setarrayindex b index
emit b (setlocalpush index level) = write_setlocalpush b index level
emit b (setmembersymbolpush symbol) = write_setmembersymbolpush b symbol
emit b setmembervaluepush = write_setmembervaluepush b
emit b (setarrayindexpush index) = write_setarrayindexpush b index
emit b putself = write_putself b
emit b (putvalue value) = write_putvalue b value
emit b (putstring offset length) = write_putstring b offset length
emit b (putfunction symbol offset anonymous needs_arguments argc minimum_argc lvarcount) = b
emit b (putarray count) = write_putarray b count
emit b (puthash count) = write_puthash b count
emit b
      (putclass symbol propertycount staticpropertycount methodcount staticmethodcount
        has_parent_class has_constructor) =
    write_putclass b symbol propertycount staticpropertycount methodcount staticmethodcount
      has_parent_class has_constructor
emit b pop = write_pop b
emit b dup = write_dup b
emit b (dupn count) = write_dupn b count
emit b swap = write_swap b
emit b (call argc) = write_call b argc
emit b (callmember argc) = write_callmember b argc
emit b putsuper = write_putsuper b
emit b (putsupermember symbol) = write_putsupermember b symbol
emit b (new argc) = write_new b argc
emit b return_op = write_return b
emit b yield = write_yield b
emit b throw = write_throw b
emit b (registercatchtable offset) = write_registercatchtable b offset
emit b popcatchtable = write_popcatchtable b
emit b (branch offset) = write_branch b offset
emit b (branchif offset) = write_branchif b offset
emit b (branchunless offset) = write_branchunless b offset
emit b (branchlt offset) = write_branchlt b offset
emit b (branchgt offset) = write_branchgt b offset
emit b (branchle offset) = write_branchle b offset
emit b (branchge offset) = write_branchge b offset
emit b (brancheq offset) = write_brancheq b offset
emit b (branchneq offset) = write_branchneq b offset
emit b (operator opcode) = write_operator b opcode
emit b halt = write_halt b
emit b typeof = write_typeof b
emit b (syscall id) = write_syscall b id

abbrev pub IsU32 : ℕ → Type 0
IsU32 n = n < 2 ^ 32

abbrev pub IsU64 : ℕ → Type 0
IsU64 n = n < 2 ^ 64

abbrev pub IsInt32 : ℤ → Type 0
IsInt32 z = (negsuc (2 ^ 31 - 1) ≤ℤ z) × (z ≤ℤ pos (2 ^ 31 - 1))

abbrev pub IsU16 : ℕ → Type 0
IsU16 n = n < 2 ^ 16

-- `Add` to `UBNot`: what `write_operator` is called with.
abbrev pub IsOperator : Opcode → Type 0
IsOperator op = (byte_of Opcode.add_op ≤ byte_of op) × (byte_of op ≤ byte_of Opcode.ubnot)

-- The opcode that an instruction starts with.
unfoldable pub opcode_of : Instruction → Opcode
opcode_of nop = Opcode.nop
opcode_of (readlocal index level) = Opcode.read_local
opcode_of (readmembersymbol symbol) = Opcode.read_member_symbol
opcode_of readmembervalue = Opcode.read_member_value
opcode_of (readarrayindex index) = Opcode.read_array_index
opcode_of (readglobal symbol) = Opcode.read_global
opcode_of (setlocal index level) = Opcode.set_local
opcode_of (setmembersymbol symbol) = Opcode.set_member_symbol
opcode_of setmembervalue = Opcode.set_member_value
opcode_of (setglobal symbol) = Opcode.set_global
opcode_of (setglobalpush symbol) = Opcode.set_global_push
opcode_of (setarrayindex index) = Opcode.set_array_index
opcode_of (setlocalpush index level) = Opcode.set_local_push
opcode_of (setmembersymbolpush symbol) = Opcode.set_member_symbol_push
opcode_of setmembervaluepush = Opcode.set_member_value_push
opcode_of (setarrayindexpush index) = Opcode.set_array_index_push
opcode_of putself = Opcode.put_self
opcode_of (putvalue value) = Opcode.put_value
opcode_of (putstring offset length) = Opcode.put_string
opcode_of (putfunction symbol offset anonymous needs_arguments argc minimum_argc lvarcount) =
    Opcode.put_function
opcode_of (putarray count) = Opcode.put_array
opcode_of (puthash count) = Opcode.put_hash
opcode_of
      (putclass symbol propertycount staticpropertycount methodcount staticmethodcount
        has_parent_class has_constructor) =
    Opcode.put_class
opcode_of pop = Opcode.pop_op
opcode_of dup = Opcode.dup
opcode_of (dupn count) = Opcode.dupn
opcode_of swap = Opcode.swap
opcode_of (call argc) = Opcode.call
opcode_of (callmember argc) = Opcode.call_member
opcode_of putsuper = Opcode.put_super
opcode_of (putsupermember symbol) = Opcode.put_super_member
opcode_of (new argc) = Opcode.new_op
opcode_of return_op = Opcode.return_op
opcode_of yield = Opcode.yield_op
opcode_of throw = Opcode.throw_op
opcode_of (registercatchtable offset) = Opcode.register_catch_table
opcode_of popcatchtable = Opcode.pop_catch_table
opcode_of (branch offset) = Opcode.branch
opcode_of (branchif offset) = Opcode.branch_if
opcode_of (branchunless offset) = Opcode.branch_unless
opcode_of (branchlt offset) = Opcode.branch_lt
opcode_of (branchgt offset) = Opcode.branch_gt
opcode_of (branchle offset) = Opcode.branch_le
opcode_of (branchge offset) = Opcode.branch_ge
opcode_of (brancheq offset) = Opcode.branch_eq
opcode_of (branchneq offset) = Opcode.branch_neq
opcode_of (operator opcode) = opcode
opcode_of halt = Opcode.halt
opcode_of typeof = Opcode.typeof
opcode_of (syscall id) = Opcode.syscall

-- The operands fit the types of the writer's parameters.
abbrev pub Fits : Instruction → Type 0
Fits nop = Unit
Fits (readlocal index level) = IsU32 index × IsU32 level
Fits (readmembersymbol symbol) = IsU64 symbol
Fits readmembervalue = Unit
Fits (readarrayindex index) = IsU32 index
Fits (readglobal symbol) = IsU64 symbol
Fits (setlocal index level) = IsU32 index × IsU32 level
Fits (setmembersymbol symbol) = IsU64 symbol
Fits setmembervalue = Unit
Fits (setglobal symbol) = IsU64 symbol
Fits (setglobalpush symbol) = IsU64 symbol
Fits (setarrayindex index) = IsU32 index
Fits (setlocalpush index level) = IsU32 index × IsU32 level
Fits (setmembersymbolpush symbol) = IsU64 symbol
Fits setmembervaluepush = Unit
Fits (setarrayindexpush index) = IsU32 index
Fits putself = Unit
Fits (putvalue value) = IsU64 value
Fits (putstring offset length) = IsU32 offset × IsU32 length
Fits (putfunction symbol offset anonymous needs_arguments argc minimum_argc lvarcount) = ⊥
Fits (putarray count) = IsU32 count
Fits (puthash count) = IsU32 count
Fits
      (putclass symbol propertycount staticpropertycount methodcount staticmethodcount
        has_parent_class has_constructor) =
    IsU64 symbol
    × IsU32 propertycount
    × IsU32 staticpropertycount
    × IsU32 methodcount
    × IsU32 staticmethodcount
Fits pop = Unit
Fits dup = Unit
Fits (dupn count) = IsU32 count
Fits swap = Unit
Fits (call argc) = IsU32 argc
Fits (callmember argc) = IsU32 argc
Fits putsuper = Unit
Fits (putsupermember symbol) = IsU64 symbol
Fits (new argc) = IsU32 argc
Fits return_op = Unit
Fits yield = Unit
Fits throw = Unit
Fits (registercatchtable offset) = IsInt32 offset
Fits popcatchtable = Unit
Fits (branch offset) = IsInt32 offset
Fits (branchif offset) = IsInt32 offset
Fits (branchunless offset) = IsInt32 offset
Fits (branchlt offset) = IsInt32 offset
Fits (branchgt offset) = IsInt32 offset
Fits (branchle offset) = IsInt32 offset
Fits (branchge offset) = IsInt32 offset
Fits (brancheq offset) = IsInt32 offset
Fits (branchneq offset) = IsInt32 offset
Fits (operator opcode) = IsOperator opcode
Fits halt = Unit
Fits typeof = Unit
Fits (syscall id) = IsU16 id
