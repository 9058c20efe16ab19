-- ===== src/Bytecode/InstructionBlock.antt =====
-- include/instructionblock.h: one writer for each instruction, which appends the opcode and its
-- operands to the code. The code is the bytes of the memory block that the class extends.
pub mod Instruction
pub mod Decode
use charly_vm.Common.{ℕ, ◌-◌, ◌%◌, ◌^◌, Bool, if◌then◌else◌, List, ◌++◌}
use charly_vm.Common.Int.{ℤ, pos, negsuc}
use charly_vm.Value.Word.{Value}
use charly_vm.Bytecode.MemoryBlock.{bytes_le}
use charly_vm.Bytecode.Opcode.{Opcode, byte_of}
use charly_vm.Bytecode.Opcode.{
  nop, read_local, read_member_symbol, read_member_value, read_array_index, read_global,
}
use charly_vm.Bytecode.Opcode.{
  set_local, set_member_symbol, set_member_value, set_global, set_global_push, set_array_index,
}
use charly_vm.Bytecode.Opcode.{
  set_local_push, set_member_symbol_push, set_member_value_push, set_array_index_push, put_self,
  put_value,
}
use charly_vm.Bytecode.Opcode.{put_string, put_function, put_array, put_hash, put_class, pop_op}
use charly_vm.Bytecode.Opcode.{dup, dupn, swap, call, call_member, put_super}
use charly_vm.Bytecode.Opcode.{
  put_super_member, new_op, return_op, yield_op, throw_op, register_catch_table,
}
use charly_vm.Bytecode.Opcode.{
  pop_catch_table, branch, branch_if, branch_unless, branch_lt, branch_gt,
}
use charly_vm.Bytecode.Opcode.{branch_le, branch_ge, branch_eq, branch_neq, halt, typeof}
use charly_vm.Bytecode.Opcode.{syscall}

abbrev pub Code : Type 0
Code = List ℕ

-- The bits of an `int32_t`.
unfoldable pub word_of_int32 : ℤ → ℕ
word_of_int32 (pos n) = n % 2 ^ 32
word_of_int32 (negsuc n) = 2 ^ 32 - 1 - n % 2 ^ 32

-- MemoryBlock::write for the operand types
abbrev pub write_op : Code → Opcode → Code
write_op b op = b ++ bytes_le 1 (byte_of op)

abbrev pub write_bool : Code → Bool → Code
write_bool b v = b ++ bytes_le 1 (if v then 1 else 0)

abbrev pub write_u16 : Code → ℕ → Code
write_u16 b v = b ++ bytes_le 2 v

abbrev pub write_u32 : Code → ℕ → Code
write_u32 b v = b ++ bytes_le 4 v

abbrev pub write_i32 : Code → ℤ → Code
write_i32 b v = b ++ bytes_le 4 (word_of_int32 v)

abbrev pub write_u64 : Code → ℕ → Code
write_u64 b v = b ++ bytes_le 8 v

unfoldable pub write_nop : Code → Code
write_nop b = write_op b nop

unfoldable pub write_readlocal : Code → ℕ → ℕ → Code
write_readlocal b index level = write_u32 (write_u32 (write_op b read_local) index) level

unfoldable pub write_readmembersymbol : Code → Value → Code
write_readmembersymbol b symbol = write_u64 (write_op b read_member_symbol) symbol

unfoldable pub write_readmembervalue : Code → Code
write_readmembervalue b = write_op b read_member_value

unfoldable pub write_readarrayindex : Code → ℕ → Code
write_readarrayindex b index = write_u32 (write_op b read_array_index) index

unfoldable pub write_readglobal : Code → Value → Code
write_readglobal b symbol = write_u64 (write_op b read_global) symbol

unfoldable pub write_setlocal : Code → ℕ → ℕ → Code
write_setlocal b index level = write_u32 (write_u32 (write_op b set_local) index) level

unfoldable pub write_setmembersymbol : Code → Value → Code
write_setmembersymbol b symbol = write_u64 (write_op b set_member_symbol) symbol

unfoldable pub write_setmembervalue : Code → Code
write_setmembervalue b = write_op b set_member_value

unfoldable pub write_setglobal : Code → Value → Code
write_setglobal b symbol = write_u64 (write_op b set_global) symbol

unfoldable pub write_setglobalpush : Code → Value → Code
write_setglobalpush b symbol = write_u64 (write_op b set_global_push) symbol

unfoldable pub write_setarrayindex : Code → ℕ → Code
write_setarrayindex b index = write_u32 (write_op b set_array_index) index

unfoldable pub write_setlocalpush : Code → ℕ → ℕ → Code
write_setlocalpush b index level = write_u32 (write_u32 (write_op b set_local_push) index) level

unfoldable pub write_setmembersymbolpush : Code → Value → Code
write_setmembersymbolpush b symbol = write_u64 (write_op b set_member_symbol_push) symbol

unfoldable pub write_setmembervaluepush : Code → Code
write_setmembervaluepush b = write_op b set_member_value_push

unfoldable pub write_setarrayindexpush : Code → ℕ → Code
write_setarrayindexpush b index = write_u32 (write_op b set_array_index_push) index

unfoldable pub write_putself : Code → Code
write_putself b = write_op b put_self

unfoldable pub write_putvalue : Code → Value → Code
write_putvalue b value = write_u64 (write_op b put_value) value

unfoldable pub write_putstring : Code → ℕ → ℕ → Code
write_putstring b offset length = write_u32 (write_u32 (write_op b put_string) offset) length

unfoldable pub write_putfunction : Code → Value → ℤ → Bool → Bool → ℕ → ℕ → Code
write_putfunction b symbol body_offset anonymous needs_arguments argc lvarcount =
    write_u32
      (write_u32
        (write_bool
          (write_bool (write_i32 (write_u64 (write_op b put_function) symbol) body_offset)
            anonymous)
          needs_arguments)
        argc)
      lvarcount

unfoldable pub write_putarray : Code → ℕ → Code
write_putarray b count = write_u32 (write_op b put_array) count

unfoldable pub write_puthash : Code → ℕ → Code
write_puthash b count = write_u32 (write_op b put_hash) count

unfoldable pub write_putclass : Code → Value → ℕ → ℕ → ℕ → ℕ → Bool → Bool → Code
write_putclass b symbol propertycount staticpropertycount methodcount staticmethodcount
      has_parent_class has_constructor =
    write_bool
      (write_bool
        (write_u32
          (write_u32
            (write_u32 (write_u32 (write_u64 (write_op b put_class) symbol) propertycount)
              staticpropertycount)
            methodcount)
          staticmethodcount)
        has_parent_class)
      has_constructor

unfoldable pub write_pop : Code → Code
write_pop b = write_op b pop_op

unfoldable pub write_dup : Code → Code
write_dup b = write_op b dup

unfoldable pub write_dupn : Code → ℕ → Code
write_dupn b count = write_u32 (write_op b dupn) count

unfoldable pub write_swap : Code → Code
write_swap b = write_op b swap

unfoldable pub write_call : Code → ℕ → Code
write_call b argc = write_u32 (write_op b call) argc

unfoldable pub write_callmember : Code → ℕ → Code
write_callmember b argc = write_u32 (write_op b call_member) argc

unfoldable pub write_putsuper : Code → Code
write_putsuper b = write_op b put_super

unfoldable pub write_putsupermember : Code → Value → Code
write_putsupermember b symbol = write_u64 (write_op b put_super_member) symbol

unfoldable pub write_new : Code → ℕ → Code
write_new b argc = write_u32 (write_op b new_op) argc

unfoldable pub write_return : Code → Code
write_return b = write_op b return_op

unfoldable pub write_yield : Code → Code
write_yield b = write_op b yield_op

unfoldable pub write_throw : Code → Code
write_throw b = write_op b throw_op

unfoldable pub write_registercatchtable : Code → ℤ → Code
write_registercatchtable b offset = write_i32 (write_op b register_catch_table) offset

unfoldable pub write_popcatchtable : Code → Code
write_popcatchtable b = write_op b pop_catch_table

unfoldable pub write_branch : Code → ℤ → Code
write_branch b offset = write_i32 (write_op b branch) offset

unfoldable pub write_branchif : Code → ℤ → Code
write_branchif b offset = write_i32 (write_op b branch_if) offset

unfoldable pub write_branchunless : Code → ℤ → Code
write_branchunless b offset = write_i32 (write_op b branch_unless) offset

unfoldable pub write_branchlt : Code → ℤ → Code
write_branchlt b offset = write_i32 (write_op b branch_lt) offset

unfoldable pub write_branchgt : Code → ℤ → Code
write_branchgt b offset = write_i32 (write_op b branch_gt) offset

unfoldable pub write_branchle : Code → ℤ → Code
write_branchle b offset = write_i32 (write_op b branch_le) offset

unfoldable pub write_branchge : Code → ℤ → Code
write_branchge b offset = write_i32 (write_op b branch_ge) offset

unfoldable pub write_brancheq : Code → ℤ → Code
write_brancheq b offset = write_i32 (write_op b branch_eq) offset

unfoldable pub write_branchneq : Code → ℤ → Code
write_branchneq b offset = write_i32 (write_op b branch_neq) offset

unfoldable pub write_operator : Code → Opcode → Code
write_operator b opcode = write_op b opcode

unfoldable pub write_halt : Code → Code
write_halt b = write_op b halt

unfoldable pub write_typeof : Code → Code
write_typeof b = write_op b typeof

unfoldable pub write_syscall : Code → ℕ → Code
write_syscall b id = write_u16 (write_op b syscall) id
