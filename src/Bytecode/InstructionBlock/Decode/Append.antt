-- ===== src/Bytecode/InstructionBlock/Decode/Append.antt =====
-- A writer appends the bytes of its instruction, as many as the table of lengths says.
use mathlib.Core.List.{append_assoc, append-nil}
use charly_vm.Common.{◌≡◌, refl, sym, arith}
use charly_vm.Common.{[], ◌++◌, length}
use charly_vm.Bytecode.MemoryBlock.{bytes_le}
use charly_vm.Bytecode.Opcode.{Opcode, byte_of}
use charly_vm.Bytecode.InstructionBlock.{Code}
use charly_vm.Bytecode.InstructionBlock.Instruction.{Instruction, emit, Fits}
use charly_vm.Bytecode.InstructionBlock.Instruction.{IsOperator}
use charly_vm.Bytecode.Opcode.{instruction_length}
use charly_vm.Bytecode.InstructionBlock.Instruction.{opcode_of}

-- A writer only appends.
pub emit-append : (b : Code) (i : Instruction) → emit b i ≡ b ++ emit [] i
unfolding emit
emit-append b Instruction.nop = refl
emit-append b (Instruction.readlocal index level) = simp append_assoc
emit-append b (Instruction.readmembersymbol symbol) = simp append_assoc
emit-append b Instruction.readmembervalue = refl
emit-append b (Instruction.readarrayindex index) = simp append_assoc
emit-append b (Instruction.readglobal symbol) = simp append_assoc
emit-append b (Instruction.setlocal index level) = simp append_assoc
emit-append b (Instruction.setmembersymbol symbol) = simp append_assoc
emit-append b Instruction.setmembervalue = refl
emit-append b (Instruction.setglobal symbol) = simp append_assoc
emit-append b (Instruction.setglobalpush symbol) = simp append_assoc
emit-append b (Instruction.setarrayindex index) = simp append_assoc
emit-append b (Instruction.setlocalpush index level) = simp append_assoc
emit-append b (Instruction.setmembersymbolpush symbol) = simp append_assoc
emit-append b Instruction.setmembervaluepush = refl
emit-append b (Instruction.setarrayindexpush index) = simp append_assoc
emit-append b Instruction.putself = refl
emit-append b (Instruction.putvalue value) = simp append_assoc
emit-append b (Instruction.putstring offset length) = simp append_assoc
emit-append b (Instruction.putfunction s o a n c m l) = sym (append-nil b)
emit-append b (Instruction.putarray count) = simp append_assoc
emit-append b (Instruction.puthash count) = simp append_assoc
emit-append b
      (Instruction.putclass symbol propertycount staticpropertycount methodcount staticmethodcount
        has_parent_class has_constructor) =
    simp append_assoc
emit-append b Instruction.pop = refl
emit-append b Instruction.dup = refl
emit-append b (Instruction.dupn count) = simp append_assoc
emit-append b Instruction.swap = refl
emit-append b (Instruction.call argc) = simp append_assoc
emit-append b (Instruction.callmember argc) = simp append_assoc
emit-append b Instruction.putsuper = refl
emit-append b (Instruction.putsupermember symbol) = simp append_assoc
emit-append b (Instruction.new argc) = simp append_assoc
emit-append b Instruction.return_op = refl
emit-append b Instruction.yield = refl
emit-append b Instruction.throw = refl
emit-append b (Instruction.registercatchtable offset) = simp append_assoc
emit-append b Instruction.popcatchtable = refl
emit-append b (Instruction.branch offset) = simp append_assoc
emit-append b (Instruction.branchif offset) = simp append_assoc
emit-append b (Instruction.branchunless offset) = simp append_assoc
emit-append b (Instruction.branchlt offset) = simp append_assoc
emit-append b (Instruction.branchgt offset) = simp append_assoc
emit-append b (Instruction.branchle offset) = simp append_assoc
emit-append b (Instruction.branchge offset) = simp append_assoc
emit-append b (Instruction.brancheq offset) = simp append_assoc
emit-append b (Instruction.branchneq offset) = simp append_assoc
emit-append b (Instruction.operator opcode) = refl
emit-append b Instruction.halt = refl
emit-append b Instruction.typeof = refl
emit-append b (Instruction.syscall id) = simp append_assoc

operator_length :
    (op : Opcode)
    → IsOperator op
    → length (emit [] (Instruction.operator op)) ≡ instruction_length op
unfolding emit byte_of bytes_le instruction_length
operator_length Opcode.nop h = absurd (omega arith)
operator_length Opcode.read_local h = absurd (omega arith)
operator_length Opcode.read_member_symbol h = absurd (omega arith)
operator_length Opcode.read_member_value h = absurd (omega arith)
operator_length Opcode.read_array_index h = absurd (omega arith)
operator_length Opcode.read_global h = absurd (omega arith)
operator_length Opcode.set_local_push h = absurd (omega arith)
operator_length Opcode.set_member_symbol_push h = absurd (omega arith)
operator_length Opcode.set_member_value_push h = absurd (omega arith)
operator_length Opcode.set_array_index_push h = absurd (omega arith)
operator_length Opcode.set_local h = absurd (omega arith)
operator_length Opcode.set_member_symbol h = absurd (omega arith)
operator_length Opcode.set_member_value h = absurd (omega arith)
operator_length Opcode.set_array_index h = absurd (omega arith)
operator_length Opcode.set_global h = absurd (omega arith)
operator_length Opcode.set_global_push h = absurd (omega arith)
operator_length Opcode.put_self h = absurd (omega arith)
operator_length Opcode.put_super h = absurd (omega arith)
operator_length Opcode.put_super_member h = absurd (omega arith)
operator_length Opcode.put_value h = absurd (omega arith)
operator_length Opcode.put_string h = absurd (omega arith)
operator_length Opcode.put_function h = absurd (omega arith)
operator_length Opcode.put_array h = absurd (omega arith)
operator_length Opcode.put_hash h = absurd (omega arith)
operator_length Opcode.put_class h = absurd (omega arith)
operator_length Opcode.pop_op h = absurd (omega arith)
operator_length Opcode.dup h = absurd (omega arith)
operator_length Opcode.dupn h = absurd (omega arith)
operator_length Opcode.swap h = absurd (omega arith)
operator_length Opcode.call h = absurd (omega arith)
operator_length Opcode.call_member h = absurd (omega arith)
operator_length Opcode.new_op h = absurd (omega arith)
operator_length Opcode.return_op h = absurd (omega arith)
operator_length Opcode.yield_op h = absurd (omega arith)
operator_length Opcode.throw_op h = absurd (omega arith)
operator_length Opcode.register_catch_table h = absurd (omega arith)
operator_length Opcode.pop_catch_table h = absurd (omega arith)
operator_length Opcode.branch h = absurd (omega arith)
operator_length Opcode.branch_if h = absurd (omega arith)
operator_length Opcode.branch_unless h = absurd (omega arith)
operator_length Opcode.branch_lt h = absurd (omega arith)
operator_length Opcode.branch_gt h = absurd (omega arith)
operator_length Opcode.branch_le h = absurd (omega arith)
operator_length Opcode.branch_ge h = absurd (omega arith)
operator_length Opcode.branch_eq h = absurd (omega arith)
operator_length Opcode.branch_neq h = absurd (omega arith)
operator_length Opcode.add_op h = refl
operator_length Opcode.sub_op h = refl
operator_length Opcode.mul_op h = refl
operator_length Opcode.div_op h = refl
operator_length Opcode.mod_op h = refl
operator_length Opcode.pow_op h = refl
operator_length Opcode.eq_op h = refl
operator_length Opcode.neq_op h = refl
operator_length Opcode.lt_op h = refl
operator_length Opcode.gt_op h = refl
operator_length Opcode.le_op h = refl
operator_length Opcode.ge_op h = refl
operator_length Opcode.shr h = refl
operator_length Opcode.shl h = refl
operator_length Opcode.and_op h = refl
operator_length Opcode.or_op h = refl
operator_length Opcode.xor_op h = refl
operator_length Opcode.uadd h = refl
operator_length Opcode.usub h = refl
operator_length Opcode.unot h = refl
operator_length Opcode.ubnot h = refl
operator_length Opcode.halt h = absurd (omega arith)
operator_length Opcode.typeof h = absurd (omega arith)
operator_length Opcode.syscall h = absurd (omega arith)

-- The code of an instruction has the length in the table.
pub length-emit_first :
    (i : Instruction) → Fits i → length (emit [] i) ≡ instruction_length (opcode_of i)
unfolding emit bytes_le instruction_length byte_of opcode_of
length-emit_first Instruction.nop h = refl
length-emit_first (Instruction.readlocal index level) h = refl
length-emit_first (Instruction.readmembersymbol symbol) h = refl
length-emit_first Instruction.readmembervalue h = refl
length-emit_first (Instruction.readarrayindex index) h = refl
length-emit_first (Instruction.readglobal symbol) h = refl
length-emit_first (Instruction.setlocal index level) h = refl
length-emit_first (Instruction.setmembersymbol symbol) h = refl
length-emit_first Instruction.setmembervalue h = refl
length-emit_first (Instruction.setglobal symbol) h = refl
length-emit_first (Instruction.setglobalpush symbol) h = refl
length-emit_first (Instruction.setarrayindex index) h = refl
length-emit_first (Instruction.setlocalpush index level) h = refl
length-emit_first (Instruction.setmembersymbolpush symbol) h = refl
length-emit_first Instruction.setmembervaluepush h = refl
length-emit_first (Instruction.setarrayindexpush index) h = refl
length-emit_first Instruction.putself h = refl
length-emit_first (Instruction.putvalue value) h = refl
length-emit_first (Instruction.putstring offset length) h = refl
length-emit_first (Instruction.putfunction s o a n c m l) h = absurd h
length-emit_first (Instruction.putarray count) h = refl
length-emit_first (Instruction.puthash count) h = refl
length-emit_first
      (Instruction.putclass symbol propertycount staticpropertycount methodcount staticmethodcount
        has_parent_class has_constructor)
      h =
    refl
length-emit_first Instruction.pop h = refl
length-emit_first Instruction.dup h = refl
length-emit_first (Instruction.dupn count) h = refl
length-emit_first Instruction.swap h = refl
length-emit_first (Instruction.call argc) h = refl
length-emit_first (Instruction.callmember argc) h = refl
length-emit_first Instruction.putsuper h = refl
length-emit_first (Instruction.putsupermember symbol) h = refl
length-emit_first (Instruction.new argc) h = refl
length-emit_first Instruction.return_op h = refl
length-emit_first Instruction.yield h = refl
length-emit_first Instruction.throw h = refl
length-emit_first (Instruction.registercatchtable offset) h = refl
length-emit_first Instruction.popcatchtable h = refl
length-emit_first (Instruction.branch offset) h = refl
length-emit_first (Instruction.branchif offset) h = refl
length-emit_first (Instruction.branchunless offset) h = refl
length-emit_first (Instruction.branchlt offset) h = refl
length-emit_first (Instruction.branchgt offset) h = refl
length-emit_first (Instruction.branchle offset) h = refl
length-emit_first (Instruction.branchge offset) h = refl
length-emit_first (Instruction.brancheq offset) h = refl
length-emit_first (Instruction.branchneq offset) h = refl
length-emit_first (Instruction.operator op) h = operator_length op h
length-emit_first Instruction.halt h = refl
length-emit_first Instruction.typeof h = refl
length-emit_first (Instruction.syscall id) h = refl
