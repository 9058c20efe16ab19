-- ===== src/Bytecode/InstructionBlock/Decode/Operands.antt =====
-- Each type of operand is read back as it was written.
use charly_vm.Common.{ℕ, ◌%◌, ◌^◌, ◌≡◌, refl, ap, ◌∙◌, arith, Bool, true, false, not}
use charly_vm.Common.{◌==◌, if◌then◌else◌, some, List, [], ◌++◌}
use charly_vm.Common.Int.{ℤ, pos, negsuc}
use charly_vm.Bytecode.MemoryBlock.{bytes_le, read_le}
use charly_vm.Bytecode.MemoryBlock.Bytes.{read_le-bytes_le}
use charly_vm.Bytecode.Opcode.{Opcode, byte_of}
use charly_vm.Bytecode.InstructionBlock.{word_of_int32}
use charly_vm.Bytecode.InstructionBlock.Instruction.{
  Instruction, emit, IsU16, IsU32, IsU64, IsInt32,
}
use charly_vm.Bytecode.InstructionBlock.Instruction.{IsOperator}
use charly_vm.Bytecode.InstructionBlock.Decode.{decode, int32_of_word}

pub u16_back : (n : ℕ) → IsU16 n → read_le 2 (bytes_le 2 n ++ []) ≡ n
u16_back n h = read_le-bytes_le 2 n [] h

pub u32_back : (n : ℕ) → IsU32 n → read_le 4 (bytes_le 4 n ++ []) ≡ n
u32_back n h = read_le-bytes_le 4 n [] h

pub u64_back : (n : ℕ) → IsU64 n → read_le 8 (bytes_le 8 n ++ []) ≡ n
u64_back n h = read_le-bytes_le 8 n [] h

IsU32-word_of_int32 : (z : ℤ) → IsU32 (word_of_int32 z)
unfolding word_of_int32
IsU32-word_of_int32 (pos n) = omega arith
IsU32-word_of_int32 (negsuc n) = omega arith

int32_of_word_back : (z : ℤ) → IsInt32 z → int32_of_word (word_of_int32 z) ≡ z
unfolding word_of_int32 int32_of_word
int32_of_word_back (pos n) h = ground arith
int32_of_word_back (negsuc n) h = ground arith

pub i32_back :
    (z : ℤ) → IsInt32 z → int32_of_word (read_le 4 (bytes_le 4 (word_of_int32 z) ++ [])) ≡ z
i32_back z h =
    ap int32_of_word (u32_back (word_of_int32 z) (IsU32-word_of_int32 z)) ∙ int32_of_word_back z h

pub bool_back : (b : Bool) → not (read_le 1 (bytes_le 1 (if b then 1 else 0) ++ []) == 0) ≡ b
unfolding read_le bytes_le
bool_back true = refl
bool_back false = refl

-- The low half of eight bytes whose first four are a 32-bit word.
pub u64_cut : (n : ℕ) (rest : List ℕ) → IsU32 n → read_le 8 (bytes_le 4 n ++ rest) % 2 ^ 32 ≡ n
unfolding read_le bytes_le
u64_cut n rest h = omega arith

pub operator_back :
    (op : Opcode) (rest : List ℕ)
    → IsOperator op
    → decode (emit [] (Instruction.operator op) ++ rest) ≡ some (Instruction.operator op)
unfolding decode emit byte_of bytes_le
operator_back Opcode.nop rest h = absurd (omega arith)
operator_back Opcode.read_local rest h = absurd (omega arith)
operator_back Opcode.read_member_symbol rest h = absurd (omega arith)
operator_back Opcode.read_member_value rest h = absurd (omega arith)
operator_back Opcode.read_array_index rest h = absurd (omega arith)
operator_back Opcode.read_global rest h = absurd (omega arith)
operator_back Opcode.set_local_push rest h = absurd (omega arith)
operator_back Opcode.set_member_symbol_push rest h = absurd (omega arith)
operator_back Opcode.set_member_value_push rest h = absurd (omega arith)
operator_back Opcode.set_array_index_push rest h = absurd (omega arith)
operator_back Opcode.set_local rest h = absurd (omega arith)
operator_back Opcode.set_member_symbol rest h = absurd (omega arith)
operator_back Opcode.set_member_value rest h = absurd (omega arith)
operator_back Opcode.set_array_index rest h = absurd (omega arith)
operator_back Opcode.set_global rest h = absurd (omega arith)
operator_back Opcode.set_global_push rest h = absurd (omega arith)
operator_back Opcode.put_self rest h = absurd (omega arith)
operator_back Opcode.put_super rest h = absurd (omega arith)
operator_back Opcode.put_super_member rest h = absurd (omega arith)
operator_back Opcode.put_value rest h = absurd (omega arith)
operator_back Opcode.put_string rest h = absurd (omega arith)
operator_back Opcode.put_function rest h = absurd (omega arith)
operator_back Opcode.put_array rest h = absurd (omega arith)
operator_back Opcode.put_hash rest h = absurd (omega arith)
operator_back Opcode.put_class rest h = absurd (omega arith)
operator_back Opcode.pop_op rest h = absurd (omega arith)
operator_back Opcode.dup rest h = absurd (omega arith)
operator_back Opcode.dupn rest h = absurd (omega arith)
operator_back Opcode.swap rest h = absurd (omega arith)
operator_back Opcode.call rest h = absurd (omega arith)
operator_back Opcode.call_member rest h = absurd (omega arith)
operator_back Opcode.new_op rest h = absurd (omega arith)
operator_back Opcode.return_op rest h = absurd (omega arith)
operator_back Opcode.yield_op rest h = absurd (omega arith)
operator_back Opcode.throw_op rest h = absurd (omega arith)
operator_back Opcode.register_catch_table rest h = absurd (omega arith)
operator_back Opcode.pop_catch_table rest h = absurd (omega arith)
operator_back Opcode.branch rest h = absurd (omega arith)
operator_back Opcode.branch_if rest h = absurd (omega arith)
operator_back Opcode.branch_unless rest h = absurd (omega arith)
operator_back Opcode.branch_lt rest h = absurd (omega arith)
operator_back Opcode.branch_gt rest h = absurd (omega arith)
operator_back Opcode.branch_le rest h = absurd (omega arith)
operator_back Opcode.branch_ge rest h = absurd (omega arith)
operator_back Opcode.branch_eq rest h = absurd (omega arith)
operator_back Opcode.branch_neq rest h = absurd (omega arith)
operator_back Opcode.add_op rest h = refl
operator_back Opcode.sub_op rest h = refl
operator_back Opcode.mul_op rest h = refl
operator_back Opcode.div_op rest h = refl
operator_back Opcode.mod_op rest h = refl
operator_back Opcode.pow_op rest h = refl
operator_back Opcode.eq_op rest h = refl
operator_back Opcode.neq_op rest h = refl
operator_back Opcode.lt_op rest h = refl
operator_back Opcode.gt_op rest h = refl
operator_back Opcode.le_op rest h = refl
operator_back Opcode.ge_op rest h = refl
operator_back Opcode.shr rest h = refl
operator_back Opcode.shl rest h = refl
operator_back Opcode.and_op rest h = refl
operator_back Opcode.or_op rest h = refl
operator_back Opcode.xor_op rest h = refl
operator_back Opcode.uadd rest h = refl
operator_back Opcode.usub rest h = refl
operator_back Opcode.unot rest h = refl
operator_back Opcode.ubnot rest h = refl
operator_back Opcode.halt rest h = absurd (omega arith)
operator_back Opcode.typeof rest h = absurd (omega arith)
operator_back Opcode.syscall rest h = absurd (omega arith)
