-- ===== src/Bytecode/InstructionBlock/Decode/First.antt =====
-- The first instruction of the code, by cases on the instruction.
use charly_vm.Common.{ℕ, ◌≡◌, refl}
use charly_vm.Common.{some, List, [], ◌++◌, length}
use charly_vm.Bytecode.MemoryBlock.{bytes_le}
use charly_vm.Bytecode.Opcode.{byte_of}
use charly_vm.Bytecode.InstructionBlock.Instruction.{Instruction, emit, Fits}
use charly_vm.Bytecode.InstructionBlock.Decode.{decode}
use charly_vm.Bytecode.InstructionBlock.Decode.Operands.{
  u16_back, u32_back, u64_back, i32_back, bool_back, u64_cut, operator_back,
}

-- One instruction at the start of the code.
pub decode-emit_first :
    (i : Instruction) (rest : List ℕ) → Fits i → decode (emit [] i ++ rest) ≡ some i
unfolding decode emit byte_of bytes_le
decode-emit_first Instruction.nop rest h = refl
decode-emit_first (Instruction.readlocal index level) rest h =
    λ i. some (Instruction.readlocal (u32_back index h.0 i) (u32_back level h.1 i))
decode-emit_first (Instruction.readmembersymbol symbol) rest h =
    λ i. some (Instruction.readmembersymbol (u64_back symbol h i))
decode-emit_first Instruction.readmembervalue rest h = refl
decode-emit_first (Instruction.readarrayindex index) rest h =
    λ i. some (Instruction.readarrayindex (u32_back index h i))
decode-emit_first (Instruction.readglobal symbol) rest h =
    λ i. some (Instruction.readglobal (u64_back symbol h i))
decode-emit_first (Instruction.setlocal index level) rest h =
    λ i. some (Instruction.setlocal (u32_back index h.0 i) (u32_back level h.1 i))
decode-emit_first (Instruction.setmembersymbol symbol) rest h =
    λ i. some (Instruction.setmembersymbol (u64_back symbol h i))
decode-emit_first Instruction.setmembervalue rest h = refl
decode-emit_first (Instruction.setglobal symbol) rest h =
    λ i. some (Instruction.setglobal (u64_back symbol h i))
decode-emit_first (Instruction.setglobalpush symbol) rest h =
    λ i. some (Instruction.setglobalpush (u64_back symbol h i))
decode-emit_first (Instruction.setarrayindex index) rest h =
    λ i. some (Instruction.setarrayindex (u32_back index h i))
decode-emit_first (Instruction.setlocalpush index level) rest h =
    λ i. some (Instruction.setlocalpush (u32_back index h.0 i) (u32_back level h.1 i))
decode-emit_first (Instruction.setmembersymbolpush symbol) rest h =
    λ i. some (Instruction.setmembersymbolpush (u64_back symbol h i))
decode-emit_first Instruction.setmembervaluepush rest h = refl
decode-emit_first (Instruction.setarrayindexpush index) rest h =
    λ i. some (Instruction.setarrayindexpush (u32_back index h i))
decode-emit_first Instruction.putself rest h = refl
decode-emit_first (Instruction.putvalue value) rest h =
    λ i. some (Instruction.putvalue (u64_back value h i))
decode-emit_first (Instruction.putstring offset length) rest h =
    λ i. some (Instruction.putstring (u32_back offset h.0 i) (u32_back length h.1 i))
decode-emit_first (Instruction.putfunction s o a n c m l) rest h = absurd h
decode-emit_first (Instruction.putarray count) rest h =
    λ i. some (Instruction.putarray (u32_back count h i))
decode-emit_first (Instruction.puthash count) rest h =
    λ i. some (Instruction.puthash (u32_back count h i))
decode-emit_first
      (Instruction.putclass symbol propertycount staticpropertycount methodcount staticmethodcount
        has_parent_class has_constructor)
      rest h =
    λ i. some (
      Instruction.putclass (u64_back symbol h.0 i)
        (u64_cut propertycount (bytes_le 4 staticpropertycount ++ []) h.1 i)
        (u32_back staticpropertycount h.2 i) (u32_back methodcount h.3 i)
        (u32_back staticmethodcount h.4 i) (bool_back has_parent_class i)
        (bool_back has_constructor i))
decode-emit_first Instruction.pop rest h = refl
decode-emit_first Instruction.dup rest h = refl
decode-emit_first (Instruction.dupn count) rest h =
    λ i. some (Instruction.dupn (u32_back count h i))
decode-emit_first Instruction.swap rest h = refl
decode-emit_first (Instruction.call argc) rest h = λ i. some (Instruction.call (u32_back argc h i))
decode-emit_first (Instruction.callmember argc) rest h =
    λ i. some (Instruction.callmember (u32_back argc h i))
decode-emit_first Instruction.putsuper rest h = refl
decode-emit_first (Instruction.putsupermember symbol) rest h =
    λ i. some (Instruction.putsupermember (u64_back symbol h i))
decode-emit_first (Instruction.new argc) rest h = λ i. some (Instruction.new (u32_back argc h i))
decode-emit_first Instruction.return_op rest h = refl
decode-emit_first Instruction.yield rest h = refl
decode-emit_first Instruction.throw rest h = refl
decode-emit_first (Instruction.registercatchtable offset) rest h =
    λ i. some (Instruction.registercatchtable (i32_back offset h i))
decode-emit_first Instruction.popcatchtable rest h = refl
decode-emit_first (Instruction.branch offset) rest h =
    λ i. some (Instruction.branch (i32_back offset h i))
decode-emit_first (Instruction.branchif offset) rest h =
    λ i. some (Instruction.branchif (i32_back offset h i))
decode-emit_first (Instruction.branchunless offset) rest h =
    λ i. some (Instruction.branchunless (i32_back offset h i))
decode-emit_first (Instruction.branchlt offset) rest h =
    λ i. some (Instruction.branchlt (i32_back offset h i))
decode-emit_first (Instruction.branchgt offset) rest h =
    λ i. some (Instruction.branchgt (i32_back offset h i))
decode-emit_first (Instruction.branchle offset) rest h =
    λ i. some (Instruction.branchle (i32_back offset h i))
decode-emit_first (Instruction.branchge offset) rest h =
    λ i. some (Instruction.branchge (i32_back offset h i))
decode-emit_first (Instruction.brancheq offset) rest h =
    λ i. some (Instruction.brancheq (i32_back offset h i))
decode-emit_first (Instruction.branchneq offset) rest h =
    λ i. some (Instruction.branchneq (i32_back offset h i))
decode-emit_first (Instruction.operator op) rest h = operator_back op rest h
decode-emit_first Instruction.halt rest h = refl
decode-emit_first Instruction.typeof rest h = refl
decode-emit_first (Instruction.syscall id) rest h =
    λ i. some (Instruction.syscall (u16_back id h i))
