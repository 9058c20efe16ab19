-- ===== src/Bytecode/Assembler/Functions.antt =====
-- Where Assembler::write_putfunction_to_label puts the offset of a body that is placed already.
use mathlib.Core.List.{append_assoc}
use charly_vm.Common.{ℕ, ◌+◌, ◌-◌, ◌%◌, ◌^◌, ◌≤◌, ◌<◌, ◌≡◌, ap, ◌∙◌, arith}
use charly_vm.Common.{Bool, some, ◌++◌, length, length-append, if◌then◌else◌}
use charly_vm.Value.Word.{Value}
use charly_vm.Bytecode.Opcode.{Opcode, byte_of}
use charly_vm.Bytecode.MemoryBlock.{bytes_le}
use charly_vm.Bytecode.MemoryBlock.Bytes.{length-bytes_le}
use charly_vm.Bytecode.InstructionBlock.{Code, write_op, write_u32, write_u64}
use charly_vm.Bytecode.Assembler.{Assembler, find_label, sub_u32, placed_offset}
use charly_vm.Bytecode.Assembler.{function_operands, write_putfunction_to_label}
use charly_vm.Bytecode.Assembler.Fields.{field, field-append, field-at_end}

module _ (anonymous needs_arguments : Bool) (argc minimum_argc lvarcount : ℕ) where
  abbrev tail_bytes : Code
  tail_bytes =
      bytes_le 1 (if anonymous then 1 else 0)
      ++ (bytes_le 1 (if needs_arguments then 1 else 0)
          ++ (bytes_le 4 argc ++ (bytes_le 4 minimum_argc ++ bytes_le 4 lvarcount)))

  function_operands-append :
      (code : Code)
      → function_operands code anonymous needs_arguments argc minimum_argc lvarcount
        ≡ code ++ tail_bytes
  function_operands-append code = simp append_assoc

  module _ (a : Assembler) (symbol : Value) (label offset : ℕ) where
    abbrev before : Code
    before = write_u64 (write_op a.code Opcode.put_function) symbol

    length-before : length before ≡ length a.code + 9
    length-before = omega (
      arith,
      length-append (write_op a.code Opcode.put_function) (bytes_le 8 symbol),
      length-append a.code (bytes_le 1 (byte_of Opcode.put_function)),
      length-bytes_le 8 symbol,
      length-bytes_le 1 (byte_of Opcode.put_function),
    )

    -- The offset of a function whose label is placed already is the distance from eight bytes
    -- behind the start of the instruction, unlike that of a branch.
    pub putfunction_backward :
        find_label a.labels label ≡ some offset
        → length a.code + 9 < 2 ^ 32
        → field
            (write_putfunction_to_label symbol label anonymous needs_arguments argc minimum_argc
              lvarcount a).code
            (length a.code + 9)
          ≡ sub_u32 offset (length a.code + 8)
    unfolding write_putfunction_to_label
    putfunction_backward found small =
        let v = placed_offset offset before in
        rw (found, write_putfunction_to_label)
          (ap (λ c. field c (length a.code + 9)) (function_operands-append (write_u32 before v))
            ∙ field-append (write_u32 before v) tail_bytes (length a.code + 9) (
                omega
                  (arith, length-append before (bytes_le 4 v), length-bytes_le 4 v, length-before))
            ∙ field-at_end (write_op a.code Opcode.put_function) (bytes_le 8 symbol) v
                (length a.code + 9)
                (omega (
                  arith,
                  length-append a.code (bytes_le 1 (byte_of Opcode.put_function)),
                  length-bytes_le 8 symbol,
                  length-bytes_le 1 (byte_of Opcode.put_function),
                ))
                (omega arith)
            ∙ omega (arith, length-before))

    -- So the machine would enter the body eight bytes before its label.
    pub putfunction_backward_misses :
        find_label a.labels label ≡ some offset
        → length a.code + 9 < 2 ^ 31
        → 8 ≤ offset
        → offset < 2 ^ 31
        → (length a.code
              + field
                  (write_putfunction_to_label symbol label anonymous needs_arguments argc
                    minimum_argc lvarcount a).code
                  (length a.code + 9))
            % 2 ^ 32
          ≡ offset - 8
    putfunction_backward_misses found small low high =
        omega (arith, putfunction_backward found (omega arith))
