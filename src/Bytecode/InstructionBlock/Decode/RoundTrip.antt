-- ===== src/Bytecode/InstructionBlock/Decode/RoundTrip.antt =====
-- Code that writers append is decoded to the instructions that were written.
use mathlib.Core.List.{append_assoc, append-nil}
use charly_vm.Common.{suc}
use charly_vm.Common.{ℕ, ◌≡◌, refl, sym, ap, ◌∙◌}
use charly_vm.Common.{some, List, [], ◌∷◌, ◌++◌, drop, length}
use charly_vm.Bytecode.MemoryBlock.Bytes.{drop-length}
use charly_vm.Bytecode.InstructionBlock.{Code}
use charly_vm.Bytecode.InstructionBlock.Instruction.{Instruction, emit, Fits}
use charly_vm.Bytecode.InstructionBlock.Decode.{decode}
use charly_vm.Bytecode.InstructionBlock.Decode.First.{decode-emit_first}
use charly_vm.Bytecode.InstructionBlock.Decode.Append.{emit-append, length-emit_first}
use charly_vm.Bytecode.Opcode.{instruction_length}
use charly_vm.Bytecode.InstructionBlock.Instruction.{opcode_of}
use charly_vm.Bytecode.InstructionBlock.Decode.{fetch_all}

-- Code written by a writer, at the end of any code and with any code after it, is decoded to the
-- instruction that was written with its operands, if they fit the types of the writer.
-- The writer of putfunction is left out.
pub decode-emit :
    (b : Code) (i : Instruction) (rest : Code)
    → Fits i
    → decode (drop (length b) (emit b i ++ rest)) ≡ some i
decode-emit b i rest h = rw (emit-append, append_assoc, drop-length) (decode-emit_first i rest h)

-- The code of a list of instructions.
unfoldable pub emit_all : Code → List Instruction → Code
emit_all b [] = b
emit_all b (i ∷ is) = emit_all (emit b i) is

abbrev pub AllFit : List Instruction → Type 0
AllFit [] = Unit
AllFit (i ∷ is) = Fits i × AllFit is

emit_all-append : (b : Code) (is : List Instruction) → emit_all b is ≡ b ++ emit_all [] is
unfolding emit_all
emit_all-append b [] = sym (append-nil b)
emit_all-append b (i ∷ is) =
    emit_all-append (emit b i) is
    ∙ ap (λ t. t ++ emit_all [] is) (emit-append b i)
    ∙ append_assoc b (emit [] i) (emit_all [] is)
    ∙ ap (λ t. b ++ t) (sym (emit_all-append (emit [] i) is))

emit_all-cons :
    (i : Instruction) (is : List Instruction) (rest : Code)
    → emit_all [] (i ∷ is) ++ rest ≡ emit [] i ++ (emit_all [] is ++ rest)
unfolding emit_all
emit_all-cons i is rest = rw (emit_all-append (emit [] i) is) (append_assoc _ _ rest)

fetch_all-suc :
    (n : ℕ) (bs : Code) (i : Instruction)
    → decode bs ≡ some i
    → fetch_all (suc n) bs ≡ i ∷ fetch_all n (drop (instruction_length (opcode_of i)) bs)
unfolding fetch_all
fetch_all-suc n bs i e = rw (e, fetch_all)

-- The main switch, moving on by the table of lengths, meets exactly the instructions that were
-- written, in order, whatever code follows, if the operands fit the types of the writers. The
-- writer of putfunction is left out.
pub fetch_all-emit_all :
    (is : List Instruction) (rest : Code)
    → AllFit is
    → fetch_all (length is) (emit_all [] is ++ rest) ≡ is
unfolding fetch_all
fetch_all-emit_all [] rest h = refl
fetch_all-emit_all (i ∷ is) rest (fit, fits) =
    let step = decode-emit_first i (emit_all [] is ++ rest) fit in
    let jump : drop (instruction_length (opcode_of i)) (emit [] i ++ (emit_all [] is ++ rest))
        ≡ emit_all [] is ++ rest =
      rw (← length-emit_first i fit) (drop-length (emit [] i) (emit_all [] is ++ rest)) in
    ap (fetch_all (suc (length is))) (emit_all-cons i is rest)
    ∙ fetch_all-suc (length is) (emit [] i ++ (emit_all [] is ++ rest)) i step
    ∙ ap (λ t. i ∷ fetch_all (length is) t) jump
    ∙ ap (◌∷◌ i) (fetch_all-emit_all is rest fits)
