-- ===== src/Bytecode.antt =====
-- The bytecode: opcodes, the memory block that code is written to, instructions and labels.
pub mod Opcode
pub mod MemoryBlock
pub mod InstructionBlock
pub mod Assembler
mod Tests
