-- ===== src/Compiler.antt =====
-- The passes of src/compiler before the assembler.
pub mod Token
pub mod Source
pub mod Lexer
pub mod Scopes
mod Tests
