-- ===== src/Value.antt =====
-- The nan-boxed `VALUE` of include/value.h: its words and types, integers, texts and numbers.
pub mod Word
pub mod Types
pub mod Integer
pub mod Number
mod Tests
