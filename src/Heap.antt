-- ===== src/Heap.antt =====
-- The heap types of src/vm/primitives: arrays, containers and classes.
pub mod Array
pub mod Container
pub mod Class
mod Tests
