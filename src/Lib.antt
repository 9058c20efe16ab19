-- ===== src/Lib.antt =====
-- The Charly virtual machine: the lexer and the allocation of variables of its compiler, its
-- values, heap, bytecode and collector, and the calls, members and run loop of the machine.
--
-- A program is parsed, compiled by src/compiler into bytecode, and run by src/vm/vm.cpp on
-- nan-boxed values, whose heap cells src/vm/gc.cpp allocates and frees.
--
-- * Value (include/value.h, include/common.h). `Word` has the constants and the bits of a `VALUE`,
--   a natural number below 2^64; `Types` the class tests and charly_get_type; `Integer` the boxing
--   of numbers; `Number` the operators charly_add_number and so on, under the source's names
--   without the `charly_`. What the processor does with doubles is the record `Doubles`, an
--   argument of all that uses it; its fields take and give bits. Signed arithmetic on `int64_t`
--   wraps around, where the source relies on it not to overflow.
-- * Heap (src/vm/primitives). `Array`, `Container` and `Class` model array.cpp, container.cpp and
--   class.cpp, one function per method. A vector is a list, a map an association list with a new
--   key at the end (the order of an unordered map is not specified), and a class holds its parent.
--   A position in an array is an integer, as the source has signed indices that count from the end.
-- * Bytecode. `Opcode` is include/opcode.h; `MemoryBlock` include/memoryblock.h, with the bytes
--   written so far and the capacity; `InstructionBlock` the writers of
--   include/instructionblock.h as functions that append bytes; `Decode` the reading of operands in
--   VM::run of src/vm/vm.cpp; `Assembler` include/assembler.h and src/compiler/assembler.cpp.
-- * Gc (include/gc.h, src/vm/gc.cpp). The cells of all heaps stand in one list, a cell's address
--   is its position plus one, and a `Payload` has the members that refer to other values. `Roots`
--   lists the values of the machine that a collection starts from.
-- * Machine (src/vm/vm.cpp, include/vm.h, src/vm/primitives/frame.cpp and catchtable.cpp). The
--   stack, the frames and the catch tables as state that is passed on; `Call` has calls and
--   returns, `Catch` exceptions. An operation ends in an `Outcome`, where a panic, which aborts
--   the process, and a reference to nothing are told apart. What an uncaught exception starts,
--   the call of the handler, is an outcome of its own.
-- * Members (src/vm/vm.cpp). The access to members of values on a heap of cells, whose objects,
--   classes and functions hold the containers of `Heap`.
-- * StringPool (include/stringpool.h). The texts that are stored once, in a `MemoryBlock` of
--   `Bytecode`, with std::hash as an argument.
-- * Compiler. `Token`, `Source` and `Lexer` are include/token.h, include/sourcefile.h,
--   include/lexer.h and src/compiler/lexer.cpp. A text is the list of its characters; what
--   libs/utf8 does to a character is the argument `encode`, and the conversion of a float the
--   argument `parse_float`. `Lexer.Scan` has the routines for one token and their loops. `Scopes`
--   is the allocation of local variables in include/lvar-alloc.h, include/lvar-location.h and
--   src/compiler/lvar-alloc.cpp, and `Scopes.Rewrite` the visits of functions, blocks, declarations and
--   identifiers by src/compiler/lvar-rewrite.cpp, which go on behind an error; a `Program` is what
--   is left of an abstract syntax tree when its other nodes are dropped.
-- * Scheduler (src/vm/vm.cpp, include/vm.h). The queue of tasks, the timers and tickers in the
--   order of their times, the suspended threads, and the run loop as functions on a `Runtime`,
--   which has the `Machine` as a field. What a task does is the argument `run`, and what a call
--   with too few arguments does to the machine the argument `throw_exception`.
--
-- The parts meet in `VALUE`: containers, classes and cells hold words, the collector follows
-- those that are tagged as pointers, and instructions carry them as operands. A variable's slot
-- and level, which `Compiler.Scopes` finds, are the operands of the instructions that `Machine`
-- runs with `travel`; the run loop saves and restores the stack and frames of a `Machine`.
--
-- Fuel. `Gc.mark` has the depth of its recursion as fuel, and `Gc.collect` gives one more than
-- there are cells, which is enough because each level marks a cell that was not marked before.
-- `Bytecode.MemoryBlock.grow_to_fit` doubles the capacity with one more than the size asked for
-- as fuel, which is enough for a capacity of one or more; `none` says that it ran out.
-- `Decode.fetch_all` stops after a given number of instructions. The number of cells of one heap
-- is an argument of allocation; the source has 4096.
-- A loop of the lexer has two more than the characters that are left as fuel, and the lexer four
-- more than the length of the text; `diverge` says that it ran out. `Scheduler.start_runtime`
-- counts the turns of the loop.
-- `Members.find_value` walks over as many classes as there are cells, which is enough for a chain
-- without a cycle. `Machine.Catch.unwind_catchstack` walks over at most one frame more than are
-- allocated.
--
-- Not modelled: the other instructions of src/vm/vm.cpp, the other heap types, texts and symbols
-- of include/value.h, the parser, the normalizer, the visit of the other nodes by
-- src/compiler/lvar-rewrite.cpp, and the code generator, which wait for a model of include/ast.h;
-- the symbol table, which `Members` has as an argument; the disassembler,
-- printing, locks, native libraries and the command line, which are input and output; libs/utf8,
-- which is a library.
pub mod Common
pub mod Value
pub mod Heap
pub mod Bytecode
pub mod Gc
pub mod Machine
pub mod Compiler
pub mod Scheduler
pub mod Members
pub mod StringPool
