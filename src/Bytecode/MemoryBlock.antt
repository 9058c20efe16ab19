-- ===== src/Bytecode/MemoryBlock.antt =====
-- include/memoryblock.h: a growing buffer of bytes. The model keeps the bytes below the write
-- offset and the capacity; what lies between the two is not read. Words are written with their
-- lowest byte first, as on the little-endian machines that the program runs on. The growth factor
-- is the `float` 2, exact on the capacities that occur, which are 64 times powers of two.
pub mod Bytes
pub mod Growth
use charly_vm.Common.{ℕ, zero, suc, ◌+◌, ◌*◌, ◌/◌, ◌%◌, ◌^◌, Bool, ltb, if◌then◌else◌}
use charly_vm.Common.{Option, none, some, List, [], ◌∷◌, ◌++◌, length, take, drop, map}
use charly_vm.Common.Int.{ℤ, pos, negsuc}

-- The lowest `n` bytes of a word, and the word that `n` bytes stand for.
unfoldable pub bytes_le : ℕ → ℕ → List ℕ
bytes_le zero v = []
bytes_le (suc n) v = (v % 256) ∷ bytes_le n (v / 256)

unfoldable pub read_le : ℕ → List ℕ → ℕ
read_le zero bs = 0
read_le (suc n) [] = 0
read_le (suc n) (b ∷ bs) = b + 256 * read_le n bs

pub record MemoryBlock : Type 0 where
  pub data_bytes : List ℕ
  pub capacity : ℕ

-- kInitialCapacity
abbrev pub initial_capacity : ℕ
initial_capacity = 64

-- MemoryBlock()
abbrev pub empty_block : MemoryBlock
empty_block = record { data_bytes = []; capacity = initial_capacity }

-- MemoryBlock(MemoryBlock&& other): what is left of `other`.
abbrev pub moved_from : MemoryBlock
moved_from = record { data_bytes = []; capacity = 0 }

abbrev pub get_writeoffset : MemoryBlock → ℕ
get_writeoffset m = length m.data_bytes

-- `while (new_size < size) new_size *= kGrowthFactor`; `none` means that the fuel ran out.
unfoldable pub grow_loop : ℕ → ℕ → ℕ → Option ℕ
grow_loop zero size new_size = none
grow_loop (suc fuel) size new_size =
    let more = grow_loop fuel size (new_size * 2) in
    if ltb new_size size then more else some new_size

-- MemoryBlock::grow_to_fit: the new capacity
unfoldable pub grow_to_fit : ℕ → MemoryBlock → Option ℕ
grow_to_fit size m =
    if ltb m.capacity size then grow_loop (suc size) size m.capacity else some m.capacity

-- MemoryBlock::write_block and write_string; `none` where growing does not end
unfoldable pub write_block : List ℕ → MemoryBlock → Option MemoryBlock
write_block bs m = elim (grow_to_fit (get_writeoffset m + length bs) m) [
  | none ↦ none
  | some c ↦ some (record { data_bytes = m.data_bytes ++ bs; capacity = c })
]

-- MemoryBlock::write<T> at the write offset, for a T of `n` bytes
unfoldable pub write : ℕ → ℕ → MemoryBlock → Option MemoryBlock
write n v m = write_block (bytes_le n v) m

-- MemoryBlock::read<T>, for a T of `n` bytes
unfoldable pub read : ℕ → ℕ → MemoryBlock → ℕ
read n offset m = read_le n (drop offset m.data_bytes)

-- `read<T>(offset) = value`: an assignment through the reference that `read` returns
unfoldable pub patch : ℕ → ℕ → ℕ → MemoryBlock → MemoryBlock
patch n offset v m = record m {
  data_bytes = take offset m.data_bytes ++ (bytes_le n v ++ drop (offset + n) m.data_bytes);
}

-- MemoryBlock::write<T> at an offset within the bytes, which grows the block to fit first.
unfoldable pub write_at : ℕ → ℕ → ℕ → MemoryBlock → Option MemoryBlock
write_at n v offset m = elim (grow_to_fit (offset + n) m) [
  | none ↦ none
  | some c ↦ some (record (patch n offset v m) { capacity = c })
]

-- MemoryBlock::clear
unfoldable pub clear : MemoryBlock → MemoryBlock
clear m = record m { data_bytes = [] }
