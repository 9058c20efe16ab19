-- ===== src/StringPool.antt =====
-- include/stringpool.h: the texts that are stored once, in one buffer. `hash` is std::hash of the
-- standard library; the lock is not modelled.
pub mod Texts
mod Tests
use charly_vm.Common.{
  ℕ, ◌+◌, ◌%◌, ◌^◌, Bool, ◌==◌, if◌then◌else◌, Option, none, some, List, [], ◌∷◌, length, take,
  drop,
}
use charly_vm.Bytecode.MemoryBlock.{MemoryBlock, get_writeoffset, write_block}

pub record StringOffsetInfo : Type 0 where
  pub offset : ℕ
  pub length : ℕ

pub record Pool : Type 0 where
  pub buffer : MemoryBlock
  pub offset_map : List (ℕ × StringOffsetInfo)

unfoldable pub find_hash : ℕ → List (ℕ × StringOffsetInfo) → Option StringOffsetInfo
find_hash h [] = none
find_hash h ((k, info) ∷ entries) = if k == h then some info else find_hash h entries

-- The bytes that get_char_ptr points to, as many as the length says
unfoldable pub text_at : Pool → StringOffsetInfo → List ℕ
text_at pool info = take info.length (drop info.offset pool.buffer.data_bytes)

module _ (hash : List ℕ → ℕ) where
  -- StringPool::encode_string, with the pool behind it; `none` where the buffer cannot grow
  unfoldable pub encode_string : List ℕ → Pool → Option (StringOffsetInfo × Pool)
  encode_string str pool = elim (find_hash (hash str) pool.offset_map) [
    | some info ↦ some (info, pool)
    | none ↦ elim (write_block str pool.buffer) [
      | none ↦ none
      | some buffer ↦
          let info : StringOffsetInfo = record {
            offset = get_writeoffset pool.buffer % 2 ^ 32;
            length = length str % 2 ^ 32;
          } in
          some (info, record { buffer = buffer; offset_map = (hash str, info) ∷ pool.offset_map })
    ]
  ]
