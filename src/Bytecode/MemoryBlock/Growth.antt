-- ===== src/Bytecode/MemoryBlock/Growth.antt =====
-- Growing a block ends with room for what is written, unless the block was moved from.
use charly_vm.Common.{
  ℕ, zero, suc, ◌+◌, ◌*◌, ◌≤◌, ◌≡◌, refl, arith, ltb, Bool-cases, inl, inr, ltb→lt, ltb→le,
  length-append,
}
use charly_vm.Common.{none, some, List, ◌∷◌, ◌++◌, length}
use charly_vm.Bytecode.MemoryBlock.{MemoryBlock, grow_loop, grow_to_fit, write_block, moved_from}

-- From a positive size, doubling reaches `size` before the fuel runs out.
grow_loop_total :
    (fuel size n : ℕ)
    → 1 ≤ n
    → size ≤ fuel + n
    → (c : ℕ) × (grow_loop (suc fuel) size n ≡ some c) × (size ≤ c) × (n ≤ c)
unfolding grow_loop
grow_loop_total zero size n h k = (n, ground arith, omega arith, omega arith)
grow_loop_total (suc fuel) size n h k = elim (Bool-cases (ltb n size)) [
  | inr enough ↦ (n, rw enough, ground arith, omega arith)
  | inl short ↦
      let small = ltb→lt n size short in
      let (c, e, up, grown) = grow_loop_total fuel size (n * 2) (omega arith) (omega arith) in
      (c, rw short e, up, omega arith)
]

-- A moved-from block has capacity 0, and doubling it never ends, with any fuel.
grow_loop-zero : (fuel size : ℕ) → grow_loop fuel (suc size) 0 ≡ none
unfolding grow_loop
grow_loop-zero zero size = refl
grow_loop-zero (suc fuel) size = ground (arith, grow_loop-zero fuel size)

grow_to_fit_total :
    (size : ℕ) (m : MemoryBlock)
    → 1 ≤ m.capacity
    → (c : ℕ) × (grow_to_fit size m ≡ some c) × (size ≤ c) × (m.capacity ≤ c)
unfolding grow_to_fit
grow_to_fit_total size m h = elim (Bool-cases (ltb m.capacity size)) [
  | inl short ↦
      let (c, e, up, grown) = grow_loop_total size size m.capacity h (omega arith) in
      (c, rw short e, up, grown)
  | inr room ↦ (m.capacity, rw room, ltb→le m.capacity size room, omega arith)
]

-- A write to a block with some capacity succeeds, appends its bytes, and leaves them within the
-- capacity, which does not shrink.
pub write_block_total :
    (bs : List ℕ) (m : MemoryBlock)
    → 1 ≤ m.capacity
    → (c : ℕ) × (write_block bs m ≡ some (record { data_bytes = m.data_bytes ++ bs; capacity = c }))
      × (length (m.data_bytes ++ bs) ≤ c)
      × (m.capacity ≤ c)
unfolding write_block
write_block_total bs m h =
    let (c, e, up, grown) = grow_to_fit_total (length m.data_bytes + length bs) m h in
    (c, rw (e, write_block), omega (arith, length-append m.data_bytes bs), grown)

-- A write of a byte or more to a block that was moved from does not return: no number of
-- doublings makes its capacity large enough.
pub write_block-moved_from :
    (fuel b : ℕ) (bs : List ℕ)
    → (grow_loop fuel (suc (length bs)) moved_from.capacity ≡ none)
      × (write_block (b ∷ bs) moved_from ≡ none)
unfolding write_block grow_to_fit
write_block-moved_from fuel b bs = (
  grow_loop-zero fuel (length bs),
  ground (arith, grow_loop-zero (suc (suc (length bs))) (length bs)),
)
