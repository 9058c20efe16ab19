-- ===== src/Bytecode/MemoryBlock/Bytes.antt =====
-- Words written to a block are read back, and a patch changes its own bytes only.
use charly_vm.Common.{ℕ, zero, suc, ◌/◌, ◌^◌, ◌<◌, ◌≡◌, refl, ap, arith}
use charly_vm.Common.{List, [], ◌∷◌, ◌++◌, length, take, drop}
use charly_vm.Bytecode.MemoryBlock.{bytes_le, read_le}
use native.Mathlib.Nat.{pow-suc}

pub length-bytes_le : (n v : ℕ) → length (bytes_le n v) ≡ n
unfolding bytes_le
length-bytes_le zero v = refl
length-bytes_le (suc n) v = ap suc (length-bytes_le n (v / 256))

-- `n` bytes hold a word below 256 ^ n, whatever follows them.
pub read_le-bytes_le :
    (n v : ℕ) (rest : List ℕ) → v < 256 ^ n → read_le n (bytes_le n v ++ rest) ≡ v
unfolding read_le bytes_le
read_le-bytes_le zero v rest h = omega arith
read_le-bytes_le (suc n) v rest h =
    omega (arith, pow-suc 256 n, read_le-bytes_le n (v / 256) rest (omega (arith, pow-suc 256 n)))

pub drop-length : (xs ys : List ℕ) → drop (length xs) (xs ++ ys) ≡ ys
drop-length [] ys = refl
drop-length (x ∷ xs) ys = drop-length xs ys

pub take-length : (xs ys : List ℕ) → take (length xs) (xs ++ ys) ≡ xs
take-length [] ys = refl
take-length (x ∷ xs) ys = ap (◌∷◌ x) (take-length xs ys)
