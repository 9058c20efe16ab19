-- ===== src/Heap/Array.antt =====
-- src/vm/primitives/array.cpp: the methods of `Array`. An operation that changes the vector returns
-- the new vector. Sizes are below 2^63, so the signed comparisons of the source are those of ℤ.
pub mod Position
pub mod Access
use charly_vm.Common.{ℕ, zero, suc, Bool, true, false, not, ◌||◌, ◌==◌, if◌then◌else◌}
use charly_vm.Common.{List, [], ◌∷◌, ◌++◌, length, get_or, set, replicate}
use charly_vm.Common.Int.{ℤ, pos, negsuc, ◌+ℤ◌, ltb_ℤ, leb_ℤ, pos_part}
use charly_vm.Value.Word.{Value, null_value}
use charly_vm.Value.Types.{ValueType, get_type, same_type}
use charly_vm.Value.Number.{eqb_ℤ}

abbrev pub VectorType : Type 0
VectorType = List Value

-- `vector::insert` before a position, and `vector::erase`.
unfoldable pub insert_at : VectorType → ℕ → Value → VectorType
insert_at xs zero v = v ∷ xs
insert_at [] (suc i) v = v ∷ []
insert_at (x ∷ xs) (suc i) v = x ∷ insert_at xs i v

unfoldable pub erase_at : VectorType → ℕ → VectorType
erase_at [] i = []
erase_at (x ∷ xs) zero = xs
erase_at (x ∷ xs) (suc i) = x ∷ erase_at xs i

abbrev pub size : VectorType → ℤ
size xs = pos (length xs)

-- `if (index < 0) index += size`
unfoldable pub wrap_index : VectorType → ℤ → ℤ
wrap_index xs index = if ltb_ℤ index (pos 0) then index +ℤ size xs else index

-- Array::read
unfoldable pub read : VectorType → ℤ → Value
read xs index =
    let i = wrap_index xs index in
    if ltb_ℤ i (pos 0) || leb_ℤ (size xs) i then null_value else get_or xs (pos_part i) null_value

-- Array::write, with its result
unfoldable pub write : VectorType → ℤ → Value → VectorType × Value
write xs index v =
    let i = wrap_index xs index in
    if eqb_ℤ index (size xs)
    then (xs ++ v ∷ [], v)
    else if ltb_ℤ i (pos 0) || ltb_ℤ (size xs) i
    then (xs, null_value)
    else (set xs (pos_part i) v, v)

-- Array::insert
unfoldable pub insert : VectorType → ℤ → Value → VectorType
insert xs index v =
    let i = wrap_index xs index in
    if eqb_ℤ index (size xs)
    then xs ++ v ∷ []
    else if ltb_ℤ i (pos 0) || ltb_ℤ (size xs) i
    then xs
    else insert_at xs (pos_part i) v

-- Array::push
unfoldable pub push : VectorType → Value → VectorType
push xs v = xs ++ v ∷ []

-- Array::remove
unfoldable pub remove : VectorType → ℤ → VectorType
remove xs index =
    let i = wrap_index xs index in
    if ltb_ℤ i (pos 0) || leb_ℤ (size xs) i then xs else erase_at xs (pos_part i)

-- Array::clear
unfoldable pub clear : VectorType → VectorType
clear xs = []

-- Array::fill
unfoldable pub fill : VectorType → Value → ℕ → VectorType
fill xs v count = replicate count v

-- Array::contains_only, whose loop stops at the first value of another type
unfoldable pub contains_only : (ℕ → ValueType) → VectorType → ValueType → Bool
contains_only type_at [] t = true
contains_only type_at (x ∷ xs) t =
    let rest = contains_only type_at xs t in
    if not (same_type (get_type type_at x) t) then false else rest
