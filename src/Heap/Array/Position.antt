-- ===== src/Heap/Array/Position.antt =====
-- Which position an index names: counted from the front, or from the back if it is negative.
use charly_vm.Common.{ℕ, ◌-◌, ◌<◌, ◌≡◌, arith}
use charly_vm.Common.{ltb, if◌then◌else◌, Option, none, some}
use charly_vm.Common.Int.{ℤ, pos, negsuc}
use charly_vm.Value.Word.{Value, null_value}

-- The element that an index names in a vector of `n` elements, if there is one.
abbrev pub position : ℕ → ℤ → Option ℕ
position n (pos i) = if ltb i n then some i else none
position n (negsuc i) = if ltb i n then some (n - 1 - i) else none

abbrev pub or_null : Option Value → Value
or_null none = null_value
or_null (some v) = v

pub position_bounds : (n : ℕ) (i : ℤ) {k : ℕ} → position n i ≡ some k → k < n
position_bounds n (pos i) h = ground arith
position_bounds n (negsuc i) h = ground arith
