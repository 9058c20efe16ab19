-- ===== src/Value/Types/Tags.antt =====
-- The tests on the tag of a word exclude one another, and each word is classified by its tag.
use charly_vm.Common.{ℕ, ◌+◌, ◌-◌, ◌/◌, ◌%◌, ◌^◌, ◌≤◌, ◌≡◌, arith}
use charly_vm.Common.{Bool, not, ◌||◌, ◌==◌, if◌then◌else◌}
use charly_vm.Value.Word.{Value, IsWord, bit_not, masked-signature, masked-exponent}
use charly_vm.Value.Types.{
  is_false, is_true, is_boolean, is_null, is_nan, is_float, is_int, is_symbol,
}
use charly_vm.Value.Types.{is_pstring, is_istring, is_ptr}

-- The upper 16 bits of a word.
abbrev pub tag : Value → ℕ
tag v = v / 2 ^ 48

module _ (v : Value) (h : IsWord v) where
  pub is_int-tag : is_int v ≡ (tag v == 0x7ffc)
  unfolding is_int
  is_int-tag = ground (arith, masked-signature v h)

  pub is_symbol-tag : is_symbol v ≡ (tag v == 0x7ffd)
  unfolding is_symbol
  is_symbol-tag = ground (arith, masked-signature v h)

  pub is_pstring-tag : is_pstring v ≡ (tag v == 0x7ffe)
  unfolding is_pstring
  is_pstring-tag = ground (arith, masked-signature v h)

  pub is_istring-tag : is_istring v ≡ (tag v == 0x7fff)
  unfolding is_istring
  is_istring-tag = ground (arith, masked-signature v h)

  pub is_ptr-tag : is_ptr v ≡ (tag v == 0xfff8)
  unfolding is_ptr
  is_ptr-tag = ground (arith, masked-signature v h)

  -- A float is the one NaN, or a word whose exponent bits are not all set.
  pub is_float-exponent : is_float v ≡ (is_nan v || not (v / 2 ^ 52 % 2 ^ 11 == 2047))
  unfolding is_float bit_not
  is_float-exponent = ground (arith, masked-exponent (2 ^ 64 - 1 - v))

-- How many of the eight classes that `charly_get_type` tests for hold of a word.
pub count_if : Bool → ℕ
count_if b = if b then 1 else 0

pub classes : Value → ℕ
unfolding count_if
classes v =
    count_if (is_ptr v)
    + count_if (is_float v)
    + count_if (is_int v)
    + count_if (is_null v)
    + count_if (is_pstring v)
    + count_if (is_istring v)
    + count_if (is_boolean v)
    + count_if (is_symbol v)

-- At most one of the eight class tests holds of any 64-bit word.
pub classes-le-one : (v : Value) → IsWord v → classes v ≤ 1
unfolding classes is_null is_boolean is_false is_true is_nan
classes-le-one v h = ground (
  arith,
  is_int-tag v h,
  is_symbol-tag v h,
  is_pstring-tag v h,
  is_istring-tag v h,
  is_ptr-tag v h,
  is_float-exponent v h,
)
