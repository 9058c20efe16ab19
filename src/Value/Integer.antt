-- ===== src/Value/Integer.antt =====
-- include/value.h: immediate integers and doubles, and `charly_create_number`.
-- A double is its bit pattern; what the processor computes on doubles is the record `Doubles`.
pub mod Laws
use charly_vm.Common.{ℕ, ◌-◌, ◌^◌, ◌%◌, bit_and, bit_or, Bool, not, ◌&&◌, ◌||◌, ◌==◌, leb}
use charly_vm.Common.{if◌then◌else◌}
use charly_vm.Common.Int.{ℤ, pos, negsuc, leb_ℤ}
use charly_vm.Value.Word.{Value, mask_integer, mask_integer_sign, signature_integer, sign_block}
use charly_vm.Value.Word.{mask_exponent_bits, bits_nan, max_int, min_int, max_uint}
use charly_vm.Value.Word.{word_of_int64, int64_of_word}

-- The operations of the processor and of <cmath> on doubles, given as bit patterns.
pub record Doubles : Type 0 where
  pub of_integer : ℤ → Value
  pub to_int64 : Value → ℤ
  -- `modf(value, &intpart) == 0.0`
  pub is_integral : Value → Bool
  pub is_inf : Value → Bool
  pub add : Value → Value → Value
  pub sub : Value → Value → Value
  pub mul : Value → Value → Value
  pub div : Value → Value → Value
  pub fmod : Value → Value → Value
  pub pow : Value → Value → Value
  pub neg : Value → Value
  pub less : Value → Value → Bool
  pub less_eq : Value → Value → Bool
  pub equal : Value → Value → Bool

-- `charly_create_integer`
unfoldable pub create_integer : ℤ → Value
create_integer n = bit_or signature_integer (bit_and (word_of_int64 n) mask_integer)

-- `charly_int_to_int64`: bit 47 is the sign, and is extended over the upper 16 bits.
unfoldable pub int_to_int64 : Value → ℤ
int_to_int64 v =
    int64_of_word
      (bit_or (bit_and v mask_integer) (if bit_and v mask_integer_sign == 0 then 0 else sign_block))

-- `charly_int_to_int8`: the conversion to `int8_t` keeps the low eight bits.
unfoldable pub int_to_int8 : Value → ℤ
int_to_int8 v =
    let low = word_of_int64 (int_to_int64 v) % 2 ^ 8 in
    if leb low 127 then pos low else negsuc (255 - low)

-- `charly_create_double`, by the bits of the double
unfoldable pub create_double : Value → Value
create_double bits =
    if bit_and bits mask_exponent_bits == mask_exponent_bits then bits_nan else bits

module _ (fp : Doubles) where
  -- `charly_create_number(int64_t)`
  unfoldable pub create_number_int64 : ℤ → Value
  create_number_int64 n =
      if leb_ℤ max_int n || leb_ℤ n min_int
      then create_double (fp.of_integer n)
      else create_integer n

  -- `charly_create_number(uint64_t)`
  unfoldable pub create_number_uint64 : ℕ → Value
  create_number_uint64 n =
      if leb max_uint n then create_double (fp.of_integer (pos n)) else create_integer (pos n)

  -- `charly_create_number(double)`
  unfoldable pub create_number_double : Value → Value
  create_number_double d =
      if fp.is_integral d
        && fp.less_eq d (fp.of_integer max_int)
        && fp.less_eq (fp.of_integer min_int) d
      then create_integer (fp.to_int64 d)
      else create_double d
