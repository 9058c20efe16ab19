-- ===== src/Value/Word.antt =====
-- include/value.h: the 64-bit `VALUE`, its masks, tags and signatures, and the two's complement
-- reading of a machine word. A constant `kMaskSignBit` is `mask_sign_bit` here.
use charly_vm.Common.{ℕ, ◌-◌, ◌*◌, ◌/◌, ◌%◌, ◌^◌, ◌<◌, bit_and, bit_or, ◌≡◌, arith}
use charly_vm.Common.{ltb, if◌then◌else◌}
use charly_vm.Common.Int.{ℤ, pos, negsuc}
use charly_vm.Common.Bits.{bit_and_high, bit_and_low}

abbrev pub Value : Type 0
Value = ℕ

-- Masks for the VALUE type
abbrev pub mask_sign_bit : Value
mask_sign_bit = 0x8000_0000_0000_0000

abbrev pub mask_exponent_bits : Value
mask_exponent_bits = 0x7ff0_0000_0000_0000

abbrev pub mask_quiet_bit : Value
mask_quiet_bit = 0x0008_0000_0000_0000

abbrev pub mask_signature : Value
mask_signature = 0xffff_0000_0000_0000

-- Types that are encoded in the type field
abbrev pub itype_false : Value
itype_false = 0x0001_0000_0000_0000

abbrev pub itype_true : Value
itype_true = 0x0002_0000_0000_0000

abbrev pub itype_null : Value
itype_null = 0x0003_0000_0000_0000

abbrev pub itype_integer : Value
itype_integer = 0x0004_0000_0000_0000

abbrev pub itype_symbol : Value
itype_symbol = 0x0005_0000_0000_0000

abbrev pub itype_pstring : Value
itype_pstring = 0x0006_0000_0000_0000

abbrev pub itype_istring : Value
itype_istring = 0x0007_0000_0000_0000

-- Shorthand values
abbrev pub bits_nan : Value
bits_nan = bit_or mask_exponent_bits mask_quiet_bit

abbrev pub nan_value : Value
nan_value = bits_nan

abbrev pub false_value : Value
false_value = bit_or bits_nan itype_false

abbrev pub true_value : Value
true_value = bit_or bits_nan itype_true

abbrev pub null_value : Value
null_value = bit_or bits_nan itype_null

-- Signatures of complex encoded types
abbrev pub signature_pointer : Value
signature_pointer = bit_or mask_sign_bit bits_nan

abbrev pub signature_integer : Value
signature_integer = bit_or bits_nan itype_integer

abbrev pub signature_symbol : Value
signature_symbol = bit_or bits_nan itype_symbol

abbrev pub signature_pstring : Value
signature_pstring = bit_or bits_nan itype_pstring

abbrev pub signature_istring : Value
signature_istring = bit_or bits_nan itype_istring

-- Masks for the immediate encoded types, and the conversion constants
abbrev pub mask_pointer : Value
mask_pointer = 0x0000_ffff_ffff_ffff

abbrev pub mask_integer : Value
mask_integer = 0x0000_ffff_ffff_ffff

abbrev pub mask_integer_sign : Value
mask_integer_sign = 0x0000_8000_0000_0000

abbrev pub mask_symbol : Value
mask_symbol = 0x0000_ffff_ffff_ffff

abbrev pub max_uint : Value
max_uint = 2 ^ 48 - 1

abbrev pub max_pointer : Value
max_pointer = 0x0000_ffff_ffff_ffff

abbrev pub sign_block : Value
sign_block = 0xffff_0000_0000_0000

abbrev pub max_istring_length : Value
max_istring_length = 5

abbrev pub max_pstring_length : Value
max_pstring_length = 6

abbrev pub max_string_length : Value
max_string_length = 0xffff_ffff

abbrev pub max_int : ℤ
max_int = pos (2 ^ 47 - 1)

abbrev pub min_int : ℤ
min_int = negsuc (2 ^ 47 - 1)

-- A value fits the machine word.
abbrev pub IsWord : Value → Type 0
IsWord v = v < 2 ^ 64

-- The bits of an `int64_t`; a wider integer wraps around.
unfoldable pub word_of_int64 : ℤ → Value
word_of_int64 (pos n) = n % 2 ^ 64
word_of_int64 (negsuc n) = 2 ^ 64 - 1 - n % 2 ^ 64

-- The `int64_t` that has the bits.
unfoldable pub int64_of_word : Value → ℤ
int64_of_word w = if ltb w (2 ^ 63) then pos w else negsuc (2 ^ 64 - 1 - w)

-- `~value`
unfoldable pub bit_not : Value → Value
bit_not v = 2 ^ 64 - 1 - v

-- What the masks of the source select, as arithmetic.
pub masked-signature : (v : Value) → IsWord v → bit_and v mask_signature ≡ v / 2 ^ 48 * 2 ^ 48
masked-signature v h = omega (arith, bit_and_high 48 v 0xffff, bit_and_low 16 (v / 2 ^ 48))

pub masked-payload : (v : Value) → bit_and v mask_integer ≡ v % 2 ^ 48
masked-payload v = bit_and_low 48 v

pub masked-integer_sign : (v : Value) → bit_and v mask_integer_sign ≡ v / 2 ^ 47 % 2 * 2 ^ 47
masked-integer_sign v = omega (arith, bit_and_high 47 v 1, bit_and_low 1 (v / 2 ^ 47))

pub masked-exponent : (v : Value) → bit_and v mask_exponent_bits ≡ v / 2 ^ 52 % 2 ^ 11 * 2 ^ 52
masked-exponent v = omega (arith, bit_and_high 52 v 0x7ff, bit_and_low 11 (v / 2 ^ 52))
