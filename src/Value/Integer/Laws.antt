-- ===== src/Value/Integer/Laws.antt =====
-- Immediate integers keep 48 bits in two's complement; what is not one of them is a float.
use charly_vm.Common.{ℕ, ◌+◌, ◌-◌, ◌*◌, ◌%◌, ◌^◌, ◌≤◌, ◌<◌, ◌≡◌, arith, ap, ◌∙◌}
use charly_vm.Common.{true, if◌then◌else◌, ltb}
use charly_vm.Common.{bit_or}
use charly_vm.Common.Int.{ℤ, pos, negsuc, ◌≤ℤ◌}
use charly_vm.Common.Bits.{bit_or_sum, bit_or_sum', bit_or-zero}
use charly_vm.Value.Word.{Value, IsWord, masked-payload, masked-integer_sign, masked-exponent}
use charly_vm.Value.Word.{max_int, min_int, word_of_int64, int64_of_word, signature_integer}
use charly_vm.Value.Word.{bits_nan}
use charly_vm.Value.Types.{is_int, is_float, is_nan}
use charly_vm.Value.Types.Tags.{is_int-tag, is_float-exponent}
use charly_vm.Value.Integer.{create_integer, int_to_int64, create_double, Doubles}
use charly_vm.Value.Integer.{create_number_uint64}

-- The integer that 48 bits stand for in two's complement.
abbrev pub signed_48 : ℕ → ℤ
signed_48 p = if ltb p (2 ^ 47) then pos p else negsuc (2 ^ 48 - 1 - p)

pub create_integer-sum : (n : ℤ) → create_integer n ≡ 0x7ffc * 2 ^ 48 + word_of_int64 n % 2 ^ 48
unfolding create_integer
create_integer-sum n =
    ap (bit_or signature_integer) (masked-payload (word_of_int64 n))
    ∙ bit_or_sum 48 0x7ffc (word_of_int64 n % 2 ^ 48) (omega arith)

pub create_integer-IsWord : (n : ℤ) → IsWord (create_integer n)
create_integer-IsWord n = omega (arith, create_integer-sum n)

pub is_int-create_integer : (n : ℤ) → is_int (create_integer n) ≡ true
is_int-create_integer n =
    ground (arith, create_integer-sum n, is_int-tag (create_integer n) (create_integer-IsWord n))

-- The payload decides what an integer is read as.
pub int_to_int64-payload : (v : Value) → int_to_int64 v ≡ signed_48 (v % 2 ^ 48)
unfolding int_to_int64 int64_of_word
int_to_int64-payload v = ground (
  arith,
  masked-payload v,
  masked-integer_sign v,
  bit_or_sum' 48 0xffff (v % 2 ^ 48) (omega arith),
  bit_or-zero (v % 2 ^ 48),
)

-- What is read back is the integer's low 48 bits, sign-extended.
pub int_to_int64-create_integer :
    (n : ℤ) → int_to_int64 (create_integer n) ≡ signed_48 (word_of_int64 n % 2 ^ 48)
int_to_int64-create_integer n =
    int_to_int64-payload (create_integer n) ∙ ap signed_48 (omega (arith, create_integer-sum n))

-- Every integer of 48 bits is read back as it was, and its word is tagged as an integer.
pub create_integer_round_trip :
    (n : ℤ)
    → min_int ≤ℤ n
    → n ≤ℤ max_int
    → (int_to_int64 (create_integer n) ≡ n) × (is_int (create_integer n) ≡ true)
unfolding word_of_int64
create_integer_round_trip n low high =
    (int_to_int64-create_integer n ∙ fits n low high, is_int-create_integer n)
  where
    fits : (m : ℤ) → min_int ≤ℤ m → m ≤ℤ max_int → signed_48 (word_of_int64 m % 2 ^ 48) ≡ m
    fits (pos m) l h = ground arith
    fits (negsuc m) l h = ground arith

-- A double of any 64 bits is a float after boxing.
pub is_float-create_double : (bits : Value) → IsWord bits → is_float (create_double bits) ≡ true
unfolding create_double is_nan
is_float-create_double bits h = ground (
  arith,
  masked-exponent bits,
  is_float-exponent bits h,
  is_float-exponent bits_nan (omega arith),
)

-- `charly_create_number(uint64_t)` boxes an integer of 2^47 or more, below 2^48 - 1, as an
-- immediate integer that is read back as a negative number.
pub create_number_uint64_wraps :
    (fp : Doubles) (n : ℕ)
    → 2 ^ 47 ≤ n
    → n < 2 ^ 48 - 1
    → int_to_int64 (create_number_uint64 fp n) ≡ negsuc (2 ^ 48 - 1 - n)
unfolding create_number_uint64 word_of_int64
create_number_uint64_wraps fp n low high = ground (arith, int_to_int64-create_integer (pos n))
