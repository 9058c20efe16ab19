-- ===== src/Value/Tests.antt =====
-- The theorems of include/value.h at concrete words, with arithmetic on doubles that answers one.
use charly_vm.Common.{◌-◌, ◌^◌, ◌≡◌, ◌≢◌, true, false, refl, arith}
use charly_vm.Common.Int.{pos, negsuc, ◌+ℤ◌, ◌*ℤ◌, ◌<ℤ◌, ◌≤ℤ◌}
use charly_vm.Value.Word.{Value, IsWord}
use charly_vm.Value.Types.{is_int}
use charly_vm.Value.Integer.{Doubles, create_integer, int_to_int64}
use charly_vm.Value.Integer.Laws.{create_integer_round_trip}
use charly_vm.Value.Integer.Laws.{is_int-create_integer}
use charly_vm.Value.Number.{add_number}
use charly_vm.Value.Number.{lt_number, gt_number, le_number, ge_number, eq_number, neq_number}
use charly_vm.Value.Number.Laws.{Represents, AreWords, add_number_exact}
use charly_vm.Value.Number.Compare.{Decides, comparison-Decides}

-- The bits of the double 1.0.
abbrev one_bits : Value
one_bits = 0x3ff0000000000000

abbrev ones : Doubles
ones = record {
  of_integer = λ n. one_bits;
  to_int64 = λ v. pos 1;
  is_integral = λ v. true;
  is_inf = λ v. false;
  add = λ a b. one_bits;
  sub = λ a b. one_bits;
  mul = λ a b. one_bits;
  div = λ a b. one_bits;
  fmod = λ a b. one_bits;
  pow = λ a b. one_bits;
  neg = λ a. one_bits;
  less = λ a b. false;
  less_eq = λ a b. true;
  equal = λ a b. true;
}

one_bits-IsWord : IsWord one_bits
one_bits-IsWord = omega arith

ones-AreWords : AreWords ones
ones-AreWords = record {
  of_integer = λ n. one_bits-IsWord;
  add = λ a b. one_bits-IsWord;
  sub = λ a b. one_bits-IsWord;
  mul = λ a b. one_bits-IsWord;
  div = λ a b. one_bits-IsWord;
  fmod = λ a b. one_bits-IsWord;
  pow = λ a b. one_bits-IsWord;
}

abbrev three : Value
three = create_integer (pos 3)

abbrev minus_four : Value
minus_four = create_integer (negsuc 3)

abbrev int_256 : Value
int_256 = 0x7ffc000000000100

is_int-int_256 : is_int int_256 ≡ true
unfolding is_int
is_int-int_256 = refl

add_number_exact_example :
    Represents ones
      (add_number ones three minus_four)
      (int_to_int64 three +ℤ int_to_int64 minus_four)
add_number_exact_example =
    add_number_exact ones three minus_four (is_int-create_integer (pos 3))
      (is_int-create_integer (negsuc 3))

three-read : int_to_int64 three ≡ pos 3
three-read = (create_integer_round_trip (pos 3) (omega arith) (omega arith)).0

minus_four-read : int_to_int64 minus_four ≡ negsuc 3
minus_four-read = (create_integer_round_trip (negsuc 3) (omega arith) (omega arith)).0

above_least : negsuc (2 ^ 63 - 1) ≤ℤ int_to_int64 three *ℤ int_to_int64 minus_four
unfolding ◌*ℤ◌
above_least = rw (three-read, minus_four-read) (omega arith)

below_greatest : int_to_int64 three *ℤ int_to_int64 minus_four ≤ℤ pos (2 ^ 63 - 1)
unfolding ◌*ℤ◌
below_greatest = rw (three-read, minus_four-read) (omega arith)

comparison-Decides_example :
    Decides (lt_number ones minus_four three) (int_to_int64 minus_four <ℤ int_to_int64 three)
    × Decides (gt_number ones minus_four three) (int_to_int64 three <ℤ int_to_int64 minus_four)
    × Decides (le_number ones minus_four three) (int_to_int64 minus_four ≤ℤ int_to_int64 three)
    × Decides (ge_number ones minus_four three) (int_to_int64 three ≤ℤ int_to_int64 minus_four)
    × Decides (eq_number ones minus_four three) (int_to_int64 minus_four ≡ int_to_int64 three)
    × Decides (neq_number ones minus_four three) (int_to_int64 minus_four ≢ int_to_int64 three)
comparison-Decides_example =
    comparison-Decides ones minus_four three (is_int-create_integer (negsuc 3))
      (is_int-create_integer (pos 3))

create_integer_round_trip_example :
    (int_to_int64 minus_four ≡ negsuc 3) × (is_int minus_four ≡ true)
create_integer_round_trip_example = create_integer_round_trip (negsuc 3) (omega arith) (omega arith)
