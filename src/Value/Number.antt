-- ===== src/Value/Number.antt =====
-- include/value.h: arithmetic, comparison and truth on boxed numbers; include/common.h: the
-- comparison of doubles. `int64_t` results wrap around where the source would overflow.
pub mod Laws
pub mod Compare
use charly_vm.Common.{
  ℕ, zero, suc, ◌+◌, ◌%◌, Bool, true, false, not, ◌&&◌, ◌||◌, ◌==◌, if◌then◌else◌,
}
use charly_vm.Common.Int.{ℤ, pos, negsuc, ◌+ℤ◌, ◌-ℤ◌, ◌*ℤ◌, ltb_ℤ, leb_ℤ, pos_part, neg_part, sub_ℕ}
use charly_vm.Value.Word.{Value, nan_value, true_value, false_value, null_value}
use charly_vm.Value.Word.{word_of_int64, int64_of_word}
use charly_vm.Value.Types.{is_int, is_float, is_nan}
use charly_vm.Value.Integer.{Doubles, int_to_int64, int_to_int8, create_number_int64}
use charly_vm.Value.Integer.{create_number_double, create_double}

-- An `int64_t` result of the machine.
unfoldable pub wrap_int64 : ℤ → ℤ
wrap_int64 n = int64_of_word (word_of_int64 n)

-- `a % b` of C++, with the sign of `a`; the source tests for `b == 0` before.
unfoldable pub rem_ℤ : ℤ → ℤ → ℤ
rem_ℤ (pos a) b = pos (a % (pos_part b + neg_part b))
rem_ℤ (negsuc a) b = pos 0 -ℤ pos (suc a % (pos_part b + neg_part b))

abbrev pub eqb_ℤ : ℤ → ℤ → Bool
eqb_ℤ a b = pos_part a + neg_part b == pos_part b + neg_part a

abbrev pub is_zero : ℤ → Bool
is_zero a = eqb_ℤ a (pos 0)

abbrev pub boolean_value : Bool → Value
boolean_value b = if b then true_value else false_value

module _ (fp : Doubles) where
  -- `charly_number_to_double`, as bits
  unfoldable pub number_to_double : Value → Value
  number_to_double v = if is_float v then v else fp.of_integer (int_to_int64 v)

  -- FP_ARE_EQUAL
  unfoldable pub fp_are_equal : Value → Value → Bool
  fp_are_equal a b =
      if is_nan a && is_nan b then true else if is_nan a || is_nan b then false else fp.equal a b

  unfoldable pub add_number : Value → Value → Value
  add_number l r =
      if is_int l && is_int r
      then create_number_int64 fp (wrap_int64 (int_to_int64 l +ℤ int_to_int64 r))
      else create_number_double fp (fp.add (number_to_double l) (number_to_double r))

  unfoldable pub sub_number : Value → Value → Value
  sub_number l r =
      if is_int l && is_int r
      then create_number_int64 fp (wrap_int64 (int_to_int64 l -ℤ int_to_int64 r))
      else create_number_double fp (fp.sub (number_to_double l) (number_to_double r))

  unfoldable pub mul_number : Value → Value → Value
  mul_number l r =
      if is_int l && is_int r
      then create_number_int64 fp (wrap_int64 (int_to_int64 l *ℤ int_to_int64 r))
      else create_number_double fp (fp.mul (number_to_double l) (number_to_double r))

  unfoldable pub div_number : Value → Value → Value
  div_number l r = create_number_double fp (fp.div (number_to_double l) (number_to_double r))

  unfoldable pub mod_number : Value → Value → Value
  mod_number l r =
      if is_int l && is_int r
      then if is_zero (int_to_int64 r)
        then nan_value
        else create_number_int64 fp (rem_ℤ (int_to_int64 l) (int_to_int64 r))
      else create_number_double fp (fp.fmod (number_to_double l) (number_to_double r))

  -- Both branches of the source compute `std::pow` on doubles.
  unfoldable pub pow_number : Value → Value → Value
  pow_number l r =
      if is_int l && is_int r
      then create_number_double fp
          (fp.pow (fp.of_integer (int_to_int64 l)) (fp.of_integer (int_to_int64 r)))
      else create_number_double fp (fp.pow (number_to_double l) (number_to_double r))

  unfoldable pub lt_number : Value → Value → Value
  lt_number l r =
      if is_int l && is_int r
      then boolean_value (ltb_ℤ (int_to_int64 l) (int_to_int64 r))
      else boolean_value (fp.less (number_to_double l) (number_to_double r))

  unfoldable pub gt_number : Value → Value → Value
  gt_number l r =
      if is_int l && is_int r
      then boolean_value (ltb_ℤ (int_to_int64 r) (int_to_int64 l))
      else boolean_value (fp.less (number_to_double r) (number_to_double l))

  unfoldable pub le_number : Value → Value → Value
  le_number l r =
      if is_int l && is_int r
      then boolean_value (leb_ℤ (int_to_int64 l) (int_to_int64 r))
      else boolean_value (fp.less_eq (number_to_double l) (number_to_double r))

  unfoldable pub ge_number : Value → Value → Value
  ge_number l r =
      if is_int l && is_int r
      then boolean_value (leb_ℤ (int_to_int64 r) (int_to_int64 l))
      else boolean_value (fp.less_eq (number_to_double r) (number_to_double l))

  unfoldable pub eq_number : Value → Value → Value
  eq_number l r =
      if is_int l && is_int r
      then boolean_value (eqb_ℤ (int_to_int64 l) (int_to_int64 r))
      else boolean_value (fp_are_equal (number_to_double l) (number_to_double r))

  unfoldable pub neq_number : Value → Value → Value
  neq_number l r =
      if is_int l && is_int r
      then boolean_value (not (eqb_ℤ (int_to_int64 l) (int_to_int64 r)))
      else boolean_value (not (fp_are_equal (number_to_double l) (number_to_double r)))

  unfoldable pub usub_number : Value → Value
  usub_number v =
      if is_int v
      then create_number_int64 fp (pos 0 -ℤ int_to_int64 v)
      else create_double (fp.neg v)

  -- charly_unot_number, which nothing calls: an integer is first narrowed to `int8_t`.
  unfoldable pub unot_number : Value → Value
  unot_number v =
      if is_int v then boolean_value (is_zero (int_to_int8 v)) else boolean_value (fp.equal v 0)

  unfoldable pub truthyness : Value → Bool
  truthyness v =
      if v == nan_value || v == null_value || v == false_value
      then false
      else if is_int v
      then not (is_zero (int_to_int64 v))
      else if is_float v
      then not (fp.equal v 0)
      else true
