-- ===== src/Value/Number/Laws.antt =====
-- Arithmetic on immediate integers is exact inside the 48-bit range, and every operation returns
-- a number.
use charly_vm.Common.{◌-◌, ◌^◌, ◌≡◌, refl, arith}
use charly_vm.Common.{Bool, true, false, ◌&&◌, if◌then◌else◌, Bool-cases, inl, inr}
use charly_vm.Common.{◌⊎◌}
use charly_vm.Common.Int.{ltb_ℤ, ℤ, pos, negsuc, ◌≤ℤ◌, ◌<ℤ◌, ◌+ℤ◌, ◌-ℤ◌, ◌*ℤ◌, +ℤ_parts, -ℤ_parts}
use charly_vm.Value.Word.{Value, IsWord, max_int, min_int, word_of_int64, int64_of_word, nan_value}
use charly_vm.Value.Types.{is_int, is_float, is_number, is_nan}
use charly_vm.Value.Integer.{Doubles, create_integer, create_double, int_to_int64}
use charly_vm.Value.Integer.{create_number_int64, create_number_double}
use charly_vm.Value.Integer.Laws.{int_to_int64-payload, is_int-create_integer}
use charly_vm.Value.Integer.Laws.{is_float-create_double, create_integer_round_trip}
use charly_vm.Value.Number.{wrap_int64, add_number, sub_number, mul_number}
use charly_vm.Value.Number.{div_number, mod_number, pow_number}

-- A number strictly inside the range of immediate integers.
abbrev pub IsSmall : ℤ → Type 0
IsSmall n = (min_int <ℤ n) × (n <ℤ max_int)

-- What an immediate integer holds lies in the 48-bit range.
pub int_to_int64_bounds : (v : Value) → (min_int ≤ℤ int_to_int64 v) × (int_to_int64 v ≤ℤ max_int)
int_to_int64_bounds v = rw int_to_int64-payload (ground arith)

-- A result of 63 bits does not wrap.
wrap_int64-fits : (n : ℤ) → negsuc (2 ^ 63 - 1) ≤ℤ n → n ≤ℤ pos (2 ^ 63 - 1) → wrap_int64 n ≡ n
unfolding wrap_int64 word_of_int64 int64_of_word
wrap_int64-fits (pos n) l h = ground arith
wrap_int64-fits (negsuc n) l h = ground arith

sum_bounds :
    (l r : Value)
    → (negsuc (2 ^ 63 - 1) ≤ℤ int_to_int64 l +ℤ int_to_int64 r)
      × (int_to_int64 l +ℤ int_to_int64 r ≤ℤ pos (2 ^ 63 - 1))
sum_bounds l r = omega (
  arith,
  int_to_int64_bounds l,
  int_to_int64_bounds r,
  +ℤ_parts (int_to_int64 l) (int_to_int64 r),
)

difference_bounds :
    (l r : Value)
    → (negsuc (2 ^ 63 - 1) ≤ℤ int_to_int64 l -ℤ int_to_int64 r)
      × (int_to_int64 l -ℤ int_to_int64 r ≤ℤ pos (2 ^ 63 - 1))
difference_bounds l r = omega (
  arith,
  int_to_int64_bounds l,
  int_to_int64_bounds r,
  -ℤ_parts (int_to_int64 l) (int_to_int64 r),
)

pub small_round_trip : (n : ℤ) → IsSmall n → int_to_int64 (create_integer n) ≡ n
small_round_trip n s = (create_integer_round_trip n (omega arith) (omega arith)).0

IsSmall-cases : (n : ℤ) → IsSmall n ⊎ (¬ IsSmall n)
IsSmall-cases n = elim (Bool-cases (ltb_ℤ min_int n && ltb_ℤ n max_int)) [
  | inl small ↦ inl (ground arith)
  | inr large ↦ inr (ground arith)
]

module _ (fp : Doubles) where
  -- Inside the range the result is an immediate integer of that value.
  pub create_number_int64-small : (n : ℤ) → IsSmall n → create_number_int64 fp n ≡ create_integer n
  unfolding create_number_int64
  create_number_int64-small n s = ground arith

  -- At the ends of the range and beyond it the result is a double.
  pub create_number_int64-large :
      (n : ℤ) → ¬ IsSmall n → create_number_int64 fp n ≡ create_double (fp.of_integer n)
  unfolding create_number_int64
  create_number_int64-large n s = ground arith

  -- The word stands for the integer result: as an immediate integer strictly inside the 48-bit
  -- range, and as the double that the processor converts it to at the ends and outside.
  abbrev pub Represents : Value → ℤ → Type 0
  Represents v n =
      IsSmall n × (is_int v ≡ true) × (int_to_int64 v ≡ n)
      ⊎ (¬ IsSmall n) × (v ≡ create_double (fp.of_integer n))

  pub create_number_int64-Represents : (n : ℤ) → Represents (create_number_int64 fp n) n
  create_number_int64-Represents n = elim (IsSmall-cases n) [
    | inl s ↦
        inl (rw (create_number_int64-small n s) (s, is_int-create_integer n, small_round_trip n s))
    | inr large ↦ inr (large, create_number_int64-large n large)
  ]

  module _ (l r : Value) (hl : is_int l ≡ true) (hr : is_int r ≡ true) where
    -- The sum of two immediate integers is exact: an immediate integer strictly inside the 48-bit
    -- range, and the double of the sum at the ends of the range and outside.
    pub add_number_exact : Represents (add_number fp l r) (int_to_int64 l +ℤ int_to_int64 r)
    unfolding add_number
    add_number_exact =
        let s = int_to_int64 l +ℤ int_to_int64 r in
        rw (hl, hr)
          (rw (wrap_int64-fits s (sum_bounds l r).0 (sum_bounds l r).1)
            (create_number_int64-Represents s))

    -- The difference of two immediate integers is exact in the same sense.
    pub sub_number_exact : Represents (sub_number fp l r) (int_to_int64 l -ℤ int_to_int64 r)
    unfolding sub_number
    sub_number_exact =
        let s = int_to_int64 l -ℤ int_to_int64 r in
        rw (hl, hr)
          (rw (wrap_int64-fits s (difference_bounds l r).0 (difference_bounds l r).1)
            (create_number_int64-Represents s))

    -- The product of two immediate integers is exact in the same sense, where it fits an `int64_t`.
    pub mul_number_exact :
        negsuc (2 ^ 63 - 1) ≤ℤ int_to_int64 l *ℤ int_to_int64 r
        → int_to_int64 l *ℤ int_to_int64 r ≤ℤ pos (2 ^ 63 - 1)
        → Represents (mul_number fp l r) (int_to_int64 l *ℤ int_to_int64 r)
    unfolding mul_number
    mul_number_exact low high =
        let s = int_to_int64 l *ℤ int_to_int64 r in
        rw (hl, hr) (rw (wrap_int64-fits s low high) (create_number_int64-Represents s))

-- The bit patterns that the processor returns have 64 bits.
pub record AreWords (fp : Doubles) : Type 0 where
  pub of_integer : (n : ℤ) → IsWord (fp.of_integer n)
  pub add : (a b : Value) → IsWord (fp.add a b)
  pub sub : (a b : Value) → IsWord (fp.sub a b)
  pub mul : (a b : Value) → IsWord (fp.mul a b)
  pub div : (a b : Value) → IsWord (fp.div a b)
  pub fmod : (a b : Value) → IsWord (fp.fmod a b)
  pub pow : (a b : Value) → IsWord (fp.pow a b)

is_number-create_integer : (n : ℤ) → is_number (create_integer n) ≡ true
unfolding is_number
is_number-create_integer n = rw is_int-create_integer refl

is_number-create_double : (d : Value) → IsWord d → is_number (create_double d) ≡ true
unfolding is_number
is_number-create_double d h = ground (arith, is_float-create_double d h)

if_both :
    (b : Bool) (v w : Value)
    → is_number v ≡ true
    → is_number w ≡ true
    → is_number (if b then v else w) ≡ true
if_both true v w h k = h
if_both false v w h k = k

nan_is_number : is_number nan_value ≡ true
unfolding is_number is_int is_float is_nan
nan_is_number = refl

module _ (fp : Doubles) (words : AreWords fp) where
  is_number-int64 : (n : ℤ) → is_number (create_number_int64 fp n) ≡ true
  unfolding create_number_int64
  is_number-int64 n = ground (
    arith,
    is_number-create_integer n,
    is_number-create_double (fp.of_integer n) (words.of_integer n),
  )

  is_number-double : (d : Value) → IsWord d → is_number (create_number_double fp d) ≡ true
  unfolding create_number_double
  is_number-double d h =
      ground (arith, is_number-create_integer (fp.to_int64 d), is_number-create_double d h)

  -- Each arithmetic operator returns a number for any two operands, if the operations on doubles
  -- return 64-bit words.
  pub arithmetic-is_number :
      (l r : Value)
      → (is_number (add_number fp l r) ≡ true)
        × (is_number (sub_number fp l r) ≡ true)
        × (is_number (mul_number fp l r) ≡ true)
        × (is_number (div_number fp l r) ≡ true)
        × (is_number (mod_number fp l r) ≡ true)
        × (is_number (pow_number fp l r) ≡ true)
  unfolding add_number sub_number mul_number div_number mod_number pow_number
  arithmetic-is_number l r = (
    if_both _ _ _ (is_number-int64 _) (is_number-double _ (words.add _ _)),
    if_both _ _ _ (is_number-int64 _) (is_number-double _ (words.sub _ _)),
    if_both _ _ _ (is_number-int64 _) (is_number-double _ (words.mul _ _)),
    is_number-double _ (words.div _ _),
    if_both _ _ _ (if_both _ _ _ nan_is_number (is_number-int64 _))
        (is_number-double _ (words.fmod _ _)),
    if_both _ _ _ (is_number-double _ (words.pow _ _)) (is_number-double _ (words.pow _ _)),
  )
