-- ===== src/Common/Bits.antt =====
-- Masks and disjoint fields of machine words, as division, remainder and sum, at every width.
use Prim.Native.Nat.{ℕ, zero, suc, ◌+◌, ◌-◌, ◌*◌, ◌/◌, ◌%◌, ◌^◌, ◌≤◌, ◌<◌, min, max}
use Prim.Native.Nat.{bit_and, bit_or, digits, bitwise, bit_and-bitwise, bit_or-bitwise}
use mathlib.Core.Path.{◌≡◌, refl, ap, ◌∙◌, sym}
use native.Mathlib.Nat.{pow-suc, one-le-pow, div-div-eq-div-mul}
use native.Mathlib.Omega.{arith}

module _ (low : ℕ → ℕ) (op : ℕ → ℕ → ℕ) where
  -- The digits' fuel is irrelevant once it reaches the left number.
  digits_stable : (n m x y : ℕ) → x ≤ n → x ≤ m → digits low op n x y ≡ digits low op m x y
  digits_stable zero zero x y h k = refl
  digits_stable zero (suc m) zero y h k = refl
  digits_stable zero (suc m) (suc x) y h k = absurd (omega arith)
  digits_stable (suc n) zero zero y h k = refl
  digits_stable (suc n) zero (suc x) y h k = absurd (omega arith)
  digits_stable (suc n) (suc m) zero y h k = refl
  digits_stable (suc n) (suc m) (suc x) y h k =
      let half = digits_stable n m (suc x / 2) (y / 2) (omega arith) (omega arith) in
      ap (λ (t : ℕ). t * 2 + op (suc x % 2) (y % 2)) half

  bitwise_digit :
      (x y : ℕ)
      → bitwise low op (suc x) y ≡ bitwise low op (suc x / 2) (y / 2) * 2 + op (suc x % 2) (y % 2)
  bitwise_digit x y =
      let half = digits_stable x (suc x / 2) (suc x / 2) (y / 2) (omega arith) (omega arith) in
      ap (λ (t : ℕ). t * 2 + op (suc x % 2) (y % 2)) half

bit_and_digit : (x y : ℕ) → bit_and x y ≡ bit_and (x / 2) (y / 2) * 2 + min (x % 2) (y % 2)
bit_and_digit zero y = simp bit_and-bitwise (omega arith)
bit_and_digit (suc x) y = simp bit_and-bitwise (bitwise_digit (λ t. 0) min x y)

bit_or_digit : (x y : ℕ) → bit_or x y ≡ bit_or (x / 2) (y / 2) * 2 + max (x % 2) (y % 2)
bit_or_digit zero y = simp bit_or-bitwise (omega arith)
bit_or_digit (suc x) y = simp bit_or-bitwise (bitwise_digit (λ t. t) max x y)

zero-bit_or : (y : ℕ) → bit_or 0 y ≡ y
zero-bit_or y = bit_or-bitwise 0 y

-- Below `2 ^ k`, so that the induction halves the number.
bit_and-zero_below : (k x : ℕ) → x ≤ k → bit_and x 0 ≡ 0
bit_and-zero_below k zero h = refl
bit_and-zero_below zero (suc x) h = absurd (omega arith)
bit_and-zero_below (suc k) (suc x) h =
    omega (arith, bit_and_digit (suc x) 0, bit_and-zero_below k (suc x / 2) (omega arith))

bit_or-zero_below : (k x : ℕ) → x ≤ k → bit_or x 0 ≡ x
bit_or-zero_below k zero h = refl
bit_or-zero_below zero (suc x) h = absurd (omega arith)
bit_or-zero_below (suc k) (suc x) h =
    omega (arith, bit_or_digit (suc x) 0, bit_or-zero_below k (suc x / 2) (omega arith))

pub bit_and-zero : (x : ℕ) → bit_and x 0 ≡ 0
bit_and-zero x = bit_and-zero_below x x (omega arith)

pub bit_or-zero : (x : ℕ) → bit_or x 0 ≡ x
bit_or-zero x = bit_or-zero_below x x (omega arith)

double_pow : (q k : ℕ) → q * 2 ^ suc k ≡ 2 * (q * 2 ^ k)
double_pow q k = omega (arith, ap (λ (t : ℕ). q * t) (pow-suc 2 k))

mul_one : (x : ℕ) → x * 1 ≡ x
mul_one x = omega arith

div_one : (x : ℕ) → x / 1 ≡ x
div_one x = omega arith

div-pow_suc : (k x : ℕ) → x / 2 ^ suc k ≡ x / 2 / 2 ^ k
div-pow_suc k x =
    ap (λ (t : ℕ). x / t) (omega (arith, pow-suc 2 k)) ∙ sym (div-div-eq-div-mul x 2 (2 ^ k))

mod-pow_suc : (k x : ℕ) → x % 2 ^ suc k ≡ x / 2 % 2 ^ k * 2 + x % 2
mod-pow_suc k x =
    ground (arith, pow-suc 2 k, one-le-pow k 2, div-pow_suc k x, double_pow (x / 2 ^ suc k) k)

-- A mask whose low `k` bits are clear sees only the bits above them.
pub bit_and_high : (k x m : ℕ) → bit_and x (m * 2 ^ k) ≡ bit_and (x / 2 ^ k) m * 2 ^ k
bit_and_high zero x m = simp (mul_one, div_one)
bit_and_high (suc k) x m = ground (
  arith,
  bit_and_digit x (m * 2 ^ suc k),
  double_pow m k,
  double_pow (bit_and (x / 2 ^ suc k) m) k,
  bit_and_high k (x / 2) m,
  div-pow_suc k x,
)

-- A mask of the `k` low bits is the remainder by `2 ^ k`.
pub bit_and_low : (k x : ℕ) → bit_and x (2 ^ k - 1) ≡ x % 2 ^ k
bit_and_low zero x = ground (arith, bit_and-zero x)
bit_and_low (suc k) x = ground (
  arith,
  bit_and_digit x (2 ^ suc k - 1),
  pow-suc 2 k,
  one-le-pow k 2,
  bit_and_low k (x / 2),
  mod-pow_suc k x,
)

-- `|` of a word and of bits below its lowest is the sum.
pub bit_or_sum : (k q r : ℕ) → r < 2 ^ k → bit_or (q * 2 ^ k) r ≡ q * 2 ^ k + r
bit_or_sum zero q r h = ground (arith, bit_or-zero q)
bit_or_sum (suc k) q r h = ground (
  arith,
  bit_or_digit (q * 2 ^ suc k) r,
  double_pow q k,
  pow-suc 2 k,
  bit_or_sum k q (r / 2) (omega (arith, pow-suc 2 k)),
)

pub bit_or_sum' : (k q r : ℕ) → r < 2 ^ k → bit_or r (q * 2 ^ k) ≡ q * 2 ^ k + r
bit_or_sum' zero zero zero h = refl
bit_or_sum' zero (suc q) zero h = simp zero-bit_or (omega arith)
bit_or_sum' zero q (suc r) h = absurd (omega arith)
bit_or_sum' (suc k) q r h = ground (
  arith,
  bit_or_digit r (q * 2 ^ suc k),
  double_pow q k,
  pow-suc 2 k,
  bit_or_sum' k q (r / 2) (omega (arith, pow-suc 2 k)),
)
