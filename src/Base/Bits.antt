-- ===== src/Base/Bits.antt =====
-- Bit masks at variable words, from the digit recursion that the native operations stand for:
-- a word is written `q * 2 ^ k + r`, its high and its low part.
use Prim.Native.Nat.{
  ℕ, zero, suc, ◌+◌, ◌-◌, ◌*◌, ◌/◌, ◌%◌, ◌^◌, ◌≤◌, ◌<◌, min, max, bit_and, bit_or, digits,
  bit_and-bitwise, bit_or-bitwise,
}
use mathlib.Core.Path.{◌≡◌, refl, ap, ◌∙◌}
use native.Mathlib.Nat.{pow-suc, mod-lt}
use native.Mathlib.Omega.{arith}

-- The count of digits to go is fuel: any that covers the first number gives the same result.
digits_fuel :
    (z : ℕ → ℕ) (f : ℕ → ℕ → ℕ) (n m a b : ℕ) → a ≤ n → a ≤ m → digits z f n a b ≡ digits z f m a b
digits_fuel z f zero zero a b p q = refl
digits_fuel z f zero (suc m) zero b p q = refl
digits_fuel z f zero (suc m) (suc a) b p q = absurd (omega arith)
digits_fuel z f (suc n) zero zero b p q = refl
digits_fuel z f (suc n) zero (suc a) b p q = absurd (omega arith)
digits_fuel z f (suc n) (suc m) zero b p q = refl
digits_fuel z f (suc n) (suc m) (suc a) b p q =
    ap (λ t. t * 2 + f (suc a % 2) (b % 2))
      (digits_fuel z f n m (suc a / 2) (b / 2) (omega arith) (omega arith))

-- The lowest digit of the result, for an operation that treats a first number of 0 alike.
digits_step :
    (z : ℕ → ℕ) (f : ℕ → ℕ → ℕ) (a b : ℕ)
    → z b ≡ z (b / 2) * 2 + f 0 (b % 2)
    → digits z f a a b ≡ digits z f (a / 2) (a / 2) (b / 2) * 2 + f (a % 2) (b % 2)
digits_step z f zero b ends = ends
digits_step z f (suc a) b ends =
    let half = suc a / 2 in
    ap (λ t. t * 2 + f (suc a % 2) (b % 2))
      (digits_fuel z f a half half (b / 2) (omega arith) (omega arith))

pub bit_and_step : (a b : ℕ) → bit_and a b ≡ bit_and (a / 2) (b / 2) * 2 + min (a % 2) (b % 2)
bit_and_step a b =
    let step = digits_step (λ _. 0) min a b (omega arith) in
    omega (arith, step, bit_and-bitwise a b, bit_and-bitwise (a / 2) (b / 2))

pub bit_or_step : (a b : ℕ) → bit_or a b ≡ bit_or (a / 2) (b / 2) * 2 + max (a % 2) (b % 2)
bit_or_step a b =
    let step = digits_step (λ c. c) max a b (omega arith) in
    omega (arith, step, bit_or-bitwise a b, bit_or-bitwise (a / 2) (b / 2))

and_zero_below : (n a : ℕ) → a ≤ n → bit_and a 0 ≡ 0
and_zero_below n zero h = refl
and_zero_below zero (suc a) h = absurd (omega arith)
and_zero_below (suc n) (suc a) h =
    omega (arith, bit_and_step (suc a) 0, and_zero_below n (suc a / 2) (omega arith))

pub bit_and-zero : (a : ℕ) → bit_and a 0 ≡ 0
bit_and-zero a = and_zero_below a a (omega arith)

or_zero_below : (n a : ℕ) → a ≤ n → bit_or a 0 ≡ a
or_zero_below n zero h = refl
or_zero_below zero (suc a) h = absurd (omega arith)
or_zero_below (suc n) (suc a) h =
    omega (arith, bit_or_step (suc a) 0, or_zero_below n (suc a / 2) (omega arith))

pub bit_or-zero : (a : ℕ) → bit_or a 0 ≡ a
bit_or-zero a = or_zero_below a a (omega arith)

pub pow2_pos : (k : ℕ) → 0 < 2 ^ k
pow2_pos zero = omega arith
pow2_pos (suc k) = omega (arith, pow-suc 2 k, pow2_pos k)

-- One digit of each law, with the power as a number of its own.
low_step :
    (p q r : ℕ)
    → 0 < p
    → r < p * 2
    → bit_and (q * p + r / 2) (p - 1) ≡ r / 2
    → bit_and (q * (p * 2) + r) (p * 2 - 1) ≡ r
low_step p q r pos h ih =
    let halves : (q * (p * 2) + r) / 2 ≡ q * p + r / 2 = omega arith in
    let mask : (p * 2 - 1) / 2 ≡ p - 1 = omega arith in
    rw (bit_and_step (q * (p * 2) + r) (p * 2 - 1), halves, mask, ih) (omega arith)

high_step :
    (p q r m : ℕ)
    → bit_and (q * p + r / 2) (m * p) ≡ bit_and q m * p
    → bit_and (q * (p * 2) + r) (m * (p * 2)) ≡ bit_and q m * (p * 2)
high_step p q r m ih =
    let halves : (q * (p * 2) + r) / 2 ≡ q * p + r / 2 = omega arith in
    let mask : m * (p * 2) / 2 ≡ m * p = omega arith in
    rw (bit_and_step (q * (p * 2) + r) (m * (p * 2)), halves, mask, ih) (omega arith)

disjoint_step :
    (p q r : ℕ) → bit_or (q * p) (r / 2) ≡ q * p + r / 2 → bit_or (q * (p * 2)) r ≡ q * (p * 2) + r
disjoint_step p q r ih =
    let halves : q * (p * 2) / 2 ≡ q * p = omega arith in
    rw (bit_or_step (q * (p * 2)) r, halves, ih) (omega arith)

-- A mask of `k` ones keeps the low part.
pub bit_and-low : (k q r : ℕ) → r < 2 ^ k → bit_and (q * 2 ^ k + r) (2 ^ k - 1) ≡ r
bit_and-low zero q r h = omega (arith, bit_and-zero (q * 1 + r))
bit_and-low (suc k) q r h =
    let small : r < 2 ^ k * 2 = omega (arith, pow-suc 2 k) in
    rw (pow-suc 2 k)
      (low_step (2 ^ k) q r (pow2_pos k) small (bit_and-low k q (r / 2) (omega arith)))

-- A mask whose `k` low bits are clear sees only the high part.
pub bit_and-high :
    (k q r m : ℕ) → r < 2 ^ k → bit_and (q * 2 ^ k + r) (m * 2 ^ k) ≡ bit_and q m * 2 ^ k
bit_and-high zero q r m h =
    let left : q * 1 + r ≡ q = omega arith in
    let right : m * 1 ≡ m = omega arith in rw (left, right) (omega arith)
bit_and-high (suc k) q r m h =
    let small : r < 2 ^ k * 2 = omega (arith, pow-suc 2 k) in
    rw (pow-suc 2 k) (high_step (2 ^ k) q r m (bit_and-high k q (r / 2) m (omega arith)))

-- Two words with no common place add up.
pub bit_or-disjoint : (k q r : ℕ) → r < 2 ^ k → bit_or (q * 2 ^ k) r ≡ q * 2 ^ k + r
bit_or-disjoint zero q r h =
    let none_left : r ≡ 0 = omega arith in
    let one : q * 1 ≡ q = omega arith in rw (none_left, one, bit_or-zero) (omega arith)
bit_or-disjoint (suc k) q r h =
    let small : r < 2 ^ k * 2 = omega (arith, pow-suc 2 k) in
    rw (pow-suc 2 k) (disjoint_step (2 ^ k) q r (bit_or-disjoint k q (r / 2) (omega arith)))

-- The two forms of `& 2 ^ k - 1` at any word.
pub bit_and-mod : (k a : ℕ) → bit_and a (2 ^ k - 1) ≡ a % 2 ^ k
bit_and-mod k a =
    let parts : a ≡ a / 2 ^ k * 2 ^ k + a % 2 ^ k = omega arith in
    ap (λ t. bit_and t (2 ^ k - 1)) parts
    ∙ bit_and-low k (a / 2 ^ k) (a % 2 ^ k) (mod-lt a (pow2_pos k))
