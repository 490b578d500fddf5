-- ===== src/Pic/Mask.antt =====
-- The bits of a mask, one by one.
use ktux.Base.{
  ℕ, zero, suc, ◌-◌, ◌/◌, ◌%◌, ◌^◌, ◌≤◌, ◌<◌, ◌≡◌, refl, sym, ap, ◌∙◌, Bool, ◌==◌, if◌then◌else◌,
  ==_iff, bit_and, bit_or, arith,
}
use Prim.Native.Nat.{min, max}
use ktux.Base.Below.{all_below, all_below-holds}
use ktux.Base.Bits.{bit_and_step, bit_or_step, bit_and-mod}
use ktux.Pic.{clear_bit, set_bit}

-- The bit of a number at a place.
abbrev pub bit : ℕ → ℕ → ℕ
bit zero n = n % 2
bit (suc k) n = bit k (n / 2)

bit-bit_and : (k a b : ℕ) → bit k (bit_and a b) ≡ min (bit k a) (bit k b)
bit-bit_and zero a b = omega (arith, bit_and_step a b)
bit-bit_and (suc k) a b =
    let half : bit_and a b / 2 ≡ bit_and (a / 2) (b / 2) = omega (arith, bit_and_step a b) in
    ap (bit k) half ∙ bit-bit_and k (a / 2) (b / 2)

bit-bit_or : (k a b : ℕ) → bit k (bit_or a b) ≡ max (bit k a) (bit k b)
bit-bit_or zero a b = omega (arith, bit_or_step a b)
bit-bit_or (suc k) a b =
    let half : bit_or a b / 2 ≡ bit_or (a / 2) (b / 2) = omega (arith, bit_or_step a b) in
    ap (bit k) half ∙ bit-bit_or k (a / 2) (b / 2)

bit-small : (k n : ℕ) → bit k n ≤ 1
bit-small zero n = omega arith
bit-small (suc k) n = bit-small k (n / 2)

-- The bits of the masks in the source, at the places of a byte.
cleared_place : (n k : ℕ) → n < 15 → k < 8 → bit k (0xFFFFFFFF - 2 ^ n) ≡ (if k == n then 0 else 1)
cleared_place n k hn hk =
    let test : ℕ → ℕ → Bool = λ n k. bit k (0xFFFFFFFF - 2 ^ n) == (if k == n then 0 else 1) in
    let row = all_below-holds 15 (λ n. all_below 8 (test n)) n refl hn in
    (==_iff (bit k (0xFFFFFFFF - 2 ^ n)) (if k == n then 0 else 1)).0
      (all_below-holds 8 (test n) k row hk)

set_place : (n k : ℕ) → n < 15 → k < 8 → bit k (2 ^ n) ≡ (if k == n then 1 else 0)
set_place n k hn hk =
    let test : ℕ → ℕ → Bool = λ n k. bit k (2 ^ n) == (if k == n then 1 else 0) in
    let row = all_below-holds 15 (λ n. all_below 8 (test n)) n refl hn in
    (==_iff (bit k (2 ^ n)) (if k == n then 1 else 0)).0 (all_below-holds 8 (test n) k row hk)

byte_place : (k : ℕ) → k < 8 → bit k 0xFF ≡ 1
byte_place k h = (==_iff (bit k 0xFF) 1).0 (all_below-holds 8 (λ k. bit k 0xFF == 1) k refl h)

-- Only the low byte of a mask reaches a port.
bit-byte : (k v : ℕ) → k < 8 → bit k (v % 2 ^ 8) ≡ bit k v
bit-byte k v h =
    ap (bit k) (sym (bit_and-mod 8 v))
    ∙ bit-bit_and k v 0xFF
    ∙ omega (arith, byte_place k h, bit-small k v)

pub clear_bit-places :
    (n v k : ℕ) → n < 15 → k < 8 → bit k (clear_bit n v % 2 ^ 8) ≡ (if k == n then 0 else bit k v)
unfolding clear_bit
clear_bit-places n v k hn hk =
    let mask = cleared_place n k hn hk in
    bit-byte k (clear_bit n v) hk
    ∙ bit-bit_and k v (0xFFFFFFFF - 2 ^ n)
    ∙ ground (arith, bit-small k v)

pub set_bit-places :
    (n v k : ℕ) → n < 15 → k < 8 → bit k (set_bit n v % 2 ^ 8) ≡ (if k == n then 1 else bit k v)
unfolding set_bit
set_bit-places n v k hn hk =
    let mask = set_place n k hn hk in
    bit-byte k (set_bit n v) hk ∙ bit-bit_or k v (2 ^ n) ∙ ground (arith, bit-small k v)
