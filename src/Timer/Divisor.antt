-- ===== src/Timer/Divisor.antt =====
-- The two bytes that the timer counts down from.
use ktux.Base.{ℕ, ◌+◌, ◌*◌, ◌/◌, ◌%◌, ◌^◌, ◌≤◌, ◌<◌, ◌≡◌, refl, ne→==, arith}
use native.Mathlib.Nat.{div-mul-le_self, le-div_iff_mul-le, div-lt_iff_lt-mul, lt-div-mul-add}
use ktux.Base.Bits.{bit_and-mod}
use ktux.Base.Run.{ok}
use ktux.Pic.{Ports}
use ktux.Timer.{reprogram_timer}

next_multiple : (n f : ℕ) → 1193181 < n * f + f → 1193181 < (n + 1) * f
next_multiple n f h = omega (arith, h)

-- From 19 Hz up to the timer's own 1193181 Hz, the chip gets its mode, and then the low and the high
-- byte of the largest count that is not slower than the frequency asked for.
reprogram_timer-count :
    {W : Type 0} (io : Ports W) (freq : ℕ) (w : W)
    → 19 ≤ freq
    → freq ≤ 1193181
    → (low high : ℕ) × (low < 256)
      × (high < 256)
      × (reprogram_timer io freq w
          ≡ ok (io.write_port 0x40 high (io.write_port 0x40 low (io.write_port 0x43 0x36 w))))
      × (0 < high * 256 + low)
      × ((high * 256 + low) * freq ≤ 1193181)
      × (1193181 < (high * 256 + low + 1) * freq)
unfolding reprogram_timer
reprogram_timer-count io freq w slow fast =
    let n = 1193181 / freq in
    let pos_freq : 0 < freq = omega arith in
    let small : n < 2 ^ 16 = (div-lt_iff_lt-mul pos_freq).1 (omega arith) in
    let pos_n : 1 ≤ n = (le-div_iff_mul-le pos_freq).1 (omega arith) in
    let word : n % 2 ^ 16 ≡ n = omega arith in
    let whole : n / 2 ^ 8 * 256 + n % 2 ^ 8 ≡ n = omega arith in
    let above = lt-div-mul-add {a = 1193181} pos_freq in
    (
      n % 2 ^ 8,
      n / 2 ^ 8,
      omega arith,
      omega arith,
      rw (ne→== freq 0 (omega arith), word, bit_and-mod 8 n) refl,
      rw whole pos_n,
      rw whole (div-mul-le_self 1193181 freq),
      rw whole (next_multiple n freq above),
    )
