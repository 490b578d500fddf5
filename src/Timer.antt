-- ===== src/Timer.antt =====
-- src/kernel/timer.c: the frequency of the timer interrupt.
pub mod Divisor
mod Tests
use ktux.Base.{ℕ, zero, suc, ◌+◌, ◌/◌, ◌%◌, ◌^◌, ◌==◌, if◌then◌else◌, bit_and, add32}
use ktux.Base.Run.{Run, ok, fault, ◌>>=◌}
use ktux.Pic.{Ports}
use ktux.Video.Consoles.{Display, putch}

unfoldable pub init_timer : ℕ
init_timer = 0

-- `TimerIRQHandler`, on `tick` (a `long`, kept as its bits) and the consoles, to which it sends a dot:
-- the stack pointer that it returns, and the two.
unfoldable pub timer_irq_handler : ℕ → ℕ → Display → ℕ × ℕ × Display
unfolding putch
timer_irq_handler old_esp tick d = (old_esp, add32 tick 1, putch b'.' d)

-- `(3579545L / 3) / freq`, kept in an `unsigned short`; a division by zero is a fault.
unfoldable pub reload : ℕ → Run ℕ
reload freq = if freq == 0 then fault else ok (3579545 / 3 / freq % 2 ^ 16)

unfoldable pub reprogram_timer : {W : Type 0} → Ports W → ℕ → W → Run W
unfolding reload
reprogram_timer io freq w = do
  foo ← reload freq
  ok (
      io.write_port 0x40 (foo / 2 ^ 8)
        (io.write_port 0x40 (bit_and foo 0xFF) (io.write_port 0x43 0x36 w)))
