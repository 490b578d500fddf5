-- ===== src/Idt/Reboot.antt =====
-- src/kernel/interrupts.c (`reboot`): the processor is reset by the keyboard controller.
--
-- `read_status` is a read of port 0x64 and `read_data` one of port 0x60, with what they leave of the
-- devices. The result is the interrupt flag and the devices when the processor halts.
use ktux.Base.{
  ℕ, zero, suc, ◌<◌, ◌≡◌, ◌≢◌, refl, ne→==, Bool, false, ◌==◌, if◌then◌else◌, bit_and, arith,
}
use ktux.Base.Run.{Run, ok, out_of_fuel, ◌>>=◌}
use ktux.Pic.{Ports}

module _ {W : Type 0} (io : Ports W) (read_status : W → ℕ × W) (read_data : W → W) where
  -- One round of the loop: `continue` goes on to the test at its end.
  abbrev pub flush_round : W → ℕ × W
  flush_round w =
      let (temp, w') = read_status w in (temp, if bit_and temp 0x01 == 0 then w' else read_data w')

  unfoldable pub flush : ℕ → W → Run W
  flush zero w = out_of_fuel
  flush (suc fuel) w =
      let rest = flush fuel (flush_round w).1 in
      if bit_and (flush_round w).0 0x02 == 0 then ok (flush_round w).1 else rest

  unfoldable pub reboot : ℕ → Bool × W → Run (Bool × W)
  unfolding flush
  reboot fuel (taken, w) = flush fuel w >>= λ w'. ok (false, io.write_port 0x64 0xFE w')

  -- The devices after `n` rounds.
  abbrev pub after_rounds : ℕ → W → W
  after_rounds zero w = w
  after_rounds (suc n) w = after_rounds n (flush_round w).1

  -- The first `n` reads of the status find the input buffer full.
  abbrev pub IsFullFor : ℕ → W → Type 0
  IsFullFor zero w = Unit
  IsFullFor (suc n) w = (bit_and (flush_round w).0 0x02 ≢ 0) × IsFullFor n (flush_round w).1

  flush_lem :
      (n fuel : ℕ) (w : W)
      → n < fuel
      → IsFullFor n w
      → bit_and (flush_round (after_rounds n w)).0 0x02 ≡ 0
      → flush fuel w ≡ ok (after_rounds (suc n) w)
  unfolding flush
  flush_lem n zero w enough full empty = absurd (omega arith)
  flush_lem zero (suc fuel) w enough full empty = rw empty refl
  flush_lem (suc n) (suc fuel) w enough (now, full) empty =
      rw (ne→== (bit_and (flush_round w).0 0x02) 0 now)
        (flush_lem n fuel (flush_round w).1 (omega arith) full empty)

  -- When the controller's input buffer is empty after `n` rounds, `reboot` leaves its loop then, has
  -- read the data byte in each round that found one, and pulses the reset line with interrupts off.
  reboot-pulses :
      (n fuel : ℕ) (taken : Bool) (w : W)
      → n < fuel
      → IsFullFor n w
      → bit_and (flush_round (after_rounds n w)).0 0x02 ≡ 0
      → reboot fuel (taken, w) ≡ ok (false, io.write_port 0x64 0xFE (after_rounds (suc n) w))
  unfolding reboot
  reboot-pulses n fuel taken w enough full empty = rw (flush_lem n fuel w enough full empty) refl
