-- ===== src/Keyboard/Interrupt/Waits.antt =====
-- Waiting for the keyboard controller.
use ktux.Base.{ℕ, zero, suc, ◌-◌, ◌%◌, ◌^◌, ◌<◌, ◌≡◌, ◌≢◌, refl, ne→==, bit_and, arith}
use ktux.Pic.{Ports}
use ktux.Keyboard.Interrupt.{wait_input, write_kbd}

module _ {W : Type 0} (io : Ports W) (read_status : W → ℕ × W) where
  -- The devices after `n` reads of the status.
  abbrev pub after_reads : ℕ → W → W
  after_reads zero w = w
  after_reads (suc n) w = after_reads n (read_status w).1

  -- The status that the next read finds has the bit for a full input buffer.
  abbrev pub IsBusy : W → Type 0
  IsBusy w = bit_and (read_status w).0 0x02 ≢ 0

  -- The first `n` reads find the buffer full.
  abbrev pub IsBusyFor : ℕ → W → Type 0
  IsBusyFor zero w = Unit
  IsBusyFor (suc n) w = IsBusy w × IsBusyFor n (read_status w).1

  wait_input-ready :
      (n timeout : ℕ) (w : W)
      → n < timeout
      → IsBusyFor n w
      → bit_and (read_status (after_reads n w)).0 0x02 ≡ 0
      → wait_input io read_status timeout w ≡ (timeout - n, after_reads (suc n) w)
  unfolding wait_input
  wait_input-ready n zero w lt busy ready = absurd (omega arith)
  wait_input-ready zero (suc timeout) w lt busy ready =
      let whole : suc timeout - 0 ≡ suc timeout = omega arith in rw (ready, whole) refl
  wait_input-ready (suc n) (suc timeout) w lt (now, busy) ready =
      let same : suc timeout - suc n ≡ timeout - n = omega arith in
      rw (ne→== (bit_and (read_status w).0 0x02) 0 now, same)
        (wait_input-ready n timeout (read_status w).1 (omega arith) busy ready)

  wait_input-busy :
      (n : ℕ) (w : W) → IsBusyFor n w → wait_input io read_status n w ≡ (0, after_reads n w)
  unfolding wait_input
  wait_input-busy zero w busy = refl
  wait_input-busy (suc n) w (now, busy) =
      rw (ne→== (bit_and (read_status w).0 0x02) 0 now) (wait_input-busy n (read_status w).1 busy)

  -- When the controller's input buffer is empty at one of the first 500000 reads of its status,
  -- `write_kbd` sends the byte, once, at that point.
  pub write_kbd-sends :
      (adr data_byte n : ℕ) (w : W)
      → n < 500000
      → IsBusyFor n w
      → bit_and (read_status (after_reads n w)).0 0x02 ≡ 0
      → write_kbd io read_status adr data_byte w
        ≡ io.write_port adr (data_byte % 2 ^ 8) (after_reads (suc n) w)
  unfolding write_kbd
  write_kbd-sends adr data_byte n w lt busy ready =
      rw (wait_input-ready n 500000 w lt busy ready, ne→== (500000 - n) 0 (omega arith)) refl

  -- When the input buffer is full at 500000 reads in a row, `write_kbd` comes back and sends nothing.
  write_kbd-gives_up :
      (adr data_byte : ℕ) (w : W)
      → IsBusyFor 500000 w
      → write_kbd io read_status adr data_byte w ≡ after_reads 500000 w
  unfolding write_kbd
  write_kbd-gives_up adr data_byte w busy = rw (wait_input-busy 500000 w busy) refl
