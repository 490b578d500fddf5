-- ===== src/Keyboard/Interrupt/Leds.antt =====
-- The LEDs of the keyboard.
use ktux.Base.{
  ℕ, suc, ◌+◌, ◌%◌, ◌^◌, ◌≤◌, ◌<◌, ◌≡◌, ap, sym, ◌∙◌, bit_and, Bool, true, false, arith,
}
use ktux.Pic.{Ports}
use ktux.Keyboard.Interrupt.{Kbd, led_bits, write_kbd, set_leds}
use ktux.Keyboard.Interrupt.Keys.{Keys, flag, status_of, led_bits-Keys}
use ktux.Keyboard.Interrupt.Waits.{after_reads, IsBusyFor, write_kbd-sends}

-- The bits for the three locks, as the keyboard takes them.
abbrev pub leds_of : Keys → ℕ
leds_of h = flag h.scroll 1 + flag h.num 2 + flag h.caps 4

flag-le : (b : Bool) (mask : ℕ) → flag b mask ≤ mask
flag-le true mask = omega arith
flag-le false mask = omega arith

leds_of-byte : (h : Keys) → leds_of h % 2 ^ 8 ≡ leds_of h
leds_of-byte h = omega (arith, flag-le h.scroll 1, flag-le h.num 2, flag-le h.caps 4)

module _ {W : Type 0} (io : Ports W) (read_status : W → ℕ × W) where
  -- When the controller takes a byte after less than 500000 reads of its status, twice, the keyboard
  -- is sent the command for its LEDs and then the bits of the locks that are on.
  set_leds-sends :
      (k : Kbd W) (h : Keys) (n m : ℕ) (w2 : W)
      → k.kbd_status ≡ status_of h
      → n < 500000
      → IsBusyFor io read_status n k.shell.pic.world
      → bit_and (read_status (after_reads io read_status n k.shell.pic.world)).0 0x02 ≡ 0
      → w2 ≡ io.write_port 0x60 0xED (after_reads io read_status (suc n) k.shell.pic.world)
      → m < 500000
      → IsBusyFor io read_status m w2
      → bit_and (read_status (after_reads io read_status m w2)).0 0x02 ≡ 0
      → (set_leds io read_status k).shell.pic.world
        ≡ io.write_port 0x60 (leds_of h) (after_reads io read_status (suc m) w2)
  unfolding set_leds
  set_leds-sends k h n m w2 e lt busy ready sent lt' busy' ready' =
      let w = k.shell.pic.world in
      ap (λ w'. write_kbd io read_status 0x60 (led_bits k.kbd_status) w')
        (write_kbd-sends io read_status 0x60 0xED n w lt busy ready ∙ sym sent)
      ∙ write_kbd-sends io read_status 0x60 (led_bits k.kbd_status) m w2 lt' busy' ready'
      ∙ ap (λ b. io.write_port 0x60 b (after_reads io read_status (suc m) w2))
          (ap (λ st. led_bits st % 2 ^ 8) e
            ∙ ap (λ b. b % 2 ^ 8) (led_bits-Keys h)
            ∙ leds_of-byte h)
