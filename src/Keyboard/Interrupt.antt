-- ===== src/Keyboard/Interrupt.antt =====
-- src/kernel/keyboard.c (`kbd_irq_handler`, `process_kbd`, `write_kbd`): a scan code arrives.
--
-- `read_status` is a read of port 0x64, with what it leaves of the devices: the controller may become
-- ready between two reads. `entries`, `threads` and `strings` are what `ps` reports. `reboot` does
-- not come back.
pub mod Waits
pub mod Keys
pub mod Leds
pub mod Tracks
mod Tests
use ktux.Base.{
  ℕ, zero, suc, ◌+◌, ◌-◌, ◌%◌, ◌^◌, Bool, true, false, ◌&&◌, ◌||◌, List, ◌∷◌, [], ltb, leb, ◌==◌,
  if◌then◌else◌, set, add32, bit_and, bit_or, bit_xor,
}
use ktux.Base.Run.{Run, ok, ◌>>=◌}
use ktux.Process.{Thread}
use ktux.Process.Report.{ps}
use ktux.Stdio.Printers.{words, kprintf}
use ktux.Video.Consoles.{Display, select_vc, putch}
use ktux.Pic.{Ports, Pic}
use ktux.Keyboard.{
  kbd_meta_alt, kbd_meta_ctrl, kbd_meta_shift, kbd_meta_caps, character, reboot, convert, has_meta,
}
use ktux.Keyboard.Line.{Shell, cmd_buf_add}

abbrev pub kbd_buf_size : ℕ
kbd_buf_size = 64

abbrev pub kbd_meta_num : ℕ
kbd_meta_num = 0x2000

abbrev pub kbd_meta_scrl : ℕ
kbd_meta_scrl = 0x4000

-- `keyboardBuffer`, the static variables of `process_kbd`, `echo`, and what the handler reaches. The
-- interrupt flag tells whether interrupts are taken.
pub record Kbd (W : Type 0) : Type 0 where
  pub keyboard_buffer : List ℕ
  pub kbd_status : ℕ
  pub saw_break_code : Bool
  pub echo : Bool
  pub interrupts : Bool
  pub shell : Shell W
  pub display : Display

-- The handler comes back, or the machine is rebooted.
pub data Handled (W : Type 0) : Type 0 where
  handled : Kbd W → Handled W
  rebooting : Kbd W → Handled W

-- `kbd_status &= ~meta`, on 16 bits.
unfoldable pub clear_meta : ℕ → ℕ → ℕ
clear_meta meta st = bit_and st (0xFFFF - meta)

-- The bits that set the LEDs.
unfoldable pub led_bits : ℕ → ℕ
unfolding has_meta
led_bits st =
    let scroll = if has_meta st kbd_meta_scrl then 1 else 0 in
    let num = if has_meta st kbd_meta_num then bit_or scroll 2 else scroll in
    if has_meta st kbd_meta_caps then bit_or num 4 else num

abbrev pub reboot_message : List ℕ
reboot_message =
    0x0A ∷ 0x1B ∷ b'[' ∷ b'4' ∷ b'2' ∷ b';' ∷ b'3' ∷ b'7' ∷ b';' ∷ b'1' ∷ b'm' ∷ b'*' ∷ b'*' ∷ b'*'
    ∷ b' ' ∷ b'r' ∷ b'e' ∷ b'b' ∷ b'o' ∷ b'o' ∷ b't' ∷ b'i' ∷ b'n' ∷ b'g' ∷ b'!' ∷ []

module _ {W : Type 0} (io : Ports W) (read_status : W → ℕ × W) where
  -- The loop that waits for the input buffer to be empty: `timeout` and the devices at its end.
  unfoldable pub wait_input : ℕ → W → ℕ × W
  wait_input zero w = (0, w)
  wait_input (suc timeout) w =
      let (stat, w') = read_status w in
      let rest = wait_input timeout w' in if bit_and stat 0x02 == 0 then (suc timeout, w') else rest

  unfoldable pub write_kbd : ℕ → ℕ → W → W
  unfolding wait_input
  write_kbd adr data_byte w =
      let (timeout, w') = wait_input 500000 w in
      if timeout == 0 then w' else io.write_port adr (data_byte % 2 ^ 8) w'

  -- From the label LEDS on.
  unfoldable pub set_leds : Kbd W → Kbd W
  unfolding write_kbd led_bits
  set_leds k =
      let w = write_kbd 0x60 (led_bits k.kbd_status) (write_kbd 0x60 0xED k.shell.pic.world) in
      record k { shell = record (k.shell) { pic = record (k.shell.pic) { world = w } } }

  -- A key is released.
  unfoldable pub release : ℕ → Kbd W → Kbd W
  unfolding clear_meta
  release key k =
      let st = k.kbd_status in
      let st' =
        if key == 0x38
        then clear_meta kbd_meta_alt st
        else if key == 0x1D
        then clear_meta kbd_meta_ctrl st
        else if key == 0x2A || key == 0x36
        then clear_meta kbd_meta_shift st
        else st in
      record k { kbd_status = st'; saw_break_code = false }

  module _ (strings : ℕ → List ℕ) (threads : ℕ → Thread) (entries : List ℕ) where
    -- A character goes to the command line, and to the console when it is accepted.
    unfoldable pub type_char : ℕ → Kbd W → Run (Kbd W)
    unfolding cmd_buf_add putch ps
    type_char i k = cmd_buf_add io i k.shell >>= λ r.
        let k' = record k { shell = r.1 } in
        let shown = record k' { display = putch i k'.display } in
        let reported = ps strings threads entries shown.display >>= λ d.
        ok (record shown { display = d; interrupts = true }) in
        if r.0 == 1 && k.echo then if i == b's' then reported else ok shown else ok k'

    -- A key that is none of the "meta" keys, of the locks and of F1 to F10.
    unfoldable pub type_key : ℕ → Kbd W → Run (Handled W)
    unfolding convert type_char kprintf
    type_key key k = elim (convert key k.kbd_status) [
      | reboot ↦ kprintf (words []) strings reboot_message k.display >>= λ d.
          ok (rebooting (record k { display = d; interrupts = false }))
      | character i ↦ if i == 0 then ok (handled k) else type_char i k >>= λ k'. ok (handled k')
    ]

    -- A lock, a function key or any other key is pressed.
    unfoldable pub press_other : ℕ → Kbd W → Run (Handled W)
    unfolding set_leds type_key select_vc
    press_other key k =
        let st = k.kbd_status in
        let typed = type_key key k in
        if key == 0x46
        then ok (handled (set_leds (record k { kbd_status = bit_xor st kbd_meta_scrl })))
        else if key == 0x45
        then ok (handled (set_leds (record k { kbd_status = bit_xor st kbd_meta_num })))
        else if key == 0x3A
        then ok (handled (set_leds (record k { kbd_status = bit_xor st kbd_meta_caps })))
        else if leb 0x3B key && leb key 0x44
        then ok (handled (record k { display = select_vc (key - 0x3B) k.display }))
        else typed

    -- A key is pressed.
    unfoldable pub press : ℕ → Kbd W → Run (Handled W)
    unfolding press_other
    press key k =
        let st = k.kbd_status in
        let other = press_other key k in
        if key == 0x38
        then ok (handled (record k { kbd_status = bit_or st kbd_meta_alt }))
        else if key == 0x1D
        then ok (handled (record k { kbd_status = bit_or st kbd_meta_ctrl }))
        else if key == 0x2A || key == 0x36
        then ok (handled (record k { kbd_status = bit_or st kbd_meta_shift }))
        else other

    -- The answer to `keycode`, a byte.
    unfoldable pub process_kbd : ℕ → Kbd W → Run (Handled W)
    unfolding release press
    process_kbd keycode k =
        let key = if leb 0x80 keycode then bit_and keycode 0x7F else keycode in
        let pressed = press key k in
        if leb 0x80 keycode || k.saw_break_code then ok (handled (release key k)) else pressed

    unfoldable pub kbd_irq_handler : Kbd W → Run (Handled W)
    unfolding process_kbd
    kbd_irq_handler k =
        let sh = k.shell in
        let keycode = io.read_port 0x60 sh.pic.world in
        process_kbd keycode (record k {
          keyboard_buffer = set k.keyboard_buffer (sh.kbd_buf_pos % kbd_buf_size) keycode;
          shell = record sh { kbd_buf_pos = add32 sh.kbd_buf_pos 1 };
        })
