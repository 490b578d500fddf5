-- ===== src/Keyboard/Line.antt =====
-- src/kernel/keyboard.c (`cmd_buf_add`) and src/kernel/sh.c: the command line and its commands.
--
-- `commandBuffer` has `cmd_buf_size` elements; a write behind its end is a fault.
pub mod Typing
pub mod Returns
use ktux.Base.{
  ℕ, zero, suc, ◌+◌, Bool, true, false, List, [], ◌∷◌, replicate, set, ltb, ◌==◌, if◌then◌else◌,
  ◌%◌, bit_and, add32, sub32,
}
use ktux.Base.Int.{ℤ, pos, negsuc}
use ktux.Base.Run.{Run, ok, fault, out_of_fuel, ◌>>=◌}
use ktux.Strings.{strcmp}
use ktux.Pic.{Ports, Pic, toggle_irq}

abbrev pub cmd_buf_size : ℕ
cmd_buf_size = 256

-- `kbdBufPos`, `cmdBufPos`, `commandBuffer`, `shellInitialized`, and the interrupt lines that a command changes.
pub record Shell (W : Type 0) : Type 0 where
  pub kbd_buf_pos : ℕ
  pub cmd_buf_pos : ℕ
  pub command_buffer : List ℕ
  pub shell_initialized : Bool
  pub pic : Pic W

-- The string that a buffer holds: up to its first NUL. A command is compared with the name of one
-- only, which `strcmp` leaves well before the buffer's end.
unfoldable pub c_string : List ℕ → List ℕ
c_string [] = []
c_string (c ∷ s) = if c == 0 then [] else c ∷ c_string s

unfoldable pub is_one : ℤ → Bool
is_one (pos n) = n == 1
is_one (negsuc n) = false

abbrev pub timer_command : List ℕ
timer_command = b't' ∷ b'i' ∷ b'm' ∷ b'e' ∷ b'r' ∷ []

module _ {W : Type 0} (io : Ports W) where
  unfoldable pub process_command : List ℕ → Shell W → Run (Shell W)
  unfolding is_one
  process_command command s =
      let toggled = toggle_irq io 0 s.pic >>= λ r. ok (record s { pic = r.1 }) in
      if s.shell_initialized
      then if is_one (strcmp command timer_command) then toggled else ok s
      else ok s

  -- The loop of a tab: spaces up to `stop`, in at most `rounds` rounds.
  unfoldable pub pad : ℕ → ℕ → Shell W → Run (Shell W)
  pad zero stop s = if ltb s.cmd_buf_pos stop then out_of_fuel else ok s
  pad (suc rounds) stop s =
      let written = record s {
        command_buffer = set s.command_buffer s.cmd_buf_pos b' ';
        cmd_buf_pos = add32 s.cmd_buf_pos 1;
      } in
      let rest = pad rounds stop written in
      if ltb s.cmd_buf_pos stop
      then if ltb s.cmd_buf_pos cmd_buf_size then rest else fault
      else ok s

  -- `cmd_buf_add`: its answer, 1 for OK, and the shell.
  unfoldable pub cmd_buf_add : ℕ → Shell W → Run (ℕ × Shell W)
  unfolding c_string pad
  cmd_buf_add key s =
      let before = sub32 s.cmd_buf_pos 1 in
      let erased = record s {
        cmd_buf_pos = before;
        command_buffer = set s.command_buffer before 0;
      } in
      let entered = process_command (c_string s.command_buffer) s >>= λ s'.
      ok (1, record s' { command_buffer = replicate cmd_buf_size 0; cmd_buf_pos = 0 }) in
      let added = record s {
        command_buffer = set s.command_buffer (s.cmd_buf_pos % cmd_buf_size) key;
        cmd_buf_pos = add32 s.cmd_buf_pos 1;
      } in
      if key == 0x08
      then if ltb 0 s.cmd_buf_pos
        then if ltb before cmd_buf_size then ok (1, erased) else fault
        else ok (0, s)
      else if key == 0x09
      then (pad 8 (bit_and (add32 s.cmd_buf_pos 8) 7) s >>= λ s'. ok (1, s'))
      else if key == 0x0A
      then entered
      else ok (1, added)

  unfoldable pub init_keyboard : Shell W → ℕ × Shell W
  init_keyboard s = (0, record s { kbd_buf_pos = 0; cmd_buf_pos = 0 })

  unfoldable pub init_shell : Shell W → Shell W
  init_shell s = record s { shell_initialized = true }
