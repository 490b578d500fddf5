-- ===== src/Video/Consoles.antt =====
-- src/kernel/video.c: the set of consoles, the one that is shown, and the video hardware's ports.
--
-- `_curr_vc` is the number of a console, and `ports` is the log of the bytes sent to I/O ports, the
-- last one first. `clear` counts with an `unsigned short`, so it never ends on a larger screen.
pub mod Shown
pub mod Isolation
pub mod Boot
pub mod Info
use ktux.Base.{
  ℕ, ◌+◌, ◌*◌, ◌/◌, ◌%◌, ◌^◌, Bool, List, ◌∷◌, ltb, leb, if◌then◌else◌, ◌==◌, write, add32, mul32,
}
use ktux.Base.Run.{Run, ok, out_of_fuel, ◌>>=◌}
use ktux.Strings.{memset_units}
use ktux.Video.{Console, Screen, putch_help}

pub record Display : Type 0 where
  pub width : ℕ
  pub height : ℕ
  pub crtc_io_adr : ℕ
  pub vc : ℕ → Console
  pub num_vcs : ℕ
  pub curr_vc : ℕ
  pub cells : ℕ → ℕ
  pub ports : List (ℕ × ℕ)

unfoldable pub outportb : ℕ → ℕ → Display → Display
outportb adr byte d = record d { ports = (adr, byte % 2 ^ 8) ∷ d.ports }

-- The place of the cursor goes to the registers 14 and 15 of the video controller.
unfoldable pub move_csr : Display → Display
unfolding outportb
move_csr d =
    let con = d.vc d.curr_vc in
    let temp = (add32 (mul32 con.csr_y d.width) con.csr_x + con.fb_adr) % 2 ^ 16 in
    let adr = d.crtc_io_adr in
    outportb (adr + 1) temp
      (outportb adr 15 (outportb (adr + 1) (temp / 2 ^ 8) (outportb adr 14 d)))

-- The memory of the console shown goes to the registers 12 and 13.
unfoldable pub select_vc : ℕ → Display → Display
unfolding outportb move_csr
select_vc which d =
    let i = (d.vc which).fb_adr in
    let adr = d.crtc_io_adr in
    let chosen = record d { curr_vc = which } in
    let shown =
      outportb (adr + 1) i
        (outportb adr 13 (outportb (adr + 1) (i / 2 ^ 8) (outportb adr 12 chosen))) in
    if leb d.num_vcs which then d else move_csr shown

-- `putch_help` on console `k`.
unfoldable pub putch_to : ℕ → ℕ → Display → Display
unfolding move_csr putch_help
putch_to k c d =
    let (s, finished) = putch_help d.width d.height (record { con = d.vc k; cells = d.cells }) c in
    let d' = record d { vc = write d.vc k (s.con); cells = s.cells } in
    if finished then if d.curr_vc == k then move_csr d' else d' else d'

unfoldable pub putch : ℕ → Display → Display
unfolding putch_to
putch c d = putch_to d.curr_vc c d

unfoldable pub move_cursor : ℕ → ℕ → Display → Display
unfolding move_csr
move_cursor x y d =
    let con = d.vc d.curr_vc in
    move_csr (record d { vc = write d.vc d.curr_vc (record con { csr_x = x; csr_y = y }) })

unfoldable pub get_csr_x : Display → ℕ
get_csr_x d = (d.vc d.curr_vc).csr_x % 2 ^ 16

unfoldable pub get_csr_y : Display → ℕ
get_csr_y d = (d.vc d.curr_vc).csr_y % 2 ^ 16

-- `clrscr` on console `k`: it clears the memory of the first screen, to white on black.
unfoldable pub clrscr : ℕ → Display → Run Display
unfolding move_csr
clrscr k d =
    let size = mul32 d.width d.height in
    let home = record (d.vc k) { csr_x = 0; csr_y = 0 } in
    if ltb size (2 ^ 16)
    then ok (
        move_csr
          (record d { cells = memset_units 16 0 0x0F00 size d.cells; vc = write d.vc k home }))
    else out_of_fuel

-- `blink`: the first byte of the frame buffer, the low one of its first cell.
unfoldable pub blink : Display → Display
blink d = record d { cells = write d.cells 0 (d.cells 0 / 2 ^ 8 * 2 ^ 8 + (d.cells 0 + 1) % 2 ^ 8) }
