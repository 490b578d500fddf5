-- ===== src/Video/Consoles/Boot.antt =====
-- src/kernel/video.c (`init_console`): the consoles are set up.
--
-- `misc` is the byte read from the port 0x3CC, and `columns` and `last_row` are the word at 0x44A and
-- the byte at 0x484. The variables of the consoles start as zeros.
pub mod Loop
pub mod Ready
mod Tests
use ktux.Base.{
  ℕ, zero, suc, ◌+◌, ◌-◌, ◌*◌, ◌/◌, List, [], ◌∷◌, ltb, ◌==◌, if◌then◌else◌, write, bit_and,
}
use ktux.Base.Run.{Run, ok, out_of_fuel, fault, ◌>>=◌}
use ktux.Video.{Console}
use ktux.Video.Consoles.{Display, select_vc}
use ktux.Stdio.Printers.{words, kprintf}

abbrev pub max_vc : ℕ
max_vc = 12

abbrev pub console_format : List ℕ
console_format =
    0x1B ∷ b'[' ∷ b'2' ∷ b'J' ∷ b'k' ∷ b't' ∷ b'u' ∷ b'x' ∷ b' ' ∷ b'c' ∷ b'o' ∷ b'n' ∷ b's' ∷ b'o'
    ∷ b'l' ∷ b'e' ∷ b' ' ∷ b'%' ∷ b'u' ∷ 0x0A ∷ 0x0A ∷ []

-- `_curr_vc->attrib` and `fb_adr` of the console `i`, which becomes the current one.
unfoldable pub set_up : ℕ → Display → Display
set_up i d = record d {
  curr_vc = i;
  vc = write d.vc i (record (d.vc i) { attrib = i + 1; fb_adr = d.width * d.height * i });
}

module _ (strings : ℕ → List ℕ) where
  -- The body of the loop.
  unfoldable pub init_vc : ℕ → Display → Run Display
  unfolding set_up kprintf
  init_vc i d =
      let d' = set_up i d in
      if ltb 0 i
      then kprintf (words (i ∷ (d.num_vcs - 1) ∷ [])) strings console_format d'
      else ok d'

  -- The loop from `i` on, in at most `rounds` rounds.
  unfoldable pub init_vcs : ℕ → ℕ → Display → Run Display
  unfolding init_vc
  init_vcs zero i d = if ltb i d.num_vcs then out_of_fuel else ok d
  init_vcs (suc rounds) i d =
      let rest = init_vc i d >>= init_vcs rounds (i + 1) in if ltb i d.num_vcs then rest else ok d

  unfoldable pub init_console : ℕ → ℕ → ℕ → Display → Run Display
  unfolding init_vcs select_vc
  init_console misc columns last_row d =
      let adr = if bit_and misc 0x01 == 0 then 0x3B4 else 0x3D4 in
      let rows = last_row + 1 in
      let many = 32768 / (columns * rows * 2) in
      let num = if ltb max_vc many then max_vc else many in
      let sized = record d { crtc_io_adr = adr; width = columns; height = rows; num_vcs = num } in
      if columns == 0 then fault else init_vcs max_vc 0 sized >>= λ d'. ok (select_vc 0 d')
