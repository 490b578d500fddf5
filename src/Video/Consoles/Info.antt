-- ===== src/Video/Consoles/Info.antt =====
-- src/kernel/video.c (`print_video_info`): the report of the display.
--
-- `color` and `mono` are the addresses of the two strings. `_vga_fb_adr` follows the port of the
-- video controller, as `init_console` sets both.
use ktux.Base.{ℕ, List, [], ◌∷◌, ◌==◌, if◌then◌else◌}
use ktux.Base.Run.{Run}
use ktux.Stdio.Printers.{words, kprintf}
use ktux.Video.Consoles.{Display}

abbrev pub video_format : List ℕ
video_format =
    b'%' ∷ b's' ∷ b' ' ∷ b'e' ∷ b'm' ∷ b'u' ∷ b'l' ∷ b'a' ∷ b't' ∷ b'i' ∷ b'o' ∷ b'n' ∷ b',' ∷ b' '
    ∷ b'%' ∷ b'u' ∷ b' ' ∷ b'x' ∷ b' ' ∷ b'%' ∷ b'u' ∷ b',' ∷ b' ' ∷ b'f' ∷ b'r' ∷ b'a' ∷ b'm'
    ∷ b'e' ∷ b'b' ∷ b'u' ∷ b'f' ∷ b'f' ∷ b'e' ∷ b'r' ∷ b' ' ∷ b'a' ∷ b't' ∷ b' ' ∷ b'0' ∷ b'x'
    ∷ b'%' ∷ b'l' ∷ b'X' ∷ 0x0A ∷ []

unfoldable pub vga_fb_adr : Display → ℕ
vga_fb_adr d = if d.crtc_io_adr == 0x3D4 then 0xB8000 else 0xB0000

unfoldable pub print_video_info : (ℕ → List ℕ) → ℕ → ℕ → Display → Run Display
unfolding vga_fb_adr
print_video_info strings color mono d =
    let name = if d.crtc_io_adr == 0x3D4 then color else mono in
    kprintf (words (name ∷ d.width ∷ d.height ∷ vga_fb_adr d ∷ [])) strings video_format d
