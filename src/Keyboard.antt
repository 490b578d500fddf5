-- ===== src/Keyboard.antt =====
-- src/kernel/keyboard.c and src/include/keyboard.h: the translation of scan codes. The command line
-- and the interrupt handler are in child modules.
--
-- The last elements of the tables, which the source leaves out, are zeros: `get_or` gives them. The
-- message before the reboot is printed by the caller of `convert`, in Interrupt.
pub mod Line
pub mod Codes
pub mod Interrupt
pub mod Prompt
pub mod Tests
use ktux.Base.{ℕ, Bool, ◌&&◌, not, List, [], ◌∷◌, ltb, leb, ◌==◌, if◌then◌else◌, get_or, bit_and}

abbrev pub kbd_meta_alt : ℕ
kbd_meta_alt = 0x0200

abbrev pub kbd_meta_ctrl : ℕ
kbd_meta_ctrl = 0x0400

abbrev pub kbd_meta_shift : ℕ
kbd_meta_shift = 0x0800

abbrev pub kbd_meta_caps : ℕ
kbd_meta_caps = 0x1000

abbrev pub key_del : ℕ
key_del = 0x91

unfoldable pub scancode_to_ascii : List ℕ
scancode_to_ascii =
    0 ∷ 0 ∷ b'1' ∷ b'2' ∷ b'3' ∷ b'4' ∷ b'5' ∷ b'6' ∷ b'7' ∷ b'8' ∷ b'9' ∷ b'0' ∷ b'-' ∷ b'=' ∷ 0x08
    ∷ 0x09 ∷ b'q' ∷ b'w' ∷ b'e' ∷ b'r' ∷ b't' ∷ b'y' ∷ b'u' ∷ b'i' ∷ b'o' ∷ b'p' ∷ b'[' ∷ b']' ∷ 10
    ∷ 0 ∷ b'a' ∷ b's' ∷ b'd' ∷ b'f' ∷ b'g' ∷ b'h' ∷ b'j' ∷ b'k' ∷ b'l' ∷ b';' ∷ 0x27 ∷ b'`' ∷ 0x5C
    ∷ 0x5C ∷ b'z' ∷ b'x' ∷ b'c' ∷ b'v' ∷ b'b' ∷ b'n' ∷ b'm' ∷ b',' ∷ b'.' ∷ b'/' ∷ 0 ∷ 0 ∷ 0 ∷ b' '
    ∷ 0 ∷ 0x3B ∷ 0x3C ∷ 0x3D ∷ 0x3E ∷ 0x3F ∷ 0x40 ∷ 0x41 ∷ 0x42 ∷ 0x43 ∷ 0x44 ∷ 0 ∷ 0 ∷ b'P' ∷ 0 ∷ 0
    ∷ []

unfoldable pub scancode_to_ascii_caps : List ℕ
scancode_to_ascii_caps =
    0 ∷ 0 ∷ b'1' ∷ b'2' ∷ b'3' ∷ b'4' ∷ b'5' ∷ b'6' ∷ b'7' ∷ b'8' ∷ b'9' ∷ b'0' ∷ b'-' ∷ b'=' ∷ 0x08
    ∷ 0x09 ∷ b'Q' ∷ b'W' ∷ b'E' ∷ b'R' ∷ b'T' ∷ b'Y' ∷ b'U' ∷ b'I' ∷ b'O' ∷ b'P' ∷ b'[' ∷ b']' ∷ 10
    ∷ 0 ∷ b'A' ∷ b'S' ∷ b'D' ∷ b'F' ∷ b'G' ∷ b'H' ∷ b'J' ∷ b'K' ∷ b'L' ∷ b';' ∷ 0x27 ∷ b'`' ∷ 0x5C
    ∷ 0x5C ∷ b'Z' ∷ b'X' ∷ b'C' ∷ b'V' ∷ b'B' ∷ b'N' ∷ b'M' ∷ b',' ∷ b'.' ∷ b'/' ∷ 0 ∷ 0 ∷ 0 ∷ b' '
    ∷ 0 ∷ 0x3B ∷ 0x3C ∷ 0x3D ∷ 0x3E ∷ 0x3F ∷ 0x40 ∷ 0x41 ∷ 0x42 ∷ 0x43 ∷ 0x44 ∷ b'P' ∷ 0 ∷ 0 ∷ []

unfoldable pub scancode_to_ascii_shift : List ℕ
scancode_to_ascii_shift =
    0 ∷ 0 ∷ b'!' ∷ b'@' ∷ b'#' ∷ b'$' ∷ b'%' ∷ b'^' ∷ b'&' ∷ b'*' ∷ b'(' ∷ b')' ∷ b'_' ∷ b'+' ∷ 0x08
    ∷ 0x09 ∷ b'Q' ∷ b'W' ∷ b'E' ∷ b'R' ∷ b'T' ∷ b'Y' ∷ b'U' ∷ b'I' ∷ b'O' ∷ b'P' ∷ b'{' ∷ b'}' ∷ 10
    ∷ 0 ∷ b'A' ∷ b'S' ∷ b'D' ∷ b'F' ∷ b'G' ∷ b'H' ∷ b'J' ∷ b'K' ∷ b'L' ∷ b':' ∷ b'"' ∷ b'~' ∷ b'|'
    ∷ b'|' ∷ b'Z' ∷ b'X' ∷ b'C' ∷ b'V' ∷ b'B' ∷ b'N' ∷ b'M' ∷ b'<' ∷ b'>' ∷ b'?' ∷ 0 ∷ 0 ∷ 0 ∷ b' '
    ∷ 0 ∷ 0x3B ∷ 0x3C ∷ 0x3D ∷ 0x3E ∷ 0x3F ∷ 0x40 ∷ 0x41 ∷ 0x42 ∷ 0x43 ∷ 0x44 ∷ b'P' ∷ 0 ∷ 0 ∷ []

-- What `convert` comes to: a character, 0 for none, or the call of `reboot`.
pub data Converted : Type 0 where
  character : ℕ → Converted
  reboot : Converted

-- `kbd_status & mask`, as a test.
unfoldable pub has_meta : ℕ → ℕ → Bool
has_meta kbd_status mask = not (bit_and kbd_status mask == 0)

unfoldable pub convert : ℕ → ℕ → Converted
unfolding has_meta
convert key kbd_status =
    let temp =
      get_or
        (if has_meta kbd_status kbd_meta_shift
          then scancode_to_ascii_shift
          else if has_meta kbd_status kbd_meta_caps
          then scancode_to_ascii_caps
          else scancode_to_ascii)
        key 0 in
    let salute =
      has_meta kbd_status kbd_meta_ctrl && (has_meta kbd_status kbd_meta_alt && temp == key_del) in
    if leb 0x100 key
    then character 0
    else if leb 0x3B key && leb key 0x46
    then character 0
    else if temp == 0
    then character temp
    else if salute
    then reboot
    else character temp
