-- ===== src/Video.antt =====
-- src/kernel/video.c and src/include/video.h: the virtual consoles.
--
-- The frame buffer is a memory of 16-bit cells, counted from `_vga_fb_adr`, and `fb_adr` of a
-- console is the number of its first cell. The copy of `scroll` is given in cells, two bytes each.
pub mod Step
pub mod Place
pub mod Escape
pub mod Outside
pub mod Kept
pub mod Consoles
mod Tests
use ktux.Base.{
  ℕ, zero, suc, ◌+◌, ◌-◌, ◌*◌, ◌/◌, ◌%◌, ◌^◌, Bool, true, false, ◌&&◌, List, [], ◌∷◌, ltb, leb,
  ◌==◌, if◌then◌else◌, get_or, set, write, bit_and, bit_or, add32, sub32, mul32,
}
use ktux.Strings.{memcpy, memsetw}

pub record Console : Type 0 where
  pub esc : ℕ
  pub attrib : ℕ
  pub csr_x : ℕ
  pub csr_y : ℕ
  pub esc1 : ℕ
  pub esc2 : ℕ
  pub esc3 : ℕ
  pub fb_adr : ℕ

-- A console and the frame buffer that it writes to.
pub record Screen : Type 0 where
  pub con : Console
  pub cells : ℕ → ℕ

-- `isdigit` of include/ctype.h.
unfoldable pub is_digit : ℕ → Bool
is_digit c = leb b'0' c && leb c b'9'

abbrev pub ansi_to_vga : List ℕ
ansi_to_vga = 0 ∷ 4 ∷ 2 ∷ 6 ∷ 1 ∷ 5 ∷ 3 ∷ 7 ∷ []

-- `set_attrib`, on the attribute alone. `~0x08`, `~0x07` and `~0x70` are 32-bit masks.
unfoldable pub new_attrib : ℕ → ℕ → ℕ
new_attrib attrib att =
    if att == 0
    then bit_and attrib 0xFFFFFFF7
    else if att == 1
    then bit_or attrib 0x08
    else if leb 30 att && leb att 37
    then bit_or (bit_and attrib 0xFFFFFFF8) (get_or ansi_to_vga (att - 30) 0)
    else if leb 40 att && leb att 47
    then bit_or (bit_and attrib 0xFFFFFF8F) (get_or ansi_to_vga (att - 40) 0 * 16)
    else attrib

unfoldable pub set_attrib : Console → ℕ → Console
unfolding new_attrib
set_attrib con att = record con { attrib = new_attrib con.attrib att }

-- `(unsigned)con->attrib << 8`.
abbrev pub att_of : Console → ℕ
att_of con = mul32 con.attrib 256

-- One more digit of a numeric argument.
unfoldable pub add_digit : ℕ → ℕ → ℕ
add_digit n c = sub32 (add32 (mul32 n 10) c) b'0'

module _ (width height : ℕ) where
  -- The cell under the cursor.
  unfoldable pub cell_index : Console → ℕ
  cell_index con = con.fb_adr + add32 (mul32 con.csr_y width) con.csr_x

  -- `*where = value`, for an `unsigned short *where`.
  unfoldable pub put_cell : ℕ → Screen → Screen
  unfolding cell_index
  put_cell value s = record s { cells = write s.cells (cell_index s.con) (value % 2 ^ 16) }

  unfoldable pub scroll : Screen → Screen
  scroll s =
      let con = s.con in
      let temp = add32 (sub32 con.csr_y height) 1 in
      let rows = mul32 (sub32 height temp) width in
      if leb height con.csr_y
      then record {
        con = record con { csr_y = sub32 height 1 };
        cells =
            memsetw (con.fb_adr + rows) (bit_or 0x20 (att_of con)) width
              (memcpy con.fb_adr (con.fb_adr + mul32 temp width) rows s.cells);
      }
      else s

  -- `while (con->csr_x != eot)`: as many rounds as the unsigned difference.
  unfoldable pub tab_loop : ℕ → Screen → Screen
  unfolding put_cell
  tab_loop zero s = s
  tab_loop (suc rounds) s =
      let s' = put_cell (bit_or 0x20 (att_of s.con)) s in
      tab_loop rounds (record s' { con = record (s'.con) { csr_x = add32 s'.con.csr_x 1 } })

  -- `(con->csr_x + 8) & ~(8 - 1)`, kept in an `unsigned short`.
  unfoldable pub end_of_tab : ℕ → ℕ
  end_of_tab x = bit_and (add32 x 8) 0xFFFFFFF8 % 2 ^ 16

  -- The characters that are not part of an escape sequence, and are not ESC.
  unfoldable pub put_plain : ℕ → Screen → Screen
  unfolding tab_loop put_cell end_of_tab
  put_plain c s =
      let con = s.con in
      let newline = record con { csr_x = 0; csr_y = add32 con.csr_y 1 } in
      let back = record con { csr_x = sub32 con.csr_x 1 } in
      let printed = put_cell (bit_or c (att_of con)) s in
      if c == 0x08
      then if con.csr_x == 0
        then s
        else put_cell (bit_or 0x20 (att_of con)) (record s { con = back })
      else if c == 0x09
      then tab_loop (sub32 (end_of_tab con.csr_x) con.csr_x) s
      else if c == 0x0D
      then record s { con = record con { csr_x = 0 } }
      else if c == 0x0A
      then record s { con = newline }
      else if leb 0x20 c
      then record printed { con = record con { csr_x = add32 con.csr_x 1 } }
      else s

  -- The end of the line, and of the screen.
  unfoldable pub wrap : Screen → Screen
  wrap s =
      let con = s.con in
      if leb width con.csr_x
      then record s { con = record con { csr_x = 0; csr_y = add32 con.csr_y 1 } }
      else s

  -- A character outside escape sequences; true where `putch_help` reaches its end, and moves the
  -- hardware cursor if the console is the current one.
  unfoldable pub put_char : ℕ → Screen → Screen × Bool
  unfolding put_plain wrap scroll
  put_char c s =
      let s' = record s { con = record (s.con) { esc = 0 } } in
      if c == 0x1B
      then (record s { con = record (s.con) { esc = 1 } }, false)
      else (scroll (wrap (put_plain c s')), true)

  -- Behind `ESC[`.
  unfoldable pub put_esc2 : ℕ → Screen → Screen
  unfolding is_digit add_digit set_attrib
  put_esc2 c s =
      let con = s.con in
      if is_digit c
      then record s { con = record con { esc1 = add_digit con.esc1 c } }
      else if c == b';'
      then record s { con = record con { esc = 3; esc2 = 0 } }
      else if c == b'J'
      then if con.esc1 == 2
        then record {
          con = record con { csr_x = 0; csr_y = 0; esc = 0 };
          cells = memsetw con.fb_adr (bit_or 0x20 (att_of con)) (mul32 height width) s.cells;
        }
        else record s { con = record con { esc = 0 } }
      else if c == b'm'
      then record s { con = record (set_attrib con con.esc1) { esc = 0 } }
      else record s { con = record con { esc = 0 } }

  -- Behind `ESC[num1;`.
  unfoldable pub put_esc3 : ℕ → Screen → Screen
  unfolding is_digit add_digit set_attrib
  put_esc3 c s =
      let con = s.con in
      if is_digit c
      then record s { con = record con { esc2 = add_digit con.esc2 c } }
      else if c == b';'
      then record s { con = record con { esc = 4; esc3 = 0 } }
      else if c == b'H'
      then record s {
        con = record con {
          csr_x = if ltb con.esc2 width then con.esc2 else con.csr_x;
          csr_y = if ltb con.esc1 height then con.esc1 else con.csr_y;
          esc = 0;
        };
      }
      else if c == b'm'
      then record s { con = record (set_attrib (set_attrib con con.esc1) con.esc2) { esc = 0 } }
      else record s { con = record con { esc = 0 } }

  -- Behind `ESC[num1;num2;`.
  unfoldable pub put_esc4 : ℕ → Screen → Screen
  unfolding is_digit add_digit set_attrib
  put_esc4 c s =
      let con = s.con in
      if is_digit c
      then record s { con = record con { esc3 = add_digit con.esc3 c } }
      else if c == b'm'
      then record s {
        con = record (set_attrib (set_attrib (set_attrib con con.esc1) con.esc2) con.esc3) {
          esc = 0;
        };
      }
      else record s { con = record con { esc = 0 } }

  -- `putch_help`, up to its call of `move_csr`.
  unfoldable pub putch_help : Screen → ℕ → Screen × Bool
  unfolding put_char put_esc2 put_esc3 put_esc4
  putch_help s c =
      let con = s.con in
      if con.esc == 1
      then if c == b'['
        then (record s { con = record con { esc = 2; esc1 = 0 } }, false)
        else put_char c s
      else if con.esc == 2
      then (put_esc2 c s, false)
      else if con.esc == 3
      then (put_esc3 c s, false)
      else if con.esc == 4
      then (put_esc4 c s, false)
      else put_char c s
