-- ===== src/Video/Tests.antt =====
-- A display of two consoles of 3 rows and 16 columns.
use ktux.Base.{ℕ, ◌+◌, ◌*◌, ◌≡◌, refl, List, [], ◌∷◌, ◌++◌, arith}
use ktux.Video.{Console, Screen, putch_help}
use ktux.Video.Place.{IsPlaced}
use ktux.Video.Escape.{AreDigits, put_text, cursor_sequence}
use ktux.Video.Outside.{putch_help-outside}
use ktux.Video.Consoles.{Display, putch_to, get_csr_x, move_cursor, blink}
use ktux.Video.Consoles.Isolation.{IsLaidOut, putch_to-Isolated, putch_to-IsLaidOut}

abbrev console_at : ℕ → Console
console_at fb = record {
  esc = 0;
  attrib = 7;
  csr_x = 3;
  csr_y = 2;
  esc1 = 0;
  esc2 = 0;
  esc3 = 0;
  fb_adr = fb;
}

abbrev letters : ℕ → ℕ
letters q = 0x700 + q

abbrev screen : Screen
screen = record { con = console_at 48; cells = letters }

abbrev display : Display
display = record {
  width = 16;
  height = 3;
  crtc_io_adr = 0x3D4;
  vc = λ k. console_at (k * 48);
  num_vcs = 2;
  curr_vc = 0;
  cells = letters;
  ports = [];
}

screen-IsPlaced : IsPlaced 16 3 (console_at 48)
screen-IsPlaced = record { column = omega arith; row = omega arith; state = omega arith }

display-IsLaidOut : IsLaidOut display
display-IsLaidOut = record {
  columns = omega arith;
  rows = omega arith;
  tabs = refl;
  narrow = omega arith;
  low = omega arith;
  fits = omega arith;
  screens = λ k h. refl;
  cursors = λ k h. record { column = omega arith; row = omega arith; state = omega arith };
}

abbrev one_two : List ℕ
one_two = b'1' ∷ b'2' ∷ []

abbrev one : List ℕ
one = b'1' ∷ []

one-AreDigits : AreDigits one
one-AreDigits = (omega arith, (omega arith, tt))

one_two-AreDigits : AreDigits one_two
one_two-AreDigits = (omega arith, (omega arith, (omega arith, (omega arith, tt))))

cursor_sequence_example :
    put_text 16 3 screen ((0x1B ∷ b'[' ∷ (one ++ b';' ∷ one_two)) ++ b'H' ∷ []) ≡ record screen {
      con = record (console_at 48) { esc = 0; esc1 = 1; esc2 = 12; csr_x = 12; csr_y = 1 };
    }
cursor_sequence_example =
    cursor_sequence 16 3 screen one one_two refl one-AreDigits one_two-AreDigits (omega arith)
      (omega arith) (omega arith) (omega arith)

putch_help-outside_example : (putch_help 16 3 screen 0x09).0.cells 47 ≡ letters 47
putch_help-outside_example =
    putch_help-outside 16 3 (omega arith) 47 screen 0x09 screen-IsPlaced (omega arith) (omega arith)
      (omega arith) (omega arith) refl (omega arith)

putch_to-Isolated_example :
    ((putch_to 0 0x0A display).vc 1 ≡ console_at 48)
    × ((putch_to 0 0x0A display).cells (48 + 5) ≡ letters (48 + 5))
putch_to-Isolated_example =
    putch_to-Isolated 0 0x0A display display-IsLaidOut (omega arith) 1 5 (omega arith) (omega arith)
      (omega arith)

putch_to-IsLaidOut_example : IsLaidOut (putch_to 1 0x09 display)
putch_to-IsLaidOut_example = putch_to-IsLaidOut 1 0x09 display display-IsLaidOut (omega arith)

-- The cursor's column is read back, and `blink` wraps within the first byte.
column_back : get_csr_x (move_cursor 9 1 display) ≡ 9
unfolding get_csr_x move_cursor
column_back = refl

blink_wraps : (blink (record display { cells = λ _. 0x7FF })).cells 0 ≡ 0x700
unfolding blink
blink_wraps = refl
