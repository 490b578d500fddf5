-- ===== src/Stdio/Tests.antt =====
-- Formats at concrete inputs: `"id %-4u|%03d%%"`, the message of a console, and a cursor.
use ktux.Base.{
  ℕ, ◌^◌, ◌<◌, ◌≡◌, refl, true, false, List, [], ◌∷◌, ◌++◌, ◌==◌, if◌then◌else◌, inl, inr, ◌*◌,
  arith,
}
use ktux.Base.Run.{ok, fault}
use ktux.Video.Consoles.{Display}
use ktux.Video.Consoles.Isolation.{IsLaidOut}
use ktux.Stdio.{do_printf, to_digits}
use ktux.Stdio.Fields.{
  Piece, literal, percent_sign, field, decimal, signed_decimal, format, ArePieces, render,
}
use ktux.Stdio.Numeral.{numeral_in}
use ktux.Stdio.Rendered.{send_text, do_printf-renders, do_printf-runs_over}
use ktux.Stdio.Printers.{vsprintf}
use ktux.Stdio.Printers.Buffer.{Holds, vsprintf-Holds}

-- 7, and then -5.
abbrev stack : ℕ → ℕ
stack a = if a == 1 then 4294967291 else 7

stack-small : (a : ℕ) → stack a < 2 ^ 32
stack-small a = ground arith

abbrev strings : ℕ → List ℕ
strings _ = []

abbrev pieces : List Piece
pieces =
    literal (b'i' ∷ b'd' ∷ b' ' ∷ [])
    ∷ field (record { left = true; zeroes = false; wide = b'4' ∷ []; conversion = decimal })
    ∷ literal (b'|' ∷ [])
    ∷ field (record { left = false; zeroes = true; wide = b'3' ∷ []; conversion = signed_decimal })
    ∷ percent_sign
    ∷ []

pieces-ArePieces : ArePieces pieces
pieces-ArePieces = (
  (omega arith, (omega arith, (omega arith, tt))),
  (
    (inr (omega arith), ((omega arith, (omega arith, tt)), omega arith)),
    ((omega arith, tt), ((inl refl, ((omega arith, (omega arith, tt)), omega arith)), (tt, tt))),
  ),
)

abbrev take_char : ℕ → List ℕ → List ℕ
take_char c s = s ++ c ∷ []

rendered :
    render stack strings 0 pieces
    ≡ b'i' ∷ b'd' ∷ b' ' ∷ b'7' ∷ b' ' ∷ b' ' ∷ b' ' ∷ b'|' ∷ b'-' ∷ b'0' ∷ b'5' ∷ b'%' ∷ []
unfolding to_digits numeral_in
rendered = refl

do_printf-renders_example :
    do_printf take_char stack strings (format pieces) []
    ≡ ok (12, send_text take_char (render stack strings 0 pieces) [])
unfolding to_digits numeral_in
do_printf-renders_example =
    do_printf-renders take_char stack strings pieces [] pieces-ArePieces stack-small

do_printf-runs_over_example :
    (do_printf take_char stack strings (b'5' ∷ b'0' ∷ b'%' ∷ []) [] ≡ fault)
    × (do_printf take_char stack strings (b'5' ∷ b'0' ∷ b'%' ∷ b'0' ∷ []) [] ≡ fault)
do_printf-runs_over_example =
    do_printf-runs_over take_char stack strings (b'5' ∷ b'0' ∷ []) []
      (omega arith, (omega arith, tt))

vsprintf-Holds_example :
    (after : ℕ → ℕ) × (vsprintf stack strings 0x1000 (format pieces) (λ _. 0xCC) ≡ ok (12, after))
    × Holds 0x1000 (render stack strings 0 pieces ++ 0 ∷ []) (λ _. 0xCC) after
unfolding to_digits numeral_in
vsprintf-Holds_example =
    vsprintf-Holds stack strings pieces 0x1000 (λ _. 0xCC) pieces-ArePieces stack-small
      (omega arith)

-- Two consoles of 3 rows and 16 columns.
abbrev two_consoles : Display
two_consoles = record {
  width = 16;
  height = 3;
  crtc_io_adr = 0x3D4;
  vc = λ k. record {
    esc = 0;
    attrib = 7;
    csr_x = 0;
    csr_y = 0;
    esc1 = 0;
    esc2 = 0;
    esc3 = 0;
    fb_adr = k * 48;
  };
  num_vcs = 2;
  curr_vc = 1;
  cells = λ _. 0x720;
  ports = [];
}

two_consoles-IsLaidOut : IsLaidOut two_consoles
two_consoles-IsLaidOut = record {
  columns = omega arith;
  rows = omega arith;
  tabs = refl;
  narrow = omega arith;
  low = omega arith;
  fits = omega arith;
  screens = λ k h. refl;
  cursors = λ k h. record { column = omega arith; row = omega arith; state = omega arith };
}

abbrev place : ℕ → ℕ
place a = if a == 0 then 2 else 11

place-small : (a : ℕ) → place a < 2 ^ 32
place-small a = ground arith
