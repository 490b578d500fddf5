-- ===== src/Stdio/Printers/Cursor.antt =====
-- A printed escape sequence moves the cursor.
use ktux.Base.{
  ℕ, ◌+◌, ◌-◌, ◌^◌, ◌<◌, ◌≡◌, refl, ap, sym, subst, ◌∙◌, false, List, [], ◌∷◌, ◌++◌, leb, length,
  arith,
}
use mathlib.Core.List.{append_assoc}
use ktux.Base.Run.{ok, ◌>>=◌}
use ktux.Video.Escape.{cursor_sequence}
use ktux.Video.Consoles.{Display}
use ktux.Stdio.Fields.{
  Field, Piece, literal, field, signed_decimal, format, ArePieces, render, justify, content,
}
use ktux.Stdio.Rendered.{send_text, do_printf-renders}
use ktux.Stdio.Printers.{kprintf_help, kprintf}
use ktux.Stdio.Numeral.{numeral}
use ktux.Stdio.Decimal.{numeral-decimal}
use ktux.Stdio.Printers.Shown.{AreAscii, AreAscii-digits, send_text-Shows, shown}

-- `%d`.
abbrev pub number_field : Field
number_field = record { left = false; zeroes = false; wide = []; conversion = signed_decimal }

-- The pieces of the format `"\x1B[%d;%dH"`.
abbrev pub cursor_format : List Piece
cursor_format =
    literal (0x1B ∷ b'[' ∷ [])
    ∷ field number_field
    ∷ literal (b';' ∷ [])
    ∷ field number_field
    ∷ literal (b'H' ∷ [])
    ∷ []

cursor_format-ArePieces : ArePieces cursor_format
cursor_format-ArePieces = (
  ((omega arith), ((omega arith), tt)),
  (tt, (((omega arith), tt), (tt, (((omega arith), tt), tt)))),
)

-- `%d` of a number below 2 ^ 31.
number_field-numeral :
    (strings : ℕ → List ℕ) (w : ℕ)
    → w < 2 ^ 31
    → justify false false 0 (content strings signed_decimal w) ≡ numeral 10 false w
number_field-numeral strings w small =
    let positive : leb (2 ^ 31) w ≡ false = ground arith in
    let none : 0 - (length (numeral 10 false w) + 0) ≡ 0 = omega arith in rw (positive, none) refl

-- The digits of the two numbers in `cursor_format`.
cursor_text : ℕ → ℕ → List ℕ
cursor_text row column =
    (0x1B ∷ b'[' ∷ (numeral 10 false row ++ b';' ∷ numeral 10 false column)) ++ b'H' ∷ []

cursor_format-text :
    (stack : ℕ → ℕ) (strings : ℕ → List ℕ)
    → stack 0 < 2 ^ 31
    → stack 1 < 2 ^ 31
    → render stack strings 0 cursor_format ≡ cursor_text (stack 0) (stack 1)
unfolding cursor_text
cursor_format-text stack strings h h' =
    let first = number_field-numeral strings (stack 0) h in
    let second = number_field-numeral strings (stack 1) h' in
    rw (first, second)
      (ap (λ u. 0x1B ∷ b'[' ∷ u)
        (sym (
          append_assoc (numeral 10 false (stack 0)) (b';' ∷ numeral 10 false (stack 1))
            (b'H' ∷ []))))

-- `kprintf("\x1B[%d;%dH", row, column)`, outside other escape sequences and for a place on a screen of
-- less than 2 ^ 31 rows and columns, moves the cursor of the current console there, and changes
-- nothing else of that console and no cell.
kprintf-cursor :
    (stack : ℕ → ℕ) (strings : ℕ → List ℕ) (d : Display)
    → ((a : ℕ) → stack a < 2 ^ 32)
    → (d.vc d.curr_vc).esc ≡ 0
    → d.height < 2 ^ 31
    → d.width < 2 ^ 31
    → stack 0 < d.height
    → stack 1 < d.width
    → (d' : Display) × (kprintf stack strings (format cursor_format) d ≡ ok d')
      × (d'.curr_vc ≡ d.curr_vc)
      × (shown d' ≡ record {
        con = record (d.vc d.curr_vc) {
          esc = 0;
          esc1 = stack 0;
          esc2 = stack 1;
          csr_x = stack 1;
          csr_y = stack 0;
        };
        cells = d.cells;
      })
unfolding kprintf cursor_text
kprintf-cursor stack strings d words ground_state h w row column =
    let t = cursor_text (stack 0) (stack 1) in
    let text = cursor_format-text stack strings (omega arith) (omega arith) in
    let (are, value) = numeral-decimal (stack 0) (words 0) in
    let (are', value') = numeral-decimal (stack 1) (words 1) in
    let ascii : AreAscii t = (
      omega arith,
      (
        omega arith,
        subst AreAscii
            (sym (
              append_assoc (numeral 10 false (stack 0)) (b';' ∷ numeral 10 false (stack 1))
                (b'H' ∷ [])))
            (AreAscii-digits (numeral 10 false (stack 0)) _ are
              (omega arith, AreAscii-digits (numeral 10 false (stack 1)) _ are' (omega arith, tt))),
      ),
    ) in
    let (curr, s) = send_text-Shows t d ascii in
    let moved =
      cursor_sequence d.width d.height (shown d) (numeral 10 false (stack 0))
        (numeral 10 false (stack 1)) ground_state are are' (omega arith) (omega arith)
        (rw value row) (rw value' column) in
    (
      send_text kprintf_help t d,
      ap (λ r. r >>= λ r. ok r.1)
            (do_printf-renders kprintf_help stack strings cursor_format d cursor_format-ArePieces
              words)
          ∙ ap (λ u. ok (send_text kprintf_help u d)) text,
      curr,
      s ∙ moved ∙ rw (value, value') refl,
    )
