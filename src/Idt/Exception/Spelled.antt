-- ===== src/Idt/Exception/Spelled.antt =====
-- The formats of `exception_handler` as pieces, and its messages.
use ktux.Base.{
  ℕ, zero, suc, ◌^◌, ◌≡◌, refl, Bool, true, false, ◌&&◌, List, [], ◌∷◌, ◌==◌, if_both, get_or,
  AllBelow, arith,
}
use ktux.Stdio.Fields.{Piece, literal, field, upper_hex, signed_decimal, IsLiteral}
use ktux.Stdio.Formats.{no_percent, are_pieces, IsLiteral-no_percent, ArePieces-are_pieces}
use ktux.Stdio.Calls.{AreCalls}
use ktux.Idt.Exception.{Regs}
use ktux.Idt.Exception.Texts.{int_unhandled, panics, panic_of}

abbrev exception_pieces : List Piece
exception_pieces =
    literal (
      0x0A ∷ b'u' ∷ b'n' ∷ b'h' ∷ b'a' ∷ b'n' ∷ b'd' ∷ b'l' ∷ b'e' ∷ b'd' ∷ b' ' ∷ b'e' ∷ b'x'
      ∷ b'c' ∷ b'e' ∷ b'p' ∷ b't' ∷ b'i' ∷ b'o' ∷ b'n' ∷ b' ' ∷ [])
    ∷ field (record { left = false; zeroes = false; wide = []; conversion = signed_decimal })
    ∷ literal (b' ' ∷ b'a' ∷ b't' ∷ b' ' ∷ [])
    ∷ field (record { left = false; zeroes = true; wide = b'4' ∷ []; conversion = upper_hex })
    ∷ literal (b':' ∷ [])
    ∷ field (record { left = false; zeroes = true; wide = b'8' ∷ []; conversion = upper_hex })
    ∷ literal (0x0A ∷ [])
    ∷ []

abbrev general_pieces : List Piece
general_pieces =
    literal (b'E' ∷ b'A' ∷ b'X' ∷ b'=' ∷ [])
    ∷ field (record { left = false; zeroes = true; wide = b'8' ∷ []; conversion = upper_hex })
    ∷ literal (b' ' ∷ b'E' ∷ b'B' ∷ b'X' ∷ b'=' ∷ [])
    ∷ field (record { left = false; zeroes = true; wide = b'8' ∷ []; conversion = upper_hex })
    ∷ literal (b' ' ∷ b'E' ∷ b'C' ∷ b'X' ∷ b'=' ∷ [])
    ∷ field (record { left = false; zeroes = true; wide = b'8' ∷ []; conversion = upper_hex })
    ∷ literal (b' ' ∷ b'E' ∷ b'D' ∷ b'X' ∷ b'=' ∷ [])
    ∷ field (record { left = false; zeroes = true; wide = b'8' ∷ []; conversion = upper_hex })
    ∷ literal (0x0A ∷ [])
    ∷ []

abbrev index_pieces : List Piece
index_pieces =
    literal (b'E' ∷ b'S' ∷ b'I' ∷ b'=' ∷ [])
    ∷ field (record { left = false; zeroes = true; wide = b'8' ∷ []; conversion = upper_hex })
    ∷ literal (b' ' ∷ b'E' ∷ b'D' ∷ b'I' ∷ b'=' ∷ [])
    ∷ field (record { left = false; zeroes = true; wide = b'8' ∷ []; conversion = upper_hex })
    ∷ literal (b' ' ∷ b'E' ∷ b'B' ∷ b'P' ∷ b'=' ∷ [])
    ∷ field (record { left = false; zeroes = true; wide = b'8' ∷ []; conversion = upper_hex })
    ∷ literal (b' ' ∷ b'E' ∷ b'S' ∷ b'P' ∷ b'=' ∷ [])
    ∷ field (record { left = false; zeroes = true; wide = b'8' ∷ []; conversion = upper_hex })
    ∷ literal (0x0A ∷ [])
    ∷ []

abbrev segment_pieces : List Piece
segment_pieces =
    literal (b' ' ∷ b'D' ∷ b'S' ∷ b'=' ∷ [])
    ∷ field (record { left = false; zeroes = true; wide = b'4' ∷ []; conversion = upper_hex })
    ∷ literal (b' ' ∷ b' ' ∷ b'E' ∷ b'S' ∷ b'=' ∷ [])
    ∷ field (record { left = false; zeroes = true; wide = b'4' ∷ []; conversion = upper_hex })
    ∷ literal (b' ' ∷ b' ' ∷ b'F' ∷ b'S' ∷ b'=' ∷ [])
    ∷ field (record { left = false; zeroes = true; wide = b'4' ∷ []; conversion = upper_hex })
    ∷ literal (b' ' ∷ b' ' ∷ b'G' ∷ b'S' ∷ b'=' ∷ [])
    ∷ field (record { left = false; zeroes = true; wide = b'4' ∷ []; conversion = upper_hex })
    ∷ literal (b' ' ∷ b' ' ∷ [])
    ∷ []

abbrev eflags_pieces : List Piece
eflags_pieces =
    literal (b'E' ∷ b'F' ∷ b'L' ∷ b'A' ∷ b'G' ∷ b'S' ∷ b'=' ∷ [])
    ∷ field (record { left = false; zeroes = true; wide = b'8' ∷ []; conversion = upper_hex })
    ∷ literal (0x0A ∷ [])
    ∷ []

abbrev stack_pieces : List Piece
stack_pieces = literal (b'S' ∷ b'T' ∷ b'A' ∷ b'C' ∷ b'K' ∷ b':' ∷ 0x0A ∷ []) ∷ []

abbrev pub word_pieces : List Piece
word_pieces =
    literal (b'0' ∷ b'x' ∷ [])
    ∷ field (record { left = false; zeroes = true; wide = b'8' ∷ []; conversion = upper_hex })
    ∷ literal (b' ' ∷ b'=' ∷ b' ' ∷ [])
    ∷ field (record { left = false; zeroes = true; wide = b'8' ∷ []; conversion = upper_hex })
    ∷ []

abbrev pub tos_pieces : List Piece
tos_pieces =
    literal (
      b' ' ∷ b'<' ∷ b'=' ∷ b'=' ∷ b'=' ∷ b' ' ∷ b'[' ∷ b' ' ∷ b'T' ∷ b'O' ∷ b'S' ∷ b' ' ∷ b']' ∷ [])
    ∷ []

unfoldable pub register_list : Regs → List (List Piece × List ℕ)
register_list r =
    (exception_pieces, r.interrupt_num ∷ r.cs ∷ r.eip ∷ [])
    ∷ (general_pieces, r.eax ∷ r.ebx ∷ r.ecx ∷ r.edx ∷ [])
    ∷ (index_pieces, r.esi ∷ r.edi ∷ r.ebp ∷ r.esp ∷ [])
    ∷ (segment_pieces, r.ds ∷ r.es ∷ r.fs ∷ r.gs ∷ [])
    ∷ (eflags_pieces, r.eflags ∷ [])
    ∷ (stack_pieces, [])
    ∷ []

-- Every register is a machine word.
abbrev pub AreWords : Regs → Type 0
AreWords r = AllBelow (2 ^ 32) (
    r.interrupt_num ∷ r.cs ∷ r.eip ∷ r.eax ∷ r.ebx ∷ r.ecx ∷ r.edx ∷ r.esi ∷ r.edi ∷ r.ebp ∷ r.esp
    ∷ r.ds ∷ r.es ∷ r.fs ∷ r.gs ∷ r.eflags ∷ [])

pub register_list-AreCalls : (r : Regs) → AreWords r → AreCalls (register_list r)
unfolding register_list are_pieces no_percent
register_list-AreCalls r
      (n, (cs, (ip, (a, (b, (c, (d, (si, (di, (bp, (sp, (ds, (es, (fs, (gs, (fl, _)))))))))))))))) =
    (
      ArePieces-are_pieces exception_pieces refl,
      (
        (n, (cs, (ip, tt))),
        (
          ArePieces-are_pieces general_pieces refl,
          (
            (a, (b, (c, (d, tt)))),
            (
              ArePieces-are_pieces index_pieces refl,
              (
                (si, (di, (bp, (sp, tt)))),
                (
                  ArePieces-are_pieces segment_pieces refl,
                  (
                    (ds, (es, (fs, (gs, tt)))),
                    (
                      ArePieces-are_pieces eflags_pieces refl,
                      ((fl, tt), (ArePieces-are_pieces stack_pieces refl, (tt, tt))),
                    ),
                  ),
                ),
              ),
            ),
          ),
        ),
      ),
    )

-- The messages are plain texts.
all_plain : List (Bool × List ℕ) → Bool
all_plain [] = true
all_plain (c ∷ cs) = no_percent c.1 && all_plain cs

get_or-plain :
    (cs : List (Bool × List ℕ)) (i : ℕ) (c : Bool × List ℕ)
    → all_plain cs ≡ true
    → no_percent c.1 ≡ true
    → no_percent (get_or cs i c).1 ≡ true
unfolding all_plain
get_or-plain [] i c e p = p
get_or-plain (x ∷ cs) zero c e p = ground arith
get_or-plain (x ∷ cs) (suc i) c e p = get_or-plain cs i c (ground arith) p

pub panic_of-IsLiteral : (num : ℕ) → IsLiteral (panic_of num).1
unfolding panic_of panics all_plain no_percent
panic_of-IsLiteral num = IsLiteral-no_percent (panic_of num).1 (
    if_both (λ (c : Bool × List ℕ). no_percent c.1 ≡ true) (num == int_unhandled) refl
      (get_or-plain panics num _ refl refl))
