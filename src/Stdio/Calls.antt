-- ===== src/Stdio/Calls.antt =====
-- Calls of `kprintf` one after the other, each with its format and its arguments.
use ktux.Base.{
  ℕ, ◌^◌, ◌≡◌, refl, ap, sym, ◌∙◌, List, [], ◌∷◌, ◌++◌, AllBelow, get_or-AllBelow, arith,
}
use ktux.Base.Run.{Run, ok, ◌>>=◌}
use ktux.Video.Consoles.{Display}
use ktux.Stdio.Fields.{Piece, format, ArePieces, render}
use ktux.Stdio.Rendered.{send_text, send_text-append}
use ktux.Stdio.Printers.{words, kprintf_help, kprintf}
use ktux.Stdio.Printers.Shown.{kprintf-renders}

unfoldable pub kprintf_all : (ℕ → List ℕ) → List (List ℕ × List ℕ) → Display → Run Display
unfolding kprintf
kprintf_all strings [] d = ok d
kprintf_all strings (c ∷ calls) d = kprintf (words c.1) strings c.0 d >>= kprintf_all strings calls

-- The calls whose formats are given as pieces.
abbrev pub calls_of : List (List Piece × List ℕ) → List (List ℕ × List ℕ)
calls_of [] = []
calls_of (c ∷ cs) = (format c.0, c.1) ∷ calls_of cs

abbrev pub AreCalls : List (List Piece × List ℕ) → Type 0
AreCalls [] = Unit
AreCalls (c ∷ cs) = ArePieces c.0 × (AllBelow (2 ^ 32) c.1 × AreCalls cs)

abbrev pub calls_text : (ℕ → List ℕ) → List (List Piece × List ℕ) → List ℕ
calls_text strings [] = []
calls_text strings (c ∷ cs) = render (words c.1) strings 0 c.0 ++ calls_text strings cs

-- They print their texts.
pub kprintf_all-text :
    (strings : ℕ → List ℕ) (cs : List (List Piece × List ℕ)) (d : Display)
    → AreCalls cs
    → kprintf_all strings (calls_of cs) d ≡ ok (send_text kprintf_help (calls_text strings cs) d)
unfolding kprintf_all
kprintf_all-text strings [] d p = refl
kprintf_all-text strings (c ∷ cs) d (pieces, (small, p)) =
    let t = render (words c.1) strings 0 c.0 in
    ap (λ r. r >>= kprintf_all strings (calls_of cs))
      (kprintf-renders (words c.1) strings c.0 d pieces
        (λ a. get_or-AllBelow (2 ^ 32) 0 a c.1 small (omega arith)))
    ∙ kprintf_all-text strings cs (send_text kprintf_help t d) p
    ∙ ap ok (sym (send_text-append kprintf_help t (calls_text strings cs) d))
