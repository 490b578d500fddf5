-- ===== src/Stdio/Formats.antt =====
-- A test of pieces, for the formats that the code spells out.
use ktux.Base.{
  ℕ, ◌^◌, ◌≡◌, refl, inl, inr, Bool, true, false, ◌&&◌, ◌||◌, not, List, [], ◌∷◌, ltb, leb, ◌==◌,
  arith,
}
use ktux.Video.Escape.{AreDigits, number_from}
use ktux.Stdio.Fields.{Piece, literal, percent_sign, field, IsLiteral, HasWidth, IsPiece, ArePieces}

unfoldable pub no_percent : List ℕ → Bool
no_percent [] = true
no_percent (c ∷ t) = not (c == b'%') && no_percent t

pub IsLiteral-no_percent : (t : List ℕ) → no_percent t ≡ true → IsLiteral t
unfolding no_percent
IsLiteral-no_percent [] e = tt
IsLiteral-no_percent (c ∷ t) e = (ground arith, IsLiteral-no_percent t (ground arith))

are_digits : List ℕ → Bool
are_digits [] = true
are_digits (c ∷ s) = leb b'0' c && leb c b'9' && are_digits s

AreDigits-are_digits : (s : List ℕ) → are_digits s ≡ true → AreDigits s
unfolding are_digits
AreDigits-are_digits [] e = tt
AreDigits-are_digits (c ∷ s) e =
    (ground arith, (ground arith, AreDigits-are_digits s (ground arith)))

has_width : Bool → List ℕ → Bool
has_width zeroes [] = true
has_width zeroes (c ∷ s) =
    (zeroes || not (c == b'0')) && (are_digits (c ∷ s) && ltb (number_from 0 (c ∷ s)) (2 ^ 28))

HasWidth-has_width : (zeroes : Bool) (s : List ℕ) → has_width zeroes s ≡ true → HasWidth zeroes s
unfolding has_width
HasWidth-has_width zeroes [] e = tt
HasWidth-has_width true (c ∷ s) e =
    (inl refl, (AreDigits-are_digits (c ∷ s) (ground arith), ground arith))
HasWidth-has_width false (c ∷ s) e =
    (inr (ground arith), (AreDigits-are_digits (c ∷ s) (ground arith), ground arith))

is_piece : Piece → Bool
is_piece (literal t) = no_percent t
is_piece percent_sign = true
is_piece (field f) = has_width f.zeroes f.wide

unfoldable pub are_pieces : List Piece → Bool
unfolding is_piece no_percent has_width are_digits
are_pieces [] = true
are_pieces (p ∷ ps) = is_piece p && are_pieces ps

IsPiece-is_piece : (p : Piece) → is_piece p ≡ true → IsPiece p
unfolding is_piece
IsPiece-is_piece (literal t) e = IsLiteral-no_percent t e
IsPiece-is_piece percent_sign e = tt
IsPiece-is_piece (field f) e = HasWidth-has_width f.zeroes f.wide e

pub ArePieces-are_pieces : (ps : List Piece) → are_pieces ps ≡ true → ArePieces ps
unfolding are_pieces
ArePieces-are_pieces [] e = tt
ArePieces-are_pieces (p ∷ ps) e =
    (IsPiece-is_piece p (ground arith), ArePieces-are_pieces ps (ground arith))
