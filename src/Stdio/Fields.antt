-- ===== src/Stdio/Fields.antt =====
-- What a format means: a list of literal texts and fields, and the text that they stand for.
use ktux.Base.{
  ℕ, ◌+◌, ◌-◌, ◌%◌, ◌^◌, ◌<◌, ◌≡◌, ◌≢◌, ◌⊎◌, Bool, true, false, ◌&&◌, List, [], ◌∷◌, ◌++◌, leb,
  ◌==◌, if◌then◌else◌, replicate, length,
}
use ktux.Video.Escape.{AreDigits, number_from}
use ktux.Stdio.Numeral.{numeral}

pub data Conversion : Type 0 where
  upper_hex lower_hex signed_decimal decimal octal one_char string : Conversion

-- `%`, its flags, the digits of its width, and its conversion.
pub record Field : Type 0 where
  pub left : Bool
  pub zeroes : Bool
  pub wide : List ℕ
  pub conversion : Conversion

pub data Piece : Type 0 where
  literal : List ℕ → Piece
  percent_sign : Piece
  field : Field → Piece

abbrev pub letter : Conversion → ℕ
letter upper_hex = b'X'
letter lower_hex = b'x'
letter signed_decimal = b'd'
letter decimal = b'u'
letter octal = b'o'
letter one_char = b'c'
letter string = b's'

abbrev pub flag_text : Bool → ℕ → List ℕ
flag_text true c = c ∷ []
flag_text false c = []

-- The field behind its `%`.
abbrev pub spelled : Field → List ℕ
spelled f =
    flag_text f.left b'-' ++ (flag_text f.zeroes b'0' ++ (f.wide ++ letter f.conversion ∷ []))

abbrev pub format : List Piece → List ℕ
format [] = []
format (literal t ∷ ps) = t ++ format ps
format (percent_sign ∷ ps) = b'%' ∷ b'%' ∷ format ps
format (field f ∷ ps) = b'%' ∷ (spelled f ++ format ps)

-- A text without `%`.
abbrev pub IsLiteral : List ℕ → Type 0
IsLiteral [] = Unit
IsLiteral (c ∷ t) = (c ≢ b'%') × IsLiteral t

-- The width is a decimal number that fits a word, and does not start like the flag for zeroes.
abbrev pub HasWidth : Bool → List ℕ → Type 0
HasWidth zeroes [] = Unit
HasWidth zeroes (c ∷ s) =
    ((zeroes ≡ true) ⊎ (c ≢ b'0')) × (AreDigits (c ∷ s) × (number_from 0 (c ∷ s) < 2 ^ 28))

abbrev pub IsPiece : Piece → Type 0
IsPiece (literal t) = IsLiteral t
IsPiece percent_sign = Unit
IsPiece (field f) = HasWidth f.zeroes f.wide

abbrev pub ArePieces : List Piece → Type 0
ArePieces [] = Unit
ArePieces (p ∷ ps) = IsPiece p × ArePieces ps

-- A sign, the text behind it, and the columns that the text counts for.
pub record Content : Type 0 where
  pub negative : Bool
  pub chars : List ℕ
  pub columns : ℕ

abbrev pub plain : List ℕ → Content
plain t = record { negative = false; chars = t; columns = length t }

abbrev pub sign_of : ℕ → Content
sign_of w =
    let t = numeral 10 false (if leb (2 ^ 31) w then 2 ^ 32 - w else w) in
    record { negative = leb (2 ^ 31) w; chars = t; columns = length t }

-- The content of a field whose argument is the word `w`; a NUL as a character prints nothing, and
-- counts for a column.
abbrev pub content : (ℕ → List ℕ) → Conversion → ℕ → Content
content strings upper_hex w = plain (numeral 16 true w)
content strings lower_hex w = plain (numeral 16 false w)
content strings signed_decimal w = sign_of w
content strings decimal w = plain (numeral 10 false w)
content strings octal w = plain (numeral 8 false w)
content strings one_char w = record {
  negative = false;
  chars = if w % 2 ^ 8 == 0 then [] else (w % 2 ^ 8) ∷ [];
  columns = 1;
}
content strings string w = plain (strings w)

-- Zeroes fill numbers only.
abbrev pub is_number : Conversion → Bool
is_number one_char = false
is_number string = false
is_number upper_hex = true
is_number lower_hex = true
is_number signed_decimal = true
is_number decimal = true
is_number octal = true

-- A content in its field: the sign stands before zeroes and behind spaces.
abbrev pub justify : Bool → Bool → ℕ → Content → List ℕ
justify left zeroes width c =
    let sign = flag_text c.negative b'-' in
    let fill = width - (c.columns + length sign) in
    if left
    then sign ++ (c.chars ++ replicate fill b' ')
    else if zeroes
    then sign ++ (replicate fill b'0' ++ c.chars)
    else replicate fill b' ' ++ (sign ++ c.chars)

-- The text of the pieces, with the words on the stack from the `ap`-th on as arguments.
abbrev pub render : (ℕ → ℕ) → (ℕ → List ℕ) → ℕ → List Piece → List ℕ
render stack strings ap [] = []
render stack strings ap (literal t ∷ ps) = t ++ render stack strings ap ps
render stack strings ap (percent_sign ∷ ps) = b'%' ∷ render stack strings ap ps
render stack strings ap (field f ∷ ps) =
    justify f.left (is_number f.conversion && f.zeroes) (number_from 0 f.wide)
      (content strings f.conversion (stack ap))
    ++ render stack strings (ap + 1) ps
