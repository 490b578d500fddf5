-- ===== src/Video/Escape.antt =====
-- Escape sequences, and lines of text, fed to a console character by character.
use ktux.Base.{
  ℕ, ◌+◌, ◌-◌, ◌*◌, ◌^◌, ◌≤◌, ◌<◌, ◌≡◌, refl, ◌∙◌, true, List, [], ◌∷◌, ◌++◌, lt→ltb, arith,
}
use ktux.Video.{
  Screen, is_digit, add_digit, new_attrib, set_attrib, put_esc2, put_esc3, put_char, putch_help,
}

-- Decimal digits.
abbrev pub AreDigits : List ℕ → Type 0
AreDigits [] = Unit
AreDigits (c ∷ s) = (b'0' ≤ c) × ((c ≤ b'9') × AreDigits s)

-- The number that digits stand for, behind those of `n`.
abbrev pub number_from : ℕ → List ℕ → ℕ
number_from n [] = n
number_from n (c ∷ s) = number_from (n * 10 + (c - b'0')) s

digit-test : (c : ℕ) → b'0' ≤ c → c ≤ b'9' → is_digit c ≡ true
unfolding is_digit
digit-test c lo hi = ground arith

pub number-grows : (n : ℕ) (s : List ℕ) → n ≤ number_from n s
number-grows n [] = omega arith
number-grows n (c ∷ s) = omega (arith, number-grows (n * 10 + (c - b'0')) s)

add_digit-value : (n c : ℕ) → b'0' ≤ c → n * 10 + c < 2 ^ 32 → add_digit n c ≡ n * 10 + (c - b'0')
unfolding add_digit
add_digit-value n c lo small = omega arith

module _ (width height : ℕ) where
  -- A string sent to a console.
  abbrev pub put_text : Screen → List ℕ → Screen
  put_text s [] = s
  put_text s (c ∷ cs) = put_text (putch_help width height s c).0 cs

  put_text-append : (s : Screen) (p q : List ℕ) → put_text s (p ++ q) ≡ put_text (put_text s p) q
  put_text-append s [] q = refl
  put_text-append s (c ∷ p) q = put_text-append (putch_help width height s c).0 p q

  -- `s` in the given state of the automaton, with its arguments.
  abbrev in_sequence : Screen → ℕ → ℕ → ℕ → Screen
  in_sequence s state n1 n2 = record s {
    con = record (s.con) { esc = state; esc1 = n1; esc2 = n2 };
  }

  first_number :
      (s : Screen) (n n2 : ℕ) (ds : List ℕ)
      → AreDigits ds
      → number_from n ds + 64 < 2 ^ 32
      → put_text (in_sequence s 2 n n2) ds ≡ in_sequence s 2 (number_from n ds) n2
  unfolding putch_help put_esc2
  first_number s n n2 [] p small = refl
  first_number s n n2 (c ∷ ds) (lo, (hi, p)) small =
      let grows = number-grows (n * 10 + (c - b'0')) ds in
      rw (digit-test c lo hi, add_digit-value n c lo (omega arith))
        (first_number s (n * 10 + (c - b'0')) n2 ds p small)

  second_number :
      (s : Screen) (n1 n : ℕ) (ds : List ℕ)
      → AreDigits ds
      → number_from n ds + 64 < 2 ^ 32
      → put_text (in_sequence s 3 n1 n) ds ≡ in_sequence s 3 n1 (number_from n ds)
  unfolding putch_help put_esc3
  second_number s n1 n [] p small = refl
  second_number s n1 n (c ∷ ds) (lo, (hi, p)) small =
      let grows = number-grows (n * 10 + (c - b'0')) ds in
      rw (digit-test c lo hi, add_digit-value n c lo (omega arith))
        (second_number s n1 (n * 10 + (c - b'0')) ds p small)

  -- Behind `ESC[num1;num2`.
  two_numbers :
      (s : Screen) (ds es : List ℕ)
      → s.con.esc ≡ 0
      → AreDigits ds
      → AreDigits es
      → number_from 0 ds + 64 < 2 ^ 32
      → number_from 0 es + 64 < 2 ^ 32
      → put_text s (0x1B ∷ b'[' ∷ (ds ++ b';' ∷ es))
        ≡ in_sequence s 3 (number_from 0 ds) (number_from 0 es)
  unfolding putch_help put_char put_esc2 is_digit
  two_numbers s ds es ground_state p q small small' =
      rw
        (
          ground_state,
          put_text-append (in_sequence s 2 0 s.con.esc2) ds (b';' ∷ es),
          first_number s 0 s.con.esc2 ds p small,
        )
        (second_number s (number_from 0 ds) 0 es q small')

  -- `ESC[row;columnH`, in decimal digits, puts the cursor at that row and column of the screen, for
  -- any digits that stand for a place on it, and back to plain text.
  pub cursor_sequence :
      (s : Screen) (ds es : List ℕ)
      → s.con.esc ≡ 0
      → AreDigits ds
      → AreDigits es
      → height + 64 ≤ 2 ^ 32
      → width + 64 ≤ 2 ^ 32
      → number_from 0 ds < height
      → number_from 0 es < width
      → put_text s ((0x1B ∷ b'[' ∷ (ds ++ b';' ∷ es)) ++ b'H' ∷ []) ≡ record s {
        con = record (s.con) {
          esc = 0;
          esc1 = number_from 0 ds;
          esc2 = number_from 0 es;
          csr_x = number_from 0 es;
          csr_y = number_from 0 ds;
        };
      }
  unfolding putch_help put_esc3 is_digit
  cursor_sequence s ds es ground_state p q h w row column =
      let text = 0x1B ∷ b'[' ∷ (ds ++ b';' ∷ es) in
      put_text-append s text (b'H' ∷ [])
      ∙ rw
          (
            two_numbers s ds es ground_state p q (omega arith) (omega arith),
            lt→ltb (number_from 0 es) width column,
            lt→ltb (number_from 0 ds) height row,
          )
          refl

  -- Outside escape sequences, `ESC[num1;num2m` with numbers of decimal digits that fit a machine
  -- word sets the two attributes one after the other, and changes nothing else on the screen.
  attribute_sequence :
      (s : Screen) (ds es : List ℕ)
      → s.con.esc ≡ 0
      → AreDigits ds
      → AreDigits es
      → number_from 0 ds + 64 < 2 ^ 32
      → number_from 0 es + 64 < 2 ^ 32
      → put_text s ((0x1B ∷ b'[' ∷ (ds ++ b';' ∷ es)) ++ b'm' ∷ []) ≡ record s {
        con = record (s.con) {
          esc = 0;
          esc1 = number_from 0 ds;
          esc2 = number_from 0 es;
          attrib = new_attrib (new_attrib s.con.attrib (number_from 0 ds)) (number_from 0 es);
        };
      }
  unfolding putch_help put_esc3 is_digit set_attrib
  attribute_sequence s ds es ground_state p q small small' =
      let text = 0x1B ∷ b'[' ∷ (ds ++ b';' ∷ es) in
      put_text-append s text (b'm' ∷ [])
      ∙ rw (two_numbers s ds es ground_state p q small small') refl
