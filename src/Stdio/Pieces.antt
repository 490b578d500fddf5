-- ===== src/Stdio/Pieces.antt =====
-- A format prints the text of its pieces.
use ktux.Base.{
  ℕ, ◌+◌, ◌-◌, ◌*◌, ◌^◌, ◌≤◌, ◌<◌, ◌≡◌, inl, inr, refl, ap, ◌∙◌, Bool, true, false, ◌&&◌, List, [],
  ◌∷◌, ◌++◌, leb, ne→==, add32, mul32, arith,
}
use mathlib.Core.List.{append_assoc}
use ktux.Base.Run.{ok, ◌>>=◌}
use ktux.Video.Escape.{AreDigits, number_from, number-grows}
use ktux.Stdio.{
  State, percent, flags, zero_flag, width, Printf, put_all, convert, at_width, at_flags, step,
  scan_format,
}
use ktux.Stdio.Fields.{
  Conversion, upper_hex, lower_hex, signed_decimal, decimal, octal, one_char, string, letter,
  content, justify, is_number, spelled, HasWidth,
}
use ktux.Stdio.Conversions.{at_text, in_field, convert-content}

module _ {P : Type 0} (fn : ℕ → P → P) (stack : ℕ → ℕ) (strings : ℕ → List ℕ) where
  -- What a field comes to.
  abbrev pub field_sent : Conversion → Bool → Bool → ℕ → ℕ → ℕ → P → Printf P
  field_sent k lj lz given count i ptr =
      put_all fn stack strings (justify lj (is_number k && lz) given (content strings k (stack i)))
        (at_text fn stack strings count (i + 1) ptr)

  -- The first character of the width, or the conversion behind no width, is taken by `at_width`.
  abbrev TakesWidth : List ℕ → ℕ → Printf P → Type 0
  TakesWidth [] k st = step fn stack strings k st ≡ at_width fn stack strings k st
  TakesWidth (d ∷ ds) k st = step fn stack strings d st ≡ at_width fn stack strings d st

  width-letter :
      (k : Conversion) (st : Printf P)
      → at_width fn stack strings (letter k) st ≡ convert fn stack strings (letter k) st
  unfolding at_width
  width-letter upper_hex st = refl
  width-letter lower_hex st = refl
  width-letter signed_decimal st = refl
  width-letter decimal st = refl
  width-letter octal st = refl
  width-letter one_char st = refl
  width-letter string st = refl

  flags-letter :
      (k : Conversion) (st : Printf P)
      → at_flags fn stack strings (letter k) st ≡ at_width fn stack strings (letter k) st
  unfolding at_flags
  flags-letter upper_hex st = refl
  flags-letter lower_hex st = refl
  flags-letter signed_decimal st = refl
  flags-letter decimal st = refl
  flags-letter octal st = refl
  flags-letter one_char st = refl
  flags-letter string st = refl

  flags-digit :
      (c : ℕ) (st : Printf P)
      → b'0' < c
      → c ≤ b'9'
      → at_flags fn stack strings c st ≡ at_width fn stack strings c st
  unfolding at_flags
  flags-digit c st lo hi =
      rw (ne→== c b'%' (omega arith), ne→== c b'-' (omega arith), ne→== c b'0' (omega arith)) refl

  width-digit :
      (c : ℕ) (s : State) (lj lz : Bool) (given count i : ℕ) (ptr : P)
      → b'0' ≤ c
      → c ≤ b'9'
      → given * 10 + c < 2 ^ 32
      → at_width fn stack strings c (in_field fn stack strings s lj lz given count i ptr)
        ≡ ok (in_field fn stack strings width lj lz (given * 10 + (c - b'0')) count i ptr)
  unfolding at_width
  width-digit c s lj lz given count i ptr lo hi small =
      let digit : (leb b'0' c && leb c b'9') ≡ true = ground arith in
      let next : add32 (mul32 10 given) (c - b'0') ≡ given * 10 + (c - b'0') = omega arith in
      rw (digit, next) refl

  -- The rest of a width, and the conversion.
  scan-width :
      (ds : List ℕ) (k : Conversion) (fmt : List ℕ) (lj lz : Bool) (given count i : ℕ) (ptr : P)
      → AreDigits ds
      → number_from given ds < 2 ^ 28
      → stack i < 2 ^ 32
      → scan_format fn stack strings
          (ds ++ letter k ∷ fmt)
          (in_field fn stack strings width lj lz given count i ptr)
        ≡ scan_format fn stack strings fmt (field_sent k lj lz (number_from given ds) count i ptr)
  unfolding scan_format step
  scan-width [] k fmt lj lz given count i ptr p small h =
      rw
        (
          width-letter k (in_field fn stack strings width lj lz given count i ptr),
          convert-content fn stack strings k width lj lz given count i ptr h,
        )
        refl
  scan-width (d ∷ ds) k fmt lj lz given count i ptr (lo, (hi, p)) small h =
      let grows = number-grows (given * 10 + (d - b'0')) ds in
      rw (width-digit d width lj lz given count i ptr lo hi (omega arith))
        (scan-width ds k fmt lj lz (given * 10 + (d - b'0')) count i ptr p small h)

  -- The width and the conversion, in a state that takes characters as `at_width` does.
  scan-wide :
      (ds : List ℕ) (k : Conversion) (fmt : List ℕ) (s : State) (lj lz : Bool) (count i : ℕ)
      (ptr : P)
      → AreDigits ds
      → number_from 0 ds < 2 ^ 28
      → stack i < 2 ^ 32
      → TakesWidth ds (letter k) (in_field fn stack strings s lj lz 0 count i ptr)
      → scan_format fn stack strings
          (ds ++ letter k ∷ fmt)
          (in_field fn stack strings s lj lz 0 count i ptr)
        ≡ scan_format fn stack strings fmt (field_sent k lj lz (number_from 0 ds) count i ptr)
  unfolding scan_format
  scan-wide [] k fmt s lj lz count i ptr p small h takes =
      let st = in_field fn stack strings s lj lz 0 count i ptr in
      ap (λ r. r >>= λ st'. scan_format fn stack strings fmt st')
        (takes ∙ width-letter k st ∙ convert-content fn stack strings k s lj lz 0 count i ptr h)
  scan-wide (d ∷ ds) k fmt s lj lz count i ptr (lo, (hi, p)) small h takes =
      let grows = number-grows (0 * 10 + (d - b'0')) ds in
      ap (λ r. r >>= λ st'. scan_format fn stack strings (ds ++ letter k ∷ fmt) st')
        (takes ∙ width-digit d s lj lz 0 count i ptr lo hi (omega arith))
      ∙ scan-width ds k fmt lj lz (0 * 10 + (d - b'0')) count i ptr p small h

  width-digits :
      (zeroes : Bool) (ds : List ℕ)
      → HasWidth zeroes ds
      → AreDigits ds × (number_from 0 ds < 2 ^ 28)
  width-digits zeroes [] p = (tt, omega arith)
  width-digits zeroes (d ∷ ds) (_, p) = p

  takes-zero_flag :
      (ds : List ℕ) (k : Conversion) (lj lz : Bool) (count i : ℕ) (ptr : P)
      → TakesWidth ds (letter k) (in_field fn stack strings zero_flag lj lz 0 count i ptr)
  unfolding step
  takes-zero_flag [] k lj lz count i ptr = refl
  takes-zero_flag (d ∷ ds) k lj lz count i ptr = refl

  takes-flags :
      (ds : List ℕ) (k : Conversion) (lj lz : Bool) (count i : ℕ) (ptr : P)
      → HasWidth false ds
      → TakesWidth ds (letter k) (in_field fn stack strings flags lj lz 0 count i ptr)
        × TakesWidth ds (letter k) (in_field fn stack strings percent lj lz 0 count i ptr)
  unfolding step
  takes-flags [] k lj lz count i ptr p = (
    flags-letter k (in_field fn stack strings flags lj lz 0 count i ptr),
    flags-letter k (in_field fn stack strings percent lj lz 0 count i ptr),
  )
  takes-flags (d ∷ ds) k lj lz count i ptr (inl e, _) = ground arith
  takes-flags (d ∷ ds) k lj lz count i ptr (inr ne, ((lo, (hi, _)), _)) =
      let above : b'0' < d = ground arith in
      (
        flags-digit d (in_field fn stack strings flags lj lz 0 count i ptr) above hi,
        flags-digit d (in_field fn stack strings percent lj lz 0 count i ptr) above hi,
      )

  scan-conversion :
      (ds : List ℕ) (k : Conversion) (fmt : List ℕ) (s : State) (lj lz : Bool) (count i : ℕ)
      (ptr : P)
      → AreDigits ds
      → number_from 0 ds < 2 ^ 28
      → stack i < 2 ^ 32
      → TakesWidth ds (letter k) (in_field fn stack strings s lj lz 0 count i ptr)
      → scan_format fn stack strings
          ((ds ++ letter k ∷ []) ++ fmt)
          (in_field fn stack strings s lj lz 0 count i ptr)
        ≡ scan_format fn stack strings fmt (field_sent k lj lz (number_from 0 ds) count i ptr)
  scan-conversion ds k fmt s lj lz count i ptr p small h takes =
      ap (λ t. scan_format fn stack strings t (in_field fn stack strings s lj lz 0 count i ptr))
        (append_assoc ds (letter k ∷ []) fmt)
      ∙ scan-wide ds k fmt s lj lz count i ptr p small h takes

  -- A field sends its text.
  pub scan-field :
      (left zeroes : Bool) (ds : List ℕ) (k : Conversion) (fmt : List ℕ) (count i : ℕ) (ptr : P)
      → HasWidth zeroes ds
      → stack i < 2 ^ 32
      → scan_format fn stack strings
          (b'%'
            ∷ (spelled (record { left = left; zeroes = zeroes; wide = ds; conversion = k }) ++ fmt))
          (at_text fn stack strings count i ptr)
        ≡ scan_format fn stack strings fmt (field_sent k left zeroes (number_from 0 ds) count i ptr)
  unfolding scan_format step at_flags
  scan-field true true ds k fmt count i ptr p h =
      let (digits, small) = width-digits true ds p in
      scan-conversion ds k fmt zero_flag true true count i ptr digits small h
        (takes-zero_flag ds k true true count i ptr)
  scan-field false true ds k fmt count i ptr p h =
      let (digits, small) = width-digits true ds p in
      scan-conversion ds k fmt zero_flag false true count i ptr digits small h
        (takes-zero_flag ds k false true count i ptr)
  scan-field true false ds k fmt count i ptr p h =
      let (digits, small) = width-digits false ds p in
      scan-conversion ds k fmt flags true false count i ptr digits small h
        ((takes-flags ds k true false count i ptr p).0)
  scan-field false false ds k fmt count i ptr p h =
      let (digits, small) = width-digits false ds p in
      scan-conversion ds k fmt percent false false count i ptr digits small h
        ((takes-flags ds k false false count i ptr p).1)
