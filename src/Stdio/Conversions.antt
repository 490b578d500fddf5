-- ===== src/Stdio/Conversions.antt =====
-- Each conversion sends its field's text, and takes its argument off the stack.
use ktux.Base.{
  ℕ, ◌+◌, ◌-◌, ◌%◌, ◌^◌, ◌≤◌, ◌<◌, ◌≡◌, refl, ap, ◌∙◌, Bool, true, false, ◌&&◌, List, [], ◌∷◌, leb,
  ◌==◌, if◌then◌else◌, length, arith,
}
use ktux.Base.Run.{ok, ◌>>=◌}
use ktux.Stdio.{
  State, text, Printf, no_flags, to_digits, pr_bufroom, put_all, emit, reset, load, arg_words,
  do_num, convert,
}
use ktux.Stdio.Numeral.{numeral, to_digits-numeral_all}
use ktux.Stdio.Emit.{reset-put_all, emit-justify, emit2-justify}
use ktux.Stdio.Fields.{
  Conversion, upper_hex, lower_hex, signed_decimal, decimal, octal, one_char, string, letter,
  content, justify, is_number,
}

module _ {P : Type 0} (fn : ℕ → P → P) (stack : ℕ → ℕ) (strings : ℕ → List ℕ) where
  -- The variables outside fields, and within one.
  abbrev pub at_text : ℕ → ℕ → P → Printf P
  at_text count ap ptr = record {
    state = text;
    flags = no_flags;
    given_wd = 0;
    count = count;
    ap = ap;
    ptr = ptr;
  }

  abbrev pub in_field : State → Bool → Bool → ℕ → ℕ → ℕ → P → Printf P
  in_field s lj lz given count ap ptr = record {
    state = s;
    flags = record no_flags { lj = lj; lz = lz };
    given_wd = given;
    count = count;
    ap = ap;
    ptr = ptr;
  }

  -- From a number to its text.
  number_sent :
      (radix : ℕ) (ca : Bool) (num : ℕ) (st : Printf P)
      → 2 ≤ radix
      → radix ≤ 16
      → num < radix ^ 11
      → (to_digits radix ca pr_bufroom num []
          >>= (λ chars. ok (emit fn stack strings chars st))
          >>= λ r. ok (reset fn stack strings r))
        ≡ ok (
            put_all fn stack strings
              (justify st.flags.lj st.flags.lz st.given_wd (record {
                negative = st.flags.ws;
                chars = numeral radix ca num;
                columns = length (numeral radix ca num);
              }))
              (reset fn stack strings st))
  number_sent radix ca num st low high small =
      let out = numeral radix ca num in
      rw (to_digits-numeral_all radix ca num low high small) (
        ap ok (
          ap (reset fn stack strings) (emit-justify fn stack strings out st)
          ∙ reset-put_all fn stack strings _ st))

  pub convert-content :
      (k : Conversion) (s : State) (lj lz : Bool) (given count i : ℕ) (ptr : P)
      → stack i < 2 ^ 32
      → convert fn stack strings (letter k) (in_field s lj lz given count i ptr)
        ≡ ok (
            put_all fn stack strings
              (justify lj (is_number k && lz) given (content strings k (stack i)))
              (at_text count (i + 1) ptr))
  unfolding convert do_num load arg_words reset
  convert-content decimal s lj lz given count i ptr h =
      number_sent 10 false (stack i) (in_field s lj lz given count (i + 1) ptr) (omega arith)
        (omega arith) (omega arith)
  convert-content octal s lj lz given count i ptr h =
      number_sent 8 false (stack i) (in_field s lj lz given count (i + 1) ptr) (omega arith)
        (omega arith) (omega arith)
  convert-content lower_hex s lj lz given count i ptr h =
      number_sent 16 false (stack i) (in_field s lj lz given count (i + 1) ptr) (omega arith)
        (omega arith) (omega arith)
  convert-content upper_hex s lj lz given count i ptr h =
      let st = in_field s lj lz given count (i + 1) ptr in
      number_sent 16 true (stack i) (record st { flags = record (st.flags) { ca = true } })
        (omega arith) (omega arith) (omega arith)
  convert-content signed_decimal s lj lz given count i ptr h =
      let w = stack i in
      let st = in_field s lj lz given count (i + 1) ptr in
      number_sent 10 false (if leb (2 ^ 31) w then 2 ^ 32 - w else w)
        (record st { flags = record (st.flags) { sg = true; ws = leb (2 ^ 31) w } }) (omega arith)
        (omega arith) (ground arith)
  convert-content one_char s lj lz given count i ptr h =
      let c = stack i % 2 ^ 8 in
      let st = in_field s lj false given count (i + 1) ptr in
      ap (λ r. ok (reset fn stack strings r))
        (emit2-justify fn stack strings (if c == 0 then [] else c ∷ []) 1 st refl)
      ∙ ap ok (
          reset-put_all fn stack strings
            (justify lj false given (content strings one_char (stack i))) st)
  convert-content string s lj lz given count i ptr h =
      let st = in_field s lj false given count (i + 1) ptr in
      ap (λ r. ok (reset fn stack strings r)) (emit-justify fn stack strings (strings (stack i)) st)
      ∙ ap ok (
          reset-put_all fn stack strings (justify lj false given (content strings string (stack i)))
            st)
