-- ===== src/Stdio/Rendered.antt =====
-- The whole of a format: `do_printf` sends the text of its pieces, one character at a time.
use ktux.Base.{
  ℕ, suc, ◌+◌, ◌%◌, ◌^◌, ◌<◌, ◌≡◌, refl, ap, ◌∙◌, ◌&&◌, List, [], ◌∷◌, ◌++◌, length, length-append,
  ne→==, add32, arith,
}
use ktux.Base.Run.{ok, fault, ◌>>=◌}
use ktux.Stdio.{
  Printf, promote, put, put_all, step, at_flags, at_end, scan_format, do_printf, reset,
}
use ktux.Stdio.Fields.{
  Piece, literal, percent_sign, field, format, IsLiteral, ArePieces, content, justify, is_number,
  render,
}
use ktux.Video.Escape.{number_from}
use ktux.Stdio.Conversions.{at_text}
use ktux.Stdio.Pieces.{scan-field}

-- The characters of a text given to `fn`, each as it is promoted.
abbrev pub send_text : {P : Type 0} → (ℕ → P → P) → List ℕ → P → P
send_text fn [] ptr = ptr
send_text fn (c ∷ t) ptr = send_text fn t (fn (promote c) ptr)

pub send_text-append :
    {P : Type 0}
    → (fn : ℕ → P → P) (s t : List ℕ) (ptr : P)
    → send_text fn (s ++ t) ptr ≡ send_text fn t (send_text fn s ptr)
send_text-append fn [] t ptr = refl
send_text-append fn (c ∷ s) t ptr = send_text-append fn s t (fn (promote c) ptr)

-- The fields of the pieces.
abbrev pub fields : List Piece → ℕ
fields [] = 0
fields (literal t ∷ ps) = fields ps
fields (percent_sign ∷ ps) = fields ps
fields (field f ∷ ps) = suc (fields ps)

module _ {P : Type 0} (fn : ℕ → P → P) (stack : ℕ → ℕ) (strings : ℕ → List ℕ) where
  put_all-send_text :
      (t : List ℕ) (n i : ℕ) (ptr : P)
      → put_all fn stack strings t (at_text fn stack strings (n % 2 ^ 32) i ptr)
        ≡ at_text fn stack strings ((n + length t) % 2 ^ 32) i (send_text fn t ptr)
  unfolding put_all put
  put_all-send_text [] n i ptr = let same : n + 0 ≡ n = omega arith in rw same refl
  put_all-send_text (c ∷ t) n i ptr =
      let next : add32 (n % 2 ^ 32) 1 ≡ (n + 1) % 2 ^ 32 = omega arith in
      let moved : n + 1 + length t ≡ n + suc (length t) = omega arith in
      rw next (
        put_all-send_text t (n + 1) i (fn (promote c) ptr)
        ∙ ap (λ m. at_text fn stack strings (m % 2 ^ 32) i (send_text fn t (fn (promote c) ptr)))
            moved)

  scan-literal :
      (t fmt : List ℕ) (n i : ℕ) (ptr : P)
      → IsLiteral t
      → scan_format fn stack strings (t ++ fmt) (at_text fn stack strings n i ptr)
        ≡ scan_format fn stack strings fmt
            (put_all fn stack strings t (at_text fn stack strings n i ptr))
  unfolding scan_format step put_all put
  scan-literal [] fmt n i ptr p = refl
  scan-literal (c ∷ t) fmt n i ptr (ne, p) =
      rw (ne→== c b'%' ne) (scan-literal t fmt (add32 n 1) i (fn (promote c) ptr) p)

  -- The variables behind the pieces `ps`.
  abbrev sent : List Piece → ℕ → ℕ → P → Printf P
  sent ps n i ptr =
      at_text fn stack strings ((n + length (render stack strings i ps)) % 2 ^ 32) (i + fields ps)
        (send_text fn (render stack strings i ps) ptr)

  -- One more text `t` before the pieces `ps`.
  sent_text :
      (t : List ℕ) (u : List ℕ) (n i : ℕ) (ptr : P)
      → at_text fn stack strings
          ((n + length t + length u) % 2 ^ 32)
          i
          (send_text fn u (send_text fn t ptr))
        ≡ at_text fn stack strings ((n + length (t ++ u)) % 2 ^ 32) i (send_text fn (t ++ u) ptr)
  sent_text t u n i ptr =
      let counted : n + length t + length u ≡ n + length (t ++ u) =
        omega (arith, length-append t u) in
      rw (counted, send_text-append fn t u ptr) refl

  scan-percent :
      (fmt : List ℕ) (n i : ℕ) (ptr : P)
      → scan_format fn stack strings (b'%' ∷ b'%' ∷ fmt) (at_text fn stack strings n i ptr)
        ≡ scan_format fn stack strings fmt
            (put_all fn stack strings (b'%' ∷ []) (at_text fn stack strings n i ptr))
  unfolding scan_format step at_flags reset put_all put
  scan-percent fmt n i ptr = refl

  scan-pieces :
      (ps : List Piece) (n i : ℕ) (ptr : P)
      → ArePieces ps
      → ((a : ℕ) → stack a < 2 ^ 32)
      → scan_format fn stack strings (format ps) (at_text fn stack strings (n % 2 ^ 32) i ptr)
        ≡ ok (sent ps n i ptr)
  unfolding scan_format at_end
  scan-pieces [] n i ptr p words =
      let same : n + 0 ≡ n = omega arith in
      let none : i + 0 ≡ i = omega arith in rw (same, none) refl
  scan-pieces (literal t ∷ ps) n i ptr (p, q) words =
      scan-literal t (format ps) (n % 2 ^ 32) i ptr p
      ∙ ap (scan_format fn stack strings (format ps)) (put_all-send_text t n i ptr)
      ∙ scan-pieces ps (n + length t) i (send_text fn t ptr) q words
      ∙ ap ok (sent_text t (render stack strings i ps) n (i + fields ps) ptr)
  scan-pieces (percent_sign ∷ ps) n i ptr (p, q) words =
      scan-percent (format ps) (n % 2 ^ 32) i ptr
      ∙ ap (scan_format fn stack strings (format ps)) (put_all-send_text (b'%' ∷ []) n i ptr)
      ∙ scan-pieces ps (n + 1) i (send_text fn (b'%' ∷ []) ptr) q words
      ∙ ap ok (sent_text (b'%' ∷ []) (render stack strings i ps) n (i + fields ps) ptr)
  scan-pieces (field f ∷ ps) n i ptr (p, q) words =
      let t =
        justify f.left (is_number f.conversion && f.zeroes) (number_from 0 f.wide)
          (content strings f.conversion (stack i)) in
      let taken : i + 1 + fields ps ≡ i + suc (fields ps) = omega arith in
      scan-field fn stack strings f.left f.zeroes f.wide f.conversion (format ps) (n % 2 ^ 32) i ptr
        p (words i)
      ∙ ap (scan_format fn stack strings (format ps)) (put_all-send_text t n (i + 1) ptr)
      ∙ scan-pieces ps (n + length t) (i + 1) (send_text fn t ptr) q words
      ∙ ap ok (sent_text t (render stack strings (i + 1) ps) n (i + 1 + fields ps) ptr)
      ∙ ap
          (λ a. ok (
            at_text fn stack strings ((n + length (t ++ render stack strings (i + 1) ps)) % 2 ^ 32)
              a (send_text fn (t ++ render stack strings (i + 1) ps) ptr)))
          taken

  -- A format of literal texts without `%`, of `%%`, and of fields (each with or without `-` and `0`,
  -- and with no width or one of decimal digits below 2 ^ 28), whose arguments are 32-bit words, never
  -- faults: `fn` is given the characters of the rendered text in their order, each with its sign
  -- extended, and the answer is the text's length modulo 2 ^ 32.
  pub do_printf-renders :
      (ps : List Piece) (ptr : P)
      → ArePieces ps
      → ((a : ℕ) → stack a < 2 ^ 32)
      → do_printf fn stack strings (format ps) ptr
        ≡ ok (
          length (render stack strings 0 ps) % 2 ^ 32,
          send_text fn (render stack strings 0 ps) ptr,
        )
  unfolding do_printf
  do_printf-renders ps ptr p words =
      let text = render stack strings 0 ps in
      let whole : 0 + length text ≡ length text = omega arith in
      ap (λ r. r >>= λ st. ok (st.count, st.ptr)) (scan-pieces ps 0 0 ptr p words)
      ∙ ap (λ m. ok (m % 2 ^ 32, send_text fn text ptr)) whole

  -- A format of text without `%` that ends in `%`, or in `%0`, is not recognised as ended there:
  -- `do_printf` goes on behind its NUL, an access outside the format.
  pub do_printf-runs_over :
      (t : List ℕ) (ptr : P)
      → IsLiteral t
      → (do_printf fn stack strings (t ++ b'%' ∷ []) ptr ≡ fault)
        × (do_printf fn stack strings (t ++ b'%' ∷ b'0' ∷ []) ptr ≡ fault)
  unfolding do_printf scan_format step at_flags at_end
  do_printf-runs_over t ptr p =
      let sent = put_all-send_text t 0 0 ptr in
      (
        ap (λ r. r >>= λ st. ok (st.count, st.ptr))
            (scan-literal t (b'%' ∷ []) 0 0 ptr p
              ∙ ap (scan_format fn stack strings (b'%' ∷ [])) sent),
        ap (λ r. r >>= λ st. ok (st.count, st.ptr))
            (scan-literal t (b'%' ∷ b'0' ∷ []) 0 0 ptr p
              ∙ ap (scan_format fn stack strings (b'%' ∷ b'0' ∷ [])) sent),
      )
