-- ===== src/Stdio/Printers/Buffer.antt =====
-- What `vsprintf` leaves in memory: the rendered text, its NUL, and everything else as it was.
use ktux.Base.{
  ℕ, zero, suc, ◌+◌, ◌%◌, ◌^◌, ◌≤◌, ◌<◌, ◌≡◌, refl, ap, sym, ◌∙◌, List, [], ◌∷◌, ◌++◌, length,
  length-append, subst, get_or, write, write_self, write-ne, add32, arith,
}
use ktux.Base.Run.{ok, ◌>>=◌}
use ktux.Stdio.{promote}
use ktux.Stdio.Fields.{Piece, format, ArePieces, render}
use ktux.Stdio.Rendered.{send_text, send_text-append, do_printf-renders}
use ktux.Stdio.Printers.{vsprintf_help, vsprintf}

-- Memory at `p` holds the bytes of the text `t` in place of what it held, and nothing else is changed.
pub record Holds (p : ℕ) (t : List ℕ) (before after : ℕ → ℕ) : Type 0 where
  pub bytes : (k : ℕ) → k < length t → after (p + k) ≡ get_or t k 0 % 2 ^ 8
  pub below : (a : ℕ) → a < p → after a ≡ before a
  pub above : (a : ℕ) → p + length t ≤ a → after a ≡ before a

-- One character.
vsprintf_help-byte :
    (c p : ℕ) (mem : ℕ → ℕ)
    → p + 1 < 2 ^ 32
    → vsprintf_help (promote c) (record { dst = p; memory = mem })
      ≡ record { dst = p + 1; memory = write mem p (c % 2 ^ 8) }
unfolding vsprintf_help promote
vsprintf_help-byte c p mem fits =
    let next : add32 p 1 ≡ p + 1 = omega arith in
    let byte : promote c % 2 ^ 8 ≡ c % 2 ^ 8 = ground arith in rw (next, byte) refl

send_text-dst :
    (t : List ℕ) (p : ℕ) (mem : ℕ → ℕ)
    → p + length t < 2 ^ 32
    → (send_text vsprintf_help t (record { dst = p; memory = mem })).dst ≡ p + length t
send_text-dst [] p mem fits = omega arith
send_text-dst (c ∷ t) p mem fits =
    let moved : p + 1 + length t ≡ p + suc (length t) = omega arith in
    ap (λ b. (send_text vsprintf_help t b).dst) (vsprintf_help-byte c p mem (omega arith))
    ∙ send_text-dst t (p + 1) (write mem p (c % 2 ^ 8)) (omega arith)
    ∙ moved

shifted_bytes :
    (c p : ℕ) (t : List ℕ) (mem after : ℕ → ℕ)
    → Holds (p + 1) t (write mem p (c % 2 ^ 8)) after
    → (k : ℕ) → k < suc (length t)
    → after (p + k) ≡ get_or (c ∷ t) k 0 % 2 ^ 8
shifted_bytes c p t mem after h zero lt =
    let here : p + 0 ≡ p = omega arith in
    ap after here ∙ h.below p (omega arith) ∙ write_self mem p (c % 2 ^ 8)
shifted_bytes c p t mem after h (suc k) lt =
    let moved : p + suc k ≡ p + 1 + k = omega arith in ap after moved ∙ h.bytes k (omega arith)

Holds-∷ :
    (c p : ℕ) (t : List ℕ) (mem after : ℕ → ℕ)
    → Holds (p + 1) t (write mem p (c % 2 ^ 8)) after
    → Holds p (c ∷ t) mem after
Holds-∷ c p t mem after h =
    let bytes : (k : ℕ) → k < suc (length t) → after (p + k) ≡ get_or (c ∷ t) k 0 % 2 ^ 8 =
      shifted_bytes c p t mem after h in
    record {
      bytes = bytes;
      below = λ a lt. h.below a (omega arith) ∙ write-ne mem p a (c % 2 ^ 8) (omega arith);
      above = λ a le. h.above a (omega arith) ∙ write-ne mem p a (c % 2 ^ 8) (omega arith);
    }

send_text-Holds :
    (t : List ℕ) (p : ℕ) (mem : ℕ → ℕ)
    → p + length t < 2 ^ 32
    → Holds p t mem (send_text vsprintf_help t (record { dst = p; memory = mem })).memory
send_text-Holds [] p mem fits = record {
  bytes = λ k h. ground arith;
  below = λ a _. refl;
  above = λ a _. refl;
}
send_text-Holds (c ∷ t) p mem fits =
    subst (λ b. Holds p (c ∷ t) mem (send_text vsprintf_help t b).memory)
      (sym (vsprintf_help-byte c p mem (omega arith)))
      (Holds-∷ c p t mem _ (send_text-Holds t (p + 1) (write mem p (c % 2 ^ 8)) (omega arith)))

-- The NUL is one more character of the text.
ended :
    (t : List ℕ) (p : ℕ) (mem : ℕ → ℕ)
    → p + length t + 1 < 2 ^ 32
    → Holds p (t ++ 0 ∷ []) mem (
        write
          (send_text vsprintf_help t (record { dst = p; memory = mem })).memory
          (p + length t)
          0)
unfolding vsprintf_help promote
ended t p mem fits =
    let b = send_text vsprintf_help t (record { dst = p; memory = mem }) in
    let longer : length (t ++ 0 ∷ []) ≡ length t + 1 = length-append t (0 ∷ []) in
    subst (Holds p (t ++ 0 ∷ []) mem)
      (ap (λ d. d.memory)
          (send_text-append vsprintf_help t (0 ∷ []) (record { dst = p; memory = mem }))
        ∙ ap (λ q. write b.memory q 0) (send_text-dst t p mem (omega arith)))
      (send_text-Holds (t ++ 0 ∷ []) p mem (omega arith))

-- `vsprintf` on a format of pieces, whose arguments are 32-bit words, never faults: when the rendered
-- text and a NUL fit behind `buffer` in memory, their bytes stand there, no other byte is changed,
-- and the answer is the text's length.
pub vsprintf-Holds :
    (stack : ℕ → ℕ) (strings : ℕ → List ℕ) (ps : List Piece) (buffer : ℕ) (mem : ℕ → ℕ)
    → ArePieces ps
    → ((a : ℕ) → stack a < 2 ^ 32)
    → buffer + length (render stack strings 0 ps) + 1 < 2 ^ 32
    → (after : ℕ → ℕ) × (vsprintf stack strings buffer (format ps) mem
        ≡ ok (length (render stack strings 0 ps), after))
      × Holds buffer (render stack strings 0 ps ++ 0 ∷ []) mem after
unfolding vsprintf
vsprintf-Holds stack strings ps buffer mem p words fits =
    let t = render stack strings 0 ps in
    let b = send_text vsprintf_help t (record { dst = buffer; memory = mem }) in
    let same : length t % 2 ^ 32 ≡ length t = omega arith in
    let end : add32 buffer (length t) ≡ buffer + length t = omega arith in
    (
      write b.memory (buffer + length t) 0,
      ap (λ r. r >>= λ r. ok (r.0, write r.1.memory (add32 buffer r.0) 0))
            (do_printf-renders vsprintf_help stack strings ps
              (record { dst = buffer; memory = mem }) p words)
          ∙ rw (same, end) refl,
      ended t buffer mem (omega arith),
    )
