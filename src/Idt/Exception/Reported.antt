-- ===== src/Idt/Exception/Reported.antt =====
-- What `exception_handler` prints, and that it comes to its last loop.
use ktux.Base.{
  ℕ, zero, suc, ◌+◌, ◌*◌, ◌^◌, ◌<◌, ◌≡◌, refl, ap, sym, subst, ◌∙◌, Bool, Bool-cases, inl, inr,
  ◌||◌, List, [], ◌∷◌, ◌++◌, lt→ltb, ge→ltb, ◌==◌, if◌then◌else◌, add32, arith,
}
use mathlib.Core.List.{append-nil}
use ktux.Base.Run.{Run, ok, ◌>>=◌}
use ktux.Video.Consoles.{Display}
use ktux.Stdio.Fields.{Piece, literal}
use ktux.Stdio.Formats.{no_percent, are_pieces, ArePieces-are_pieces}
use ktux.Stdio.Rendered.{send_text, send_text-append}
use ktux.Stdio.Printers.{words, kprintf_help, panic}
use ktux.Stdio.Printers.Shown.{panic-returns}
use ktux.Stdio.Calls.{AreCalls, calls_text, kprintf_all-text}
use ktux.Idt.Exception.{Regs, register_calls, print_word, print_stack, exception_handler}
use ktux.Idt.Exception.Texts.{panic_of}
use ktux.Idt.Exception.Spelled.{
  word_pieces, tos_pieces, AreWords, register_list, register_list-AreCalls, panic_of-IsLiteral,
}

-- The calls for the word at `i`.
module _ (strings : ℕ → List ℕ) (memory : ℕ → ℕ) where
  word_list : ℕ → ℕ → List (List Piece × List ℕ)
  word_list esp i =
      let feed : List (List Piece × List ℕ) = (literal (0x0A ∷ []) ∷ [], []) ∷ [] in
      (word_pieces, i ∷ memory i ∷ [])
      ∷ (if i == add32 esp 0x10 then (tos_pieces, []) ∷ feed else feed)

  -- `n` lines of the stack, from `i` on.
  stack_text : ℕ → ℕ → ℕ → List ℕ
  stack_text esp zero i = []
  stack_text esp (suc n) i = calls_text strings (word_list esp i) ++ stack_text esp n (i + 4)

  print_word-text :
      (esp i : ℕ) (d : Display)
      → i < 2 ^ 32
      → memory i < 2 ^ 32
      → print_word strings memory esp i d
        ≡ ok (send_text kprintf_help (calls_text strings (word_list esp i)) d)
  unfolding print_word word_list are_pieces no_percent
  print_word-text esp i d small small' =
      let line : List Piece × List ℕ = (word_pieces, i ∷ memory i ∷ []) in
      let feed : List (List Piece × List ℕ) = (literal (0x0A ∷ []) ∷ [], []) ∷ [] in
      let words_ok = ArePieces-are_pieces word_pieces refl in
      let tos_ok = ArePieces-are_pieces tos_pieces refl in
      let feed_ok : AreCalls feed =
        (ArePieces-are_pieces (literal (0x0A ∷ []) ∷ []) refl, (tt, tt)) in
      elim (Bool-cases (i == add32 esp 0x10)) [
        | inl e ↦ rw e (
            kprintf_all-text strings (line ∷ (tos_pieces, []) ∷ feed) d
              (words_ok, ((small, (small', tt)), (tos_ok, (tt, feed_ok)))))
        | inr e ↦
            rw e (
              kprintf_all-text strings (line ∷ feed) d (words_ok, ((small, (small', tt)), feed_ok)))
      ]

  print_stack-text :
      (n esp i : ℕ) (d : Display)
      → i + 4 * n ≡ esp + 0x30
      → esp + 0x30 < 2 ^ 32
      → ((a : ℕ) → memory a < 2 ^ 32)
      → print_stack strings memory n esp i d ≡ ok (send_text kprintf_help (stack_text esp n i) d)
  unfolding print_stack stack_text
  print_stack-text zero esp i d end fits small = rw (ge→ltb i (add32 esp 0x30) (omega arith)) refl
  print_stack-text (suc n) esp i d end fits small =
      let next : add32 i 4 ≡ i + 4 = omega arith in
      let t = calls_text strings (word_list esp i) in
      rw (lt→ltb i (add32 esp 0x30) (omega arith), next)
        (ap (λ r. r >>= print_stack strings memory n esp (i + 4))
            (print_word-text esp i d (omega arith) (small i))
          ∙ print_stack-text n esp (i + 4) (send_text kprintf_help t d) (omega arith) fits small
          ∙ ap ok (sym (send_text-append kprintf_help t (stack_text esp n (i + 4)) d)))

  -- The whole text.
  pub report : Regs → List ℕ
  report r =
      calls_text strings (register_list r)
      ++ (stack_text r.esp 12 r.esp ++ (panic_of r.interrupt_num).1)

  panic_of-text :
      (num : ℕ) (taken : Bool) (d : Display)
      → panic (words []) strings (panic_of num).0 (panic_of num).1 (taken, d)
        ≡ ok ((panic_of num).0 || taken, send_text kprintf_help (panic_of num).1 d)
  panic_of-text num taken d =
      let message = (panic_of num).1 in
      subst
        (λ t.
          panic (words []) strings (panic_of num).0 t (taken, d)
          ≡ ok ((panic_of num).0 || taken, send_text kprintf_help t d))
        (append-nil message)
        (panic-returns (words []) strings (panic_of num).0 taken (literal message ∷ []) d
          (panic_of-IsLiteral num, tt) (λ a. omega arith))

  -- When the registers and the words of memory are machine words and the part of the stack that is
  -- printed does not wrap, `exception_handler` prints the registers, the twelve words from the stack
  -- pointer on and the message of its interrupt, and comes to its last loop: with interrupts taken
  -- when they were before, and also after each interrupt for which `panic` is told to halt.
  pub exception_handler-reports :
      (r : Regs) (taken : Bool) (d : Display)
      → AreWords r
      → r.esp + 0x30 < 2 ^ 32
      → ((a : ℕ) → memory a < 2 ^ 32)
      → exception_handler strings memory r (taken, d)
        ≡ ok ((panic_of r.interrupt_num).0 || taken, send_text kprintf_help (report r) d)
  unfolding exception_handler register_calls register_list report
  exception_handler-reports r taken d regs fits small =
      let t1 = calls_text strings (register_list r) in
      let t2 = stack_text r.esp 12 r.esp in
      let message = (panic_of r.interrupt_num).1 in
      let d1 = send_text kprintf_help t1 d in
      let d2 = send_text kprintf_help t2 d1 in
      let ending : Display → Run (Bool × Display) =
        λ d'. panic (words []) strings (panic_of r.interrupt_num).0 message (taken, d') in
      ap (λ m. m >>= print_stack strings memory 12 r.esp r.esp >>= ending)
        (kprintf_all-text strings (register_list r) d (register_list-AreCalls r regs))
      ∙ ap (λ m. m >>= ending) (print_stack-text 12 r.esp r.esp d1 (omega arith) fits small)
      ∙ panic_of-text r.interrupt_num taken d2
      ∙ ap (λ d'. ok ((panic_of r.interrupt_num).0 || taken, d'))
          (sym (
            send_text-append kprintf_help t1 (t2 ++ message) d
            ∙ send_text-append kprintf_help t2 message d1))
