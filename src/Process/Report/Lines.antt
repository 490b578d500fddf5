-- ===== src/Process/Report/Lines.antt =====
-- What `ps` prints, thread by thread.
use ktux.Base.{
  ℕ, ◌^◌, ◌<◌, ◌≡◌, refl, ap, ◌∙◌, sym, true, false, List, [], ◌∷◌, ◌++◌, AllBelow, arith,
}
use ktux.Base.Int.{ℤ, pos, negsuc, to_u32}
use ktux.Base.Run.{ok, ◌>>=◌}
use ktux.Video.Consoles.{Display}
use ktux.Stdio.Fields.{
  Conversion, Field, Piece, literal, field, decimal, signed_decimal, lower_hex, string, ArePieces,
}
use ktux.Stdio.Formats.{are_pieces, ArePieces-are_pieces}
use ktux.Stdio.Rendered.{send_text, send_text-append}
use ktux.Stdio.Printers.{words, kprintf_help}
use ktux.Stdio.Calls.{calls_text, kprintf_all-text}
use ktux.Stdio.Printers.Shown.{kprintf-renders}
use ktux.Process.{Thread, Status, init, ready, running, wait, sleep, stop, zombie, free}
use ktux.Process.Report.{status_code, print_thread, print_threads, ps}

-- A conversion without flags and width.
abbrev plain_field : Conversion → Field
plain_field k = record { left = false; zeroes = false; wide = []; conversion = k }

abbrev thread_pieces : List Piece
thread_pieces =
    literal (b't' ∷ b'h' ∷ b'r' ∷ b'e' ∷ b'a' ∷ b'd' ∷ b' ' ∷ b':' ∷ b' ' ∷ b'(' ∷ [])
    ∷ field (plain_field decimal)
    ∷ literal (b')' ∷ b' ' ∷ [])
    ∷ field (plain_field string)
    ∷ literal (0x0A ∷ [])
    ∷ []

abbrev priority_pieces : List Piece
priority_pieces =
    literal (b'p' ∷ b'r' ∷ b'i' ∷ b'o' ∷ b'r' ∷ b'i' ∷ b't' ∷ b'y' ∷ b' ' ∷ b':' ∷ b' ' ∷ [])
    ∷ field (plain_field signed_decimal)
    ∷ literal (0x09 ∷ b's' ∷ b't' ∷ b'a' ∷ b't' ∷ b'u' ∷ b's' ∷ b' ' ∷ b':' ∷ b' ' ∷ [])
    ∷ field (plain_field decimal)
    ∷ literal (0x0A ∷ [])
    ∷ []

abbrev time_pieces : List Piece
time_pieces =
    literal (b'e' ∷ b's' ∷ b'p' ∷ b'0' ∷ b' ' ∷ b':' ∷ b' ' ∷ [])
    ∷ field (record { left = false; zeroes = true; wide = b'8' ∷ []; conversion = lower_hex })
    ∷ literal (0x09 ∷ b'c' ∷ b'p' ∷ b'u' ∷ b'_' ∷ b't' ∷ b'i' ∷ b'm' ∷ b'e' ∷ b':' ∷ b' ' ∷ [])
    ∷ field (plain_field decimal)
    ∷ literal (0x0A ∷ [])
    ∷ []

thread_pieces-ArePieces : ArePieces thread_pieces
unfolding are_pieces
thread_pieces-ArePieces = ArePieces-are_pieces thread_pieces refl

priority_pieces-ArePieces : ArePieces priority_pieces
unfolding are_pieces
priority_pieces-ArePieces = ArePieces-are_pieces priority_pieces refl

time_pieces-ArePieces : ArePieces time_pieces
unfolding are_pieces
time_pieces-ArePieces = ArePieces-are_pieces time_pieces refl

-- The fields of a thread that is printed are machine words.
pub record IsPrintable (t : Thread) : Type 0 where
  pub id : t.id < 2 ^ 32
  pub esp0 : t.esp0 < 2 ^ 32
  pub time : t.time < 2 ^ 32

module _ (strings : ℕ → List ℕ) (threads : ℕ → Thread) where
  -- The three calls for a thread, and their lines.
  abbrev pub thread_calls : ℕ → List (List Piece × List ℕ)
  thread_calls tmp =
      let t = threads tmp in
      (thread_pieces, t.id ∷ tmp ∷ [])
      ∷ (priority_pieces, to_u32 t.priority ∷ status_code t.status ∷ [])
      ∷ (time_pieces, t.esp0 ∷ t.time ∷ [])
      ∷ []

  abbrev pub thread_text : ℕ → List ℕ
  thread_text tmp = calls_text strings (thread_calls tmp)

  abbrev pub report : List ℕ → List ℕ
  report [] = []
  report (tmp ∷ entries) = thread_text tmp ++ report entries

  status_code-small : (s : Status) → status_code s < 2 ^ 32
  status_code-small init = omega arith
  status_code-small ready = omega arith
  status_code-small running = omega arith
  status_code-small wait = omega arith
  status_code-small sleep = omega arith
  status_code-small stop = omega arith
  status_code-small zombie = omega arith
  status_code-small free = omega arith

  to_u32-small : (z : ℤ) → to_u32 z < 2 ^ 32
  to_u32-small (pos n) = omega arith
  to_u32-small (negsuc n) = omega arith

  print_thread-text :
      (tmp : ℕ) (d : Display)
      → tmp < 2 ^ 32
      → IsPrintable (threads tmp)
      → print_thread strings threads tmp d ≡ ok (send_text kprintf_help (thread_text tmp) d)
  unfolding print_thread
  print_thread-text tmp d small p =
      let t = threads tmp in
      kprintf_all-text strings (thread_calls tmp) d (
        thread_pieces-ArePieces,
        (
          (p.id, (small, tt)),
          (
            priority_pieces-ArePieces,
            (
              (to_u32-small t.priority, (status_code-small t.status, tt)),
              (time_pieces-ArePieces, ((p.esp0, (p.time, tt)), tt)),
            ),
          ),
        ),
      )

  print_threads-text :
      (entries : List ℕ) (d : Display)
      → AllBelow (2 ^ 32) entries
      → ((p : ℕ) → IsPrintable (threads p))
      → print_threads strings threads entries d ≡ ok (send_text kprintf_help (report entries) d)
  unfolding print_threads
  print_threads-text [] d small p = refl
  print_threads-text (tmp ∷ entries) d (here, small) p = rw (print_thread-text tmp d here (p tmp)) (
      print_threads-text entries (send_text kprintf_help (thread_text tmp) d) small p
      ∙ ap ok (sym (send_text-append kprintf_help (thread_text tmp) (report entries) d)))

  -- When the addresses of the listed threads are machine words, and their ids, stack pointers and
  -- times are, `ps` never faults: it prints a line feed and then, for each thread in the order of the
  -- list's visit, the three lines with its id and name, its priority and status, and its stack
  -- pointer and time.
  pub ps-prints :
      (entries : List ℕ) (d : Display)
      → AllBelow (2 ^ 32) entries
      → ((p : ℕ) → IsPrintable (threads p))
      → ps strings threads entries d ≡ ok (send_text kprintf_help (0x0A ∷ report entries) d)
  unfolding ps
  ps-prints entries d small p =
      let feed : List Piece = literal (0x0A ∷ []) ∷ [] in
      ap (λ r. r >>= print_threads strings threads entries)
        (kprintf-renders (words []) strings feed d ((omega arith, tt), tt) (λ a. omega arith))
      ∙ print_threads-text entries (send_text kprintf_help (0x0A ∷ []) d) small p
