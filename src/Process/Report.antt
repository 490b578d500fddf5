-- ===== src/Process/Report.antt =====
-- src/kernel/process.c (`ps`): the report of the threads.
--
-- `strings` gives the string at an address, so also the name at the start of a thread structure;
-- `entries` are the addresses of the threads of `lThreads`, from its last entry to its first.
pub mod Lines
mod Tests
use ktux.Base.{ℕ, List, [], ◌∷◌, get_or}
use ktux.Base.Int.{to_u32}
use ktux.Base.Run.{Run, ok, ◌>>=◌}
use ktux.Video.Consoles.{Display}
use ktux.Stdio.Printers.{words, kprintf}
use ktux.Stdio.Calls.{kprintf_all}
use ktux.Process.{Status, init, ready, running, wait, sleep, stop, zombie, free, Thread}

abbrev pub status_code : Status → ℕ
status_code init = 1
status_code ready = 2
status_code running = 3
status_code wait = 4
status_code sleep = 5
status_code stop = 6
status_code zombie = 7
status_code free = 8

abbrev pub thread_format : List ℕ
thread_format =
    b't' ∷ b'h' ∷ b'r' ∷ b'e' ∷ b'a' ∷ b'd' ∷ b' ' ∷ b':' ∷ b' ' ∷ b'(' ∷ b'%' ∷ b'u' ∷ b')' ∷ b' '
    ∷ b'%' ∷ b's' ∷ 0x0A ∷ []

abbrev pub priority_format : List ℕ
priority_format =
    b'p' ∷ b'r' ∷ b'i' ∷ b'o' ∷ b'r' ∷ b'i' ∷ b't' ∷ b'y' ∷ b' ' ∷ b':' ∷ b' ' ∷ b'%' ∷ b'd' ∷ 0x09
    ∷ b's' ∷ b't' ∷ b'a' ∷ b't' ∷ b'u' ∷ b's' ∷ b' ' ∷ b':' ∷ b' ' ∷ b'%' ∷ b'u' ∷ 0x0A ∷ []

abbrev pub time_format : List ℕ
time_format =
    b'e' ∷ b's' ∷ b'p' ∷ b'0' ∷ b' ' ∷ b':' ∷ b' ' ∷ b'%' ∷ b'0' ∷ b'8' ∷ b'x' ∷ 0x09 ∷ b'c' ∷ b'p'
    ∷ b'u' ∷ b'_' ∷ b't' ∷ b'i' ∷ b'm' ∷ b'e' ∷ b':' ∷ b' ' ∷ b'%' ∷ b'u' ∷ 0x0A ∷ []

module _ (strings : ℕ → List ℕ) (threads : ℕ → Thread) where
  -- The body of the loop of `ps`, on the thread at `tmp`.
  unfoldable pub print_thread : ℕ → Display → Run Display
  unfolding kprintf_all
  print_thread tmp d =
      let t = threads tmp in
      kprintf_all strings
        ((thread_format, t.id ∷ tmp ∷ [])
          ∷ (priority_format, to_u32 t.priority ∷ status_code t.status ∷ [])
          ∷ (time_format, t.esp0 ∷ t.time ∷ [])
          ∷ [])
        d

  unfoldable pub print_threads : List ℕ → Display → Run Display
  unfolding print_thread
  print_threads [] d = ok d
  print_threads (tmp ∷ entries) d = print_thread tmp d >>= print_threads entries

  unfoldable pub ps : List ℕ → Display → Run Display
  unfolding kprintf print_threads
  ps entries d = kprintf (words []) strings (0x0A ∷ []) d >>= print_threads entries
