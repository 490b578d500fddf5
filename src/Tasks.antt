-- ===== src/Tasks.antt =====
-- src/kernel/tasks.c (`thread_monitor`): the thread that shows the counters of the others.
--
-- `seen` are the counters `foo`, `bar` and `gamma` that its rounds find, each with what the others
-- make of the display during the round's `yield`.
use ktux.Base.{ℕ, ◌%◌, ◌^◌, List, [], ◌∷◌, write}
use ktux.Base.Run.{Run, ok, ◌>>=◌}
use ktux.Stdio.Printers.{words, kprintf}
use ktux.Video.Consoles.{Display, move_csr}

abbrev pub counting_format : List ℕ
counting_format =
    b'c' ∷ b'o' ∷ b'u' ∷ b'n' ∷ b't' ∷ b'i' ∷ b'n' ∷ b'g' ∷ b' ' ∷ b't' ∷ b'h' ∷ b'r' ∷ b'e' ∷ b'a'
    ∷ b'd' ∷ b's' ∷ b':' ∷ 0x0A ∷ []

abbrev pub counters_format : List ℕ
counters_format = b'%' ∷ b'u' ∷ 0x09 ∷ b'%' ∷ b'u' ∷ 0x09 ∷ b'%' ∷ b'u' ∷ []

-- `get_csr_y`.
unfoldable pub get_csr_y : Display → ℕ
get_csr_y d = (d.vc d.curr_vc).csr_y % 2 ^ 16

-- `move_cursor`.
unfoldable pub move_cursor : ℕ → ℕ → Display → Display
unfolding move_csr
move_cursor x y d =
    move_csr
      (record d { vc = write d.vc d.curr_vc (record (d.vc d.curr_vc) { csr_x = x; csr_y = y }) })

module _ (strings : ℕ → List ℕ) where
  -- The rounds of the loop.
  unfoldable pub monitor : List ((ℕ × ℕ × ℕ) × (Display → Display)) → ℕ → Display → Run Display
  unfolding move_cursor
  monitor [] y d = ok d
  monitor (((foo, bar, gamma), meanwhile) ∷ seen) y d =
      kprintf (words (foo ∷ bar ∷ gamma ∷ [])) strings counters_format (move_cursor 0 y d) >>= λ d'.
      monitor seen y (meanwhile d')

  unfoldable pub thread_monitor : List ((ℕ × ℕ × ℕ) × (Display → Display)) → Display → Run Display
  unfolding monitor get_csr_y
  thread_monitor seen d =
      kprintf (words []) strings counting_format d >>= λ d'. monitor seen (get_csr_y d') d'
