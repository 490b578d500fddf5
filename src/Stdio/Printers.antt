-- ===== src/Stdio/Printers.antt =====
-- src/kernel/stdio.c: the functions that print a format, to the current console and to memory.
--
-- The interrupt flag stands beside the display in `panic`. A memory is a function from addresses to
-- bytes, and addresses are 32-bit words.
pub mod Buffer
pub mod Shown
pub mod Cursor
use ktux.Base.{ℕ, ◌+◌, ◌%◌, ◌^◌, Bool, true, false, List, if◌then◌else◌, get_or, write, add32}
use ktux.Base.Run.{Run, ok, ◌>>=◌}
use ktux.Video.Consoles.{Display, putch}
use ktux.Stdio.{do_printf}

-- The stack of a call whose arguments are `ws`.
abbrev pub words : List ℕ → ℕ → ℕ
words ws a = get_or ws a 0

-- `kprintf_help`, which ignores its pointer.
unfoldable pub kprintf_help : ℕ → Display → Display
unfolding putch
kprintf_help c d = putch c d

-- The place of the buffer that is written next, behind `ptr`, and the memory.
pub record Destination : Type 0 where
  pub dst : ℕ
  pub memory : ℕ → ℕ

unfoldable pub vsprintf_help : ℕ → Destination → Destination
vsprintf_help c b = record { dst = add32 b.dst 1; memory = write b.memory b.dst (c % 2 ^ 8) }

module _ (stack : ℕ → ℕ) (strings : ℕ → List ℕ) where
  unfoldable pub kprintf : List ℕ → Display → Run Display
  unfolding do_printf kprintf_help
  kprintf fmt d = do_printf kprintf_help stack strings fmt d >>= λ r. ok r.1

  -- `vsprintf`: its answer, and the memory.
  unfoldable pub vsprintf : ℕ → List ℕ → (ℕ → ℕ) → Run (ℕ × (ℕ → ℕ))
  unfolding do_printf vsprintf_help
  vsprintf buffer fmt mem =
      do_printf vsprintf_help stack strings fmt (record { dst = buffer; memory = mem }) >>= λ r.
      ok (r.0, write r.1.memory (add32 buffer r.0) 0)

  unfoldable pub sprintf : ℕ → List ℕ → (ℕ → ℕ) → Run (ℕ × (ℕ → ℕ))
  unfolding vsprintf
  sprintf buffer fmt mem = vsprintf buffer fmt mem

  -- `panic`: with `halt_on` it prints between `cli` and `sti`. The flag tells whether interrupts are
  -- taken.
  unfoldable pub panic : Bool → List ℕ → Bool × Display → Run (Bool × Display)
  unfolding do_printf kprintf_help
  panic halt_on fmt (taken, d) =
      let before = if halt_on then false else taken in
      do_printf kprintf_help stack strings fmt d >>= λ r. ok (if halt_on then true else before, r.1)
