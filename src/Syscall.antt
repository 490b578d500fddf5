-- ===== src/Syscall.antt =====
-- src/kernel/syscall.c: the system calls, by the register eax. All but the first do nothing.
use ktux.Base.{ℕ, List, [], ◌∷◌, ◌==◌, if◌then◌else◌}
use ktux.Base.Run.{Run, ok}
use ktux.Stdio.Printers.{words, kprintf}
use ktux.Video.Consoles.{Display}

abbrev pub hello : List ℕ
hello =
    b'h' ∷ b'e' ∷ b'l' ∷ b'l' ∷ b'o' ∷ b' ' ∷ b'f' ∷ b'r' ∷ b'o' ∷ b'm' ∷ b' ' ∷ b's' ∷ b'y' ∷ b's'
    ∷ b'c' ∷ b'a' ∷ b'l' ∷ b'l' ∷ b'_' ∷ b'h' ∷ b'a' ∷ b'n' ∷ b'd' ∷ b'l' ∷ b'e' ∷ b'r' ∷ b'('
    ∷ b')' ∷ b';' ∷ 0x0A ∷ []

unfoldable pub syscall_handler : (ℕ → List ℕ) → ℕ → Display → Run Display
syscall_handler strings eax d = if eax == 0x1 then kprintf (words []) strings hello d else ok d
