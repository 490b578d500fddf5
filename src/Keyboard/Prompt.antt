-- ===== src/Keyboard/Prompt.antt =====
-- src/kernel/sh.c (`shell_prompt`): the prompt of the command line.
use ktux.Base.{ℕ, List, [], ◌∷◌, if◌then◌else◌}
use ktux.Base.Run.{Run, ok}
use ktux.Keyboard.Line.{Shell}
use ktux.Stdio.Printers.{words, kprintf}
use ktux.Video.Consoles.{Display}

abbrev pub prompt : List ℕ
prompt = b's' ∷ b'h' ∷ b'e' ∷ b'l' ∷ b'l' ∷ b':' ∷ b'~' ∷ b'#' ∷ b' ' ∷ []

unfoldable pub shell_prompt : {W : Type 0} → (ℕ → List ℕ) → Shell W → Display → Run Display
shell_prompt strings s d = if s.shell_initialized then kprintf (words []) strings prompt d else ok d
