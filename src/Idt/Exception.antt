-- ===== src/Idt/Exception.antt =====
-- src/kernel/interrupts.c (`exception_handler`): the report of an exception.
--
-- `memory` holds the word at an address. The handler ends in a loop without end: its result is the
-- interrupt flag and the display that it then leaves for ever.
pub mod Texts
pub mod Spelled
pub mod Reported
mod Tests
use ktux.Base.{
  ℕ, zero, suc, Bool, true, false, List, [], ◌∷◌, ltb, ◌==◌, if◌then◌else◌, get_or, add32,
}
use ktux.Base.Run.{Run, ok, out_of_fuel, ◌>>=◌}
use ktux.Video.Consoles.{Display}
use ktux.Stdio.Printers.{words, kprintf, panic}
use ktux.Stdio.Calls.{kprintf_all}
use ktux.Idt.Exception.Texts.{
  exception_format, general_format, index_format, segment_format, eflags_format, stack_format,
  word_format, tos_format, panics, panic_of,
}

-- `int_stack_regs_struct`.
pub record Regs : Type 0 where
  pub ds : ℕ
  pub es : ℕ
  pub fs : ℕ
  pub gs : ℕ
  pub edi : ℕ
  pub esi : ℕ
  pub ebp : ℕ
  pub esp : ℕ
  pub ebx : ℕ
  pub edx : ℕ
  pub ecx : ℕ
  pub eax : ℕ
  pub interrupt_num : ℕ
  pub eip : ℕ
  pub cs : ℕ
  pub eflags : ℕ

-- The registers, call by call.
unfoldable pub register_calls : Regs → List (List ℕ × List ℕ)
register_calls r =
    (exception_format, r.interrupt_num ∷ r.cs ∷ r.eip ∷ [])
    ∷ (general_format, r.eax ∷ r.ebx ∷ r.ecx ∷ r.edx ∷ [])
    ∷ (index_format, r.esi ∷ r.edi ∷ r.ebp ∷ r.esp ∷ [])
    ∷ (segment_format, r.ds ∷ r.es ∷ r.fs ∷ r.gs ∷ [])
    ∷ (eflags_format, r.eflags ∷ [])
    ∷ (stack_format, [])
    ∷ []

module _ (strings : ℕ → List ℕ) (memory : ℕ → ℕ) where
  -- The body of the loop over the stack, at the word `i`.
  unfoldable pub print_word : ℕ → ℕ → Display → Run Display
  unfolding kprintf_all
  print_word esp i d =
      let feed = (0x0A ∷ [], []) ∷ [] in
      kprintf_all strings
        ((word_format, i ∷ memory i ∷ [])
          ∷ (if i == add32 esp 0x10 then (tos_format, []) ∷ feed else feed))
        d

  -- The loop from `i` on, in at most `rounds` rounds.
  unfoldable pub print_stack : ℕ → ℕ → ℕ → Display → Run Display
  unfolding print_word
  print_stack zero esp i d = if ltb i (add32 esp 0x30) then out_of_fuel else ok d
  print_stack (suc rounds) esp i d =
      let rest = print_word esp i d >>= print_stack rounds esp (add32 i 4) in
      if ltb i (add32 esp 0x30) then rest else ok d

  unfoldable pub exception_handler : Regs → Bool × Display → Run (Bool × Display)
  unfolding kprintf_all register_calls print_stack panic_of panic
  exception_handler r (taken, d) =
      kprintf_all strings (register_calls r) d >>= print_stack 12 r.esp r.esp >>= λ d2.
      panic (words []) strings (panic_of r.interrupt_num).0 (panic_of r.interrupt_num).1 (taken, d2)
