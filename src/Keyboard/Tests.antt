-- ===== src/Keyboard/Tests.antt =====
-- Keys typed at a shell whose interrupt lines are all masked.
use ktux.Base.{ℕ, suc, ◌%◌, ◌^◌, ◌<◌, ◌≡◌, refl, true, List, [], ◌∷◌, ◌++◌, replicate, write, arith}
use ktux.Base.Run.{ok, fault, ◌>>=◌}
use ktux.Pic.{Ports, max_irq_imp}
use ktux.Keyboard.{character, convert}
use ktux.Keyboard.Codes.{convert-ascii}
use ktux.Keyboard.Line.{Shell, cmd_buf_size, process_command, cmd_buf_add}
use ktux.Keyboard.Line.Typing.{IsPlain, ArePlain, type_keys, with_line, enter_line}

abbrev pub latches : Ports (ℕ → ℕ)
latches = record { read_port = λ a w. w a; write_port = λ a v w. write w a (v % 2 ^ 8) }

abbrev pub shell : Shell (ℕ → ℕ)
shell = record {
  kbd_buf_pos = 0;
  cmd_buf_pos = 0;
  command_buffer = replicate 256 0;
  shell_initialized = true;
  pic = record { irq_status = replicate max_irq_imp 0; idt_initialized = true; world = λ _. 0xFF };
}

abbrev up : List ℕ
up = b'u' ∷ b'p' ∷ []

u-IsPlain : IsPlain b'u'
u-IsPlain = (omega arith, omega arith, omega arith, omega arith)

up-ArePlain : ArePlain up
up-ArePlain = (u-IsPlain, ((omega arith, omega arith, omega arith, omega arith), tt))

enter_line_example :
    type_keys latches (up ++ 0x0A ∷ []) (with_line latches [] cmd_buf_size shell) ≡ (
      process_command latches up (with_line latches up (suc 253) shell) >>= λ s'.
      ok (with_line latches [] cmd_buf_size s'))
enter_line_example = enter_line latches up 253 shell up-ArePlain refl

convert-ascii_example : (c : ℕ) × (convert 0x53 0x0600 ≡ character c) × (c < 0x80)
convert-ascii_example = convert-ascii 0x53 0x0600

-- Past the 256th character the next one goes to the start of the buffer, and backspace behind it
-- writes after its end.
erase_faults : cmd_buf_add latches 0x08 (record shell { cmd_buf_pos = 257 }) ≡ fault
unfolding cmd_buf_add
erase_faults = refl
