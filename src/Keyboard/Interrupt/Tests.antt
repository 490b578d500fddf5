-- ===== src/Keyboard/Interrupt/Tests.antt =====
-- Scan codes that arrive at a keyboard whose controller counts the reads of its status.
use ktux.Base.{ℕ, ◌*◌, ◌≡◌, refl, true, false, List, [], ◌∷◌, replicate, arith, zero, suc}
use ktux.Base.Int.{pos}
use ktux.Pic.{Ports, max_irq_imp}
use ktux.Process.{Thread, running}
use ktux.Keyboard.Interrupt.{Kbd, write_kbd, process_kbd}
use ktux.Keyboard.Interrupt.Keys.{Keys, status_of}
use ktux.Keyboard.Interrupt.Waits.{write_kbd-sends}
use ktux.Keyboard.Interrupt.Tracks.{Follows, process_kbd-Follows}

-- What was sent, and the reads for which the buffer is still full.
abbrev Device : Type 0
Device = List ℕ × ℕ

abbrev device_ports : Ports Device
device_ports = record { read_port = λ a w. 0; write_port = λ a v w. (v ∷ w.0, 2) }

abbrev device_status : Device → ℕ × Device
device_status (sent, zero) = (0, (sent, zero))
device_status (sent, suc n) = (2, (sent, n))

write_kbd-sends_example : write_kbd device_ports device_status 0x60 0x1ED ([], 1) ≡ (0xED ∷ [], 2)
write_kbd-sends_example =
    write_kbd-sends device_ports device_status 0x60 0x1ED 1 ([], 1) (omega arith) (omega arith, tt)
      refl

abbrev idle_thread : Thread
idle_thread = record {
  name = [];
  id = 1;
  priority = pos 0;
  status = running;
  priv = 0;
  esp0 = 0x2000;
  esp0base = 0x1E00;
  cr3 = 0;
  time = 12;
  quantum = 64;
}

-- Ctrl is held, and NumLock is on.
abbrev held : Keys
held = record { alt = false; ctrl = true; shift = false; caps = false; num = true; scroll = false }

abbrev keyboard : Kbd Device
keyboard = record {
  keyboard_buffer = replicate 64 0;
  kbd_status = status_of held;
  saw_break_code = false;
  echo = true;
  interrupts = false;
  shell = record {
    kbd_buf_pos = 0;
    cmd_buf_pos = 3;
    command_buffer = replicate 256 0;
    shell_initialized = true;
    pic = record { irq_status = replicate max_irq_imp 0; idt_initialized = true; world = ([], 1) };
  };
  display = record {
    width = 80;
    height = 25;
    crtc_io_adr = 0x3D4;
    vc = λ k. record {
      esc = 0;
      attrib = 7;
      csr_x = 0;
      csr_y = 0;
      esc1 = 0;
      esc2 = 0;
      esc3 = 0;
      fb_adr = k * 2000;
    };
    num_vcs = 2;
    curr_vc = 0;
    cells = λ _. 0x720;
    ports = [];
  };
}

-- The key of the letter s.
process_kbd-Follows_example :
    Follows device_ports device_status
      (λ _. [])
      (λ _. idle_thread)
      []
      held
      (process_kbd device_ports device_status (λ _. []) (λ _. idle_thread) [] 0x1F keyboard)
process_kbd-Follows_example =
    process_kbd-Follows device_ports device_status (λ _. []) (λ _. idle_thread) [] tt
      (λ _. record { id = omega arith; esp0 = omega arith; time = omega arith }) 0x1F keyboard held
      (omega arith) (omega arith, refl) refl
