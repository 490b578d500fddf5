-- ===== src/Kernel/Tests.antt =====
-- The kernel with two threads, over two 8259s that keep their masks and the words of initialisation to come.
use ktux.Base.{
  ◌-◌, ◌/◌, ◌%◌, ◌^◌, ◌==◌, if◌then◌else◌, inl, inr, replicate, ℕ, ◌+◌, ◌∷◌, ◌≡◌, refl, true, false,
  List, [], arith,
}
use ktux.Base.Run.{ok, ◌>>=◌}
use ktux.Idt.Tests.{empty}
use ktux.Kernel.{Kernel, start_hardware, start_threads, start_lines}
use ktux.Kernel.Opened.{start_lines-opens}
use ktux.Kernel.Threads.{HandsOut}
use ktux.Keyboard.Line.{Shell}
use ktux.Memory.Paging.Tests.{vm}
use ktux.Memory.Report.Tests.{vga}
use ktux.Pic.{Ports, max_irq_imp}
use ktux.Pic.Controller.{IsController}
use ktux.Pic.Mask.{bit}
use ktux.Process.{Allocator, ThreadList}
use ktux.Process.Tests.{two}

-- A controller: its mask, and the words of initialisation that are still to come.
abbrev command : ℕ → ℕ × ℕ → ℕ × ℕ
command v (mask, pending) = if v / 2 ^ 4 % 2 == 1 then (0, 3) else (mask, pending)

abbrev data_word : ℕ → ℕ × ℕ → ℕ × ℕ
data_word v (mask, pending) = if pending == 0 then (v % 2 ^ 8, 0) else (mask, pending - 1)

-- Two controllers; a data port reads as the mask only when no word is still to come.
abbrev Chips : Type 0
Chips = (ℕ × ℕ) × (ℕ × ℕ)

abbrev shown : ℕ × ℕ → ℕ
shown (mask, pending) = if pending == 0 then mask else 0

abbrev chips : Ports Chips
chips = record {
  read_port = λ a w. if a == 0x21 then shown w.0 else if a == 0xA1 then shown w.1 else 0;
  write_port = λ a v w.
      if a == 0x20
      then (command v w.0, w.1)
      else if a == 0xA0
      then (w.0, command v w.1)
      else if a == 0x21
      then (data_word v w.0, w.1)
      else if a == 0xA1
      then (w.0, data_word v w.1)
      else w;
}

abbrev AreStarted : Chips → Type 0
AreStarted ((mask, pending), (mask', pending')) = (pending ≡ 0) × (pending' ≡ 0)

chips-IsController : IsController chips AreStarted
chips-IsController = record {
  started = λ a b w. (refl, refl);
  first = λ v w r. rw (r.0) refl;
  first_kept = λ v w r. refl;
  second_kept = λ v w r. refl;
  first_ready = λ v w r. rw (r.0) (refl, r.1);
  second_ready = λ v w r. rw (r.1) (r.0, refl);
  timer_kept = λ a v w timer r. elim timer [ inl e ↦ rw e refl | inr e ↦ rw e refl ];
  timer_ready = λ a v w timer r. elim timer [ inl e ↦ rw e r | inr e ↦ rw e r ];
}

abbrev shell : Shell Chips
shell = record {
  kbd_buf_pos = 0;
  cmd_buf_pos = 0;
  command_buffer = replicate 256 0;
  shell_initialized = false;
  pic = record {
    irq_status = replicate max_irq_imp 0;
    idt_initialized = true;
    world = ((0xB8, 0), (0x8E, 0));
  };
}

abbrev kernel : Kernel Chips ℕ (List ℕ)
kernel = record {
  vm = vm;
  display = vga;
  idt = empty;
  shell = shell;
  sched = two;
  interrupts = false;
}

-- A heap that hands out addresses upwards, none of them 0.
abbrev upwards : Allocator ℕ
upwards = record { kmalloc = λ n h. (h + 1, h + 1 + n) }

upwards-HandsOut : HandsOut upwards
upwards-HandsOut n h = omega arith

abbrev entries : ThreadList (List ℕ)
entries = record { list_add = λ p l. p ∷ l; list_del = λ p l. l }

start_lines-opens_example :
    (k2 : Kernel Chips ℕ (List ℕ)) × ((start_hardware (λ _. []) chips kernel
        >>= start_threads (λ _. []) upwards entries (λ _. []) (λ _. 0x1000)
        >>= start_lines (λ _. []) chips)
      ≡ ok k2)
    × (k2.interrupts ≡ true)
    × (k2.sched.current_task ≡ 0)
    × (k2.sched.p_current_task ≡ 0x8001)
    × (bit 1 (chips.read_port 0x21 k2.shell.pic.world) ≡ 0)
start_lines-opens_example =
    start_lines-opens (λ _. []) upwards entries (λ _. []) (λ _. 0x1000) chips AreStarted
      chips-IsController upwards-HandsOut kernel 1 refl (omega arith)
