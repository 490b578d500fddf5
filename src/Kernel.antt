-- ===== src/Kernel.antt =====
-- src/kernel/kernel.c (`_kernel_main`): the order in which the kernel is set up.
--
-- The boot parameter is given by its fields. The run ends where interrupts are taken: the loop behind
-- it calls `kill`, which hands the processor to the threads. Each `kprintf` is printed on the display.
pub mod Lines
pub mod Threads
pub mod Opened
mod Tests
use ktux.Base.{ℕ, Bool, true, List, [], ◌∷◌}
use ktux.Base.Run.{Run, ok, ◌>>=◌}
use ktux.Idt.{Idt, Stubs, init_interrupts}
use ktux.Keyboard.Line.{Shell, init_keyboard, init_shell}
use ktux.Keyboard.Prompt.{shell_prompt}
use ktux.Memory.Heap.{init_heap}
use ktux.Memory.Paging.{Mmu, Vm}
use ktux.Memory.Paging.Boot.{init_virt_mem}
use ktux.Memory.Report.{E820MemoryMap, print_mem_info}
use ktux.Pic.{Ports, Pic, init_pic, enable_irq}
use ktux.Process.{Sched, Allocator, ThreadList}
use ktux.Process.Create.{init_multitasking, start_scheduler}
use ktux.Stdio.Calls.{kprintf_all}
use ktux.Timer.{reprogram_timer}
use ktux.Video.Consoles.{Display}
use ktux.Video.Consoles.Boot.{init_console}
use ktux.Video.Consoles.Info.{print_video_info}

-- `systemInfo`, as far as it is used: `memory_map` is the address of its table, `regions` the table.
pub record SystemInfo : Type 0 where
  pub kernel_end : ℕ
  pub total_memory : ℕ
  pub memory_map : ℕ
  pub regions : ℕ → E820MemoryMap

-- What the BIOS left about the display: the byte at port 0x3CC and the two at 0x44A and 0x484.
pub record VideoBios : Type 0 where
  pub misc : ℕ
  pub columns : ℕ
  pub last_row : ℕ

-- The parts of the kernel; `interrupts` tells whether interrupts are taken.
pub record Kernel (W H L : Type 0) : Type 0 where
  pub vm : Vm
  pub display : Display
  pub idt : Idt
  pub shell : Shell W
  pub sched : Sched H L
  pub interrupts : Bool

abbrev pub initializing_message : List ℕ
initializing_message =
    b'i' ∷ b'n' ∷ b'i' ∷ b't' ∷ b'i' ∷ b'a' ∷ b'l' ∷ b'i' ∷ b'z' ∷ b'i' ∷ b'n' ∷ b'g' ∷ b' ' ∷ b's'
    ∷ b'y' ∷ b's' ∷ b't' ∷ b'e' ∷ b'm' ∷ b':' ∷ 0x0A ∷ b'm' ∷ b'e' ∷ b'm' ∷ b'o' ∷ b'r' ∷ b'y'
    ∷ b' ' ∷ b'.' ∷ b'.' ∷ b'.' ∷ 0x0A ∷ []

abbrev pub ok_message : List ℕ
ok_message = b' ' ∷ b' ' ∷ b'[' ∷ b' ' ∷ b'O' ∷ b'K' ∷ b' ' ∷ b']' ∷ 0x0A ∷ []

abbrev pub video_message : List ℕ
video_message = b'v' ∷ b'i' ∷ b'd' ∷ b'e' ∷ b'o' ∷ b' ' ∷ b':' ∷ b' ' ∷ []

abbrev pub interrupts_message : List ℕ
interrupts_message =
    b'i' ∷ b'n' ∷ b't' ∷ b'e' ∷ b'r' ∷ b'r' ∷ b'u' ∷ b'p' ∷ b't' ∷ b's' ∷ b' ' ∷ b'.' ∷ b'.' ∷ b'.'
    ∷ 0x0A ∷ []

abbrev pub heap_message : List ℕ
heap_message =
    b'k' ∷ b'e' ∷ b'r' ∷ b'n' ∷ b'e' ∷ b'l' ∷ b' ' ∷ b'h' ∷ b'e' ∷ b'a' ∷ b'p' ∷ b' ' ∷ b'.' ∷ b'.'
    ∷ b'.' ∷ 0x0A ∷ []

abbrev pub hardware_message : List ℕ
hardware_message = b'h' ∷ b'a' ∷ b'r' ∷ b'd' ∷ b'w' ∷ b'a' ∷ b'r' ∷ b'e' ∷ b' ' ∷ b'.' ∷ []

abbrev pub dot : List ℕ
dot = b'.' ∷ []

abbrev pub hardware_ok_message : List ℕ
hardware_ok_message = 0x0A ∷ b' ' ∷ b' ' ∷ b'[' ∷ b' ' ∷ b'O' ∷ b'K' ∷ b' ' ∷ b']' ∷ 0x0A ∷ []

abbrev pub scheduler_message : List ℕ
scheduler_message =
    b's' ∷ b'c' ∷ b'h' ∷ b'e' ∷ b'd' ∷ b'u' ∷ b'l' ∷ b'e' ∷ b'r' ∷ b' ' ∷ b'.' ∷ b'.' ∷ b'.' ∷ 0x0A
    ∷ []

abbrev pub timer_message : List ℕ
timer_message =
    b'R' ∷ b'e' ∷ b'p' ∷ b'r' ∷ b'o' ∷ b'g' ∷ b'r' ∷ b'a' ∷ b'm' ∷ b'm' ∷ b'i' ∷ b'n' ∷ b'g' ∷ b' '
    ∷ b't' ∷ b'i' ∷ b'm' ∷ b'e' ∷ b'r' ∷ b' ' ∷ b'a' ∷ b'n' ∷ b'd' ∷ b' ' ∷ b'e' ∷ b'n' ∷ b'a'
    ∷ b'b' ∷ b'l' ∷ b'i' ∷ b'n' ∷ b'g' ∷ b' ' ∷ b'I' ∷ b'R' ∷ b'Q' ∷ b's' ∷ b'.' ∷ b'.' ∷ b'.'
    ∷ 0x0A ∷ []

module _ (strings : ℕ → List ℕ) {W H L : Type 0} where
  -- Messages without arguments.
  unfoldable pub say : List (List ℕ) → Kernel W H L → Run (Kernel W H L)
  say [] k = ok k
  say (t ∷ ts) k =
      kprintf_all strings ((t, []) ∷ []) k.display >>= λ d. say ts (record k { display = d })

  -- Memory, and the reports of memory and display. `color` and `mono` are the addresses of the
  -- strings of the display's report.
  unfoldable pub start_memory :
      ℕ → SystemInfo → VideoBios → ℕ → ℕ → Kernel W H L → Run (Kernel W H L)
  unfolding say
  start_memory fuel info bios color mono k0 = do
    vm ← init_virt_mem fuel info.total_memory info.kernel_end k0.vm
    d1 ← init_console strings bios.misc bios.columns bios.last_row k0.display
    k1 ← say (initializing_message ∷ []) (record k0 { vm = vm; display = d1 })
    d2 ← print_mem_info strings fuel info.memory_map info.regions k1.vm k1.display
    k2 ← say (ok_message ∷ video_message ∷ []) (record k1 { display = d2 })
    d3 ← print_video_info strings color mono k2.display
    say (ok_message ∷ []) (record k2 { display = d3 })

  -- The interrupt table, and the heap. `idtInitialized` is a variable that pic.c reads too.
  unfoldable pub start_interrupts : Mmu → ℕ → Stubs → (ℕ → ℕ) → Kernel W H L → Run (Kernel W H L)
  unfolding say
  start_interrupts mmu idt_address stubs beyond k0 = do
    k1 ← say (interrupts_message ∷ []) k0
    let t = (init_interrupts idt_address stubs beyond k1.idt).1
    let pic = record k1.shell.pic { idt_initialized = t.idt_initialized }
    k2 ←
        say (ok_message ∷ heap_message ∷ [])
          (record k1 { idt = t; shell = record k1.shell { pic = pic } })
    vm ← init_heap mmu k2.vm
    say (ok_message ∷ []) (record k2 { vm = vm })

  -- The interrupt controllers and the keyboard; `init_timer` does nothing.
  unfoldable pub start_hardware : Ports W → Kernel W H L → Run (Kernel W H L)
  unfolding say init_pic init_keyboard
  start_hardware io k0 = do
    k1 ← say (hardware_message ∷ []) k0
    let shell = record k1.shell { pic = init_pic io k1.shell.pic }
    k2 ← say (dot ∷ dot ∷ []) (record k1 { shell = shell })
    say (hardware_ok_message ∷ []) (record k2 { shell = (init_keyboard io k2.shell).1 })

  -- The threads.
  unfoldable pub start_threads :
      Allocator H → ThreadList L → (ℕ → List ℕ) → (ℕ → ℕ) → Kernel W H L → Run (Kernel W H L)
  unfolding say
  start_threads al ls name entry k0 = do
    k1 ← say (scheduler_message ∷ []) k0
    s ← init_multitasking al ls name entry k1.sched
    say (ok_message ∷ timer_message ∷ []) (record k1 { sched = s })

  -- The timer, the lines of the keyboard and the timer, and `sti`.
  unfoldable pub open_lines : Ports W → Shell W → Display → Kernel W H L → Run (Kernel W H L)
  unfolding reprogram_timer enable_irq start_scheduler
  open_lines io shell d k = do
    w ← reprogram_timer io 1000 shell.pic.world
    r ← enable_irq io 1 (record shell.pic { world = w })
    started ← start_scheduler io r.1 k.sched
    ok (record k {
      display = d;
      shell = record shell { pic = started.0 };
      sched = started.1;
      interrupts = true;
    })

  -- The shell, and what follows.
  unfoldable pub start_lines : Ports W → Kernel W H L → Run (Kernel W H L)
  unfolding init_shell shell_prompt open_lines
  start_lines io k = shell_prompt strings (init_shell io k.shell) k.display >>= λ d.
      open_lines io (init_shell io k.shell) d k

  unfoldable pub kernel_main :
      ℕ
      → SystemInfo
      → VideoBios
      → ℕ
      → ℕ
      → Mmu
      → ℕ
      → Stubs
      → (ℕ → ℕ)
      → Ports W
      → Allocator H
      → ThreadList L
      → (ℕ → List ℕ)
      → (ℕ → ℕ)
      → Kernel W H L
      → Run (Kernel W H L)
  unfolding start_memory start_interrupts start_hardware start_threads start_lines
  kernel_main fuel info bios color mono mmu idt_address stubs beyond io al ls name entry k =
      start_memory fuel info bios color mono k
      >>= start_interrupts mmu idt_address stubs beyond
      >>= start_hardware io
      >>= start_threads al ls name entry
      >>= start_lines io
