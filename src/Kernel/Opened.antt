-- ===== src/Kernel/Opened.antt =====
-- The last part of `_kernel_main`, from the interrupt controllers on.
use ktux.Base.{ℕ, ◌<◌, ◌≡◌, refl, ap, ◌∙◌, true, List, [], ◌∷◌, ltb, if◌then◌else◌, arith}
use ktux.Base.Run.{ok, ◌>>=◌}
use ktux.Kernel.{
  Kernel, scheduler_message, ok_message, timer_message, start_hardware, start_threads, start_lines,
}
use ktux.Kernel.Lines.{say-lem, hardware_started, hardware-lem, start_lines_lem}
use ktux.Kernel.Threads.{HandsOut, init_multitasking_lem}
use ktux.Pic.{Ports}
use ktux.Pic.Controller.{IsController}
use ktux.Pic.Mask.{bit}
use ktux.Process.{thread_size, Sched, Allocator, ThreadList}
use ktux.Process.Create.{init_multitasking}
use ktux.Stdio.Formats.{no_percent, IsLiteral-no_percent}
use ktux.Video.Consoles.{Display}

module _ (strings : ℕ → List ℕ) {W H L : Type 0} (al : Allocator H) (ls : ThreadList L)
    (name : ℕ → List ℕ) (entry : ℕ → ℕ) where
  threads-lem :
      (k : Kernel W H L) (s : Sched H L)
      → init_multitasking al ls name entry k.sched ≡ ok s
      → (d : Display) × (start_threads strings al ls name entry k
          ≡ ok (record k { display = d; sched = s }))
  unfolding start_threads no_percent
  threads-lem k s created =
      let (d1, one) =
        say-lem strings (scheduler_message ∷ []) k
          (IsLiteral-no_percent scheduler_message refl, tt) in
      let (d2, two) =
        say-lem strings (ok_message ∷ timer_message ∷ []) (record k { display = d1; sched = s })
          (IsLiteral-no_percent ok_message refl, (IsLiteral-no_percent timer_message refl, tt)) in
      (d2, rw (one, created) two)

  -- When the interrupt table is initialised, `kmalloc` hands out memory and the controllers are the
  -- documented ones, the last part of
  -- `_kernel_main`, from `init_pic` over the creation of the threads to `sti`, comes to its end:
  -- interrupts are taken, slot 0 is the current one and its thread, the first that was allocated, the
  -- current thread, and of the first controller's lines those of the timer, the keyboard and the
  -- cascade are open and no other.
  pub start_lines-opens :
      (io : Ports W) (IsReady : W → Type 0)
      → IsController io IsReady
      → HandsOut al
      → (k : Kernel W H L) (j : ℕ) → k.shell.pic.idt_initialized ≡ true
      → j < 8
      → (k2 : Kernel W H L) × ((start_hardware strings io k
            >>= start_threads strings al ls name entry
            >>= start_lines strings io)
          ≡ ok k2)
        × (k2.interrupts ≡ true)
        × (k2.sched.current_task ≡ 0)
        × (k2.sched.p_current_task ≡ (al.kmalloc thread_size k.sched.heap).0)
        × (bit j (io.read_port 0x21 k2.shell.pic.world) ≡ (if ltb j 3 then 0 else 1))
  start_lines-opens io IsReady chips handed k j ready small =
      let (d1, hardware) = hardware-lem strings io k in
      let k1 = hardware_started strings io k d1 k.sched in
      let (s, created, five, first) = init_multitasking_lem al ls handed name entry k.sched in
      let (d2, threads) = threads-lem k1 s created in
      let (k2, lines, taken, slot, current, bits) =
        start_lines_lem strings io IsReady chips k d2 s j ready (omega arith) small in
      (
        k2,
        ap (λ r. r >>= start_threads strings al ls name entry >>= start_lines strings io) hardware
            ∙ ap (λ r. r >>= start_lines strings io) threads
            ∙ lines,
        taken,
        slot,
        current ∙ first,
        bits,
      )
