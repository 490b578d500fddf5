-- ===== src/Idt/Boot.antt =====
-- The table that `init_interrupts` leaves.
use ktux.Base.{
  ℕ, ◌-◌, ◌≤◌, ◌<◌, ◌≡◌, ◌≢◌, refl, ap, ◌∙◌, ◌⊎◌, Bool, true, false, some, get_or, write, ◌==◌,
  if◌then◌else◌, write_self, write-ne, ne→==, lt→ltb, arith,
}
use ktux.Base.Int.{ℤ, pos}
use ktux.Idt.{
  err_bounds_exceed, Idt, Stubs, gate_of, set_idt_entry, install, irq_list, load_idtr,
  init_interrupts,
}
use ktux.Idt.Installed.{
  target, gate_of-target, set_idt_entry-set, install-IsInstalled, install-answer,
}

-- None of the stubs is NULL.
pub record AreStubs (stubs : Stubs) : Type 0 where
  pub unimplemented : stubs.unimplemented ≢ 0
  pub exceptions : (v : ℕ) → v < 0x13 → get_or stubs.exceptions v 0 ≢ 0
  pub timer : stubs.timer ≢ 0
  pub keyboard : stubs.keyboard ≢ 0
  pub syscall : stubs.syscall ≢ 0

-- The exceptions, the timer, the keyboard and the system call lead to their stubs, the other vectors
-- below 0xFF to the stub for unhandled interrupts, except 0x30 to 0x34, of which nothing is said,
-- and 0xFF has no gate of its own; the table is loaded with a limit of 0x700 bytes.
pub record IsBooted (idt_address : ℕ) (stubs : Stubs) (t u : Idt) : Type 0 where
  pub exceptions : (v : ℕ) → v < 0x13 → target (u.gates v) ≡ get_or stubs.exceptions v 0
  pub timer : target (u.gates 0x20) ≡ stubs.timer
  pub keyboard : target (u.gates 0x21) ≡ stubs.keyboard
  pub syscall : target (u.gates 0x80) ≡ stubs.syscall
  pub irqs : (v : ℕ) → 0x22 ≤ v → v < 0x30 → target (u.gates v) ≡ stubs.unimplemented
  pub others :
      (v : ℕ)
      → ((0x13 ≤ v) × (v < 0x20)) ⊎ ((0x35 ≤ v) × (v < 0xFF))
      → v ≢ 0x80
      → target (u.gates v) ≡ stubs.unimplemented
  pub last : u.gates 0xFF ≡ t.gates 0xFF
  pub initialized : u.idt_initialized ≡ true
  pub loaded : u.loaded ≡ some (0x700, idt_address)

irq_list-unimplemented :
    (stubs : Stubs) (beyond : ℕ → ℕ) (i : ℕ)
    → 2 ≤ i
    → i < 16
    → irq_list stubs beyond i ≡ stubs.unimplemented
unfolding irq_list
irq_list-unimplemented stubs beyond i lo hi =
    rw (ne→== i 0 (omega arith), ne→== i 1 (omega arith), lt→ltb i 16 hi) refl

module _ (idt_address : ℕ) (stubs : Stubs) (beyond : ℕ → ℕ) (t : Idt) where
  -- The tables behind the three loops.
  first : Bool × ℤ × Idt
  first = install 0 0xFF 0 (λ _. stubs.unimplemented) (pos 1, t)

  second : Bool × ℤ × Idt
  second = install 0 0x13 0 (λ i. get_or stubs.exceptions i 0) (first.1, first.2)

  third : Bool × ℤ × Idt
  third = install 0x20 0x15 0 (irq_list stubs beyond) (second.1, second.2)

  booted : Idt
  booted =
      load_idtr idt_address
        (record ((set_idt_entry 0x80 stubs.syscall 0 third.2).1) { idt_initialized = true })

  init_interrupts-booted :
      t.idt_initialized ≡ false → init_interrupts idt_address stubs beyond t ≡ (third.1, booted)
  unfolding init_interrupts first second third booted
  init_interrupts-booted new =
      let one =
        (install-IsInstalled 0 0xFF 0 (λ _. stubs.unimplemented) (pos 1) t (omega arith)).ended in
      let two =
        (install-IsInstalled 0 0x13 0 (λ i. get_or stubs.exceptions i 0) first.1 first.2
          (omega arith)).ended in
      let three =
        (install-IsInstalled 0x20 0x15 0 (irq_list stubs beyond) second.1 second.2
          (omega arith)).ended in
      rw (one, two, three, new) refl

  -- From a table that is not initialised, and with stubs at addresses that are not NULL,
  -- `init_interrupts` answers the status of the last entry of its last loop, which it takes
  -- from the fifth word behind the array of handlers: -4 if this word is 0, else 1. It leaves a table in which every
  -- vector below 0xFF, except 0x30 to 0x34, leads to the stub that is meant for it; 0xFF has no gate
  -- of its own, and the table is loaded with the limit 0x700.
  pub init_interrupts-IsBooted :
      AreStubs stubs
      → t.idt_initialized ≡ false
      → (u : Idt) × (init_interrupts idt_address stubs beyond t
          ≡ ((if beyond 20 == 0 then err_bounds_exceed else pos 1), u))
        × IsBooted idt_address stubs t u
  unfolding booted load_idtr first second third irq_list
  init_interrupts-IsBooted given new =
      let all = install-IsInstalled 0 0xFF 0 (λ _. stubs.unimplemented) (pos 1) t (omega arith) in
      let exc =
        install-IsInstalled 0 0x13 0 (λ i. get_or stubs.exceptions i 0) first.1 first.2
          (omega arith) in
      let irq =
        install-IsInstalled 0x20 0x15 0 (irq_list stubs beyond) second.1 second.2 (omega arith) in
      let last : set_idt_entry 0x80 stubs.syscall 0 third.2 ≡ (
        pos 1,
        record (third.2) { gates = write third.2.gates 0x80 (gate_of stubs.syscall 0) },
      ) =
        set_idt_entry-set 0x80 stubs.syscall 0 third.2 (omega arith) given.syscall in
      let rest : (v : ℕ)
          → v ≢ 0x80
          → (set_idt_entry 0x80 stubs.syscall 0 third.2).1.gates v ≡ third.2.gates v =
        λ v ne. rw last (write-ne third.2.gates 0x80 v (gate_of stubs.syscall 0) ne) in
      (
        booted,
        init_interrupts-booted new
            ∙ ap (λ st. (st, booted))
                (install-answer 0x20 20 0 (irq_list stubs beyond) second.1 second.2 (omega arith)),
        record {
          exceptions = λ v h.
              let index : v - 0 ≡ v = omega arith in
              ap target (
                rest v (omega arith)
                ∙ irq.outside v (omega arith)
                ∙ exc.inside v (omega arith) (omega arith) (rw index (given.exceptions v h)))
              ∙ gate_of-target (get_or stubs.exceptions (v - 0) 0) 0
              ∙ ap (λ i. get_or stubs.exceptions i 0) index;
          timer =
              ap target
                (rest 0x20 (omega arith) ∙ irq.inside 0x20 (omega arith) (omega arith) given.timer)
              ∙ gate_of-target stubs.timer 0;
          keyboard =
              ap target (
                rest 0x21 (omega arith)
                ∙ irq.inside 0x21 (omega arith) (omega arith) given.keyboard)
              ∙ gate_of-target stubs.keyboard 0;
          syscall = rw last (
              ap target (write_self third.2.gates 0x80 (gate_of stubs.syscall 0))
              ∙ gate_of-target stubs.syscall 0);
          irqs = λ v lo hi.
              let entry =
                irq_list-unimplemented stubs beyond (v - 0x20) (omega arith) (omega arith) in
              ap target (
                rest v (omega arith)
                ∙ irq.inside v (omega arith) (omega arith) (rw entry given.unimplemented))
              ∙ gate_of-target (irq_list stubs beyond (v - 0x20)) 0
              ∙ entry;
          others = λ v out ne.
              ap target (
                rest v ne
                ∙ irq.outside v (omega arith)
                ∙ exc.outside v (omega arith)
                ∙ all.inside v (omega arith) (omega arith) given.unimplemented)
              ∙ gate_of-target stubs.unimplemented 0;
          last =
              rest 0xFF (omega arith)
              ∙ irq.outside 0xFF (omega arith)
              ∙ exc.outside 0xFF (omega arith)
              ∙ all.outside 0xFF (omega arith);
          initialized = refl;
          loaded = refl;
        },
      )
