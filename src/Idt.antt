-- ===== src/Idt.antt =====
-- src/kernel/interrupts.c and src/include/interrupts.h: the interrupt descriptor table.
--
-- A handler is the address of its assembly stub in isr.s, 0 for NULL. `beyond` is what the words
-- behind the array `idtIRQList` on the stack happen to hold: the loop over it runs past its end.
pub mod Installed
pub mod Boot
pub mod Exception
pub mod Reboot
pub mod Tests
use ktux.Base.{
  ℕ, zero, suc, ◌+◌, ◌-◌, ◌*◌, ◌/◌, ◌%◌, ◌^◌, Bool, true, false, not, Option, none, some, List, ltb,
  leb, ◌==◌, if◌then◌else◌, get_or, write, bit_and,
}
use ktux.Base.Int.{ℤ, pos, negsuc}
use ktux.Process.Create.{kernel_code_selector}

-- `idt_entry_struct`.
pub record Gate : Type 0 where
  pub offset_low : ℕ
  pub selector : ℕ
  pub settings : ℕ
  pub offset_high : ℕ

-- `IDT`, `idtInitialized`, `IDTR`, and the limit and base that `lidt` loaded last.
pub record Idt : Type 0 where
  pub gates : ℕ → Gate
  pub idt_initialized : Bool
  pub limit : ℕ
  pub base : ℕ
  pub loaded : Option (ℕ × ℕ)

-- `ERR_ALREADY_INIT` and `ERR_BOUNDS_EXCEED`, -2 and -4.
abbrev pub err_already_init : ℤ
err_already_init = negsuc 1

abbrev pub err_bounds_exceed : ℤ
err_bounds_exceed = negsuc 3

unfoldable pub gate_of : ℕ → ℕ → Gate
gate_of offset dpl = record {
  offset_low = bit_and offset 0xFFFF;
  selector = kernel_code_selector;
  settings = if dpl == 0 then 0x8E00 else 0xEE00;
  offset_high = offset / 2 ^ 16;
}

-- The answer, `true` being 1, and the table.
unfoldable pub set_idt_entry : ℕ → ℕ → ℕ → Idt → ℤ × Idt
unfolding gate_of
set_idt_entry vector handler dpl t =
    if ltb 0xFF vector
    then (err_bounds_exceed, t)
    else if handler == 0
    then (err_bounds_exceed, t)
    else (pos 1, record t { gates = write t.gates vector (gate_of handler dpl) })

-- `if (!status)`.
unfoldable pub is_false : ℤ → Bool
is_false (pos n) = n == 0
is_false (negsuc n) = false

-- One of the loops of `init_interrupts`: `count` entries from `i` on, behind `base`. It says
-- whether it came to its end, or returned the status that it also gives.
unfoldable pub install : ℕ → ℕ → ℕ → (ℕ → ℕ) → ℤ × Idt → Bool × ℤ × Idt
unfolding set_idt_entry is_false
install base zero i handler (status, t) = (true, status, t)
install base (suc count) i handler (status, t) =
    let (status', t') = set_idt_entry (base + i) (handler i) 0 t in
    let rest = install base count (i + 1) handler (status', t') in
    if is_false status' then (false, status', t') else rest

-- The stubs that `init_interrupts` names.
pub record Stubs : Type 0 where
  pub unimplemented : ℕ
  pub exceptions : List ℕ
  pub timer : ℕ
  pub keyboard : ℕ
  pub syscall : ℕ

-- `idtIRQList`: two handlers and fourteen times the unimplemented one.
unfoldable pub irq_list : Stubs → (ℕ → ℕ) → ℕ → ℕ
irq_list stubs beyond i =
    if i == 0
    then stubs.timer
    else if i == 1
    then stubs.keyboard
    else if ltb i 16
    then stubs.unimplemented
    else beyond i

unfoldable pub load_idtr : ℕ → Idt → Idt
load_idtr idt_address t =
    let limit = 0x100 * (8 - 1) % 2 ^ 16 in
    if t.idt_initialized
    then record t { limit = limit; base = idt_address; loaded = some (limit, idt_address) }
    else t

unfoldable pub init_interrupts : ℕ → Stubs → (ℕ → ℕ) → Idt → ℤ × Idt
init_interrupts idt_address stubs beyond t =
    let (ended, st, t1) = install 0 0xFF 0 (λ _. stubs.unimplemented) (pos 1, t) in
    let (ended', st', t2) = install 0 0x13 0 (λ i. get_or stubs.exceptions i 0) (st, t1) in
    let (ended'', st'', t3) = install 0x20 0x15 0 (irq_list stubs beyond) (st', t2) in
    let with_syscall = (set_idt_entry 0x80 stubs.syscall 0 t3).1 in
    if t.idt_initialized
    then (err_already_init, t)
    else if not ended
    then (st, t1)
    else if not ended'
    then (st', t2)
    else if not ended''
    then (st'', t3)
    else (st'', load_idtr idt_address (record with_syscall { idt_initialized = true }))
