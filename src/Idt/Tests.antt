-- ===== src/Idt/Tests.antt =====
-- The start of the interrupt table with stubs at made-up addresses.
use ktux.Base.{ℕ, zero, suc, ◌<◌, ◌≤◌, ◌⊎◌, ◌≡◌, ◌≢◌, refl, false, none, get_or, replicate, arith}
use ktux.Base.Int.{pos}
use ktux.Idt.{Idt, Stubs, set_idt_entry, err_bounds_exceed, init_interrupts}
use ktux.Idt.Installed.{target, set_idt_entry-cases}
use ktux.Idt.Boot.{AreStubs, IsBooted, init_interrupts-IsBooted}

abbrev stub : ℕ
stub = 0xC0002000

abbrev stubs : Stubs
stubs = record {
  unimplemented = 0xC0001000;
  exceptions = replicate 0x13 stub;
  timer = 0xC0003000;
  keyboard = 0xC0004000;
  syscall = 0xC0005000;
}

abbrev pub empty : Idt
empty = record {
  gates = λ _. record { offset_low = 0; selector = 0; settings = 0; offset_high = 0 };
  idt_initialized = false;
  limit = 0;
  base = 0;
  loaded = none;
}

exceptions_at : (n v : ℕ) → v < n → get_or (replicate n stub) v 0 ≡ stub
exceptions_at zero v h = absurd (omega arith)
exceptions_at (suc n) zero h = refl
exceptions_at (suc n) (suc v) h = exceptions_at n v (omega arith)

stubs-AreStubs : AreStubs stubs
stubs-AreStubs = record {
  unimplemented = omega arith;
  exceptions = λ v h e. omega (arith, exceptions_at 0x13 v h, e);
  timer = omega arith;
  keyboard = omega arith;
  syscall = omega arith;
}

init_interrupts-IsBooted_example :
    (u : Idt) × (init_interrupts 0xC0010000 stubs (λ _. 0) empty ≡ (err_bounds_exceed, u))
    × IsBooted 0xC0010000 stubs empty u
init_interrupts-IsBooted_example =
    init_interrupts-IsBooted 0xC0010000 stubs (λ _. 0) empty stubs-AreStubs refl

set_idt_entry-cases_example :
    ((32 < 256)
      × (stub ≢ 0)
      × ((set_idt_entry 32 stub 0 empty).0 ≡ pos 1)
      × (target ((set_idt_entry 32 stub 0 empty).1.gates 32) ≡ stub)
      × ((v : ℕ) → v ≢ 32 → (set_idt_entry 32 stub 0 empty).1.gates v ≡ empty.gates v))
    ⊎ (((256 ≤ 32) ⊎ (stub ≡ 0)) × (set_idt_entry 32 stub 0 empty ≡ (err_bounds_exceed, empty)))
set_idt_entry-cases_example = set_idt_entry-cases 32 stub 0 empty
