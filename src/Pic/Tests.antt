-- ===== src/Pic/Tests.antt =====
-- The interrupt controllers over ports that hold the byte last written to them.
use ktux.Base.{ℕ, ◌%◌, ◌^◌, ◌≡◌, refl, true, replicate, write, arith}
use ktux.Base.Run.{ok, fault}
use ktux.Pic.{Ports, Pic, max_irq_imp, enable_irq, toggle_irq}
use ktux.Pic.Irq.{HasMasks, HasLine, enable_irq-HasLine}
use ktux.Pic.Toggle.{SameLines, toggle-toggle}

abbrev latches : Ports (ℕ → ℕ)
latches = record { read_port = λ a w. w a; write_port = λ a v w. write w a (v % 2 ^ 8) }

latches-HasMasks : HasMasks latches
latches-HasMasks = record {
  first = λ v w. refl;
  second = λ v w. refl;
  first_kept = λ v w. refl;
  second_kept = λ v w. refl;
}

-- Every line masked.
abbrev masked : Pic (ℕ → ℕ)
masked = record { irq_status = replicate max_irq_imp 0; idt_initialized = true; world = λ _. 0xFF }

enable_irq-HasLine_example :
    (q : Pic (ℕ → ℕ)) × (enable_irq latches 1 masked ≡ ok (1, q)) × HasLine latches 1 0 1 masked q
enable_irq-HasLine_example = enable_irq-HasLine latches latches-HasMasks 1 masked (omega arith) refl

toggle-toggle_example :
    (q r : Pic (ℕ → ℕ)) × (toggle_irq latches 0 masked ≡ ok (1, q))
    × (toggle_irq latches 0 q ≡ ok (1, r))
    × SameLines latches masked r
toggle-toggle_example =
    toggle-toggle latches latches-HasMasks 0 masked (omega arith) refl refl (omega arith) refl

-- Line 21 passes the bound, and lies behind the end of `irqStatus`.
line_21_faults : enable_irq latches 21 masked ≡ fault
unfolding enable_irq
line_21_faults = refl

line_22_refused : enable_irq latches 22 masked ≡ ok (0, masked)
unfolding enable_irq
line_22_refused = refl
