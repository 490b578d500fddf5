-- ===== src/Pic/Toggle.antt =====
-- Toggling an interrupt line, and toggling it back.
use ktux.Base.{
  ℕ, ◌-◌, ◌≤◌, ◌<◌, ◌≡◌, refl, ◌∙◌, sym, true, length, ◌==◌, if◌then◌else◌, get_or, ==_refl, lt→ltb,
  ge→ltb, ne→==, arith,
}
use native.Mathlib.Decide.{ℕ_discrete}
use ktux.Base.Run.{ok, ◌>>=◌}
use ktux.Pic.{Ports, Pic, max_irq_imp, enable_irq, disable_irq, toggle_irq}
use ktux.Pic.Mask.{bit}
use ktux.Pic.Irq.{HasMasks, HasLine, enable_irq-HasLine, disable_irq-HasLine}

-- Every mask bit of both controllers, and every recorded state, is the same.
pub record SameLines {W : Type 0} (io : Ports W) (p r : Pic W) : Type 0 where
  pub first :
      (k : ℕ) → k < 8 → bit k (io.read_port 0x21 r.world) ≡ bit k (io.read_port 0x21 p.world)
  pub second : io.read_port 0xA1 r.world ≡ io.read_port 0xA1 p.world
  pub entries : (j : ℕ) → get_or r.irq_status j 0 ≡ get_or p.irq_status j 0

module _ {W : Type 0} (io : Ports W) (masks : HasMasks io) where
  toggle_irq-run :
      (irq : ℕ) (p : Pic W)
      → irq < max_irq_imp
      → p.idt_initialized ≡ true
      → toggle_irq io irq p ≡ (
          (if get_or p.irq_status irq 0 == 0 then enable_irq io irq p else disable_irq io irq p)
          >>= λ r. ok (1, r.1))
  unfolding toggle_irq
  toggle_irq-run irq p low init = rw (ge→ltb 21 irq (omega arith), lt→ltb irq 21 low) (simp init)

  toggle-off :
      (irq : ℕ) (p : Pic W)
      → irq < 8
      → length p.irq_status ≡ max_irq_imp
      → p.idt_initialized ≡ true
      → get_or p.irq_status irq 0 ≡ 0
      → (q : Pic W) × (toggle_irq io irq p ≡ ok (1, q)) × HasLine io irq 0 1 p q
  toggle-off irq p low full init off =
      let (q, run, line) = enable_irq-HasLine io masks irq p low full in
      (q, toggle_irq-run irq p (omega arith) init ∙ rw (off, run) refl, line)

  toggle-on :
      (irq : ℕ) (p : Pic W)
      → irq < 8
      → length p.irq_status ≡ max_irq_imp
      → p.idt_initialized ≡ true
      → get_or p.irq_status irq 0 ≡ 1
      → (q : Pic W) × (toggle_irq io irq p ≡ ok (1, q)) × HasLine io irq 1 0 p q
  toggle-on irq p low full init on =
      let (q, run, line) = disable_irq-HasLine io masks irq p low full in
      (q, toggle_irq-run irq p (omega arith) init ∙ rw (on, run) refl, line)

  line_back :
      (irq m m' v v' : ℕ) (p q r : Pic W)
      → HasLine io irq m v p q
      → HasLine io irq m' v' q r
      → bit irq (io.read_port 0x21 p.world) ≡ m'
      → get_or p.irq_status irq 0 ≡ v'
      → SameLines io p r
  line_back irq m m' v v' p q r out home was entry = record {
    first = λ k h. elim (ℕ_discrete k irq) [
      | yes e ↦
          let set_back : (if k == irq then m' else bit k (io.read_port 0x21 q.world))
              ≡ bit k (io.read_port 0x21 p.world) =
            rw (e, ==_refl irq) (sym was) in
          home.line k h ∙ set_back
      | no ne ↦ (rw (ne→== k irq ne) at (home.line k h)) ∙ (rw (ne→== k irq ne) at (out.line k h))
    ];
    second = home.second ∙ out.second;
    entries = λ j. elim (ℕ_discrete j irq) [
      | yes e ↦ rw e (home.entry ∙ sym entry)
      | no ne ↦ home.entries j ne ∙ out.entries j ne
    ];
  }

  -- Toggling twice a line of the first controller whose mask bit and recorded state agree brings
  -- every mask bit of both controllers, and every recorded state, back.
  pub toggle-toggle :
      (irq : ℕ) (p : Pic W)
      → irq < 8
      → length p.irq_status ≡ max_irq_imp
      → p.idt_initialized ≡ true
      → get_or p.irq_status irq 0 ≤ 1
      → bit irq (io.read_port 0x21 p.world) ≡ 1 - get_or p.irq_status irq 0
      → (q r : Pic W) × (toggle_irq io irq p ≡ ok (1, q))
        × (toggle_irq io irq q ≡ ok (1, r))
        × SameLines io p r
  toggle-toggle irq p low full init flag agrees = elim (ℕ_discrete (get_or p.irq_status irq 0) 0) [
    | yes off ↦
        let (q, run, line) = toggle-off irq p low full init off in
        let (r, run', line') =
          toggle-on irq q low (line.length ∙ full) (line.initialized ∙ init) line.entry in
        (q, r, run, run', line_back irq 0 1 1 0 p q r line line' (omega arith) off)
    | no ne ↦
        let (q, run, line) = toggle-on irq p low full init (omega arith) in
        let (r, run', line') =
          toggle-off irq q low (line.length ∙ full) (line.initialized ∙ init) line.entry in
        (q, r, run, run', line_back irq 1 0 0 1 p q r line line' (omega arith) (omega arith))
  ]
