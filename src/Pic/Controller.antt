-- ===== src/Pic/Controller.antt =====
-- The controllers from their initialisation on.
use ktux.Base.{ℕ, ◌%◌, ◌^◌, ◌<◌, ◌≡◌, ◌∙◌, ◌⊎◌, inl, inr, refl, true, length, subst, sym, arith}
use ktux.Base.Run.{ok}
use ktux.Pic.{Ports, Pic, max_irq_imp, clear_bit, enable_irq, set_irqs, remap_pics, init_pic}
use ktux.Pic.Irq.{HasLine, change_irq-HasLine}
use ktux.Pic.Mask.{clear_bit-places}

-- The documented 8259s. The four words of initialisation to each, whatever came before, leave them
-- ready; a ready one reads at its data port as the mask that was last written there, and stays ready
-- and keeps its mask when the other's mask or a port of the timer is written.
pub record IsController {W : Type 0} (io : Ports W) (IsReady : W → Type 0) : Type 0 where
  pub started :
      (first second : ℕ) (w : W)
      → let w1 = io.write_port 0xA0 0x11 (io.write_port 0x20 0x11 w) in
        let w2 = io.write_port 0xA1 second (io.write_port 0x21 first w1) in
        let w3 = io.write_port 0xA1 2 (io.write_port 0x21 4 w2) in
        IsReady (io.write_port 0xA1 0x01 (io.write_port 0x21 0x01 w3))
  pub first : (v : ℕ) (w : W) → IsReady w → io.read_port 0x21 (io.write_port 0x21 v w) ≡ v % 2 ^ 8
  pub first_kept :
      (v : ℕ) (w : W) → IsReady w → io.read_port 0x21 (io.write_port 0xA1 v w) ≡ io.read_port 0x21 w
  pub second_kept :
      (v : ℕ) (w : W) → IsReady w → io.read_port 0xA1 (io.write_port 0x21 v w) ≡ io.read_port 0xA1 w
  pub first_ready : (v : ℕ) (w : W) → IsReady w → IsReady (io.write_port 0x21 v w)
  pub second_ready : (v : ℕ) (w : W) → IsReady w → IsReady (io.write_port 0xA1 v w)
  pub timer_kept :
      (a v : ℕ) (w : W)
      → (a ≡ 0x40) ⊎ (a ≡ 0x43)
      → IsReady w
      → io.read_port 0x21 (io.write_port a v w) ≡ io.read_port 0x21 w
  pub timer_ready :
      (a v : ℕ) (w : W) → (a ≡ 0x40) ⊎ (a ≡ 0x43) → IsReady w → IsReady (io.write_port a v w)

module _ {W : Type 0} (io : Ports W) (IsReady : W → Type 0) (chips : IsController io IsReady) where
  -- A line of the first controller, when it is ready.
  pub enable_irq-IsReady :
      (irq : ℕ) (p : Pic W)
      → irq < 8
      → length p.irq_status ≡ max_irq_imp
      → IsReady p.world
      → (q : Pic W) × (enable_irq io irq p ≡ ok (1, q)) × HasLine io irq 0 1 p q × IsReady q.world
  unfolding enable_irq
  enable_irq-IsReady irq p low full ready =
      let (q, run, line, world) =
        change_irq-HasLine io irq 0 1 (clear_bit irq) p low full
          (λ v k h. clear_bit-places irq v k (omega arith) h) (chips.first _ p.world ready)
          (chips.second_kept _ p.world ready) in
      (q, run, line, subst IsReady (sym world) (chips.first_ready _ p.world ready))

  -- `init_pic` leaves the controllers ready, the first one with only the cascade open.
  pub init_pic-IsReady :
      (p : Pic W)
      → p.idt_initialized ≡ true
      → (io.read_port 0x21 (init_pic io p).world ≡ 0xFB) × IsReady (init_pic io p).world
  unfolding init_pic set_irqs clear_bit remap_pics
  init_pic-IsReady p init =
      let begun = chips.started 0x20 0x28 p.world in
      let opened = chips.first_ready 0xFFFFFFFB _ begun in
      rw init (
        chips.first_kept 0xFFFFFFFF _ opened ∙ chips.first 0xFFFFFFFB _ begun,
        chips.second_ready 0xFFFFFFFF _ opened,
      )

  -- The three words to the timer.
  pub timer-IsReady :
      (a b c : ℕ) (w : W)
      → IsReady w
      → let w3 = io.write_port 0x40 c (io.write_port 0x40 b (io.write_port 0x43 a w)) in
        (io.read_port 0x21 w3 ≡ io.read_port 0x21 w) × IsReady w3
  timer-IsReady a b c w ready =
      let one = chips.timer_ready 0x43 a w (inr refl) ready in
      let two = chips.timer_ready 0x40 b _ (inl refl) one in
      (
        chips.timer_kept 0x40 c _ (inl refl) two
            ∙ chips.timer_kept 0x40 b _ (inl refl) one
            ∙ chips.timer_kept 0x43 a w (inr refl) ready,
        chips.timer_ready 0x40 c _ (inl refl) two,
      )
