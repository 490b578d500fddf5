-- ===== src/Pic/Irq.antt =====
-- What enabling, disabling and toggling an interrupt line does to the masks.
use ktux.Base.{
  ℕ, ◌%◌, ◌^◌, ◌≤◌, ◌<◌, ◌≡◌, refl, ap, ◌∙◌, sym, ◌≢◌, true, length, ◌==◌, if◌then◌else◌, get_or,
  set, get_or-set_self, get_or-replicate, get_or-set_ne, length-set, lt→ltb, ge→ltb, ne→==, arith,
}
use ktux.Base.Run.{ok}
use ktux.Pic.{
  Ports, Pic, max_irq_imp, clear_bit, set_bit, update_mask, write_masks, change_irq, enable_irq,
  disable_irq, set_irqs, init_pic,
}
use ktux.Pic.Mask.{bit, clear_bit-places, set_bit-places}

-- The 8259, once it is initialised: its data port reads as the mask that was last written there,
-- and a write to one controller does not change the other's mask.
pub record HasMasks {W : Type 0} (io : Ports W) : Type 0 where
  pub first : (v : ℕ) (w : W) → io.read_port 0x21 (io.write_port 0x21 v w) ≡ v % 2 ^ 8
  pub second : (v : ℕ) (w : W) → io.read_port 0xA1 (io.write_port 0xA1 v w) ≡ v % 2 ^ 8
  pub first_kept :
      (v : ℕ) (w : W) → io.read_port 0x21 (io.write_port 0xA1 v w) ≡ io.read_port 0x21 w
  pub second_kept :
      (v : ℕ) (w : W) → io.read_port 0xA1 (io.write_port 0x21 v w) ≡ io.read_port 0xA1 w

-- Line `irq` of the first controller has the given mask bit and the given entry of `irqStatus`, and
-- every other line is as before.
pub record HasLine {W : Type 0} (io : Ports W) (irq masked status : ℕ) (p q : Pic W) : Type 0 where
  pub line :
      (k : ℕ)
      → k < 8
      → bit k (io.read_port 0x21 q.world)
        ≡ (if k == irq then masked else bit k (io.read_port 0x21 p.world))
  pub second : io.read_port 0xA1 q.world ≡ io.read_port 0xA1 p.world
  pub entry : get_or q.irq_status irq 0 ≡ status
  pub entries : (j : ℕ) → j ≢ irq → get_or q.irq_status j 0 ≡ get_or p.irq_status j 0
  pub length : length q.irq_status ≡ length p.irq_status
  pub initialized : q.idt_initialized ≡ p.idt_initialized

-- A change of one line of the first controller, where its data port takes the new mask and the
-- second controller's mask stays.
module _ {W : Type 0} (io : Ports W) where
  pub change_irq-HasLine :
      (irq masked status : ℕ) (change : ℕ → ℕ) (p : Pic W)
      → irq < 8
      → length p.irq_status ≡ max_irq_imp
      → ((v k : ℕ) → k < 8 → bit k (change v % 2 ^ 8) ≡ (if k == irq then masked else bit k v))
      → let w = io.write_port 0x21 (change (io.read_port 0x21 p.world)) p.world in
        io.read_port 0x21 w ≡ change (io.read_port 0x21 p.world) % 2 ^ 8
        → io.read_port 0xA1 w ≡ io.read_port 0xA1 p.world
        → (q : Pic W) × (change_irq io irq change status p ≡ ok (1, q))
          × HasLine io irq masked status p q
          × (q.world ≡ w)
  unfolding change_irq write_masks update_mask
  change_irq-HasLine irq masked status change p low full places taken kept =
      let v = io.read_port 0x21 p.world in
      let q : Pic W = record p {
        irq_status = set p.irq_status irq status;
        world = io.write_port 0x21 (change v) p.world;
      } in
      let run : change_irq io irq change status p ≡ ok (1, q) =
        rw (ge→ltb 21 irq (omega arith), lt→ltb irq 21 (omega arith), lt→ltb irq 8 low) refl in
      (
        q,
        run,
        record {
          line = λ k h. rw taken (places v k h);
          second = kept;
          entry = get_or-set_self p.irq_status irq status 0 (omega (arith, full));
          entries = λ j ne. get_or-set_ne p.irq_status irq j status 0 (λ e. ne (sym e));
          length = length-set p.irq_status irq status;
          initialized = refl;
        },
        refl,
      )

module _ {W : Type 0} (io : Ports W) (masks : HasMasks io) where
  -- With `irqStatus` at its full length, enabling a line of the first controller answers 1, clears
  -- the line's mask bit and records it, and leaves the other lines of both controllers as they are.
  pub enable_irq-HasLine :
      (irq : ℕ) (p : Pic W)
      → irq < 8
      → length p.irq_status ≡ max_irq_imp
      → (q : Pic W) × (enable_irq io irq p ≡ ok (1, q)) × HasLine io irq 0 1 p q
  unfolding enable_irq
  enable_irq-HasLine irq p low full =
      let (q, run, line, _) =
        change_irq-HasLine io irq 0 1 (clear_bit irq) p low full
          (λ v k h. clear_bit-places irq v k (omega arith) h) (masks.first _ p.world)
          (masks.second_kept _ p.world) in
      (q, run, line)

  -- Disabling it sets the mask bit and records that.
  pub disable_irq-HasLine :
      (irq : ℕ) (p : Pic W)
      → irq < 8
      → length p.irq_status ≡ max_irq_imp
      → (q : Pic W) × (disable_irq io irq p ≡ ok (1, q)) × HasLine io irq 1 0 p q
  unfolding disable_irq
  disable_irq-HasLine irq p low full =
      let (q, run, line, _) =
        change_irq-HasLine io irq 1 0 (set_bit irq) p low full
          (λ v k h. set_bit-places irq v k (omega arith) h) (masks.first _ p.world)
          (masks.second_kept _ p.world) in
      (q, run, line)

  -- Lines 8 to 14 belong to the second controller, but its mask is changed at the place of the line's
  -- whole number, which no byte has: enabling one opens the cascade, answers 1 and records the line
  -- as enabled, and the second controller's mask stays as it was.
  enable_irq-high :
      (irq k : ℕ) (p : Pic W)
      → 8 ≤ irq
      → irq < 15
      → k < 8
      → length p.irq_status ≡ max_irq_imp
      → (q : Pic W) × (enable_irq io irq p ≡ ok (1, q))
        × (get_or q.irq_status irq 0 ≡ 1)
        × (bit 2 (io.read_port 0x21 q.world) ≡ 0)
        × (bit k (io.read_port 0xA1 q.world) ≡ bit k (io.read_port 0xA1 p.world))
  unfolding enable_irq change_irq write_masks update_mask
  enable_irq-high irq k p high low place full =
      let opened = io.write_port 0x21 (clear_bit 2 (io.read_port 0x21 p.world)) p.world in
      let v = io.read_port 0xA1 opened in
      let q : Pic W = record p {
        irq_status = set p.irq_status irq 1;
        world = io.write_port 0xA1 (clear_bit irq v) opened;
      } in
      let run : enable_irq io irq p ≡ ok (1, q) =
        rw
          (
            ge→ltb 21 irq (omega arith),
            lt→ltb irq 21 (omega arith),
            ge→ltb irq 8 high,
            lt→ltb irq 15 low,
          )
          refl in
      (
        q,
        run,
        get_or-set_self p.irq_status irq 1 0 (omega (arith, full)),
        rw
            (
              masks.first_kept (clear_bit irq v) opened,
              masks.first (clear_bit 2 (io.read_port 0x21 p.world)) p.world,
            )
            (clear_bit-places 2 (io.read_port 0x21 p.world) 2 (omega arith) (omega arith)),
        rw (masks.second (clear_bit irq v) opened) (
            clear_bit-places irq v k low place
            ∙ rw (ne→== k irq (omega arith)) (ap (bit k) (masks.second_kept _ p.world))),
      )

  -- With the interrupt table initialised, `init_pic` records every line as disabled and leaves the
  -- second controller masked; the first one has line 2, the cascade, unmasked, because -1 is less
  -- than 0xFF.
  init_pic-masks :
      (p : Pic W)
      → p.idt_initialized ≡ true
      → (io.read_port 0x21 (init_pic io p).world ≡ 0xFB)
        × (io.read_port 0xA1 (init_pic io p).world ≡ 0xFF)
        × ((j : ℕ) → get_or (init_pic io p).irq_status j 0 ≡ 0)
  unfolding init_pic set_irqs clear_bit
  init_pic-masks p init = rw init (
    masks.first_kept 0xFFFFFFFF _ ∙ masks.first 0xFFFFFFFB _,
    masks.second 0xFFFFFFFF _,
    λ j. get_or-replicate max_irq_imp j 0,
  )
