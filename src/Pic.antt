-- ===== src/Pic.antt =====
-- src/kernel/pic.c and src/include/pic.h: the masks of the two interrupt controllers.
--
-- The I/O ports are a parameter. `irqStatus` has `max_irq_imp` elements, and an access behind its
-- end is a fault. The message of `panic` leaves no trace in the state.
pub mod Mask
pub mod Irq
pub mod Controller
pub mod Toggle
mod Tests
use ktux.Base.{
  ℕ, ◌+◌, ◌-◌, ◌^◌, Bool, true, false, List, replicate, ltb, ◌==◌, if◌then◌else◌, get_or, set,
  bit_and, bit_or,
}
use ktux.Base.Int.{ℤ, pos, negsuc, ltb_ℤ, to_u32}
use ktux.Base.Run.{Run, ok, fault, ◌>>=◌}

-- The instructions `in` and `out` on bytes; `W` is the state of the devices.
pub record Ports (W : Type 0) : Type 0 where
  pub read_port : ℕ → W → ℕ
  pub write_port : ℕ → ℕ → W → W

abbrev pub max_irq_imp : ℕ
max_irq_imp = 0x15

abbrev pub pic1 : ℕ
pic1 = 0x20

abbrev pub pic2 : ℕ
pic2 = 0xA0

-- `irqStatus`, `idtInitialized` and the devices.
pub record Pic (W : Type 0) : Type 0 where
  pub irq_status : List ℕ
  pub idt_initialized : Bool
  pub world : W

-- `& ~(1 << n)` on a 32-bit word.
unfoldable pub clear_bit : ℕ → ℕ → ℕ
clear_bit n v = bit_and v (0xFFFFFFFF - 2 ^ n)

unfoldable pub set_bit : ℕ → ℕ → ℕ
set_bit n v = bit_or v (2 ^ n)

module _ {W : Type 0} (io : Ports W) where
  -- The mask of a controller is read and written back, changed.
  unfoldable pub update_mask : ℕ → (ℕ → ℕ) → W → W
  update_mask pic change w = io.write_port (pic + 1) (change (io.read_port (pic + 1) w)) w

  -- The writes of `enable_irq` and `disable_irq`, which change the bit of `irq` by `change`.
  unfoldable pub write_masks : ℕ → (ℕ → ℕ) → W → W
  unfolding update_mask clear_bit
  write_masks irq change w =
      if ltb irq 8
      then update_mask pic1 change w
      else if ltb irq 15
      then update_mask pic2 change (update_mask pic1 (clear_bit 2) w)
      else w

  -- What the two functions share: `status` is stored in `irqStatus`.
  unfoldable pub change_irq : ℕ → (ℕ → ℕ) → ℕ → Pic W → Run (ℕ × Pic W)
  unfolding write_masks
  change_irq irq change status p =
      let w = write_masks irq change p.world in
      if ltb max_irq_imp irq
      then ok (0, p)
      else if ltb irq max_irq_imp
      then ok (1, record p { irq_status = set p.irq_status irq status; world = w })
      else fault

  unfoldable pub enable_irq : ℕ → Pic W → Run (ℕ × Pic W)
  unfolding change_irq clear_bit
  enable_irq irq p = change_irq irq (clear_bit irq) 1 p

  unfoldable pub disable_irq : ℕ → Pic W → Run (ℕ × Pic W)
  unfolding change_irq set_bit
  disable_irq irq p = change_irq irq (set_bit irq) 0 p

  unfoldable pub toggle_irq : ℕ → Pic W → Run (ℕ × Pic W)
  unfolding enable_irq disable_irq
  toggle_irq irq p =
      let changed =
        if get_or p.irq_status irq 0 == 0 then enable_irq irq p else disable_irq irq p in
      if p.idt_initialized
      then if ltb max_irq_imp irq
        then ok (0, p)
        else if ltb irq max_irq_imp
        then (changed >>= λ r. ok (1, r.1))
        else fault
      else ok (0, p)

  -- `set_irqs`; the masks are signed, and 0xFF is compared with the whole of the second one.
  unfoldable pub set_irqs : ℤ → ℤ → Pic W → Pic W
  unfolding clear_bit
  set_irqs mask1 mask2 p =
      let first = if ltb_ℤ mask2 (pos 0xFF) then clear_bit 2 (to_u32 mask1) else to_u32 mask1 in
      if p.idt_initialized
      then record p {
        world = io.write_port (pic2 + 1) (to_u32 mask2) (io.write_port (pic1 + 1) first p.world);
      }
      else p

  unfoldable pub remap_pics : ℕ → ℕ → W → W
  remap_pics irq0_int irq8_int w =
      let w1 = io.write_port pic2 0x11 (io.write_port pic1 0x11 w) in
      let w2 = io.write_port (pic2 + 1) irq8_int (io.write_port (pic1 + 1) irq0_int w1) in
      let w3 = io.write_port (pic2 + 1) 2 (io.write_port (pic1 + 1) 4 w2) in
      io.write_port (pic2 + 1) 0x01 (io.write_port (pic1 + 1) 0x01 w3)

  unfoldable pub init_pic : Pic W → Pic W
  unfolding remap_pics set_irqs
  init_pic p =
      let masked =
        set_irqs (negsuc 0) (negsuc 0) (record p { world = remap_pics 0x20 0x28 p.world }) in
      record masked { irq_status = replicate max_irq_imp 0 }
