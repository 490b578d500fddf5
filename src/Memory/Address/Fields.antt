-- ===== src/Memory/Address/Fields.antt =====
-- The macros of memory.h in arithmetic: the fields of an address and of an entry.
use ktux.Base.{ℕ, ◌+◌, ◌*◌, ◌/◌, ◌%◌, ◌^◌, ◌≤◌, ◌<◌, ◌≡◌, ap, ◌∙◌, bit_and, arith}
use ktux.Base.Bits.{bit_and-mod, bit_and-high, bit_or-disjoint}
use ktux.Memory.Address.{
  pde_addr_mask, v_kernel_page_table_1, virt2phys, phys2virt, virt2dir, virt2page, virt2map,
  make_entry,
}

-- `& 0xFFF` and `& 0xFFFFF000` take a word apart.
pub mask_low : (a : ℕ) → bit_and a 0xFFF ≡ a % 4096
mask_low a = bit_and-mod 12 a

pub mask_high : (a : ℕ) → a < 2 ^ 32 → bit_and a pde_addr_mask ≡ a / 4096 * 4096
mask_high a h =
    let parts : a ≡ a / 4096 * 4096 + a % 4096 = omega arith in
    let top : bit_and (a / 4096) 0xFFFFF ≡ a / 4096 = omega (arith, bit_and-mod 20 (a / 4096)) in
    ap (λ t. bit_and t pde_addr_mask) parts
    ∙ bit_and-high 12 (a / 4096) (a % 4096) 0xFFFFF (omega arith)
    ∙ ap (λ t. t * 4096) top

pub virt2page-eq : (a : ℕ) → virt2page a ≡ a / 4096 % 1024
unfolding virt2page
virt2page-eq a = bit_and-mod 10 (a / 4096)

pub make_entry-eq :
    (phys flags : ℕ) → phys < 2 ^ 32 → make_entry phys flags ≡ phys / 4096 * 4096 + flags % 4096
unfolding make_entry
make_entry-eq phys flags h =
    rw (mask_high phys h, mask_low flags)
      (bit_or-disjoint 12 (phys / 4096) (flags % 4096) (omega arith))

-- A table entry made of a 32-bit address and flags gives back the page of the address by the
-- address mask and the flags by their 12 bits, and fits 32 bits.
make_entry-fields :
    (phys flags : ℕ)
    → phys < 2 ^ 32
    → (bit_and (make_entry phys flags) pde_addr_mask ≡ phys / 4096 * 4096)
      × (bit_and (make_entry phys flags) 0xFFF ≡ flags % 4096)
      × (make_entry phys flags < 2 ^ 32)
make_entry-fields phys flags h =
    let e = make_entry-eq phys flags h in
    (
      mask_high (make_entry phys flags) (omega (arith, e)) ∙ rw e (omega arith),
      mask_low (make_entry phys flags) ∙ rw e (omega arith),
      omega (arith, e),
    )

-- An address is its directory index, its table index and its offset.
virt_fields :
    (v : ℕ)
    → v < 2 ^ 32
    → (v ≡ virt2dir v * 2 ^ 22 + virt2page v * 2 ^ 12 + v % 4096)
      × (virt2dir v < 1024)
      × (virt2page v < 1024)
unfolding virt2dir
virt_fields v h = let p = virt2page-eq v in (omega (arith, p), omega (arith, p), omega (arith, p))

-- The word at which `map_page_helper` writes the entry of an address: `pageTable[virt2Page(virt)]`
-- of the table at `virt2Map(virt)`.
abbrev pub entry_addr : ℕ → ℕ
entry_addr v = virt2map v + 4 * virt2page v

-- The entry of every address lies in the window of 4 MB from 0xF0000000 on.
pub entry_addr_window :
    (v : ℕ)
    → v < 2 ^ 32
    → (v_kernel_page_table_1 ≤ entry_addr v) × (entry_addr v < v_kernel_page_table_1 + 2 ^ 22)
unfolding virt2map
entry_addr_window v h = let p = virt2page-eq v in (omega (arith, p), omega (arith, p))

-- 32-bit addresses of different pages have different entries in the window of page tables.
entry_addr-injective :
    (v w : ℕ) → v < 2 ^ 32 → w < 2 ^ 32 → entry_addr v ≡ entry_addr w → v / 4096 ≡ w / 4096
unfolding virt2map
entry_addr-injective v w h k e = omega (arith, virt2page-eq v, virt2page-eq w)

-- Inside the kernel's window the two conversions are inverse.
pub phys2virt-virt2phys : (v : ℕ) → v < 2 ^ 32 → phys2virt (virt2phys v) ≡ v
unfolding phys2virt virt2phys
phys2virt-virt2phys v h = omega arith
