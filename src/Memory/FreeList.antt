-- ===== src/Memory/FreeList.antt =====
-- src/kernel/memory.c, `init_virt_mem`: where free memory starts, and the list of free frames.
pub mod Listed
pub mod Scan
use ktux.Base.{
  ℕ, zero, suc, ◌+◌, ◌-◌, ◌*◌, ◌/◌, ◌%◌, ◌^◌, Bool, true, false, ◌&&◌, ◌||◌, not, List, [], ◌∷◌,
  ltb, if◌then◌else◌, write, add32, sub32, mul32,
}
use ktux.Base.Run.{Run, ok, out_of_fuel, ◌>>=◌}
use ktux.Memory.Address.{
  kernel_stack_size, p_kernel_stack_addr, p_start_free_ram, page_size, virt2phys,
}
use ktux.Memory.Frames.{Frames}

-- An entry of `reservedX86Regions`, without its title.
pub record Region : Type 0 where
  pub start : ℕ
  pub end : ℕ

abbrev pub region : ℕ → ℕ → Region
region s e = record { start = s; end = e }

-- `reservedX86Regions` up to the entry that ends it: BDA, EBDA, video memory, video BIOS, ROM BIOS
-- shadow, ROM BIOS.
abbrev pub reserved_regions : List Region
reserved_regions =
    region 0x00000000 0x000004FF
    ∷ region 0x0009FC00 0x0009FFFF
    ∷ region 0x000A0000 0x000BFFFF
    ∷ region 0x000C0000 0x000C7FFF
    ∷ region 0x000C8000 0x000EFFFF
    ∷ region 0x000F0000 0x000FFFFF
    ∷ []

-- `reservedX86Regions[lastReservedRegion].end`.
abbrev pub last_reserved_end : ℕ
last_reserved_end = 0x000FFFFF

unfoldable pub in_regions : List Region → ℕ → Bool
in_regions [] address = false
in_regions (r ∷ rs) address =
    (ltb r.start address && ltb address (r.end - 1)) || in_regions rs address

-- Whether one round of the loop writes its address to the list: its tests in their order.
unfoldable pub is_listed : ℕ → ℕ → ℕ → Bool
unfolding in_regions
is_listed total free_start address =
    if ltb free_start address && ltb address (sub32 total 1)
    then true
    else if ltb p_kernel_stack_addr address
        && ltb address (p_kernel_stack_addr + kernel_stack_size - 1)
    then false
    else if ltb address p_start_free_ram
    then false
    else not (ltb address last_reserved_end && in_regions reserved_regions address)

-- The loop over all pages: `i` counts the entries of `list`.
unfoldable pub scan : ℕ → ℕ → ℕ → ℕ → ℕ → (ℕ → ℕ) → Run (ℕ × (ℕ → ℕ))
scan zero total free_start address i list = out_of_fuel
scan (suc f) total free_start address i list =
    let kept =
      scan f total free_start (add32 address page_size) (add32 i 1) (write list i address) in
    let skipped = scan f total free_start (add32 address page_size) i list in
    if ltb address total
    then if is_listed total free_start address then kept else skipped
    else ok (i, list)

-- `pFreeMemoryStart`: the list of 4 bytes for each page follows the kernel's image.
unfoldable pub free_memory_start : ℕ → ℕ → ℕ
unfolding virt2phys
free_memory_start total kernel_end = add32 (virt2phys kernel_end) (total / 2 ^ 10)

-- The list as `init_virt_mem` leaves it; `list` is what memory held before.
unfoldable pub init_free_list : ℕ → ℕ → ℕ → (ℕ → ℕ) → Run Frames
unfolding scan free_memory_start
init_free_list fuel total kernel_end list = do
  out ← scan fuel total (free_memory_start total kernel_end) 0 0 list
  ok (record {
    list = out.1;
    entries = sub32 out.0 1;
    total_memory = total;
    free_memory = mul32 (sub32 out.0 1) page_size;
    used_memory = sub32 total (mul32 (sub32 out.0 1) page_size);
  })
