-- ===== src/Memory/Paging.antt =====
-- src/kernel/memory.c: the page tables. `kernelPageDirectory` is identity mapped.
--
-- `words` is physical memory, a word at each multiple of four. The translation of an address by the
-- paging unit is the parameter `Mmu`; its cache, which `invalidate` empties, is left out. An access to
-- a table that is not mapped ends in the endless loop of the page fault handler, and is a fault here;
-- so is a word that is not aligned, which the model does not split.
pub mod Tests
pub mod Walk
pub mod Window
pub mod Mapped
pub mod Missing
pub mod Range
pub mod Boot
use ktux.Base.{
  ℕ, zero, suc, ◌+◌, ◌*◌, ◌/◌, ◌%◌, ◌^◌, Bool, true, false, Option, none, some, List, [], ◌∷◌, ltb,
  ◌==◌, if◌then◌else◌, write, bit_and, add32, mul32,
}
use ktux.Base.Run.{Run, ok, out_of_fuel, fault, ◌>>=◌}
use ktux.Memory.Address.{
  p_kernel_page_directory, p_page_table_kernel_1, kernel_virt_addr, page_size, flag_present,
  flag_rw, kernel_flags, pde_addr_mask, virt2dir, virt2page, virt2map, make_entry,
}
use ktux.Memory.Frames.{Frames, alloc_page}

-- The physical address of a virtual one, by the directory at `cr3` in memory.
pub record Mmu : Type 0 where
  pub translate : (ℕ → ℕ) → ℕ → ℕ → Option ℕ

-- Memory, the frames, the variables of memory.c (`free_bytes` is the static `freeBytes` of
-- `kmalloc`), the interrupt flag, and the calls of `kprintf`, each with its format and its
-- arguments, the last one first.
pub record Vm : Type 0 where
  pub words : ℕ → ℕ
  pub cr3 : ℕ
  pub frames : Frames
  pub kernel_heap_end : ℕ
  pub heap_mapped_limit : ℕ
  pub free_bytes : ℕ
  pub num_kernel_pages : ℕ
  pub num_kernel_tables : ℕ
  pub kernel_end : ℕ
  pub free_list_size : ℕ
  pub p_free_start : ℕ
  pub interrupts : Bool
  pub printed : List (List ℕ × List ℕ)

unfoldable pub print : List ℕ → List ℕ → Vm → Vm
print fmt args m = record m { printed = (fmt, args) ∷ m.printed }

-- `alloc_page` on the frames.
unfoldable pub alloc : Vm → ℕ × Vm
unfolding alloc_page
alloc m = let (address, fr) = alloc_page m.frames in (address, record m { frames = fr })

abbrev pub new_table_format : List ℕ
new_table_format =
    b'a' ∷ b'l' ∷ b'l' ∷ b'o' ∷ b'c' ∷ b' ' ∷ b'n' ∷ b'e' ∷ b'w' ∷ b' ' ∷ b'p' ∷ b'a' ∷ b'g' ∷ b'e'
    ∷ b'T' ∷ b'a' ∷ b'b' ∷ b'l' ∷ b'e' ∷ b' ' ∷ b'a' ∷ b't' ∷ b' ' ∷ b'0' ∷ b'x' ∷ b'%' ∷ b'p'
    ∷ b' ' ∷ b'f' ∷ b'o' ∷ b'r' ∷ b' ' ∷ b'v' ∷ b'i' ∷ b'r' ∷ b't' ∷ b' ' ∷ b'0' ∷ b'x' ∷ b'%'
    ∷ b'p' ∷ 0x0A ∷ []

abbrev pub virt2table_format : List ℕ
virt2table_format =
    b'v' ∷ b'i' ∷ b'r' ∷ b't' ∷ b'2' ∷ b'P' ∷ b'a' ∷ b'g' ∷ b'e' ∷ b'T' ∷ b'a' ∷ b'b' ∷ b'l' ∷ b'e'
    ∷ b'(' ∷ b'0' ∷ b'x' ∷ b'%' ∷ b'p' ∷ b')' ∷ b'=' ∷ b'0' ∷ b'x' ∷ b'%' ∷ b'p' ∷ 0x0A ∷ []

abbrev pub returning_format : List ℕ
returning_format =
    b'r' ∷ b'e' ∷ b't' ∷ b'u' ∷ b'r' ∷ b'n' ∷ b'i' ∷ b'n' ∷ b'g' ∷ b' ' ∷ b'w' ∷ b'i' ∷ b't' ∷ b'h'
    ∷ b' ' ∷ b'0' ∷ b'x' ∷ b'%' ∷ b'p' ∷ 0x0A ∷ []

-- `PD[index]` in physical memory, as `setPDEindex` writes it before paging is enabled.
unfoldable pub set_entry : ℕ → ℕ → ℕ → ℕ → (ℕ → ℕ) → ℕ → ℕ
unfolding make_entry
set_entry table index phys flags words = write words (table + 4 * index) (make_entry phys flags)

-- The loop of `map_ktables`, in `rounds` rounds from `i` on.
unfoldable pub map_ktables : ℕ → ℕ → ℕ → ℕ → (ℕ → ℕ) → ℕ → ℕ
unfolding set_entry virt2dir
map_ktables zero i address dir words = words
map_ktables (suc rounds) i address dir words =
    map_ktables rounds (i + 1) (add32 address page_size) dir
      (set_entry dir (i + virt2dir kernel_virt_addr) address kernel_flags words)

module _ (mmu : Mmu) where
  unfoldable pub load : ℕ → Vm → Run ℕ
  load a m =
      if a % 4 == 0
      then elim (mmu.translate m.words m.cr3 a) [ none ↦ fault | some p ↦ ok (m.words p) ]
      else fault

  unfoldable pub store : ℕ → ℕ → Vm → Run Vm
  store a v m =
      if a % 4 == 0
      then elim (mmu.translate m.words m.cr3 a) [
        | none ↦ fault
        | some p ↦ ok (record m { words = write m.words p v })
      ]
      else fault

  -- `setPDEaddr` and `setPTEaddr`.
  unfoldable pub set_pde_addr : ℕ → ℕ → ℕ → ℕ → Vm → Run Vm
  unfolding store virt2dir make_entry
  set_pde_addr dir virt phys flags m = store (dir + 4 * virt2dir virt) (make_entry phys flags) m

  unfoldable pub set_pte_addr : ℕ → ℕ → ℕ → ℕ → Vm → Run Vm
  unfolding store virt2page make_entry
  set_pte_addr table virt phys flags m =
      store (table + 4 * virt2page virt) (make_entry phys flags) m

  -- `create_new_table`: the address of the table in the window, and the machine.
  unfoldable pub create_new_table : ℕ → ℕ → Vm → Run (ℕ × Vm)
  unfolding alloc set_pte_addr virt2map print
  create_new_table dir virt m =
      let (table, m1) = alloc m in
      let window = virt2map virt in
      let m2 =
        print virt2table_format (virt ∷ window ∷ [])
          (print new_table_format (table ∷ virt ∷ []) m1) in
      set_pte_addr dir virt table kernel_flags m2 >>= λ m3.
      ok (window, print returning_format (window ∷ []) m3)

  -- `map_page_helper`; a call that makes a table calls it again.
  unfoldable pub map_page_helper : ℕ → ℕ → ℕ → ℕ → ℕ → Vm → Run Vm
  unfolding load set_pte_addr create_new_table virt2map virt2dir
  map_page_helper zero dir virt phys flags m = out_of_fuel
  map_page_helper (suc fuel) dir virt phys flags m = load (dir + 4 * virt2dir virt) m >>= λ pde.
      let off = record m { interrupts = false } in
      let again = create_new_table dir virt off >>= λ r.
      load (dir + 4 * virt2dir virt) r.1 >>= λ _. map_page_helper fuel dir virt phys flags r.1 in
      let mapped = set_pte_addr (virt2map virt) virt phys flags off in
      (if bit_and pde flag_present == 0 then again else mapped) >>= λ m'.
      ok (record m' { interrupts = true })

  unfoldable pub unmap_page_helper : ℕ → ℕ → Vm → Run Vm
  unfolding load store virt2dir virt2page make_entry
  unmap_page_helper dir virt m = load (dir + 4 * virt2dir virt) m >>= λ pde.
      store (bit_and pde pde_addr_mask + 4 * virt2page virt) (make_entry 0 flag_rw) m

  -- `map_kpage` and `unmap_kpage`.
  unfoldable pub map_kpage : ℕ → ℕ → ℕ → ℕ → Vm → Run Vm
  unfolding map_page_helper
  map_kpage fuel virt phys flags m = map_page_helper fuel p_kernel_page_directory virt phys flags m

  unfoldable pub unmap_kpage : ℕ → Vm → Run Vm
  unfolding unmap_page_helper
  unmap_kpage virt m = unmap_page_helper p_kernel_page_directory virt m

  -- The loop of `map_page_range`, in `pages` rounds from `i` on; each call has `fuel`.
  unfoldable pub map_pages : ℕ → ℕ → ℕ → ℕ → ℕ → ℕ → ℕ → Vm → Run Vm
  unfolding map_page_helper
  map_pages fuel zero i dir virt phys flags m = ok m
  map_pages fuel (suc pages) i dir virt phys flags m =
      map_page_helper fuel dir (add32 virt (mul32 i page_size)) (add32 phys (mul32 i page_size))
        flags m
      >>= λ m'. map_pages fuel pages (i + 1) dir virt phys flags m'

  unfoldable pub map_page_range : ℕ → ℕ → ℕ → ℕ → ℕ → ℕ → Vm → Run Vm
  unfolding map_pages
  map_page_range fuel dir virt phys size flags m =
      if bit_and size 0xFFF == 0
      then map_pages fuel (size / page_size) 0 dir virt phys flags m
      else ok m
