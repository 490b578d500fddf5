-- ===== src/Memory/Heap.antt =====
-- src/kernel/memory.c: the heap of the kernel, and the page fault handler that serves it.
--
-- The `while(1)` of the handler is a run that is out of fuel; what is printed before it is left out. `eip` is the address of the
-- instruction that faults, which is only printed.
mod Tests
pub mod Space
pub mod Started
pub mod Faults
pub mod Served
pub mod Grow
pub mod Sbrk
pub mod Remap
pub mod Clear
pub mod Kmalloc
use ktux.Base.{
  ℕ, zero, suc, List, ◌&&◌, ◌+◌, ◌*◌, ◌/◌, [], ◌∷◌, ltb, leb, ◌==◌, if◌then◌else◌, write, none,
  some, bit_and, add32, sub32, mul32,
}
use ktux.Base.Run.{Run, ok, out_of_fuel, fault, ◌>>=◌}
use ktux.Memory.Address.{
  kernel_virt_addr, v_kernel_heap_addr, v_kernel_driver_heap, v_kernel_page_table_1,
  p_kernel_page_directory, p_page_table_heap_1, page_size, flag_present, kernel_flags,
  pde_addr_mask, virt2dir, virt2page, make_entry,
}
use ktux.Memory.Messages.{
  init_heap_format, heap_table_format, page_fault_format, directory_entry_format,
  table_entry_format, updated_format, kmalloc1_format, kmalloc2_format, kmalloc3_format,
  sbrk_format, sbrk_return_format,
}
use ktux.Memory.Paging.{
  Mmu, Vm, print, alloc, load, store, set_pde_addr, set_pte_addr, map_page_helper,
}

-- The bytes up to the end of the page that the limit lies in, or 0 at the start of a page.
unfoldable pub until_page_end : ℕ → ℕ
until_page_end limit =
    if bit_and limit 0xFFF == 0
    then 0
    else sub32 (add32 (bit_and limit pde_addr_mask) page_size) limit

module _ (mmu : Mmu) where
  unfoldable pub init_heap : Vm → Run Vm
  unfolding load store alloc set_pde_addr make_entry print
  init_heap m =
      set_pde_addr mmu p_kernel_page_directory v_kernel_heap_addr p_page_table_heap_1 kernel_flags
        (print init_heap_format [] m)
      >>= λ m1.
          let (frame, m2) = alloc m1 in
          store mmu p_page_table_heap_1 (make_entry frame kernel_flags) m2 >>= λ m3.
          load mmu p_page_table_heap_1 m3 >>= λ entry.
          set_pde_addr mmu p_kernel_page_directory v_kernel_page_table_1 p_kernel_page_directory
            kernel_flags (print heap_table_format (p_page_table_heap_1 ∷ entry ∷ []) m3)

  -- A page of the heap below its end is given a frame.
  unfoldable pub give_page : ℕ → ℕ → Vm → Run Vm
  unfolding load alloc set_pte_addr virt2page print
  give_page table address m =
      let (frame, m1) = alloc m in
      set_pte_addr mmu table address frame kernel_flags m1 >>= λ m2.
      load mmu (table + 4 * virt2page address) m2 >>= λ entry.
      ok (print updated_format (table ∷ virt2page address ∷ entry ∷ []) m2)

  -- The tests of the handler, with the address and the entry of the table that it reports.
  unfoldable pub answer_fault : ℕ → ℕ → ℕ → ℕ → Vm → Run Vm
  unfolding virt2page print give_page
  answer_fault address error_code table entry m =
      if bit_and error_code flag_present == 0
      then (if ltb address kernel_virt_addr
          then out_of_fuel
          else if ltb address v_kernel_heap_addr
          then out_of_fuel
          else if ltb address v_kernel_driver_heap && ltb address m.kernel_heap_end
          then give_page table address
              (print table_entry_format (table ∷ virt2page address ∷ entry ∷ []) m)
          else out_of_fuel)
      else out_of_fuel

  unfoldable pub page_fault_handler : ℕ → ℕ → ℕ → Vm → Run Vm
  unfolding load virt2dir virt2page print answer_fault
  page_fault_handler address error_code eip m =
      load mmu (p_kernel_page_directory + 4 * virt2dir address) m >>= λ page_dir.
      let table = bit_and page_dir pde_addr_mask in
      let m1 =
        print directory_entry_format (page_dir ∷ [])
          (print page_fault_format (address ∷ eip ∷ []) m) in
      load mmu (table + 4 * virt2page address) m1 >>= λ entry.
      answer_fault address error_code table entry m1

  -- A store of a word to the heap: the instruction is done again when the handler returns. The error
  -- code of a store to a page that is not present is 2.
  unfoldable pub store_heap : ℕ → ℕ → ℕ → ℕ → Vm → Run Vm
  unfolding store page_fault_handler
  store_heap zero eip a v m = out_of_fuel
  store_heap (suc fuel) eip a v m =
      let again = page_fault_handler a 2 eip m >>= λ m'. store_heap fuel eip a v m' in
      elim (mmu.translate m.words m.cr3 a) [ none ↦ again | some p ↦ store mmu a v m ]

  -- `memsetd(p, 0, count)` on the heap.
  unfoldable pub clear : ℕ → ℕ → ℕ → ℕ → Vm → Run Vm
  unfolding store_heap
  clear fuel eip p zero m = ok m
  clear fuel eip p (suc count) m =
      store_heap fuel eip p 0 m >>= λ m'. clear fuel eip (add32 p 4) count m'

  -- The loop of `sbrk`: `i` counts the pages, and `free` the bytes up to the end of the last one.
  unfoldable pub grow : ℕ → ℕ → ℕ → ℕ → Vm → Run (ℕ × Vm)
  unfolding alloc map_page_helper
  grow zero nbytes i free m = out_of_fuel
  grow (suc fuel) nbytes i free m =
      let (frame, m1) = alloc m in
      let page = add32 (bit_and m.heap_mapped_limit pde_addr_mask) (mul32 page_size i) in
      let more =
        map_page_helper mmu (suc fuel) p_kernel_page_directory page frame kernel_flags m1 >>= λ m2.
        grow fuel nbytes (add32 i 1) (add32 free page_size) m2 in
      if ltb free nbytes then more else ok (free, m)

  unfoldable pub sbrk : ℕ → ℕ → Vm → Run (ℕ × Vm)
  unfolding until_page_end grow print
  sbrk fuel nbytes m =
      let free = until_page_end m.heap_mapped_limit in
      grow fuel nbytes 0 free (print sbrk_format (nbytes ∷ free ∷ m.heap_mapped_limit ∷ []) m)
      >>= λ grown.
          let limit = add32 m.heap_mapped_limit nbytes in
          ok (
            m.heap_mapped_limit,
            print sbrk_return_format (m.heap_mapped_limit ∷ limit ∷ sub32 grown.0 nbytes ∷ [])
                (record grown.1 { heap_mapped_limit = limit }),
          )

  -- The end of a call that has its block: it is cleared.
  unfoldable pub hand_out : ℕ → ℕ → List ℕ → ℕ → ℕ → Vm → Run (ℕ × Vm)
  unfolding clear print
  hand_out fuel eip fmt nbytes p m = clear fuel eip p (nbytes / 4) m >>= λ m'. ok (
    p,
    print fmt (nbytes ∷ p ∷ m'.kernel_heap_end ∷ m'.heap_mapped_limit ∷ m'.free_bytes ∷ []) m',
  )

  -- `kmalloc`; the last branch calls it again. `kernelHeapEnd` points to words, so that adding
  -- `nbytes` to it moves it by four times as many bytes.
  unfoldable pub kmalloc : ℕ → ℕ → ℕ → Vm → Run (ℕ × Vm)
  unfolding hand_out sbrk print
  kmalloc zero eip nbytes m = out_of_fuel
  kmalloc (suc fuel) eip nbytes m =
      let from_rest = hand_out (suc fuel) eip kmalloc1_format nbytes m.kernel_heap_end (record m {
        kernel_heap_end = add32 m.kernel_heap_end (mul32 4 nbytes);
        free_bytes = sub32 m.free_bytes nbytes;
      }) in
      let large = sbrk (suc fuel) nbytes m >>= λ r.
      if r.0 == 0xFFFFFFFF
      then ok (0, r.1)
      else hand_out (suc fuel) eip kmalloc2_format nbytes r.0
          (record r.1 { kernel_heap_end = add32 r.0 nbytes }) in
      let small = sbrk (suc fuel) nbytes m >>= λ r.
      let n = record r.1 { kernel_heap_end = r.0; free_bytes = add32 r.1.free_bytes nbytes } in
      let called = kmalloc fuel eip nbytes (
        print kmalloc3_format (nbytes ∷ n.kernel_heap_end ∷ n.heap_mapped_limit ∷ n.free_bytes ∷ [])
          n) in
      if r.0 == 0xFFFFFFFF then ok (0, r.1) else called in
      if leb nbytes m.free_bytes then from_rest else if ltb page_size nbytes then large else small

  -- `kfree` does nothing.
  unfoldable pub kfree : ℕ → Vm → Vm
  kfree address m = m
