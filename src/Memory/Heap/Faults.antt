-- ===== src/Memory/Heap/Faults.antt =====
-- The page fault handler.
use ktux.Base.{
  ℕ, ◌+◌, ◌*◌, ◌/◌, ◌%◌, ◌^◌, ◌≤◌, ◌<◌, ◌≡◌, refl, ap, ◌∙◌, ◌≢◌, [], ◌∷◌, write, write_self,
  write-ne, lt→ltb, ge→ltb, bit_and, arith,
}
use ktux.Base.Bits.{bit_and-mod}
use ktux.Base.Run.{ok}
use ktux.Memory.Address.{
  p_kernel_page_directory, p_page_table_heap_1, v_kernel_heap_addr, v_kernel_driver_heap,
  kernel_virt_addr, flag_present, pde_addr_mask, kernel_flags, make_entry, virt2page,
}
use ktux.Memory.Address.Fields.{virt2page-eq}
use ktux.Memory.Heap.{give_page, answer_fault, page_fault_handler}
use ktux.Memory.Heap.Space.{IsHeapSpace, load-heap_table, store-heap_table}
use ktux.Memory.Messages.{
  page_fault_format, directory_entry_format, table_entry_format, updated_format,
}
use ktux.Memory.Paging.{Mmu, Vm, alloc, print, set_pte_addr}
use ktux.Memory.Paging.Mapped.{IsMappable}
use ktux.Memory.Paging.Walk.{Walks}
use ktux.Memory.Paging.Window.{slot, word_of, lower, load-directory}

-- An address that the first table of the heap maps.
abbrev pub InHeap : ℕ → Type 0
InHeap a = (v_kernel_heap_addr ≤ a) × (a < v_kernel_heap_addr + 4194304)

pub slot-heap : (m : Vm) (a : ℕ) → IsHeapSpace m → InHeap a → slot m a ≡ 0x7003
slot-heap m a space (lo, hi) =
    let top : a / 2 ^ 22 ≡ 0x340 = omega arith in
    ap (λ k. m.words (p_kernel_page_directory + 4 * k)) top ∙ space.heap

pub heap-IsMappable : (m : Vm) (a : ℕ) → IsHeapSpace m → InHeap a → IsMappable m a
heap-IsMappable m a space inside =
    let e = slot-heap m a space inside in
    record { there = ap (λ s. s % 2) e; proper = omega (arith, e); high = omega (arith, e) }

pub word_of-heap :
    (m : Vm) (a : ℕ)
    → IsHeapSpace m
    → InHeap a
    → word_of m a ≡ p_page_table_heap_1 + 4 * (a / 4096 % 1024)
word_of-heap m a space inside =
    ap (λ s. s / 4096 * 4096 + 4 * (a / 4096 % 1024)) (slot-heap m a space inside)

-- Printing and handing out a frame leave the tables alone.
pub IsHeapSpace-alike :
    (m m' : Vm) → m'.words ≡ m.words → m'.cr3 ≡ m.cr3 → IsHeapSpace m → IsHeapSpace m'
IsHeapSpace-alike m m' e c space = record {
  space = record {
    directory = c ∙ space.space.directory;
    low = ap (λ f. f 0x4000) e ∙ space.space.low;
    seen = ap (λ f. f 0x5010) e ∙ space.space.seen;
    window = ap (λ f. f 0x4F00) e ∙ space.space.window;
  };
  heap = ap (λ f. f 0x4D00) e ∙ space.heap;
  heap_seen = ap (λ f. f 0x501C) e ∙ space.heap_seen;
}

-- Behind the directory and the table of low memory a store changes nothing of it.
pub write-IsHeapSpace :
    (m m' : Vm) (x e : ℕ)
    → p_page_table_heap_1 ≤ x
    → m'.words ≡ write m.words x e
    → m'.cr3 ≡ m.cr3
    → IsHeapSpace m
    → IsHeapSpace m'
write-IsHeapSpace m m' x e behind written c space =
    let keep = λ (y : ℕ) (ne : y ≢ x). ap (λ f. f y) written ∙ write-ne m.words x y e ne in
    record {
      space = record {
        directory = c ∙ space.space.directory;
        low = keep 0x4000 (omega arith) ∙ space.space.low;
        seen = keep 0x5010 (omega arith) ∙ space.space.seen;
        window = keep 0x4F00 (omega arith) ∙ space.space.window;
      };
      heap = keep 0x4D00 (omega arith) ∙ space.heap;
      heap_seen = keep 0x501C (omega arith) ∙ space.heap_seen;
    }

module _ (mmu : Mmu) (walks : Walks mmu) where
  pub give_page-lem :
      (a : ℕ) (m : Vm)
      → IsHeapSpace m
      → let j = a / 4096 % 1024 in
        let e = make_entry (alloc m).0 kernel_flags in
        give_page mmu p_page_table_heap_1 a m
        ≡ ok (
            print updated_format
              (p_page_table_heap_1 ∷ j ∷ e ∷ [])
              (record (alloc m).1 { words = write m.words (p_page_table_heap_1 + 4 * j) e }))
  unfolding give_page set_pte_addr alloc print
  give_page-lem a m space =
      let j = a / 4096 % 1024 in
      let e = make_entry (alloc m).0 kernel_flags in
      let m1 = (alloc m).1 in
      let s1 = IsHeapSpace-alike m m1 refl refl space in
      let m2 = record m1 { words = write m1.words (p_page_table_heap_1 + 4 * j) e } in
      let s2 =
        write-IsHeapSpace m m2 (p_page_table_heap_1 + 4 * j) e (omega arith) refl refl space in
      let back = write_self m.words (p_page_table_heap_1 + 4 * j) e in
      rw
        (
          virt2page-eq a,
          store-heap_table m1 (lower s1.space) s1.heap_seen j (omega arith) mmu walks e,
          load-heap_table m2 (lower s2.space) s2.heap_seen j (omega arith) mmu walks,
          back,
        )
        refl

  -- The handler up to its tests, for an address of the heap.
  pub handler-reports :
      (a code eip : ℕ) (m : Vm)
      → IsHeapSpace m
      → InHeap a
      → a < m.kernel_heap_end
      → code % 2 ≡ 0
      → let j = a / 4096 % 1024 in
        let m2 =
          print table_entry_format
            (p_page_table_heap_1 ∷ virt2page a ∷ m.words (p_page_table_heap_1 + 4 * j) ∷ [])
            (print directory_entry_format
              (0x7003 ∷ [])
              (print page_fault_format (a ∷ eip ∷ []) m)) in
        page_fault_handler mmu a code eip m ≡ give_page mmu p_page_table_heap_1 a m2
  unfolding page_fault_handler answer_fault print
  handler-reports a code eip m space inside below clean =
      let j = a / 4096 % 1024 in
      let m1 =
        print directory_entry_format (0x7003 ∷ []) (print page_fault_format (a ∷ eip ∷ []) m) in
      let s1 = IsHeapSpace-alike m m1 refl refl space in
      let dir =
        load-directory m space.space mmu walks a (omega arith)
        ∙ ap ok (slot-heap m a space inside) in
      let table : bit_and 0x7003 pde_addr_mask ≡ p_page_table_heap_1 = refl in
      let bit : bit_and code flag_present ≡ 0 = bit_and-mod 1 code ∙ clean in
      rw
        (
          dir,
          virt2page-eq a,
          table,
          load-heap_table m1 (lower s1.space) s1.heap_seen j (omega arith) mmu walks,
          bit,
          ge→ltb a kernel_virt_addr (omega arith),
          ge→ltb a v_kernel_heap_addr inside.0,
          lt→ltb a v_kernel_driver_heap (omega arith),
          lt→ltb a m.kernel_heap_end below,
        )
        refl
