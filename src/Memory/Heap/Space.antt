-- ===== src/Memory/Heap/Space.antt =====
-- The address space of a kernel with a heap, as `init_virt_mem` and `init_heap` leave it.
use ktux.Base.{ℕ, ◌+◌, ◌*◌, ◌/◌, ◌%◌, ◌^◌, ◌<◌, ◌≡◌, refl, ap, ◌∙◌, some, write, arith, [], ◌∷◌}
use ktux.Base.Run.{ok}
use ktux.Memory.Address.{
  p_kernel_page_directory, p_page_table_heap_1, kernel_flags, make_entry, virt2dir,
}
use ktux.Memory.Heap.{init_heap}
use ktux.Memory.Messages.{init_heap_format, heap_table_format}
use ktux.Memory.Paging.{Mmu, Vm, alloc, print, load, store, set_pde_addr}
use ktux.Memory.Paging.Walk.{walk, Walks, walk-maps}
use ktux.Memory.Paging.Window.{IsKernelSpace, IsLowMapped, store-directory}

-- The table of the heap is at its place, and is seen at its own address.
pub record IsHeapSpace (m : Vm) : Type 0 where
  pub space : IsKernelSpace m
  pub heap : m.words 0x4D00 ≡ 0x7003
  pub heap_seen : m.words 0x501C ≡ 0x7003

-- A word of the table of the heap.
module _ (m : Vm) (low : IsLowMapped m) (heap_seen : m.words 0x501C ≡ 0x7003) (j : ℕ)
    (small : j < 1024) where
  walk-heap_table :
      walk m.words m.cr3 (p_page_table_heap_1 + 4 * j) ≡ some (p_page_table_heap_1 + 4 * j)
  walk-heap_table =
      let a = p_page_table_heap_1 + 4 * j in
      let first : a / 2 ^ 22 ≡ 0 = omega arith in
      let page : a / 4096 % 1024 ≡ 7 = omega arith in
      ap (λ c. walk m.words c a) low.directory
      ∙ walk-maps m.words p_kernel_page_directory a 5 7
          (ap (λ k. m.words (p_kernel_page_directory + 4 * k)) first ∙ low.low)
          (ap (λ k. m.words (20480 + 4 * k)) page ∙ heap_seen)
      ∙ ap some (omega arith)

  module _ (mmu : Mmu) (walks : Walks mmu) where
    pub load-heap_table :
        load mmu (p_page_table_heap_1 + 4 * j) m ≡ ok (m.words (p_page_table_heap_1 + 4 * j))
    unfolding load
    load-heap_table =
        let even : (p_page_table_heap_1 + 4 * j) % 4 ≡ 0 = omega arith in
        rw (even, walks m.words m.cr3 (p_page_table_heap_1 + 4 * j) (omega arith), walk-heap_table)
          refl

    pub store-heap_table :
        (e : ℕ)
        → store mmu (p_page_table_heap_1 + 4 * j) e m
          ≡ ok (record m { words = write m.words (p_page_table_heap_1 + 4 * j) e })
    unfolding store
    store-heap_table e =
        let even : (p_page_table_heap_1 + 4 * j) % 4 ≡ 0 = omega arith in
        rw (even, walks m.words m.cr3 (p_page_table_heap_1 + 4 * j) (omega arith), walk-heap_table)
          refl

-- `init_heap` makes a heap of a machine whose low memory is mapped.
module _ (mmu : Mmu) (walks : Walks mmu) where
  pub init_heap-lem :
      (m : Vm)
      → IsLowMapped m
      → m.words 0x501C ≡ 0x7003
      → (m' : Vm) × (init_heap mmu m ≡ ok m')
        × IsHeapSpace m'
        × (m'.words p_page_table_heap_1 ≡ make_entry (alloc m).0 kernel_flags)
  unfolding init_heap set_pde_addr alloc print make_entry virt2dir
  init_heap-lem m low seen =
      let m0 = print init_heap_format [] m in
      let l0 : IsLowMapped m0 = record {
        directory = low.directory;
        low = low.low;
        seen = low.seen;
      } in
      let m1 = record m0 { words = write m.words 0x4D00 0x7003 } in
      let m2 = (alloc m1).1 in
      let e = make_entry (alloc m).0 kernel_flags in
      let l2 : IsLowMapped m2 = record {
        directory = low.directory;
        low = low.low;
        seen = low.seen;
      } in
      let m3 = record m2 { words = write m2.words p_page_table_heap_1 e } in
      let l3 : IsLowMapped m3 = record {
        directory = low.directory;
        low = low.low;
        seen = low.seen;
      } in
      let m4 = print heap_table_format (p_page_table_heap_1 ∷ e ∷ []) m3 in
      let l4 : IsLowMapped m4 = record {
        directory = low.directory;
        low = low.low;
        seen = low.seen;
      } in
      let m5 = record m4 { words = write m4.words 0x4F00 0x4003 } in
      (
        m5,
        rw
            (
              store-directory m0 l0 mmu walks 0x340 0x7003 (omega arith),
              store-heap_table m2 l2 seen 0 (omega arith) mmu walks e,
              load-heap_table m3 l3 seen 0 (omega arith) mmu walks,
              store-directory m4 l4 mmu walks 0x3C0 0x4003 (omega arith),
            )
            refl,
        record {
          space = record {
            directory = low.directory;
            low = low.low;
            seen = low.seen;
            window = refl;
          };
          heap = refl;
          heap_seen = seen;
        },
        refl,
      )
