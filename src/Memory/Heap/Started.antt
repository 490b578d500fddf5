-- ===== src/Memory/Heap/Started.antt =====
-- The start of memory management: `init_virt_mem`, and then `init_heap`.
use ktux.Base.{ℕ, ◌+◌, ◌^◌, ◌≤◌, ◌<◌, ◌≡◌, refl, List, ◌∷◌, arith}
use ktux.Base.Run.{ok}
use ktux.Memory.Address.{kernel_phys_addr, p_page_table_heap_1, page_size, kernel_flags, make_entry}
use ktux.Memory.FreeList.{free_memory_start}
use ktux.Memory.FreeList.Scan.{all_listed, page_count}
use ktux.Memory.Heap.{init_heap}
use ktux.Memory.Heap.Space.{IsHeapSpace, init_heap-lem}
use ktux.Memory.Paging.{Mmu, Vm, alloc}
use ktux.Memory.Paging.Boot.{init_virt_mem}
use ktux.Memory.Paging.Boot.Maps.{booted_vm, init_virt_mem-IsBooted}
use ktux.Memory.Paging.Boot.Tables.{dir_low, low_present}
use ktux.Memory.Paging.Walk.{Walks}
use ktux.Memory.Paging.Window.{IsLowMapped}

-- When the kernel and the list of frames behind it end in the first 4 MB, at least one page is
-- listed as free, memory ends a page or more below 2 ^ 32, and the loops have a round for each page
-- and more than 1024, `init_virt_mem` and then `init_heap` succeed, and leave the address space that
-- the heap counts on, with the first page of the heap mapped to the frame that `alloc_page` hands
-- out first.
pub init_heap-IsHeapSpace :
    (mmu : Mmu)
    → Walks mmu
    → (fuel total kernel_end first : ℕ) (rest : List ℕ) (m : Vm) → total + page_size ≤ 2 ^ 32
    → page_count total < fuel
    → 1024 < fuel
    → all_listed total (free_memory_start total kernel_end) ≡ first ∷ rest
    → kernel_phys_addr < free_memory_start total kernel_end
    → free_memory_start total kernel_end ≤ 4194304
    → (m1 m2 : Vm) × (init_virt_mem fuel total kernel_end m ≡ ok m1)
      × (init_heap mmu m1 ≡ ok m2)
      × IsHeapSpace m2
      × (m2.words p_page_table_heap_1 ≡ make_entry (alloc m1).0 kernel_flags)
init_heap-IsHeapSpace mmu walks fuel total kernel_end first rest m room enough loops pages lo hi =
    let start = free_memory_start total kernel_end in
    let (fr, run, _) =
      init_virt_mem-IsBooted total kernel_end m lo hi fuel first rest room enough loops pages in
    let m1 = booted_vm total kernel_end m lo hi fr in
    let low : IsLowMapped m1 = record {
      directory = refl;
      low = dir_low start lo hi m.words;
      seen = low_present start lo hi m.words 4 (omega arith) (omega arith);
    } in
    let (m2, made, space, page) =
      init_heap-lem mmu walks m1 low
        (low_present start lo hi m.words 7 (omega arith) (omega arith)) in
    (m1, m2, run, made, space, page)
