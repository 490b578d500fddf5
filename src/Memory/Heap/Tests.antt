-- ===== src/Memory/Heap/Tests.antt =====
-- The heap on a small machine, and the theorems about it there.
use ktux.Base.{
  ℕ, ◌+◌, ◌*◌, ◌/◌, ◌%◌, ◌≤◌, ◌<◌, ◌≡◌, refl, inl, some, ◌==◌, if◌then◌else◌, List, arith,
}
use ktux.Base.Run.{ok}
use ktux.Memory.Address.{
  v_kernel_heap_addr, v_kernel_driver_heap, p_page_table_heap_1, kernel_flags, make_entry,
}
use ktux.Memory.Frames.{alloc_page}
use ktux.Memory.Frames.Laws.{alloc_many}
use ktux.Memory.FreeList.{is_listed, free_memory_start}
use ktux.Memory.FreeList.Scan.{listed_pages}
use ktux.Memory.Heap.{init_heap, page_fault_handler, sbrk, kmalloc}
use ktux.Memory.Heap.Space.{IsHeapSpace}
use ktux.Memory.Heap.Started.{init_heap-IsHeapSpace}
use ktux.Memory.Heap.Served.{page_fault_handler-returns, page_fault_handler-Maps}
use ktux.Memory.Heap.Grow.{frames_map}
use ktux.Memory.Heap.Sbrk.{sbrk-Maps}
use ktux.Memory.Heap.Remap.{sbrk-remaps}
use ktux.Memory.Heap.Kmalloc.{AreZero, kmalloc-Zeroed}
use ktux.Memory.Paging.{Vm, alloc}
use ktux.Memory.Paging.Boot.{init_virt_mem}
use ktux.Memory.Paging.Tests.{walker, walker-Walks, vm, vm-IsKernelSpace}
use ktux.Memory.Paging.Walk.{walk}

abbrev later_pages : List ℕ
later_pages = listed_pages 0x110000 0x108440 262 0xA000

init_heap-IsHeapSpace_example :
    (m1 m2 : Vm) × (init_virt_mem 1100 0x110000 0xC0008000 vm ≡ ok m1)
    × (init_heap walker m1 ≡ ok m2)
    × IsHeapSpace m2
    × (m2.words p_page_table_heap_1 ≡ make_entry (alloc m1).0 kernel_flags)
unfolding listed_pages free_memory_start is_listed
init_heap-IsHeapSpace_example =
    init_heap-IsHeapSpace walker walker-Walks 1100 0x110000 0xC0008000 0x9000 later_pages vm
      (omega arith) (omega arith) (omega arith) refl (omega arith) (omega arith)

vm-IsHeapSpace : IsHeapSpace vm
vm-IsHeapSpace = record { space = vm-IsKernelSpace; heap = refl; heap_seen = refl }

-- The machine with two pages of heap, of which none is mapped yet.
abbrev grown : Vm
grown = record vm { kernel_heap_end = 0xD0002000 }

grown-IsHeapSpace : IsHeapSpace grown
grown-IsHeapSpace = record {
  space = record { directory = refl; low = refl; seen = refl; window = refl };
  heap = refl;
  heap_seen = refl;
}

page_fault_handler-Maps_example :
    (m' : Vm) × (page_fault_handler walker 0xD0001FFC 2 0xC0001000 grown ≡ ok m')
    × IsHeapSpace m'
    × (m'.frames ≡ (alloc grown).1.frames)
    × (walk m'.words m'.cr3 0xD0001000 ≡ (
        if 0xD0001000 / 4096 == 0xD0001FFC / 4096
        then some ((alloc grown).0 / 4096 * 4096 + 0xD0001000 % 4096)
        else walk grown.words grown.cr3 0xD0001000))
unfolding alloc
page_fault_handler-Maps_example =
    page_fault_handler-Maps walker walker-Walks 0xD0001FFC 2 0xC0001000 0xD0001000 grown
      grown-IsHeapSpace (omega arith, omega arith) (omega arith) refl (omega arith) (omega arith)
      (inl refl)

page_fault_handler-returns_example :
    (2 % 2 ≡ 0)
    × (v_kernel_heap_addr ≤ 0xD0001FFC)
    × (0xD0001FFC < v_kernel_driver_heap)
    × (0xD0001FFC < grown.kernel_heap_end)
page_fault_handler-returns_example =
    page_fault_handler-returns walker 0xD0001FFC 2 0xC0001000 grown
      page_fault_handler-Maps_example.0 page_fault_handler-Maps_example.1

-- Two pages and a half.
sbrk-Maps_example :
    (m' : Vm) × (sbrk walker 9 0x2800 vm ≡ ok (0xD0000000, m'))
    × IsHeapSpace m'
    × (m'.heap_mapped_limit ≡ 0xD0002800)
    × (m'.kernel_heap_end ≡ 0xD0000000)
    × (m'.free_bytes ≡ 0)
    × (m'.frames ≡ (alloc_many 3 vm.frames).1)
    × (walk m'.words m'.cr3 0xD0001004
        ≡ frames_map 3 0xD0000
            (alloc_many 3 vm.frames).0
            (walk vm.words vm.cr3 0xD0001004)
            0xD0001004)
unfolding alloc_many alloc_page
sbrk-Maps_example =
    sbrk-Maps walker walker-Walks 0x2800 0xD0001004 (omega arith) 9 vm (omega arith)
      (omega arith, omega arith) (omega arith) (omega arith, (omega arith, (omega arith, tt)))
      vm-IsHeapSpace (inl refl)

-- 256 bytes are in use, and a page is asked for.
abbrev used : Vm
used = record vm { heap_mapped_limit = 0xD0000100 }

used-IsHeapSpace : IsHeapSpace used
used-IsHeapSpace = record {
  space = record { directory = refl; low = refl; seen = refl; window = refl };
  heap = refl;
  heap_seen = refl;
}

sbrk-remaps_example :
    (m' : Vm) × (sbrk walker 9 0x1000 used ≡ ok (0xD0000100, m'))
    × (walk m'.words m'.cr3 0xD0000010 ≡ some ((alloc used).0 / 4096 * 4096 + 0xD0000010 % 4096))
    × (walk m'.words m'.cr3 0xD00010FF ≡ walk used.words used.cr3 0xD00010FF)
unfolding alloc_many alloc_page
sbrk-remaps_example =
    sbrk-remaps walker walker-Walks 0x1000 0xD0000010 9 used (omega arith) (omega arith) refl
      (omega arith) (omega arith) (omega arith) (omega arith, tt) used-IsHeapSpace

kmalloc-Zeroed_example :
    (m' : Vm) × (kmalloc walker 9 0xC0001000 0x1008 vm ≡ ok (0xD0000000, m'))
    × IsHeapSpace m'
    × (m'.heap_mapped_limit ≡ 0xD0001008)
    × (m'.free_bytes ≡ 0)
    × AreZero m' 0xD0000000 0x402
unfolding alloc_many alloc_page
kmalloc-Zeroed_example =
    kmalloc-Zeroed walker walker-Walks 0x1008 7 0xC0001000 vm
      (record {
        asked = omega arith;
        aligned = refl;
        low = omega arith;
        room = omega arith;
        safe = ((omega arith, omega arith), ((omega arith, omega arith), tt));
        space = vm-IsHeapSpace;
        enough = omega arith;
      })
      refl
