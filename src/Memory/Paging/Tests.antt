-- ===== src/Memory/Paging/Tests.antt =====
-- The page tables at concrete addresses, and the theorems about them there.
use ktux.Base.{
  ℕ, length, ◌*◌, ◌+◌, ◌+◌, ◌*◌, ◌/◌, ◌%◌, ◌≡◌, refl, inl, some, none, [], true, write, ◌==◌,
  if◌then◌else◌, List, arith,
}
use ktux.Base.Run.{ok, out_of_fuel}
use ktux.Memory.Address.{p_kernel_page_directory}
use mathlib.Core.List.{reverse}
use ktux.Memory.Frames.Laws.{contents}
use ktux.Memory.Frames.{Frames}
use ktux.Memory.FreeList.{free_memory_start}
use ktux.Memory.FreeList.Listed.{open_pages}
use ktux.Memory.Paging.{Mmu, Vm, map_page_helper, unmap_page_helper, map_page_range}
use ktux.Memory.Paging.Boot.{init_virt_mem}
use ktux.Memory.Paging.Boot.Maps.{kernel_map, init_virt_mem-Maps}
use ktux.Memory.Paging.Mapped.{IsMappable, map_page_helper-Maps, unmap_page_helper-Unmaps}
use ktux.Memory.Paging.Missing.{map_page_helper-spins}
use ktux.Memory.Paging.Range.{range_map, map_page_range-Maps}
use ktux.Memory.Paging.Walk.{walk, Walks}
use ktux.Memory.Paging.Window.{IsKernelSpace}

abbrev pub walker : Mmu
walker = record { translate = walk }

pub walker-Walks : Walks walker
walker-Walks words cr3 v small = refl

-- Three frames on the stack.
abbrev pub three : Frames
three = record {
  list = write (write (write (λ _. 0) 1 0x9000) 2 0xA000) 3 0xB000;
  entries = 3;
  total_memory = 0x100000;
  free_memory = 0x3000;
  used_memory = 0xFD000;
}

-- A machine with paging enabled, and the tables of low memory, of the kernel and of the heap.
abbrev pub vm : Vm
vm = record {
  words =
      write
        (write
          (write (write (write (write (λ _. 2) 0x4000 0x5003) 0x4C00 0x6003) 0x4D00 0x7003) 0x4F00
            0x4003)
          0x5010 0x4003)
        0x501C 0x7003;
  cr3 = 0x4000;
  frames = three;
  kernel_heap_end = 0xD0000000;
  heap_mapped_limit = 0xD0000000;
  free_bytes = 0;
  num_kernel_pages = 0;
  num_kernel_tables = 0;
  kernel_end = 0xC0008000;
  free_list_size = 0x400;
  p_free_start = 0x108400;
  interrupts = true;
  printed = [];
}

pub vm-IsKernelSpace : IsKernelSpace vm
vm-IsKernelSpace = record { directory = refl; low = refl; seen = refl; window = refl }

vm-IsMappable : IsMappable vm 0xD0001000
vm-IsMappable = record { there = refl; proper = omega arith; high = omega arith }

map_page_helper-Maps_example :
    (m' : Vm) × (map_page_helper walker 1 p_kernel_page_directory 0xD0001000 0xB000 3 vm ≡ ok m')
    × IsKernelSpace m'
    × (walk m'.words m'.cr3 0xD0001234 ≡ (
        if 0xD0001234 / 4096 == 0xD0001000 / 4096
        then some (0xB000 / 4096 * 4096 + 0xD0001234 % 4096)
        else walk vm.words vm.cr3 0xD0001234))
map_page_helper-Maps_example =
    map_page_helper-Maps walker walker-Walks 0 0xD0001000 0xB000 3 0xD0001234 vm (omega arith)
      (omega arith) (omega arith) refl vm-IsKernelSpace vm-IsMappable (inl refl)

map_page_range-Maps_example :
    (m' : Vm) × (map_page_range walker 1 p_kernel_page_directory 0xD0001000 0x9000 0x3000 3 vm
      ≡ ok m')
    × IsKernelSpace m'
    × (walk m'.words m'.cr3 0xD0002345
        ≡ range_map (0x3000 / 4096) 0xD0001000 0x9000 (walk vm.words vm.cr3 0xD0002345) 0xD0002345)
map_page_range-Maps_example =
    map_page_range-Maps walker walker-Walks 0 0xD0001000 0x9000 3 0xD0002345 (omega arith) 0x3000 vm
      (omega arith) refl (omega arith) (omega arith) refl vm-IsKernelSpace vm-IsMappable (inl refl)

unmap_page_helper-Unmaps_example :
    (m' : Vm) × (unmap_page_helper walker p_kernel_page_directory 0xD0001000 vm ≡ ok m')
    × (walk m'.words m'.cr3 0xD0001234 ≡ (
        if 0xD0001234 / 4096 == 0xD0001000 / 4096 then none else walk vm.words vm.cr3 0xD0001234))
unmap_page_helper-Unmaps_example =
    unmap_page_helper-Unmaps walker walker-Walks 0xD0001000 0xD0001234 vm (omega arith)
      (omega arith) vm-IsKernelSpace vm-IsMappable (omega arith) (inl refl) refl

-- The first page of the drivers' heap.
map_page_helper-spins_example :
    map_page_helper walker 9 p_kernel_page_directory 0xE0001000 0xB000 3 vm ≡ out_of_fuel
map_page_helper-spins_example =
    map_page_helper-spins walker walker-Walks 9 0xE0001000 0xB000 3 vm (omega arith)
      vm-IsKernelSpace (refl, omega arith, omega arith, omega arith)

-- A machine of 1088 KB with a kernel of 32 KB.
abbrev later_pages : List ℕ
later_pages = open_pages 262 0xA000

init_virt_mem-Maps_example :
    (m' : Vm) × (init_virt_mem 1100 0x110000 0xC0008000 vm ≡ ok m')
    × (contents m'.frames ≡ reverse later_pages)
    × (m'.frames.total_memory ≡ 0x110000)
    × (m'.frames.free_memory ≡ 4096 * length later_pages)
    × (m'.frames.used_memory + m'.frames.free_memory ≡ 0x110000)
    × (walk m'.words m'.cr3 0xC0001234
        ≡ kernel_map (free_memory_start 0x110000 0xC0008000) 0xC0001234)
unfolding open_pages free_memory_start
init_virt_mem-Maps_example =
    init_virt_mem-Maps 1100 0x110000 0xC0008000 0x9000 later_pages vm 0xC0001234 (omega arith)
      (omega arith) (omega arith) refl (omega arith) (omega arith) (omega arith)
