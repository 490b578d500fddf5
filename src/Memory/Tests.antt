-- ===== src/Memory/Tests.antt =====
-- The memory manager at concrete sizes, and the theorems about it there.
use ktux.Base.{◌≡◌, refl, true, [], ◌∷◌, replicate, write, arith}
use ktux.Memory.Address.{virt2map, make_entry}
use ktux.Memory.Frames.{Frames, alloc_page, free_page}
use ktux.Memory.Frames.Laws.{contents, alloc_many, alloc-top, alloc_many-contents, alloc-free-alloc}
use ktux.Memory.FreeList.{is_listed}

make_entry_runs : make_entry 0x12345678 0xABC ≡ 0x12345ABC
unfolding make_entry
make_entry_runs = refl

virt2map_runs : virt2map 0xD0001234 ≡ 0xF0340000
unfolding virt2map
virt2map_runs = refl

-- Three frames on the stack, and a stale word behind the top.
abbrev three : Frames
three = record {
  list = write (write (write (write (λ _. 0) 1 0x9000) 2 0xA000) 3 0xB000) 4 0x77000;
  entries = 3;
  total_memory = 0x100000;
  free_memory = 0x3000;
  used_memory = 0xFD000;
}

alloc-top_example :
    ((alloc_page three).0 ≡ 0xB000)
    × (contents (alloc_page three).1 ≡ 0xA000 ∷ 0x9000 ∷ [])
    × ((alloc_page three).1.used_memory ≡ 0xFC000)
    × ((alloc_page three).1.total_memory ≡ 0x100000)
alloc-top_example = alloc-top three 0xB000 (0xA000 ∷ 0x9000 ∷ []) (omega arith) refl (omega arith)

alloc_many-contents_example :
    ((alloc_many 2 three).0 ≡ 0xB000 ∷ 0xA000 ∷ [])
    × (contents (alloc_many 2 three).1 ≡ 0x9000 ∷ [])
alloc_many-contents_example =
    alloc_many-contents (0xB000 ∷ 0xA000 ∷ []) (0x9000 ∷ []) three (omega arith) refl (omega arith)

alloc-free-alloc_example :
    let back = (free_page 0xB000 (alloc_page three).1).1 in
    alloc_many 5 back ≡ (replicate 5 0, back)
alloc-free-alloc_example =
    alloc-free-alloc 5 three 0xB000 (0xA000 ∷ 0x9000 ∷ []) (omega arith) refl (omega arith) refl
      (omega arith)

-- The first page of the video memory is listed as free.
video_page_listed : is_listed 0x400000 0x109000 0xA0000 ≡ true
unfolding is_listed
video_page_listed = refl
