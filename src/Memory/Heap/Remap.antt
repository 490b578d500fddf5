-- ===== src/Memory/Heap/Remap.antt =====
-- `sbrk` at a limit that is inside a page.
use ktux.Base.{
  ℕ, zero, suc, ◌+◌, ◌-◌, ◌*◌, ◌/◌, ◌%◌, ◌^◌, ◌≤◌, ◌<◌, ◌≡◌, ◌≢◌, refl, sym, ap, ◌∙◌, List, Option,
  some, inl, get_or, AllBelow, arith,
}
use ktux.Base.Run.{ok-injective, ok}
use ktux.Memory.Address.{v_kernel_heap_addr}
use ktux.Memory.Frames.{Frames, alloc_page}
use ktux.Memory.Frames.Laws.{alloc_many}
use ktux.Memory.Heap.{sbrk}
use ktux.Memory.Heap.Space.{IsHeapSpace}
use ktux.Memory.Heap.Grow.{frames_map}
use ktux.Memory.Heap.Sbrk.{page_left, new_pages, sbrk-Maps}
use ktux.Memory.Paging.{Mmu, Vm, alloc}
use ktux.Memory.Paging.Walk.{walk, Walks}

pub inside_range :
    (k base : ℕ) (fs : List ℕ) (before : Option ℕ) (w : ℕ)
    → base ≤ w / 4096
    → w / 4096 < base + k
    → frames_map k base fs before w ≡ some (get_or fs (w / 4096 - base) 0 / 4096 * 4096 + w % 4096)
inside_range k base fs before w low high = ground arith

behind_range :
    (k base : ℕ) (fs : List ℕ) (before : Option ℕ) (w : ℕ)
    → base + k ≤ w / 4096
    → frames_map k base fs before w ≡ before
behind_range k base fs before w high = ground arith

head_frame : (k : ℕ) (fr : Frames) → 0 < k → get_or (alloc_many k fr).0 0 0 ≡ (alloc_page fr).0
unfolding alloc_many
head_frame zero fr pos = absurd (omega arith)
head_frame (suc k) fr pos = refl

-- When the limit is inside a page of the first 4 MB of the heap, more than the rest of this page is
-- asked for but no more than fits into those 4 MB, the frames handed out have 32-bit addresses and
-- the table of the heap is at its place, `sbrk` succeeds, but the page of the limit is mapped to a
-- new frame, so that what was stored in it is not seen any more, and the page of the last byte of
-- the new block is left as it was before.
pub sbrk-remaps :
    (mmu : Mmu)
    → Walks mmu
    → (nbytes w fuel : ℕ) (m : Vm) → m.heap_mapped_limit % 4096 ≢ 0
    → page_left m.heap_mapped_limit < nbytes
    → w / 4096 ≡ m.heap_mapped_limit / 4096
    → new_pages nbytes m.heap_mapped_limit < fuel
    → v_kernel_heap_addr ≤ m.heap_mapped_limit
    → m.heap_mapped_limit + nbytes ≤ v_kernel_heap_addr + 4194304
    → AllBelow (2 ^ 32) (alloc_many (new_pages nbytes m.heap_mapped_limit) m.frames).0
    → IsHeapSpace m
    → let last = m.heap_mapped_limit + nbytes - 1 in
      (m' : Vm) × (sbrk mmu fuel nbytes m ≡ ok (m.heap_mapped_limit, m'))
      × (walk m'.words m'.cr3 w ≡ some ((alloc m).0 / 4096 * 4096 + w % 4096))
      × (walk m'.words m'.cr3 last ≡ walk m.words m.cr3 last)
unfolding alloc_many alloc
sbrk-remaps mmu walks nbytes w fuel m inner more page enough low high below space =
    let last = m.heap_mapped_limit + nbytes - 1 in
    let k = new_pages nbytes m.heap_mapped_limit in
    let base = m.heap_mapped_limit / 4096 in
    let frames = (alloc_many k m.frames).0 in
    let (m1, run1, _, _, _, _, _, first) =
      sbrk-Maps mmu walks nbytes w (omega arith) fuel m enough (low, omega arith) (omega arith)
        below space (inl (omega arith)) in
    let (m2, run2, _, _, _, _, _, end) =
      sbrk-Maps mmu walks nbytes last (omega arith) fuel m enough (low, omega arith) (omega arith)
        below space (inl (omega arith)) in
    let same : m2 ≡ m1 = ap (λ r. r.1) (ok-injective (sym run2 ∙ run1)) in
    let zero_at : w / 4096 - base ≡ 0 = omega arith in
    let head = head_frame k m.frames (omega arith) in
    (
      m1,
      run1,
      first
          ∙ inside_range k base frames (walk m.words m.cr3 w) w (omega arith) (omega arith)
          ∙ ap (λ i. some (get_or frames i 0 / 4096 * 4096 + w % 4096)) zero_at
          ∙ ap (λ f. some (f / 4096 * 4096 + w % 4096)) head,
      ap (λ n. walk n.words n.cr3 last) (sym same)
          ∙ end
          ∙ behind_range k base frames (walk m.words m.cr3 last) last (omega arith),
    )
