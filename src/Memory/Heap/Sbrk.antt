-- ===== src/Memory/Heap/Sbrk.antt =====
-- `sbrk`: the pages that it maps, and the limit of the heap.
use ktux.Base.{
  ℕ, zero, suc, ◌+◌, ◌-◌, ◌*◌, ◌/◌, ◌%◌, ◌^◌, ◌≤◌, ◌<◌, ◌≡◌, refl, sym, ap, ◌∙◌, ◌≢◌, ◌⊎◌, inl, inr,
  [], ◌∷◌, some, write, write-ne, AllBelow, ◌==◌, lt→ltb, ge→ltb, true, if◌then◌else◌, add32, sub32,
  arith,
}
use ktux.Base.Run.{ok, ◌>>=◌}
use ktux.Memory.Address.{
  p_kernel_page_directory, p_page_table_heap_1, v_kernel_heap_addr, page_size, kernel_flags,
  make_entry,
}
use ktux.Memory.Address.Fields.{mask_high, mask_low}
use ktux.Memory.Frames.Laws.{alloc_many}
use ktux.Memory.Heap.{grow, sbrk, until_page_end}
use ktux.Memory.Heap.Space.{IsHeapSpace}
use ktux.Memory.Heap.Faults.{InHeap, slot-heap, IsHeapSpace-alike, write-IsHeapSpace}
use ktux.Memory.Heap.Served.{walk-served}
use ktux.Memory.Heap.Grow.{frames_map, frames_map-suc, IsSameHeap, grow_step}
use ktux.Memory.Messages.{sbrk_format, sbrk_return_format}
use ktux.Memory.Paging.{Mmu, Vm, print, alloc}
use ktux.Memory.Paging.Mapped.{AreApart}
use ktux.Memory.Paging.Walk.{walk, Walks}
use ktux.Memory.Paging.Window.{slot}

-- What is known after `k` pages from page `base` on were mapped to the frames from the stack.
pub record IsGrown (k base w : ℕ) (m m' : Vm) : Type 0 where
  pub space : IsHeapSpace m'
  pub same : IsSameHeap m m'
  pub frames : m'.frames ≡ (alloc_many k m.frames).1
  pub slot_kept : slot m' w ≡ slot m w
  pub mapped :
      walk m'.words m'.cr3 w ≡ frames_map k base (alloc_many k m.frames).0 (walk m.words m.cr3 w) w

-- The address `w` is in the first 4 MB of the heap, or has another table.
abbrev pub IsClear : Vm → ℕ → Type 0
IsClear m w = (w / 2 ^ 22 ≡ 0x340) ⊎ (slot m w / 4096 ≢ 7)

module _ (mmu : Mmu) (walks : Walks mmu) (nbytes w : ℕ) (wsmall : w < 2 ^ 32) where
  grow-IsGrown :
      (k fuel i free : ℕ) (m : Vm)
      → k < fuel
      → nbytes ≤ free + 4096 * k
      → 4096 * k < nbytes - free + 4096
      → free + 4096 * k < 2 ^ 32
      → InHeap m.heap_mapped_limit
      → m.heap_mapped_limit / 4096 * 4096 + 4096 * (i + k) ≤ v_kernel_heap_addr + 4194304
      → AllBelow (2 ^ 32) (alloc_many k m.frames).0
      → IsHeapSpace m
      → IsClear m w
      → (m' : Vm) × (grow mmu fuel nbytes i free m ≡ ok (free + 4096 * k, m'))
        × IsGrown k (m.heap_mapped_limit / 4096 + i) w m m'
  unfolding grow alloc alloc_many
  grow-IsGrown k zero i free m enough reach tight small inside room below space clear =
      absurd (omega arith)
  grow-IsGrown zero (suc fuel) i free m enough reach tight small inside room below space clear =
      let e : free + 4096 * 0 ≡ free = omega arith in
      (
        m,
        rw (ge→ltb free nbytes (omega arith), e) refl,
        record {
          space = space;
          same = record { limit = refl; end = refl; free = refl };
          frames = refl;
          slot_kept = refl;
          mapped = ground arith;
        },
      )
  grow-IsGrown (suc k) (suc fuel) i free m enough reach tight small inside room (here, below) space
        clear =
      let v = m.heap_mapped_limit / 4096 * 4096 + 4096 * i in
      let j = v / 4096 % 1024 in
      let e = make_entry (alloc m).0 kernel_flags in
      let inside_v : InHeap v = (omega arith, omega arith) in
      let m1 = record (alloc m).1 {
        words = write m.words (p_page_table_heap_1 + 4 * j) e;
        interrupts = true;
      } in
      let s1 =
        write-IsHeapSpace m m1 (p_page_table_heap_1 + 4 * j) e (omega arith) refl refl space in
      let kept : slot m1 w ≡ slot m w =
        write-ne m.words (p_page_table_heap_1 + 4 * j) (p_kernel_page_directory + 4 * (w / 2 ^ 22))
          e (omega arith) in
      let heap = slot-heap m v space inside_v in
      let apart : AreApart m v w = elim clear [
        | inl one ↦ inl (omega arith)
        | inr other ↦ inr (λ z. other (omega (arith, z, heap)))
      ] in
      let clear1 : IsClear m1 w = elim clear [
        | inl one ↦ inl one
        | inr other ↦ inr (λ z. other (sym (ap (λ s. s / 4096) kept) ∙ z))
      ] in
      let index : add32 i 1 ≡ i + 1 = omega arith in
      let bytes : add32 free page_size ≡ free + 4096 = omega arith in
      let total : free + 4096 + 4096 * k ≡ free + 4096 * suc k = omega arith in
      let base = m.heap_mapped_limit / 4096 in
      let next : base + (i + 1) ≡ base + i + 1 = omega arith in
      let page : v / 4096 ≡ base + i = omega arith in
      let later = (alloc_many k m1.frames).0 in
      let one_page = λ (b : ℕ).
        if w / 4096 == b
        then some ((alloc m).0 / 4096 * 4096 + w % 4096)
        else walk m.words m.cr3 w in
      let rest = λ (n : Vm). grow mmu fuel nbytes (add32 i 1) (add32 free page_size) n in
      let (m', run, grown) =
        grow-IsGrown k fuel (i + 1) (free + 4096) m1 (omega arith) (omega arith) (omega arith)
          (omega arith) inside (omega arith) below s1 clear1 in
      (
        m',
        rw (lt→ltb free nbytes (omega arith)) (
            ap (λ r. r >>= rest) (grow_step mmu walks nbytes fuel i m space inside inside_v)
            ∙ ap (λ a. grow mmu fuel nbytes a (add32 free page_size) m1) index
            ∙ ap (λ a. grow mmu fuel nbytes (i + 1) a m1) bytes
            ∙ run
            ∙ ap (λ a. ok (a, m')) total),
        record {
          space = grown.space;
          same = record { limit = grown.same.limit; end = grown.same.end; free = grown.same.free };
          frames = grown.frames;
          slot_kept = grown.slot_kept ∙ kept;
          mapped =
              grown.mapped
              ∙ ap (λ o. frames_map k (base + (i + 1)) later o w)
                  (walk-served m m1 v (alloc m).0 w refl refl space inside_v here wsmall apart)
              ∙ ap (λ b. frames_map k b later (one_page (v / 4096)) w) next
              ∙ ap (λ b. frames_map k (base + i + 1) later (one_page b) w) page
              ∙ frames_map-suc k (base + i) (alloc m).0 later (walk m.words m.cr3 w) w;
        },
      )

-- The bytes that are left in the page of the limit; at the start of a page, none.
abbrev pub page_left : ℕ → ℕ
page_left limit = (4096 - limit % 4096) % 4096

until_page_end-eq : (limit : ℕ) → limit + 4096 < 2 ^ 32 → until_page_end limit ≡ page_left limit
unfolding until_page_end
until_page_end-eq limit small =
    let low = mask_low limit in
    let high = mask_high limit (omega arith) in ground (arith, low, high)

-- The pages that are mapped for `nbytes` behind the limit.
abbrev pub new_pages : ℕ → ℕ → ℕ
new_pages nbytes limit = (nbytes - page_left limit + 4095) / 4096

module _ (mmu : Mmu) (walks : Walks mmu) (nbytes w : ℕ) (wsmall : w < 2 ^ 32) (fuel : ℕ) (m : Vm)
    (enough : new_pages nbytes m.heap_mapped_limit < fuel) (inside : InHeap m.heap_mapped_limit)
    (room : m.heap_mapped_limit / 4096 * 4096 + 4096 * new_pages nbytes m.heap_mapped_limit
      ≤ v_kernel_heap_addr + 4194304)
    (below : AllBelow (2 ^ 32) (alloc_many (new_pages nbytes m.heap_mapped_limit) m.frames).0)
    (space : IsHeapSpace m) (clear : IsClear m w) where
  -- When the limit and the pages to map lie in the first 4 MB of the heap and the frames that are
  -- handed out have 32-bit addresses, `sbrk` succeeds: it returns the limit of the heap and moves it
  -- by the bytes asked for, and the end of the heap and the bytes kept back stay. The pages from
  -- that of the limit on, one for each page begun behind the bytes that are left in it, are mapped
  -- to the frames from the stack in their order, and an address `w` elsewhere in those 4 MB or in
  -- another table is translated as before.
  pub sbrk-Maps :
      (m' : Vm) × (sbrk mmu fuel nbytes m ≡ ok (m.heap_mapped_limit, m'))
      × IsHeapSpace m'
      × (m'.heap_mapped_limit ≡ m.heap_mapped_limit + nbytes)
      × (m'.kernel_heap_end ≡ m.kernel_heap_end)
      × (m'.free_bytes ≡ m.free_bytes)
      × (m'.frames ≡ (alloc_many (new_pages nbytes m.heap_mapped_limit) m.frames).1)
      × (walk m'.words m'.cr3 w
          ≡ frames_map
              (new_pages nbytes m.heap_mapped_limit)
              (m.heap_mapped_limit / 4096)
              (alloc_many (new_pages nbytes m.heap_mapped_limit) m.frames).0
              (walk m.words m.cr3 w)
              w)
  unfolding sbrk print
  sbrk-Maps =
      let limit = m.heap_mapped_limit in
      let free = page_left limit in
      let k = new_pages nbytes limit in
      let m1 = print sbrk_format (nbytes ∷ free ∷ limit ∷ []) m in
      let start : limit / 4096 + 0 ≡ limit / 4096 = omega arith in
      let moved : add32 limit nbytes ≡ limit + nbytes = omega arith in
      let (m2, run, grown) =
        grow-IsGrown mmu walks nbytes w wsmall k fuel 0 free m1 enough (omega arith) (omega arith)
          (omega arith) inside (omega arith) below (IsHeapSpace-alike m m1 refl refl space) clear in
      let m' =
        print sbrk_return_format (limit ∷ (limit + nbytes) ∷ sub32 (free + 4096 * k) nbytes ∷ [])
          (record m2 { heap_mapped_limit = limit + nbytes }) in
      (
        m',
        rw (until_page_end-eq limit (omega arith), run, moved) refl,
        IsHeapSpace-alike m2 m' refl refl grown.space,
        refl,
        grown.same.end,
        grown.same.free,
        grown.frames,
        grown.mapped
            ∙ ap (λ b. frames_map k b (alloc_many k m.frames).0 (walk m.words m.cr3 w) w) start,
      )
