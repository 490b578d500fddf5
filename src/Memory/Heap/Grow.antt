-- ===== src/Memory/Heap/Grow.antt =====
-- What `sbrk` maps.
use ktux.Base.{
  ℕ, zero, suc, ◌+◌, ◌-◌, ◌*◌, ◌/◌, ◌%◌, ◌<◌, ◌≡◌, refl, sym, ap, ◌∙◌, inl, inr, ◌∷◌, List, Option,
  some, write, get_or, ◌==◌, ltb, leb, ltb→lt, ==_iff, Bool-cases, true, if◌then◌else◌, ◌&&◌,
  bit_and, add32, mul32, arith,
}
use ktux.Base.Run.{ok}
use ktux.Memory.Address.{
  p_kernel_page_directory, p_page_table_heap_1, page_size, pde_addr_mask, kernel_flags, make_entry,
}
use ktux.Memory.Address.Fields.{mask_high}
use ktux.Memory.Heap.Space.{IsHeapSpace}
use ktux.Memory.Heap.Faults.{InHeap, slot-heap, word_of-heap, IsHeapSpace-alike}
use ktux.Memory.Paging.{Mmu, Vm, alloc, map_page_helper}
use ktux.Memory.Paging.Mapped.{map_page_helper-present}
use ktux.Memory.Paging.Walk.{Walks}
use ktux.Memory.Paging.Window.{slot}

-- The `k` pages from page `base` on, mapped to the frames `fs` in their order, and `before`
-- elsewhere.
abbrev pub frames_map : ℕ → ℕ → List ℕ → Option ℕ → ℕ → Option ℕ
frames_map k base fs before w =
    if leb base (w / 4096) && ltb (w / 4096) (base + k)
    then some (get_or fs (w / 4096 - base) 0 / 4096 * 4096 + w % 4096)
    else before

get_or-suc : (f : ℕ) (fs : List ℕ) (j : ℕ) → 0 < j → get_or (f ∷ fs) j 0 ≡ get_or fs (j - 1) 0
get_or-suc f fs zero h = absurd (omega arith)
get_or-suc f fs (suc j) h = ap (λ k. get_or fs k 0) (omega arith)

-- One page before the range of the other ones.
split_range :
    (k base w : ℕ) (x y z before : Option ℕ)
    → (base < w → x ≡ z)
    → (w ≡ base → y ≡ z)
    → (if leb (base + 1) w && ltb w (base + 1 + k) then x else if w == base then y else before)
      ≡ (if leb base w && ltb w (base + suc k) then z else before)
split_range k base w x y z before above at = elim (Bool-cases (ltb base w)) [
  | inl later ↦ let e = above (ltb→lt _ _ later) in let h = ltb→lt _ _ later in ground arith
  | inr here ↦ elim (Bool-cases (w == base)) [
    | inl same ↦ let e = at ((==_iff _ _).0 same) in ground arith
    | inr other ↦ ground arith
  ]
]

pub frames_map-suc :
    (k base f : ℕ) (fs : List ℕ) (before : Option ℕ) (w : ℕ)
    → frames_map k
        (base + 1)
        fs
        (if w / 4096 == base then some (f / 4096 * 4096 + w % 4096) else before)
        w
      ≡ frames_map (suc k) base (f ∷ fs) before w
frames_map-suc k base f fs before w =
    let page = λ (g : ℕ). some (g / 4096 * 4096 + w % 4096) in
    split_range k base (w / 4096) (page (get_or fs (w / 4096 - (base + 1)) 0)) (page f)
      (page (get_or (f ∷ fs) (w / 4096 - base) 0)) before
      (λ lt.
        let j : w / 4096 - base - 1 ≡ w / 4096 - (base + 1) = omega arith in
        ap page (sym (get_or-suc f fs (w / 4096 - base) (omega arith) ∙ ap (λ i. get_or fs i 0) j)))
      (λ same.
        let j : w / 4096 - base ≡ 0 = omega arith in ap (λ i. page (get_or (f ∷ fs) i 0)) (sym j))

-- The state of the heap, which mapping its pages does not change.
pub record IsSameHeap (m m' : Vm) : Type 0 where
  pub limit : m'.heap_mapped_limit ≡ m.heap_mapped_limit
  pub end : m'.kernel_heap_end ≡ m.kernel_heap_end
  pub free : m'.free_bytes ≡ m.free_bytes

module _ (mmu : Mmu) (walks : Walks mmu) (nbytes : ℕ) where
  -- One round.
  pub grow_step :
      (fuel i : ℕ) (m : Vm)
      → IsHeapSpace m
      → InHeap m.heap_mapped_limit
      → InHeap (m.heap_mapped_limit / 4096 * 4096 + 4096 * i)
      → let v = m.heap_mapped_limit / 4096 * 4096 + 4096 * i in
        let m1 = (alloc m).1 in
        map_page_helper mmu
          (suc fuel)
          p_kernel_page_directory
          (add32 (bit_and m.heap_mapped_limit pde_addr_mask) (mul32 page_size i))
          (alloc m).0
          kernel_flags
          m1
        ≡ ok (record m1 {
          words =
              write m.words
                (p_page_table_heap_1 + 4 * (v / 4096 % 1024))
                (make_entry (alloc m).0 kernel_flags);
          interrupts = true;
        })
  unfolding alloc
  grow_step fuel i m space inside inside_v =
      let v = m.heap_mapped_limit / 4096 * 4096 + 4096 * i in
      let m1 = (alloc m).1 in
      let s1 = IsHeapSpace-alike m m1 refl refl space in
      let mask = mask_high m.heap_mapped_limit (omega arith) in
      let at : add32 (bit_and m.heap_mapped_limit pde_addr_mask) (mul32 page_size i) ≡ v =
        omega (arith, mask) in
      let odd : slot m1 v % 2 ≡ 1 = ap (λ s. s % 2) (slot-heap m1 v s1 inside_v) in
      let frame = (alloc m).0 in
      let e = make_entry frame kernel_flags in
      ap (λ a. map_page_helper mmu (suc fuel) p_kernel_page_directory a frame kernel_flags m1) at
      ∙ map_page_helper-present mmu walks m1 s1.space fuel v frame kernel_flags (omega arith) odd
      ∙ ap (λ x. ok (record m1 { words = write m.words x e; interrupts = true }))
          (word_of-heap m1 v s1 inside_v)
