-- ===== src/Memory/Paging/Range.antt =====
-- Mapping a range of pages.
use ktux.Base.{
  ℕ, zero, suc, ◌+◌, ◌-◌, ◌*◌, ◌/◌, ◌%◌, ◌^◌, ◌≤◌, ◌<◌, ◌≡◌, refl, sym, ap, ◌∙◌, inl, inr, Option,
  some, ◌==◌, ltb, leb, ◌&&◌, if◌then◌else◌, add32, mul32, arith,
}
use ktux.Base.Run.{ok, ◌>>=◌}
use ktux.Memory.Address.{p_kernel_page_directory, page_size, make_entry}
use ktux.Memory.Address.Fields.{mask_low}
use ktux.Memory.Paging.{Mmu, Vm, map_page_helper, map_pages, map_page_range}
use ktux.Memory.Paging.Walk.{walk, Walks}
use ktux.Memory.Paging.Window.{IsKernelSpace, slot}
use ktux.Memory.Paging.Mapped.{
  AreApart, IsMappable, with_entry, with_entry-IsKernelSpace, dir_entry-kept, walk-mapped,
  map_page_helper-present,
}

-- The `k` pages from that of `a` on, mapped to those from that of `p` on, and `before` elsewhere.
abbrev pub range_map : ℕ → ℕ → ℕ → Option ℕ → ℕ → Option ℕ
range_map k a p before w =
    if leb (a / 4096) (w / 4096) && ltb (w / 4096) (a / 4096 + k)
    then some (4096 * (p / 4096 + (w / 4096 - a / 4096)) + w % 4096)
    else before

range_split :
    (k a p w o : ℕ) (before : Option ℕ)
    → (if leb (a + 1) w && ltb w (a + 1 + k)
        then some (4096 * (p + 1 + (w - (a + 1))) + o)
        else if w == a
        then some (p * 4096 + o)
        else before)
      ≡ (if leb a w && ltb w (a + suc k) then some (4096 * (p + (w - a)) + o) else before)
range_split k a p w o before = ground arith

-- A range whose first page is mapped before the others.
range_map-suc :
    (k a p w : ℕ) (before : Option ℕ)
    → range_map k
        (a + 4096)
        (p + 4096)
        (if w / 4096 == a / 4096 then some (p / 4096 * 4096 + w % 4096) else before)
        w
      ≡ range_map (suc k) a p before w
range_map-suc k a p w before =
    let next : (a + 4096) / 4096 ≡ a / 4096 + 1 = omega arith in
    let page : (p + 4096) / 4096 ≡ p / 4096 + 1 = omega arith in
    rw (next, page) (range_split k (a / 4096) (p / 4096) (w / 4096) (w % 4096) before)

IsMappable-alike :
    (m m' : Vm) (v v' : ℕ) → slot m' v' ≡ slot m v → IsMappable m v → IsMappable m' v'
IsMappable-alike m m' v v' e table = record {
  there = ap (λ s. s % 2) e ∙ table.there;
  proper = λ z. table.proper (sym (ap (λ s. s / 4096) e) ∙ z);
  high = λ z. table.high (sym (ap (λ s. s / 4096) e) ∙ z);
}

AreApart-alike :
    (m m' : Vm) (v v' w : ℕ)
    → v' / 2 ^ 22 ≡ v / 2 ^ 22
    → slot m' v' ≡ slot m v
    → slot m' w ≡ slot m w
    → AreApart m v w
    → AreApart m' v' w
AreApart-alike m m' v v' w one e f (inl h) = inl (one ∙ h)
AreApart-alike m m' v v' w one e f (inr ne) =
    inr (λ z. ne (sym (ap (λ s. s / 4096) e) ∙ z ∙ ap (λ s. s / 4096) f))

module _ (mmu : Mmu) (walks : Walks mmu) (fuel virt phys flags w : ℕ) (wsmall : w < 2 ^ 32) where
  map_pages-Maps :
      (k i : ℕ) (m : Vm)
      → virt < 2 ^ 32
      → virt % 2 ^ 22 + 4096 * (i + k) ≤ 2 ^ 22
      → phys + 4096 * (i + k) ≤ 2 ^ 32
      → flags % 2 ≡ 1
      → IsKernelSpace m
      → IsMappable m virt
      → AreApart m virt w
      → (m' : Vm) × (map_pages mmu (suc fuel) k i p_kernel_page_directory virt phys flags m ≡ ok m')
        × IsKernelSpace m'
        × (walk m'.words m'.cr3 w
            ≡ range_map k (virt + 4096 * i) (phys + 4096 * i) (walk m.words m.cr3 w) w)
  unfolding map_pages
  map_pages-Maps zero i m vsmall room proom odd space table apart = (m, refl, space, ground arith)
  map_pages-Maps (suc k) i m vsmall room proom odd space table apart =
      let v = virt + 4096 * i in
      let p = phys + 4096 * i in
      let at : add32 virt (mul32 i page_size) ≡ v = omega arith in
      let at_phys : add32 phys (mul32 i page_size) ≡ p = omega arith in
      let one : v / 2 ^ 22 ≡ virt / 2 ^ 22 = omega arith in
      let same = λ (n : Vm). ap (λ j. n.words (p_kernel_page_directory + 4 * j)) one in
      let tv = IsMappable-alike m m virt v (same m) table in
      let av = AreApart-alike m m virt v w one (same m) refl apart in
      let vs : v < 2 ^ 32 = omega arith in
      let e = make_entry p flags in
      let m1 = with_entry m v e vs tv space in
      let kept = dir_entry-kept m v e tv.there tv.proper in
      let index : i + 1 + k ≡ i + suc k = omega arith in
      let (m', run, space', walked) =
        map_pages-Maps k (i + 1) m1 vsmall (omega arith) (omega arith) odd
          (with_entry-IsKernelSpace m v e vs tv space)
          (IsMappable-alike m m1 virt virt (kept virt vsmall) table)
          (AreApart-alike m m1 virt virt w refl (kept virt vsmall) (kept w wsmall) apart) in
      let one_page =
        if w / 4096 == v / 4096 then some (p / 4096 * 4096 + w % 4096) else walk m.words m.cr3 w in
      let rest =
        λ (n : Vm). map_pages mmu (suc fuel) k (i + 1) p_kernel_page_directory virt phys flags n in
      let call = λ (a b : ℕ). map_page_helper mmu (suc fuel) p_kernel_page_directory a b flags m in
      let next : virt + 4096 * (i + 1) ≡ v + 4096 = omega arith in
      let next_phys : phys + 4096 * (i + 1) ≡ p + 4096 = omega arith in
      (
        m',
        ap (λ a. call a (add32 phys (mul32 i page_size)) >>= rest) at
            ∙ ap (λ a. call v a >>= rest) at_phys
            ∙ ap (λ r. r >>= rest)
                (map_page_helper-present mmu walks m space fuel v p flags vs tv.there)
            ∙ run,
        space',
        walked
            ∙ ap (λ o. range_map k (virt + 4096 * (i + 1)) (phys + 4096 * (i + 1)) o w)
                (walk-mapped m v p flags w vs (omega arith) wsmall odd space tv av)
            ∙ ap (λ a. range_map k a (phys + 4096 * (i + 1)) one_page w) next
            ∙ ap (λ a. range_map k (v + 4096) a one_page w) next_phys
            ∙ range_map-suc k v p w (walk m.words m.cr3 w),
      )

  -- When the directory at 0x4000 is in use with its entries for low memory and for the window of page
  -- tables, as `init_heap` leaves it, a range of whole pages lies in one entry of the directory, that
  -- entry is present and its table is neither the directory nor the table of low memory, and the
  -- flags have the present bit, `map_page_range` of a 32-bit address to physical pages below 2 ^ 32
  -- succeeds and keeps those entries: the walk for an address `w` gives the page of the range
  -- at the same distance if `w` is in the range, and else what it gave before, where the table of
  -- `w` is another one than that of the range, or the same for the same entry of the directory.
  pub map_page_range-Maps :
      (size : ℕ) (m : Vm)
      → virt < 2 ^ 32
      → size % 4096 ≡ 0
      → virt % 2 ^ 22 + size ≤ 2 ^ 22
      → phys + size ≤ 2 ^ 32
      → flags % 2 ≡ 1
      → IsKernelSpace m
      → IsMappable m virt
      → AreApart m virt w
      → (m' : Vm) × (map_page_range mmu (suc fuel) p_kernel_page_directory virt phys size flags m
          ≡ ok m')
        × IsKernelSpace m'
        × (walk m'.words m'.cr3 w ≡ range_map (size / 4096) virt phys (walk m.words m.cr3 w) w)
  unfolding map_page_range
  map_page_range-Maps size m vsmall whole room proom odd space table apart =
      let (m', run, space', walked) =
        map_pages-Maps (size / 4096) 0 m vsmall (omega arith) (omega arith) odd space table apart in
      let v0 : virt + 4096 * 0 ≡ virt = omega arith in
      let p0 : phys + 4096 * 0 ≡ phys = omega arith in
      (
        m',
        rw (mask_low size, whole) run,
        space',
        walked
            ∙ ap (λ a. range_map (size / 4096) a (phys + 4096 * 0) (walk m.words m.cr3 w) w) v0
            ∙ ap (λ a. range_map (size / 4096) virt a (walk m.words m.cr3 w) w) p0,
      )
