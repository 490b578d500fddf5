-- ===== src/Memory/Paging/Mapped.antt =====
-- Mapping and unmapping a page of the kernel, when its table is there.
use ktux.Base.{
  ℕ, suc, ◌+◌, ◌*◌, ◌/◌, ◌%◌, ◌^◌, ◌<◌, ◌≡◌, refl, sym, ap, ◌∙◌, ◌≢◌, ◌⊎◌, inl, inr, Option, none,
  some, write, write_self, write-ne, Bool-cases, ◌==◌, ==_iff, if◌then◌else◌, bit_and, true, false,
  arith,
}
use ktux.Base.Run.{ok}
use ktux.Base.Bits.{bit_and-mod}
use ktux.Memory.Address.{
  p_kernel_page_directory, pde_addr_mask, flag_present, virt2page, make_entry,
}
use ktux.Memory.Address.Fields.{mask_high, make_entry-eq, virt2page-eq}
use ktux.Memory.Paging.{Mmu, Vm, store, set_pte_addr, map_page_helper, unmap_page_helper}
use ktux.Memory.Paging.Walk.{walk, Walks, dir_entry, walk-alike}
use ktux.Memory.Paging.Window.{IsKernelSpace, slot, word_of, load-directory, store-entry_addr}

-- The table of `w` is not the table of `v`, or they are in one directory entry.
abbrev pub AreApart : Vm → ℕ → ℕ → Type 0
AreApart m v w = (v / 2 ^ 22 ≡ w / 2 ^ 22) ⊎ (slot m v / 4096 ≢ slot m w / 4096)

-- What an entry maps an address to.
abbrev pub entry_maps : ℕ → ℕ → Option ℕ
entry_maps e w = if e % 2 == 0 then none else some (e / 4096 * 4096 + w % 4096)

-- The entry of an address changes what its page is mapped to, and no other page.
module _ (m : Vm) (v e : ℕ) (there : slot m v % 2 ≡ 1) (proper : slot m v / 4096 ≢ 4) where
  abbrev pub rewritten : ℕ → ℕ
  rewritten = write m.words (word_of m v) e

  pub dir_entry-kept :
      (w : ℕ) → w < 2 ^ 32 → dir_entry rewritten p_kernel_page_directory w ≡ slot m w
  dir_entry-kept w small =
      write-ne m.words (word_of m v) (p_kernel_page_directory + 4 * (w / 2 ^ 22)) e (omega arith)

  pub walk-rewritten :
      (w : ℕ)
      → w < 2 ^ 32
      → v < 2 ^ 32
      → AreApart m v w
      → walk rewritten p_kernel_page_directory w
        ≡ (if w / 4096 == v / 4096 then entry_maps e w else walk m.words p_kernel_page_directory w)
  walk-rewritten w small vsmall apart = elim (Bool-cases (w / 4096 == v / 4096)) [
    | inl same ↦
        let s : w / 4096 ≡ v / 4096 = (==_iff _ _).0 same in
        let sl : w / 2 ^ 22 ≡ v / 2 ^ 22 = omega arith in
        let d : dir_entry rewritten p_kernel_page_directory w ≡ slot m v =
          dir_entry-kept w small ∙ ap (λ k. m.words (p_kernel_page_directory + 4 * k)) sl in
        let t : rewritten (slot m v / 4096 * 4096 + 4 * (w / 4096 % 1024)) ≡ e =
          ap (λ k. rewritten (slot m v / 4096 * 4096 + 4 * (k % 1024))) s
          ∙ write_self m.words (word_of m v) e in
        rw (same, d, there, t) refl
    | inr other ↦
        let ne : w / 4096 ≢ v / 4096 = ground arith in
        let d = dir_entry-kept w small in
        let t : rewritten (word_of m w) ≡ m.words (word_of m w) =
          write-ne m.words (word_of m v) (word_of m w) e (elim apart [
            | inl one ↦
                let sl : slot m w ≡ slot m v =
                  ap (λ k. m.words (p_kernel_page_directory + 4 * k)) (sym one) in
                λ z. ne (omega (arith, sl, z, one))
            | inr two ↦ λ z. two (omega (arith, z))
          ]) in
        rw other (walk-alike m.words rewritten p_kernel_page_directory w d t)
  ]

module _ (mmu : Mmu) (walks : Walks mmu) (m : Vm) (space : IsKernelSpace m) where
  pub map_page_helper-present :
      (fuel v phys flags : ℕ)
      → v < 2 ^ 32
      → slot m v % 2 ≡ 1
      → map_page_helper mmu (suc fuel) p_kernel_page_directory v phys flags m
        ≡ ok (record m {
          words = write m.words (word_of m v) (make_entry phys flags);
          interrupts = true;
        })
  unfolding map_page_helper set_pte_addr
  map_page_helper-present fuel v phys flags small present =
      let bit : bit_and (slot m v) flag_present ≡ 1 = bit_and-mod 1 (slot m v) ∙ present in
      let off = record m { interrupts = false } in
      let s : IsKernelSpace off = record {
        directory = space.directory;
        low = space.low;
        seen = space.seen;
        window = space.window;
      } in
      rw
        (
          load-directory m space mmu walks v small,
          bit,
          store-entry_addr off s mmu walks v (make_entry phys flags) small present,
        )
        refl

-- A table that is there, and is neither the directory nor the table of low memory.
pub record IsMappable (m : Vm) (v : ℕ) : Type 0 where
  pub there : slot m v % 2 ≡ 1
  pub proper : slot m v / 4096 ≢ 4
  pub high : slot m v / 4096 ≢ 5

module _ (m : Vm) (v e : ℕ) (vsmall : v < 2 ^ 32) (table : IsMappable m v)
    (space : IsKernelSpace m) where
  -- The machine with the entry of `v` written.
  abbrev pub with_entry : Vm
  with_entry = record m { words = write m.words (word_of m v) e; interrupts = true }

  pub with_entry-IsKernelSpace : IsKernelSpace with_entry
  with_entry-IsKernelSpace =
      let (p, h) : (slot m v / 4096 ≢ 4) × (slot m v / 4096 ≢ 5) = (table.proper, table.high) in
      let keep = λ (x : ℕ) (ne : x ≢ word_of m v). write-ne m.words (word_of m v) x e ne in
      record {
        directory = space.directory;
        low = keep p_kernel_page_directory (omega arith) ∙ space.low;
        seen = keep 0x5010 (omega arith) ∙ space.seen;
        window = keep 0x4F00 (omega arith) ∙ space.window;
      }

-- The walk when the entry written is that of a page.
pub walk-mapped :
    (m : Vm) (v phys flags w : ℕ) (vsmall : v < 2 ^ 32)
    → phys < 2 ^ 32
    → w < 2 ^ 32
    → flags % 2 ≡ 1
    → (space : IsKernelSpace m) (table : IsMappable m v) → AreApart m v w
    → let m' = with_entry m v (make_entry phys flags) vsmall table space in
      walk m'.words m'.cr3 w ≡ (
        if w / 4096 == v / 4096 then some (phys / 4096 * 4096 + w % 4096) else walk m.words m.cr3 w)
walk-mapped m v phys flags w vsmall psmall wsmall odd space table apart =
    let e = make_entry phys flags in
    let fields = make_entry-eq phys flags psmall in
    let bit : e % 2 ≡ 1 = omega (arith, fields) in
    let page : e / 4096 * 4096 ≡ phys / 4096 * 4096 = omega (arith, fields) in
    let maps : entry_maps e w ≡ some (phys / 4096 * 4096 + w % 4096) = rw (bit, page) refl in
    rw space.directory (
      walk-rewritten m v e table.there table.proper w wsmall vsmall apart
      ∙ ap (λ o. if w / 4096 == v / 4096 then o else walk m.words p_kernel_page_directory w) maps)

module _ (mmu : Mmu) (walks : Walks mmu) where
  -- When the directory at 0x4000 is in use with its entries for low memory and for the window of page
  -- tables, as `init_heap` leaves it, the directory entry of `v` is present, its table is neither the
  -- directory nor the table of low memory, and the flags have the present bit, mapping the page of a
  -- 32-bit address `v` to that of a 32-bit `phys` succeeds at once: those entries are kept, and the
  -- walk for a 32-bit address `w` gives the page of `phys` if `w` is in the page of `v`, and else
  -- what it gave before, where the table of `w` is another one than that of `v`, or the same for the
  -- same entry of the directory.
  pub map_page_helper-Maps :
      (fuel v phys flags w : ℕ) (m : Vm)
      → v < 2 ^ 32
      → phys < 2 ^ 32
      → w < 2 ^ 32
      → flags % 2 ≡ 1
      → IsKernelSpace m
      → IsMappable m v
      → AreApart m v w
      → (m' : Vm) × (map_page_helper mmu (suc fuel) p_kernel_page_directory v phys flags m ≡ ok m')
        × IsKernelSpace m'
        × (walk m'.words m'.cr3 w ≡ (
            if w / 4096 == v / 4096
            then some (phys / 4096 * 4096 + w % 4096)
            else walk m.words m.cr3 w))
  map_page_helper-Maps fuel v phys flags w m vsmall psmall wsmall odd space table apart = (
    with_entry m v (make_entry phys flags) vsmall table space,
    map_page_helper-present mmu walks m space fuel v phys flags vsmall table.there,
    with_entry-IsKernelSpace m v (make_entry phys flags) vsmall table space,
    walk-mapped m v phys flags w vsmall psmall wsmall odd space table apart,
  )

  -- When the directory at 0x4000 is in use with its entries for low memory and for the window of page
  -- tables, the directory entry of a 32-bit address `v` is present, its table
  -- is neither the directory nor the table of low memory, and the word of `v` in it is seen at its own physical address,
  -- `unmap_page_helper` succeeds: the walk for an address `w` finds nothing if `w` is in the page of
  -- `v`, and else what it found before, where the table of `w` is another one than that of `v`, or
  -- the same for the same entry of the directory.
  pub unmap_page_helper-Unmaps :
      (v w : ℕ) (m : Vm)
      → v < 2 ^ 32
      → w < 2 ^ 32
      → IsKernelSpace m
      → IsMappable m v
      → slot m v < 2 ^ 32
      → AreApart m v w
      → walk m.words m.cr3 (word_of m v) ≡ some (word_of m v)
      → (m' : Vm) × (unmap_page_helper mmu p_kernel_page_directory v m ≡ ok m')
        × (walk m'.words m'.cr3 w ≡ (if w / 4096 == v / 4096 then none else walk m.words m.cr3 w))
  unfolding unmap_page_helper store make_entry
  unmap_page_helper-Unmaps v w m vsmall wsmall space table fits apart seen =
      let address : bit_and (slot m v) pde_addr_mask + 4 * virt2page v ≡ word_of m v =
        ap (λ a. a + 4 * virt2page v) (mask_high (slot m v) fits)
        ∙ ap (λ a. slot m v / 4096 * 4096 + 4 * a) (virt2page-eq v) in
      let even : word_of m v % 4 ≡ 0 = omega arith in
      (
        record m { words = write m.words (word_of m v) 2 },
        rw
            (
              load-directory m space mmu walks v vsmall,
              address,
              even,
              walks m.words m.cr3 (word_of m v) (omega arith),
              seen,
            )
            refl,
        rw space.directory (walk-rewritten m v 2 table.there table.proper w wsmall vsmall apart),
      )
