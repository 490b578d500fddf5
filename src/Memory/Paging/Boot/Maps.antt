-- ===== src/Memory/Paging/Boot/Maps.antt =====
-- What the tables of `init_virt_mem` map, and the whole of `init_virt_mem`.
use ktux.Base.{
  sub32, ℕ, ◌+◌, ◌-◌, ◌*◌, ◌/◌, ◌%◌, ◌^◌, ◌≤◌, ◌<◌, ◌≡◌, refl, sym, ap, ◌∙◌, ◌≢◌, ◌⊎◌, inl, inr,
  Option, none, some, List, [], ◌∷◌, length, ltb, leb, ◌&&◌, ltb→lt, Bool-cases, lt→ltb, ge→ltb,
  if◌then◌else◌, arith,
}
use mathlib.Core.List.{reverse}
use ktux.Base.Run.{ok}
use ktux.Memory.Address.{p_kernel_page_directory, kernel_phys_addr, kernel_virt_addr, page_size}
use ktux.Memory.FreeList.{free_memory_start}
use ktux.Memory.FreeList.Listed.{open_pages, listed_pages-open}
use ktux.Memory.FreeList.Scan.{all_listed, page_count, IsBooted, init-IsBooted}
use ktux.Memory.Frames.{Frames}
use ktux.Memory.Frames.Laws.{contents}
use ktux.Memory.Paging.{Vm}
use ktux.Memory.Paging.Walk.{walk, walk-maps, walk-absent, walk-no_table}
use ktux.Memory.Paging.Boot.{init_virt_mem}
use ktux.Memory.Paging.Boot.Tables.{
  booted_words, kernel_count, dir_low, dir_kernel, dir_else, low_present, low_absent,
  kernel_present, kernel_absent, booted_tables,
}

-- The pages of physical memory below `free_start` are mapped twice: at their own address, and from
-- 1 MB on at 0xC0000000. Nothing else is mapped.
abbrev pub page_below : ℕ → ℕ → Option ℕ
page_below free_start p = if ltb (p / 4096 * 4096) free_start then some p else none

abbrev pub kernel_map : ℕ → ℕ → Option ℕ
kernel_map free_start v =
    if ltb v 4194304
    then page_below free_start v
    else if leb kernel_virt_addr v && ltb v (kernel_virt_addr + 4194304)
    then page_below free_start (v - 0xBFF00000)
    else none

page_below-in : (s p : ℕ) → p / 4096 * 4096 < s → page_below s p ≡ some p
page_below-in s p h = rw (lt→ltb _ _ h) refl

page_below-out : (s p : ℕ) → s ≤ p / 4096 * 4096 → page_below s p ≡ none
page_below-out s p h = rw (ge→ltb _ _ h) refl

module _ (free_start : ℕ) (lo : kernel_phys_addr < free_start) (hi : free_start ≤ 4194304)
    (words : ℕ → ℕ) where
  abbrev final : ℕ → ℕ
  final = booted_words free_start lo hi words

  walk_low : (v : ℕ) → v < 4194304 → walk final p_kernel_page_directory v ≡ page_below free_start v
  walk_low v small =
      let slot : v / 2 ^ 22 ≡ 0 = omega arith in
      let j = v / 4096 % 1024 in
      let dir : final (p_kernel_page_directory + 4 * (v / 2 ^ 22)) ≡ 4096 * 5 + 3 =
        ap (λ k. final (p_kernel_page_directory + 4 * k)) slot ∙ dir_low free_start lo hi words in
      elim (Bool-cases (ltb (v / 4096 * 4096) free_start)) [
        | inl below ↦
            let h = ltb→lt _ _ below in
            walk-maps final p_kernel_page_directory v 5 j dir
              (low_present free_start lo hi words j (omega arith) (omega arith))
            ∙ ap some (omega arith)
            ∙ sym (page_below-in free_start v h)
        | inr above ↦
            let h : free_start ≤ v / 4096 * 4096 = ground arith in
            walk-absent final p_kernel_page_directory v 5 dir
              (low_absent free_start lo hi words j (omega arith) (omega arith))
            ∙ sym (page_below-out free_start v h)
      ]

  walk_kernel :
      (v : ℕ)
      → kernel_virt_addr ≤ v
      → v < kernel_virt_addr + 4194304
      → walk final p_kernel_page_directory v ≡ page_below free_start (v - 0xBFF00000)
  walk_kernel v low small =
      let slot : v / 2 ^ 22 ≡ 0x300 = omega arith in
      let j = v / 4096 % 1024 in
      let p = v - 0xBFF00000 in
      let dir : final (p_kernel_page_directory + 4 * (v / 2 ^ 22)) ≡ 4096 * 6 + 3 =
        ap (λ k. final (p_kernel_page_directory + 4 * k)) slot
        ∙ dir_kernel free_start lo hi words in
      elim (Bool-cases (ltb (p / 4096 * 4096) free_start)) [
        | inl below ↦
            let h = ltb→lt _ _ below in
            walk-maps final p_kernel_page_directory v 6 (256 + j) dir
              (kernel_present free_start lo hi words j (omega arith) (omega arith) ∙ omega arith)
            ∙ ap some (omega arith)
            ∙ sym (page_below-in free_start p h)
        | inr above ↦
            let h : free_start ≤ p / 4096 * 4096 = ground arith in
            walk-absent final p_kernel_page_directory v 6 dir
              (kernel_absent free_start lo hi words j (omega arith) (omega arith))
            ∙ sym (page_below-out free_start p h)
      ]

  walk_else :
      (v : ℕ)
      → 4194304 ≤ v
      → (v < kernel_virt_addr) ⊎ (kernel_virt_addr + 4194304 ≤ v)
      → v < 2 ^ 32
      → walk final p_kernel_page_directory v ≡ none
  walk_else v low out small =
      let ne : v / 2 ^ 22 ≢ 0x300 = elim out [ inl l ↦ omega arith | inr r ↦ omega arith ] in
      walk-no_table final p_kernel_page_directory v (
        ap (λ e. e % 2)
          (dir_else free_start lo hi words (v / 2 ^ 22) (omega arith) (omega arith) ne))

  -- The walk over the tables is the map of the kernel.
  walk-kernel_map :
      (v : ℕ) → v < 2 ^ 32 → walk final p_kernel_page_directory v ≡ kernel_map free_start v
  walk-kernel_map v small = elim (Bool-cases (ltb v 4194304)) [
    | inl low ↦ rw low (walk_low v (ltb→lt _ _ low))
    | inr high ↦
        let h : 4194304 ≤ v = ground arith in
        elim (Bool-cases (leb kernel_virt_addr v && ltb v (kernel_virt_addr + 4194304))) [
          | inl inside ↦ rw (high, inside) (walk_kernel v (ground arith) (ground arith))
          | inr outside ↦ rw (high, outside) (walk_else v h (ground arith) small)
        ]
  ]

abbrev tail : List ℕ → List ℕ
tail [] = []
tail (p ∷ ps) = ps

-- The machine that `init_virt_mem` leaves with the free frames `fr`.
module _ (total kernel_end : ℕ) (m : Vm)
    (lo : kernel_phys_addr < free_memory_start total kernel_end)
    (hi : free_memory_start total kernel_end ≤ 4194304) where
  abbrev pub booted_vm : Frames → Vm
  booted_vm fr = record m {
    words = booted_words (free_memory_start total kernel_end) lo hi m.words;
    cr3 = p_kernel_page_directory;
    frames = fr;
    num_kernel_pages = sub32 (kernel_count (free_memory_start total kernel_end) lo hi m.words) 1;
    num_kernel_tables =
        sub32 (kernel_count (free_memory_start total kernel_end) lo hi m.words) 1 / 2 ^ 10;
    kernel_end = kernel_end;
    free_list_size = total / 2 ^ 10;
    p_free_start = free_memory_start total kernel_end;
  }

  pub init_virt_mem-IsBooted :
      (fuel first : ℕ) (rest : List ℕ)
      → total + page_size ≤ 2 ^ 32
      → page_count total < fuel
      → 1024 < fuel
      → all_listed total (free_memory_start total kernel_end) ≡ first ∷ rest
      → (fr : Frames) × (init_virt_mem fuel total kernel_end m ≡ ok (booted_vm fr))
        × IsBooted total (free_memory_start total kernel_end) fr
  unfolding init_virt_mem
  init_virt_mem-IsBooted fuel first rest room enough loops pages =
      let (tables, dir) =
        booted_tables (free_memory_start total kernel_end) lo hi m.words fuel loops in
      let (fr, run, booted) =
        init-IsBooted fuel total kernel_end m.frames.list first rest room enough pages in
      (fr, rw (tables, dir, run) refl, booted)

-- When the kernel and the list of frames behind it end in the first 4 MB, memory ends a page or more
-- below 2 ^ 32, at least one page of it is open, and the loops have a round for each page and more
-- than 1024, `init_virt_mem` comes to its end. The open pages, which are those from 0x9000 to
-- 0xA0000, those at 0xC0000, 0xC8000 and 0xF0000, and those from 1 MB on, the kernel's own included,
-- are then the free frames, the highest on top of the stack, except the first, which lies under the
-- stack and is never handed out; memory is divided into what is free and what is in use. The walk
-- over the tables at the address in cr3 translates each 32-bit address `v` as `kernel_map` does, so
-- that pages below the first free one are seen at their own address and, from 1 MB on, at
-- 0xC0000000, and nothing else is mapped.
pub init_virt_mem-Maps :
    (fuel total kernel_end first : ℕ) (rest : List ℕ) (m : Vm) (v : ℕ)
    → total + page_size ≤ 2 ^ 32
    → page_count total < fuel
    → 1024 < fuel
    → open_pages (page_count total) 0 ≡ first ∷ rest
    → kernel_phys_addr < free_memory_start total kernel_end
    → free_memory_start total kernel_end ≤ 4194304
    → v < 2 ^ 32
    → (m' : Vm) × (init_virt_mem fuel total kernel_end m ≡ ok m')
      × (contents m'.frames ≡ reverse rest)
      × (m'.frames.total_memory ≡ total)
      × (m'.frames.free_memory ≡ 4096 * length rest)
      × (m'.frames.used_memory + m'.frames.free_memory ≡ total)
      × (walk m'.words m'.cr3 v ≡ kernel_map (free_memory_start total kernel_end) v)
init_virt_mem-Maps fuel total kernel_end first rest m v room enough loops pages lo hi small =
    let start = free_memory_start total kernel_end in
    let listed : all_listed total start ≡ first ∷ rest =
      listed_pages-open total start (page_count total) 0 (omega arith) (omega arith) (omega arith)
        (omega arith)
      ∙ pages in
    let (fr, run, booted) =
      init_virt_mem-IsBooted total kernel_end m lo hi fuel first rest room enough loops listed in
    let same : booted.rest ≡ rest = ap tail (sym booted.pages ∙ listed) in
    (
      booted_vm total kernel_end m lo hi fr,
      run,
      booted.stacked ∙ ap reverse same,
      booted.installed,
      booted.free ∙ ap (λ l. 4096 * length l) same,
      booted.balanced,
      walk-kernel_map start lo hi m.words v small,
    )
