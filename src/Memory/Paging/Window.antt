-- ===== src/Memory/Paging/Window.antt =====
-- The address space that the functions of memory.c count on: the directory is seen at its own
-- address, and its own entry 0x3C0 makes all tables seen in the window from 0xF0000000 on.
use ktux.Base.{ℕ, ◌+◌, ◌*◌, ◌/◌, ◌%◌, ◌^◌, ◌<◌, ◌≡◌, refl, ap, ◌∙◌, some, write, arith}
use ktux.Base.Run.{ok}
use ktux.Memory.Address.{p_kernel_page_directory, virt2dir, virt2map}
use ktux.Memory.Address.Fields.{virt2page-eq, entry_addr}
use ktux.Memory.Paging.{Mmu, Vm, load, store}
use ktux.Memory.Paging.Walk.{walk, Walks, dir_entry, table_word, walk-some, walk-maps}

pub record IsKernelSpace (m : Vm) : Type 0 where
  pub directory : m.cr3 ≡ p_kernel_page_directory
  pub low : m.words p_kernel_page_directory ≡ 0x5003
  pub seen : m.words 0x5010 ≡ 0x4003
  pub window : m.words (p_kernel_page_directory + 4 * 0x3C0) ≡ 0x4003

-- What init_virt_mem leaves of it.
pub record IsLowMapped (m : Vm) : Type 0 where
  pub directory : m.cr3 ≡ p_kernel_page_directory
  pub low : m.words p_kernel_page_directory ≡ 0x5003
  pub seen : m.words 0x5010 ≡ 0x4003

pub lower : {m : Vm} → IsKernelSpace m → IsLowMapped m
lower space = record { directory = space.directory; low = space.low; seen = space.seen }

-- The entry of the directory for an address.
abbrev pub slot : Vm → ℕ → ℕ
slot m v = dir_entry m.words p_kernel_page_directory v

-- The word of its table.
abbrev pub word_of : Vm → ℕ → ℕ
word_of m v = table_word m.words p_kernel_page_directory v

module _ (m : Vm) (space : IsLowMapped m) where
  walk-directory :
      (j : ℕ)
      → j < 1024
      → walk m.words m.cr3 (p_kernel_page_directory + 4 * j)
        ≡ some (p_kernel_page_directory + 4 * j)
  walk-directory j small =
      let a = p_kernel_page_directory + 4 * j in
      let first : a / 2 ^ 22 ≡ 0 = omega arith in
      let page : a / 4096 % 1024 ≡ 4 = omega arith in
      ap (λ c. walk m.words c a) space.directory
      ∙ walk-maps m.words p_kernel_page_directory a 5 4
          (ap (λ k. m.words (p_kernel_page_directory + 4 * k)) first ∙ space.low)
          (ap (λ k. m.words (20480 + 4 * k)) page ∙ space.seen)
      ∙ ap some (omega arith)

  pub store-directory :
      (mmu : Mmu)
      → Walks mmu
      → (j e : ℕ) → j < 1024
      → store mmu (p_kernel_page_directory + 4 * j) e m
        ≡ ok (record m { words = write m.words (p_kernel_page_directory + 4 * j) e })
  unfolding store
  store-directory mmu walks j e small =
      let a = p_kernel_page_directory + 4 * j in
      let even : a % 4 ≡ 0 = omega arith in
      rw (even, walks m.words m.cr3 a (omega arith), walk-directory j small) refl

module _ (m : Vm) (space : IsKernelSpace m) where
  -- Where the window shows the entry of an address.
  walk-entry_addr :
      (v : ℕ)
      → v < 2 ^ 32
      → slot m v % 2 ≡ 1
      → walk m.words m.cr3 (entry_addr v) ≡ some (word_of m v)
  unfolding virt2map
  walk-entry_addr v small present =
      let a = entry_addr v in
      let p = virt2page-eq v in
      let top : a / 2 ^ 22 ≡ 0x3C0 = omega (arith, p) in
      let page : a / 4096 % 1024 ≡ v / 2 ^ 22 = omega (arith, p) in
      let offset : a % 4096 ≡ 4 * (v / 4096 % 1024) = omega (arith, p) in
      let dir : m.words (p_kernel_page_directory + 4 * (a / 2 ^ 22)) ≡ 0x4003 =
        ap (λ k. m.words (p_kernel_page_directory + 4 * k)) top ∙ space.window in
      let table : table_word m.words p_kernel_page_directory a
          ≡ p_kernel_page_directory + 4 * (v / 2 ^ 22) =
        ap (λ e. e / 4096 * 4096 + 4 * (a / 4096 % 1024)) dir
        ∙ ap (λ k. p_kernel_page_directory + 4 * k) page in
      let entry : m.words (table_word m.words p_kernel_page_directory a) ≡ slot m v =
        ap m.words table in
      ap (λ c. walk m.words c a) space.directory
      ∙ walk-some m.words p_kernel_page_directory a (ap (λ e. e % 2) dir)
          (ap (λ e. e % 2) entry ∙ present)
      ∙ ap some
          (ap (λ e. e / 4096 * 4096 + a % 4096) entry ∙ ap (λ o. slot m v / 4096 * 4096 + o) offset)

  module _ (mmu : Mmu) (walks : Walks mmu) where
    pub load-directory :
        (v : ℕ) → v < 2 ^ 32 → load mmu (p_kernel_page_directory + 4 * virt2dir v) m ≡ ok (slot m v)
    unfolding load virt2dir
    load-directory v small =
        let a = p_kernel_page_directory + 4 * (v / 2 ^ 22) in
        let even : a % 4 ≡ 0 = omega arith in
        rw
          (
            even,
            walks m.words m.cr3 a (omega arith),
            walk-directory m (lower space) (v / 2 ^ 22) (omega arith),
          )
          refl

    pub store-entry_addr :
        (v e : ℕ)
        → v < 2 ^ 32
        → slot m v % 2 ≡ 1
        → store mmu (entry_addr v) e m ≡ ok (record m { words = write m.words (word_of m v) e })
    unfolding store virt2map
    store-entry_addr v e small present =
        let p = virt2page-eq v in
        let even : entry_addr v % 4 ≡ 0 = omega (arith, p) in
        let fits : entry_addr v < 2 ^ 32 = omega (arith, p) in
        rw (even, walks m.words m.cr3 (entry_addr v) fits, walk-entry_addr v small present) refl
