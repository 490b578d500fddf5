-- ===== src/Memory/Paging/Boot/Tables.antt =====
-- The tables that `init_virt_mem` leaves, a word at a time.
use ktux.Base.{
  ℕ, ◌+◌, ◌-◌, ◌*◌, ◌/◌, ◌%◌, ◌^◌, ◌≤◌, ◌<◌, ◌≡◌, refl, ap, ◌∙◌, ◌≢◌, ◌⊎◌, inl, inr, write,
  write-ne, sub32, arith,
}
use ktux.Base.Run.{ok}
use ktux.Memory.Address.{
  p_page_table_first_4mb, p_page_table_kernel_1, p_kernel_page_directory, kernel_phys_addr,
  virt2dir, flag_rw, kernel_flags, make_entry,
}
use ktux.Memory.Address.Fields.{make_entry-eq}
use ktux.Memory.Paging.{set_entry, map_ktables}
use ktux.Memory.Paging.Boot.{init_tables, init_directory}
use ktux.Memory.Paging.Boot.Fill.{
  fill_table, fill_table-out, fill_table-at, mapped_from, map_up_lem, pad_table_lem,
}

-- The `n` entries of a table that map the pages from `base` on, and the rest of it.
abbrev full_table : ℕ → ℕ → ℕ → (ℕ → ℕ) → ℕ → ℕ
full_table table base n words =
    fill_table table (λ _. make_entry 0 flag_rw) (1024 - n) n
      (fill_table table (mapped_from base) n 0 words)

module _ (table base n j : ℕ) (words : ℕ → ℕ) (small : j < 1024) where
  full_table-present :
      base + 4194304 < 2 ^ 32
      → j < n
      → n ≤ 1024
      → base % 4096 ≡ 0
      → full_table table base n words (table + 4 * j) ≡ base + 4096 * j + 3
  full_table-present room h fits aligned =
      fill_table-out table (λ _. make_entry 0 flag_rw) (1024 - n) n (table + 4 * j) _
        (inl (omega arith))
      ∙ fill_table-at table (mapped_from base) n 0 j words (omega arith) (omega arith)
      ∙ make_entry-eq (base + 4096 * j) kernel_flags (omega arith)
      ∙ omega arith

  full_table-absent : n ≤ j → n ≤ 1024 → full_table table base n words (table + 4 * j) ≡ 2
  unfolding make_entry
  full_table-absent h fits =
      fill_table-at table (λ _. make_entry 0 flag_rw) (1024 - n) n j _ h (omega arith)

full_table-out :
    (table base n x : ℕ) (words : ℕ → ℕ)
    → n ≤ 1024
    → (x < table) ⊎ (table + 4096 ≤ x)
    → full_table table base n words x ≡ words x
full_table-out table base n x words fits h =
    fill_table-out table (λ _. make_entry 0 flag_rw) (1024 - n) n x _
      (elim h [ inl lo ↦ inl (omega arith) | inr hi ↦ inr (omega arith) ])
    ∙ fill_table-out table (mapped_from base) n 0 x words
        (elim h [ inl lo ↦ inl (omega arith) | inr hi ↦ inr (omega arith) ])

-- The kernel and its list of frames end in the first 4 MB, behind the first 1 MB.
module _ (free_start : ℕ) (lo : kernel_phys_addr < free_start) (hi : free_start ≤ 4194304)
    (words : ℕ → ℕ) where
  abbrev pub low_count : ℕ
  low_count = (free_start + 4095) / 4096

  abbrev pub kernel_count : ℕ
  kernel_count = low_count - 256

  abbrev low_tables : ℕ → ℕ
  low_tables = full_table p_page_table_first_4mb 0 low_count words

  abbrev tables : ℕ → ℕ
  tables = full_table p_page_table_kernel_1 kernel_phys_addr kernel_count low_tables

  init_tables_lem :
      (fuel : ℕ) → 1024 < fuel → init_tables fuel free_start words ≡ ok (kernel_count, tables)
  unfolding init_tables
  init_tables_lem fuel enough =
      let low_mid = fill_table p_page_table_first_4mb (mapped_from 0) low_count 0 words in
      let low =
        map_up_lem p_page_table_first_4mb low_count fuel 0 free_start 0 words (omega arith)
          (omega arith) (omega arith) (omega arith) in
      let low_rest =
        pad_table_lem p_page_table_first_4mb (1024 - low_count) fuel low_count low_mid (omega arith)
          (omega arith) (omega arith) in
      let mid =
        fill_table p_page_table_kernel_1 (mapped_from kernel_phys_addr) kernel_count 0 low_tables in
      let high =
        map_up_lem p_page_table_kernel_1 kernel_count fuel 0 free_start kernel_phys_addr low_tables
          (omega arith) (omega arith) (omega arith) (omega arith) in
      let high_rest =
        pad_table_lem p_page_table_kernel_1 (1024 - kernel_count) fuel kernel_count mid
          (omega arith) (omega arith) (omega arith) in
      let low_zero : 0 + low_count ≡ low_count = omega arith in
      let kernel_zero : 0 + kernel_count ≡ kernel_count = omega arith in
      rw (low, low_zero, low_rest, high, kernel_zero, high_rest) refl

  -- The directory: entry 0 for low memory, the rest of it not present, and then the kernel's entry.
  abbrev padded_dir : ℕ → ℕ
  padded_dir =
      fill_table p_kernel_page_directory (λ _. make_entry 0 flag_rw) 1023 1
        (write tables p_kernel_page_directory 0x5003)

  abbrev pub booted_words : ℕ → ℕ
  booted_words = write padded_dir (p_kernel_page_directory + 4 * 0x300) 0x6003

  init_directory_lem : (fuel : ℕ) → 1024 < fuel → init_directory fuel 0 tables ≡ ok booted_words
  unfolding init_directory set_entry make_entry map_ktables virt2dir
  init_directory_lem fuel enough =
      rw
        (pad_table_lem p_kernel_page_directory 1023 fuel 1
          (write tables p_kernel_page_directory 0x5003) (omega arith) (omega arith) refl)
        refl

  pub dir_low : booted_words p_kernel_page_directory ≡ 0x5003
  dir_low =
      fill_table-out p_kernel_page_directory (λ _. make_entry 0 flag_rw) 1023 1
        p_kernel_page_directory _ (inl (omega arith))

  pub dir_kernel : booted_words (p_kernel_page_directory + 4 * 0x300) ≡ 0x6003
  dir_kernel = refl

  pub dir_else :
      (j : ℕ) → 0 < j → j < 1024 → j ≢ 0x300 → booted_words (p_kernel_page_directory + 4 * j) ≡ 2
  unfolding make_entry
  dir_else j pos small other =
      write-ne padded_dir (p_kernel_page_directory + 4 * 0x300) (p_kernel_page_directory + 4 * j)
        0x6003 (omega arith)
      ∙ fill_table-at p_kernel_page_directory (λ _. make_entry 0 flag_rw) 1023 1 j
          (write tables p_kernel_page_directory 0x5003) (omega arith) (omega arith)

  -- Behind the directory there are only the tables.
  behind_dir : (x : ℕ) → p_kernel_page_directory + 4096 ≤ x → booted_words x ≡ tables x
  behind_dir x h =
      write-ne padded_dir (p_kernel_page_directory + 4 * 0x300) x 0x6003 (omega arith)
      ∙ fill_table-out p_kernel_page_directory (λ _. make_entry 0 flag_rw) 1023 1 x
          (write tables p_kernel_page_directory 0x5003) (inr (omega arith))
      ∙ write-ne tables p_kernel_page_directory x 0x5003 (omega arith)

  low_table :
      (j : ℕ)
      → j < 1024
      → booted_words (p_page_table_first_4mb + 4 * j) ≡ low_tables (p_page_table_first_4mb + 4 * j)
  low_table j small =
      behind_dir (p_page_table_first_4mb + 4 * j) (omega arith)
      ∙ full_table-out p_page_table_kernel_1 kernel_phys_addr kernel_count
          (p_page_table_first_4mb + 4 * j) low_tables (omega arith) (inl (omega arith))

  module _ (j : ℕ) (small : j < 1024) where
    pub low_present :
        4096 * j < free_start → booted_words (p_page_table_first_4mb + 4 * j) ≡ 4096 * j + 3
    low_present h =
        low_table j small
        ∙ full_table-present p_page_table_first_4mb 0 low_count j words small (omega arith)
            (omega arith) (omega arith) refl
        ∙ omega arith

    pub low_absent : free_start ≤ 4096 * j → booted_words (p_page_table_first_4mb + 4 * j) ≡ 2
    low_absent h =
        low_table j small
        ∙ full_table-absent p_page_table_first_4mb 0 low_count j words small (omega arith)
            (omega arith)

    pub kernel_present :
        kernel_phys_addr + 4096 * j < free_start
        → booted_words (p_page_table_kernel_1 + 4 * j) ≡ kernel_phys_addr + 4096 * j + 3
    kernel_present h =
        behind_dir (p_page_table_kernel_1 + 4 * j) (omega arith)
        ∙ full_table-present p_page_table_kernel_1 kernel_phys_addr kernel_count j low_tables small
            (omega arith) (omega arith) (omega arith) refl

    pub kernel_absent :
        free_start ≤ kernel_phys_addr + 4096 * j → booted_words (p_page_table_kernel_1 + 4 * j) ≡ 2
    kernel_absent h =
        behind_dir (p_page_table_kernel_1 + 4 * j) (omega arith)
        ∙ full_table-absent p_page_table_kernel_1 kernel_phys_addr kernel_count j low_tables small
            (omega arith) (omega arith)

  -- Both parts of the tables.
  pub booted_tables :
      (fuel : ℕ)
      → 1024 < fuel
      → (init_tables fuel free_start words ≡ ok (kernel_count, tables))
        × (init_directory fuel (sub32 kernel_count 1 / 2 ^ 10) tables ≡ ok booted_words)
  booted_tables fuel enough =
      let one : sub32 kernel_count 1 / 2 ^ 10 ≡ 0 = omega arith in
      (
        init_tables_lem fuel enough,
        ap (λ n. init_directory fuel n tables) one ∙ init_directory_lem fuel enough,
      )
