-- ===== src/Memory/Paging/Boot.antt =====
-- src/kernel/memory.c, `init_virt_mem`: the page tables of the kernel, and the free list behind them.
pub mod Fill
pub mod Tables
pub mod Maps
use ktux.Base.{ℕ, zero, suc, ◌+◌, ◌*◌, ◌/◌, ◌%◌, ◌^◌, true, false, ltb, if◌then◌else◌, add32, sub32}
use ktux.Base.Run.{Run, ok, out_of_fuel, ◌>>=◌}
use ktux.Memory.Address.{
  kernel_phys_addr, p_kernel_page_directory, p_page_table_first_4mb, p_page_table_kernel_1,
  page_size, flag_rw, kernel_flags,
}
use ktux.Memory.FreeList.{free_memory_start, init_free_list}
use ktux.Memory.Frames.{Frames}
use ktux.Memory.Paging.{Vm, set_entry, map_ktables}

-- `while (address < limit)`: the entries of `table` from `i` on map the pages from `address` on.
unfoldable pub map_up : ℕ → ℕ → ℕ → ℕ → ℕ → (ℕ → ℕ) → Run (ℕ × (ℕ → ℕ))
unfolding set_entry
map_up zero table limit i address words = out_of_fuel
map_up (suc f) table limit i address words =
    let rest =
      map_up f table limit (add32 i 1) (add32 address page_size)
        (set_entry table i address kernel_flags words) in
    if ltb address limit then rest else ok (i, words)

-- `while (i % 1024 > 0)`: the rest of a table is not present.
unfoldable pub pad_table : ℕ → ℕ → ℕ → (ℕ → ℕ) → Run (ℕ → ℕ)
unfolding set_entry
pad_table zero table i words = out_of_fuel
pad_table (suc f) table i words =
    let rest = pad_table f table (add32 i 1) (set_entry table i 0 flag_rw words) in
    if ltb 0 (i % 1024) then rest else ok words

-- The identity map of low memory, and the map of the kernel: the second result is the number of
-- entries of its table that are present.
unfoldable pub init_tables : ℕ → ℕ → (ℕ → ℕ) → Run (ℕ × (ℕ → ℕ))
unfolding map_up pad_table
init_tables fuel free_start words = do
  low ← map_up fuel p_page_table_first_4mb free_start 0 0 words
  low_padded ← pad_table fuel p_page_table_first_4mb low.0 low.1
  high ← map_up fuel p_page_table_kernel_1 free_start 0 kernel_phys_addr low_padded
  high_padded ← pad_table fuel p_page_table_kernel_1 high.0 high.1
  ok (high.0, high_padded)

-- The page directory.
unfoldable pub init_directory : ℕ → ℕ → (ℕ → ℕ) → Run (ℕ → ℕ)
unfolding set_entry pad_table map_ktables
init_directory fuel tables words = do
  padded ←
      pad_table fuel p_kernel_page_directory 1
        (set_entry p_kernel_page_directory 0 p_page_table_first_4mb kernel_flags words)
  ok (map_ktables (tables + 1) 0 p_page_table_kernel_1 p_kernel_page_directory padded)

-- `init_virt_mem`; the loops have `fuel` rounds each.
unfoldable pub init_virt_mem : ℕ → ℕ → ℕ → Vm → Run Vm
unfolding free_memory_start init_tables init_directory init_free_list
init_virt_mem fuel total kernel_end m = do
  tables ← init_tables fuel (free_memory_start total kernel_end) m.words
  words ← init_directory fuel (sub32 tables.0 1 / 2 ^ 10) tables.1
  fr ← init_free_list fuel total kernel_end m.frames.list
  ok (record m {
    words = words;
    cr3 = p_kernel_page_directory;
    frames = fr;
    num_kernel_pages = sub32 tables.0 1;
    num_kernel_tables = sub32 tables.0 1 / 2 ^ 10;
    kernel_end = kernel_end;
    free_list_size = total / 2 ^ 10;
    p_free_start = free_memory_start total kernel_end;
  })
