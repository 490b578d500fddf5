-- ===== src/Memory/Frames.antt =====
-- src/kernel/memory.c: the stack of free page frames.
--
-- `freePageList` is a raw pointer into memory, so the list is a flat memory of its own: a word for
-- each index. `freePageListEntries` is the index of the top.
pub mod Laws
use ktux.Base.{ℕ, ◌+◌, ◌-◌, ◌%◌, ◌≡◌, ltb, ◌==◌, if◌then◌else◌, write, bit_and, add32, sub32}
use ktux.Memory.Address.{page_size}

pub record Frames : Type 0 where
  pub list : ℕ → ℕ
  pub entries : ℕ
  pub total_memory : ℕ
  pub free_memory : ℕ
  pub used_memory : ℕ

-- `alloc_page`: the address of a frame, or 0.
unfoldable pub alloc_page : Frames → ℕ × Frames
alloc_page fr =
    let address = fr.list fr.entries in
    if fr.total_memory == 0
    then (0, fr)
    else if fr.entries == 0
    then (0, fr)
    else if ltb 0 address
    then (
      address,
      record fr {
        list = write fr.list fr.entries 0;
        entries = fr.entries - 1;
        used_memory = sub32 fr.used_memory page_size;
      },
    )
    else (address, fr)

-- `free_page`: ERROR is 0, and so is success.
unfoldable pub free_page : ℕ → Frames → ℕ × Frames
free_page address fr =
    if fr.total_memory == 0
    then (0, fr)
    else if bit_and address 0xFFF == 0
    then (
      0,
      record fr {
        list = write fr.list fr.entries address;
        entries = add32 fr.entries 1;
        used_memory = add32 fr.used_memory page_size;
      },
    )
    else (0, fr)
