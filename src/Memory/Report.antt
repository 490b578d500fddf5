-- ===== src/Memory/Report.antt =====
-- src/kernel/memory.c: the report of the memory (`print_mem_info`), on Stdio.
--
-- `entries` is the map of the memory that the BIOS left, from the address `at` on.
pub mod Printed
pub mod Tests
use ktux.Base.{
  ℕ, zero, suc, ◌+◌, ◌-◌, add32, ◌/◌, ◌%◌, ◌^◌, List, [], ◌∷◌, ltb, ◌==◌, if◌then◌else◌,
}
use ktux.Base.Run.{Run, ok, out_of_fuel, ◌>>=◌}
use ktux.Memory.Address.{kernel_virt_addr, virt2phys}
use ktux.Memory.Frames.{Frames}
use ktux.Memory.Paging.{Vm}
use ktux.Stdio.Calls.{kprintf_all}
use ktux.Video.Consoles.{Display}

-- `e820MemoryMap`: the base and the length have 64 bits.
pub record E820MemoryMap : Type 0 where
  pub base : ℕ
  pub length : ℕ
  pub kind : ℕ

abbrev pub mem_e820_address_memory : ℕ
mem_e820_address_memory = 1

abbrev pub mem_e820_end_map : ℕ
mem_e820_end_map = 0xDEADBEEF

abbrev pub map_format : List ℕ
map_format =
    b'B' ∷ b'I' ∷ b'O' ∷ b'S' ∷ b' ' ∷ b'E' ∷ b'8' ∷ b'2' ∷ b'0' ∷ b' ' ∷ b'm' ∷ b'e' ∷ b'm' ∷ b'o'
    ∷ b'r' ∷ b'y' ∷ b' ' ∷ b'm' ∷ b'a' ∷ b'p' ∷ b' ' ∷ b'(' ∷ b'0' ∷ b'x' ∷ b'%' ∷ b'0' ∷ b'8'
    ∷ b'X' ∷ b')' ∷ b':' ∷ 0x0A ∷ []

abbrev pub range_format : List ℕ
range_format =
    b' ' ∷ b' ' ∷ b'0' ∷ b'x' ∷ b'%' ∷ b'0' ∷ b'8' ∷ b'X' ∷ b' ' ∷ b'-' ∷ b' ' ∷ b'0' ∷ b'x' ∷ b'%'
    ∷ b'0' ∷ b'8' ∷ b'X' ∷ b' ' ∷ []

abbrev pub avail_format : List ℕ
avail_format = b'(' ∷ b'a' ∷ b'v' ∷ b'a' ∷ b'i' ∷ b'l' ∷ b')' ∷ 0x0A ∷ []

abbrev pub rsvd_format : List ℕ
rsvd_format = b'(' ∷ b'r' ∷ b's' ∷ b'v' ∷ b'd' ∷ b')' ∷ 0x0A ∷ []

abbrev pub detected_format : List ℕ
detected_format =
    b'%' ∷ b'u' ∷ b'k' ∷ b'b' ∷ b' ' ∷ b'm' ∷ b'e' ∷ b'm' ∷ b'o' ∷ b'r' ∷ b'y' ∷ b' ' ∷ b'd' ∷ b'e'
    ∷ b't' ∷ b'e' ∷ b'c' ∷ b't' ∷ b'e' ∷ b'd' ∷ b' ' ∷ []

abbrev pub usage_format : List ℕ
usage_format =
    b'(' ∷ b'%' ∷ b'u' ∷ b'k' ∷ b'b' ∷ b' ' ∷ b'u' ∷ b's' ∷ b'e' ∷ b'd' ∷ b'/' ∷ b'%' ∷ b'u' ∷ b'k'
    ∷ b'b' ∷ b' ' ∷ b'f' ∷ b'r' ∷ b'e' ∷ b'e' ∷ b')' ∷ 0x0A ∷ []

abbrev pub virtual_format : List ℕ
virtual_format =
    b'v' ∷ b'i' ∷ b'r' ∷ b't' ∷ b'u' ∷ b'a' ∷ b'l' ∷ b' ' ∷ b'k' ∷ b'e' ∷ b'r' ∷ b'n' ∷ b'e' ∷ b'l'
    ∷ b' ' ∷ b'm' ∷ b'e' ∷ b'm' ∷ b'o' ∷ b'r' ∷ b'y' ∷ b' ' ∷ b'm' ∷ b'a' ∷ b'p' ∷ b':' ∷ 0x0A ∷ []

abbrev pub text_format : List ℕ
text_format =
    b' ' ∷ b' ' ∷ b'.' ∷ b't' ∷ b'e' ∷ b'x' ∷ b't' ∷ b' ' ∷ b':' ∷ b' ' ∷ b'0' ∷ b'x' ∷ b'%' ∷ b'X'
    ∷ b' ' ∷ b'-' ∷ b' ' ∷ b'0' ∷ b'x' ∷ b'%' ∷ b'X' ∷ 0x0A ∷ []

abbrev pub list_format : List ℕ
list_format =
    b'[' ∷ b'd' ∷ b'b' ∷ b'g' ∷ b']' ∷ b' ' ∷ b'f' ∷ b'r' ∷ b'e' ∷ b'e' ∷ b'P' ∷ b'a' ∷ b'g' ∷ b'e'
    ∷ b'L' ∷ b'i' ∷ b's' ∷ b't' ∷ b' ' ∷ b':' ∷ b' ' ∷ b'0' ∷ b'x' ∷ b'%' ∷ b'0' ∷ b'8' ∷ b'X'
    ∷ b' ' ∷ b'-' ∷ b' ' ∷ b's' ∷ b'i' ∷ b'z' ∷ b'e' ∷ b' ' ∷ b':' ∷ b' ' ∷ b'0' ∷ b'x' ∷ b'%'
    ∷ b'X' ∷ b' ' ∷ b'(' ∷ b'%' ∷ b'u' ∷ b')' ∷ 0x0A ∷ []

abbrev pub start_format : List ℕ
start_format =
    b'p' ∷ b'h' ∷ b'y' ∷ b's' ∷ b'i' ∷ b'c' ∷ b'a' ∷ b'l' ∷ b' ' ∷ b'f' ∷ b'r' ∷ b'e' ∷ b'e' ∷ b' '
    ∷ b'm' ∷ b'e' ∷ b'm' ∷ b'o' ∷ b'r' ∷ b'y' ∷ b' ' ∷ b's' ∷ b't' ∷ b'a' ∷ b'r' ∷ b't' ∷ b' '
    ∷ b':' ∷ b' ' ∷ b'0' ∷ b'x' ∷ b'%' ∷ b'0' ∷ b'8' ∷ b'X' ∷ 0x0A ∷ []

abbrev pub done_format : List ℕ
done_format =
    b'm' ∷ b'e' ∷ b'm' ∷ b'o' ∷ b'r' ∷ b'y' ∷ b' ' ∷ b'm' ∷ b'a' ∷ b'n' ∷ b'a' ∷ b'g' ∷ b'e' ∷ b'r'
    ∷ b' ' ∷ b'i' ∷ b'n' ∷ b'i' ∷ b't' ∷ b'i' ∷ b'a' ∷ b'l' ∷ b'i' ∷ b'z' ∷ b'e' ∷ b'd' ∷ b'!'
    ∷ 0x0A ∷ []

abbrev pub entry_format : List ℕ
entry_format =
    b'f' ∷ b'r' ∷ b'e' ∷ b'e' ∷ b'P' ∷ b'a' ∷ b'g' ∷ b'e' ∷ b'L' ∷ b'i' ∷ b's' ∷ b't' ∷ b'[' ∷ b'%'
    ∷ b'd' ∷ b']' ∷ b'=' ∷ b'0' ∷ b'x' ∷ b'%' ∷ b'p' ∷ 0x0A ∷ []

-- `max` on 64-bit words.
unfoldable pub max64 : ℕ → ℕ → ℕ
max64 num val = if ltb val num then num else val

-- `bytes2KB`.
unfoldable pub bytes2kb : ℕ → ℕ
bytes2kb addr = addr / 2 ^ 10

-- The calls of the body of the loop: the end of the region goes to the stack as two words.
unfoldable pub region_calls : E820MemoryMap → List (List ℕ × List ℕ)
unfolding max64
region_calls e =
    let last = max64 ((e.base + e.length) % 2 ^ 64) 0xFFFFFFFF in
    (range_format, e.base % 2 ^ 32 ∷ last % 2 ^ 32 ∷ last / 2 ^ 32 ∷ [])
    ∷ ((if e.kind == mem_e820_address_memory then avail_format else rsvd_format), [])
    ∷ []

-- The lines behind the map.
unfoldable pub memory_calls : Vm → List (List ℕ × List ℕ)
unfolding bytes2kb virt2phys
memory_calls m =
    (detected_format, bytes2kb m.frames.total_memory ∷ [])
    ∷ (usage_format, bytes2kb m.frames.used_memory ∷ bytes2kb m.frames.free_memory ∷ [])
    ∷ (virtual_format, [])
    ∷ (text_format, kernel_virt_addr ∷ m.kernel_end ∷ [])
    ∷ (list_format, virt2phys m.kernel_end ∷ m.free_list_size ∷ m.free_list_size ∷ [])
    ∷ (start_format, m.p_free_start ∷ [])
    ∷ (done_format, [])
    ∷ []

module _ (strings : ℕ → List ℕ) where
  -- The loop from entry `i` on.
  unfoldable pub print_map : ℕ → (ℕ → E820MemoryMap) → ℕ → Display → Run Display
  print_map zero entries i d = out_of_fuel
  print_map (suc fuel) entries i d =
      let rest =
        kprintf_all strings (region_calls (entries i)) d >>= print_map fuel entries (i + 1) in
      if (entries i).base == mem_e820_end_map then ok d else rest

  unfoldable pub print_mem_info : ℕ → ℕ → (ℕ → E820MemoryMap) → Vm → Display → Run Display
  unfolding print_map
  print_mem_info fuel at entries m d = kprintf_all strings ((map_format, at ∷ []) ∷ []) d >>= λ d1.
      print_map fuel entries 0 d1 >>= kprintf_all strings (memory_calls m)

  -- `dumpFreePageList`: the loop, which takes no round where its bound wraps below `start`.
  unfoldable pub dump_entries : ℕ → ℕ → Frames → Display → Run Display
  dump_entries zero i fr d = ok d
  dump_entries (suc rounds) i fr d =
      kprintf_all strings ((entry_format, i ∷ fr.list i ∷ []) ∷ []) d
      >>= dump_entries rounds (i + 1) fr

  unfoldable pub dump_free_page_list : ℕ → ℕ → Frames → Display → Run Display
  unfolding dump_entries
  dump_free_page_list start count fr d = dump_entries (add32 start count - start) start fr d
