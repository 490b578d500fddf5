-- ===== src/Memory/Report/Printed.antt =====
-- What `print_mem_info` prints.
use ktux.Base.{
  ℕ, zero, suc, ◌+◌, ◌/◌, ◌%◌, ◌^◌, ◌<◌, ◌≤◌, ◌≡◌, ◌≢◌, refl, ap, sym, ◌∙◌, Bool-cases, inl, inr,
  List, [], ◌∷◌, ◌++◌, true, false, ge→ltb, ne→==, ◌==◌, if◌then◌else◌, arith,
}
use ktux.Base.Run.{ok, ◌>>=◌}
use ktux.Video.Consoles.{Display}
use ktux.Stdio.Fields.{Piece, literal, field, upper_hex, decimal}
use ktux.Stdio.Formats.{are_pieces, ArePieces-are_pieces}
use ktux.Stdio.Rendered.{send_text, send_text-append}
use ktux.Stdio.Printers.{kprintf_help}
use ktux.Stdio.Calls.{AreCalls, calls_of, calls_text, kprintf_all, kprintf_all-text}
use ktux.Memory.Address.{kernel_virt_addr, virt2phys}
use ktux.Memory.Paging.{Vm}
use ktux.Memory.Report.{
  E820MemoryMap, mem_e820_address_memory, mem_e820_end_map, max64, bytes2kb, region_calls,
  print_map, memory_calls, print_mem_info,
}

abbrev pub map_pieces : List Piece
map_pieces =
    literal (
      b'B' ∷ b'I' ∷ b'O' ∷ b'S' ∷ b' ' ∷ b'E' ∷ b'8' ∷ b'2' ∷ b'0' ∷ b' ' ∷ b'm' ∷ b'e' ∷ b'm'
      ∷ b'o' ∷ b'r' ∷ b'y' ∷ b' ' ∷ b'm' ∷ b'a' ∷ b'p' ∷ b' ' ∷ b'(' ∷ b'0' ∷ b'x' ∷ [])
    ∷ field (record { left = false; zeroes = true; wide = b'8' ∷ []; conversion = upper_hex })
    ∷ literal (b')' ∷ b':' ∷ 0x0A ∷ [])
    ∷ []

abbrev pub range_pieces : List Piece
range_pieces =
    literal (b' ' ∷ b' ' ∷ b'0' ∷ b'x' ∷ [])
    ∷ field (record { left = false; zeroes = true; wide = b'8' ∷ []; conversion = upper_hex })
    ∷ literal (b' ' ∷ b'-' ∷ b' ' ∷ b'0' ∷ b'x' ∷ [])
    ∷ field (record { left = false; zeroes = true; wide = b'8' ∷ []; conversion = upper_hex })
    ∷ literal (b' ' ∷ [])
    ∷ []

abbrev pub avail_pieces : List Piece
avail_pieces = literal (b'(' ∷ b'a' ∷ b'v' ∷ b'a' ∷ b'i' ∷ b'l' ∷ b')' ∷ 0x0A ∷ []) ∷ []

abbrev pub rsvd_pieces : List Piece
rsvd_pieces = literal (b'(' ∷ b'r' ∷ b's' ∷ b'v' ∷ b'd' ∷ b')' ∷ 0x0A ∷ []) ∷ []

abbrev pub detected_pieces : List Piece
detected_pieces =
    field (record { left = false; zeroes = false; wide = []; conversion = decimal })
    ∷ literal (
        b'k' ∷ b'b' ∷ b' ' ∷ b'm' ∷ b'e' ∷ b'm' ∷ b'o' ∷ b'r' ∷ b'y' ∷ b' ' ∷ b'd' ∷ b'e' ∷ b't'
        ∷ b'e' ∷ b'c' ∷ b't' ∷ b'e' ∷ b'd' ∷ b' ' ∷ [])
    ∷ []

abbrev pub usage_pieces : List Piece
usage_pieces =
    literal (b'(' ∷ [])
    ∷ field (record { left = false; zeroes = false; wide = []; conversion = decimal })
    ∷ literal (b'k' ∷ b'b' ∷ b' ' ∷ b'u' ∷ b's' ∷ b'e' ∷ b'd' ∷ b'/' ∷ [])
    ∷ field (record { left = false; zeroes = false; wide = []; conversion = decimal })
    ∷ literal (b'k' ∷ b'b' ∷ b' ' ∷ b'f' ∷ b'r' ∷ b'e' ∷ b'e' ∷ b')' ∷ 0x0A ∷ [])
    ∷ []

abbrev pub virtual_pieces : List Piece
virtual_pieces =
    literal (
      b'v' ∷ b'i' ∷ b'r' ∷ b't' ∷ b'u' ∷ b'a' ∷ b'l' ∷ b' ' ∷ b'k' ∷ b'e' ∷ b'r' ∷ b'n' ∷ b'e'
      ∷ b'l' ∷ b' ' ∷ b'm' ∷ b'e' ∷ b'm' ∷ b'o' ∷ b'r' ∷ b'y' ∷ b' ' ∷ b'm' ∷ b'a' ∷ b'p' ∷ b':'
      ∷ 0x0A ∷ [])
    ∷ []

abbrev pub text_pieces : List Piece
text_pieces =
    literal (b' ' ∷ b' ' ∷ b'.' ∷ b't' ∷ b'e' ∷ b'x' ∷ b't' ∷ b' ' ∷ b':' ∷ b' ' ∷ b'0' ∷ b'x' ∷ [])
    ∷ field (record { left = false; zeroes = false; wide = []; conversion = upper_hex })
    ∷ literal (b' ' ∷ b'-' ∷ b' ' ∷ b'0' ∷ b'x' ∷ [])
    ∷ field (record { left = false; zeroes = false; wide = []; conversion = upper_hex })
    ∷ literal (0x0A ∷ [])
    ∷ []

abbrev pub list_pieces : List Piece
list_pieces =
    literal (
      b'[' ∷ b'd' ∷ b'b' ∷ b'g' ∷ b']' ∷ b' ' ∷ b'f' ∷ b'r' ∷ b'e' ∷ b'e' ∷ b'P' ∷ b'a' ∷ b'g'
      ∷ b'e' ∷ b'L' ∷ b'i' ∷ b's' ∷ b't' ∷ b' ' ∷ b':' ∷ b' ' ∷ b'0' ∷ b'x' ∷ [])
    ∷ field (record { left = false; zeroes = true; wide = b'8' ∷ []; conversion = upper_hex })
    ∷ literal
        (b' ' ∷ b'-' ∷ b' ' ∷ b's' ∷ b'i' ∷ b'z' ∷ b'e' ∷ b' ' ∷ b':' ∷ b' ' ∷ b'0' ∷ b'x' ∷ [])
    ∷ field (record { left = false; zeroes = false; wide = []; conversion = upper_hex })
    ∷ literal (b' ' ∷ b'(' ∷ [])
    ∷ field (record { left = false; zeroes = false; wide = []; conversion = decimal })
    ∷ literal (b')' ∷ 0x0A ∷ [])
    ∷ []

abbrev pub start_pieces : List Piece
start_pieces =
    literal (
      b'p' ∷ b'h' ∷ b'y' ∷ b's' ∷ b'i' ∷ b'c' ∷ b'a' ∷ b'l' ∷ b' ' ∷ b'f' ∷ b'r' ∷ b'e' ∷ b'e'
      ∷ b' ' ∷ b'm' ∷ b'e' ∷ b'm' ∷ b'o' ∷ b'r' ∷ b'y' ∷ b' ' ∷ b's' ∷ b't' ∷ b'a' ∷ b'r' ∷ b't'
      ∷ b' ' ∷ b':' ∷ b' ' ∷ b'0' ∷ b'x' ∷ [])
    ∷ field (record { left = false; zeroes = true; wide = b'8' ∷ []; conversion = upper_hex })
    ∷ literal (0x0A ∷ [])
    ∷ []

abbrev pub done_pieces : List Piece
done_pieces =
    literal (
      b'm' ∷ b'e' ∷ b'm' ∷ b'o' ∷ b'r' ∷ b'y' ∷ b' ' ∷ b'm' ∷ b'a' ∷ b'n' ∷ b'a' ∷ b'g' ∷ b'e'
      ∷ b'r' ∷ b' ' ∷ b'i' ∷ b'n' ∷ b'i' ∷ b't' ∷ b'i' ∷ b'a' ∷ b'l' ∷ b'i' ∷ b'z' ∷ b'e' ∷ b'd'
      ∷ b'!' ∷ 0x0A ∷ [])
    ∷ []

-- A region below 4 GB ends at 0xFFFFFFFF in the report, wherever it ends.
abbrev pub region_list : E820MemoryMap → List (List Piece × List ℕ)
region_list e =
    (range_pieces, e.base ∷ 0xFFFFFFFF ∷ 0 ∷ [])
    ∷ ((if e.kind == mem_e820_address_memory then avail_pieces else rsvd_pieces), [])
    ∷ []

abbrev pub memory_list : Vm → List (List Piece × List ℕ)
memory_list m =
    (detected_pieces, m.frames.total_memory / 2 ^ 10 ∷ [])
    ∷ (usage_pieces, m.frames.used_memory / 2 ^ 10 ∷ m.frames.free_memory / 2 ^ 10 ∷ [])
    ∷ (virtual_pieces, [])
    ∷ (text_pieces, kernel_virt_addr ∷ m.kernel_end ∷ [])
    ∷ (list_pieces, virt2phys m.kernel_end ∷ m.free_list_size ∷ m.free_list_size ∷ [])
    ∷ (start_pieces, m.p_free_start ∷ [])
    ∷ (done_pieces, [])
    ∷ []

-- The numbers that are printed are machine words.
pub record IsReported (m : Vm) : Type 0 where
  pub total : m.frames.total_memory < 2 ^ 32
  pub used : m.frames.used_memory < 2 ^ 32
  pub free : m.frames.free_memory < 2 ^ 32
  pub kernel_end : m.kernel_end < 2 ^ 32
  pub size : m.free_list_size < 2 ^ 32
  pub start : m.p_free_start < 2 ^ 32

memory_list-AreCalls : (m : Vm) → IsReported m → AreCalls (memory_list m)
unfolding are_pieces virt2phys
memory_list-AreCalls m small = (
  ArePieces-are_pieces detected_pieces refl,
  (
    (omega (arith, small.total), tt),
    (
      ArePieces-are_pieces usage_pieces refl,
      (
        (omega (arith, small.used), (omega (arith, small.free), tt)),
        (
          ArePieces-are_pieces virtual_pieces refl,
          (
            tt,
            (
              ArePieces-are_pieces text_pieces refl,
              (
                (omega arith, (small.kernel_end, tt)),
                (
                  ArePieces-are_pieces list_pieces refl,
                  (
                    (omega arith, (small.size, (small.size, tt))),
                    (
                      ArePieces-are_pieces start_pieces refl,
                      ((small.start, tt), (ArePieces-are_pieces done_pieces refl, (tt, tt))),
                    ),
                  ),
                ),
              ),
            ),
          ),
        ),
      ),
    ),
  ),
)

region_list-AreCalls : (e : E820MemoryMap) → e.base < 2 ^ 32 → AreCalls (region_list e)
unfolding are_pieces
region_list-AreCalls e small = (
  ArePieces-are_pieces range_pieces refl,
  (
    (small, (omega arith, (omega arith, tt))),
    (
      elim (Bool-cases (e.kind == mem_e820_address_memory)) [
        | inl a ↦ rw a (ArePieces-are_pieces avail_pieces refl)
        | inr r ↦ rw r (ArePieces-are_pieces rsvd_pieces refl)
      ],
      (tt, tt),
    ),
  ),
)

module _ (strings : ℕ → List ℕ) where
  -- The text for the `n` regions from `i` on.
  abbrev pub map_text : (ℕ → E820MemoryMap) → ℕ → ℕ → List ℕ
  map_text entries i zero = []
  map_text entries i (suc n) =
      calls_text strings (region_list (entries i)) ++ map_text entries (i + 1) n

  region_calls-eq :
      (e : E820MemoryMap) → e.base + e.length < 2 ^ 32 → region_calls e ≡ calls_of (region_list e)
  unfolding region_calls max64
  region_calls-eq e small =
      let low : e.base % 2 ^ 32 ≡ e.base = omega arith in
      let whole : (e.base + e.length) % 2 ^ 64 ≡ e.base + e.length = omega arith in
      rw (low, whole, ge→ltb 0xFFFFFFFF (e.base + e.length) (omega arith))
        (elim (Bool-cases (e.kind == mem_e820_address_memory)) [
          | inl a ↦ rw a refl
          | inr r ↦ rw r refl
        ])

  print_map-text :
      (n fuel i : ℕ) (entries : ℕ → E820MemoryMap) (d : Display)
      → n < fuel
      → ((j : ℕ) → (entries j).base + (entries j).length < 2 ^ 32)
      → ((j : ℕ) → i ≤ j → j < i + n → (entries j).base ≢ mem_e820_end_map)
      → (entries (i + n)).base ≡ mem_e820_end_map
      → print_map strings fuel entries i d ≡ ok (send_text kprintf_help (map_text entries i n) d)
  unfolding print_map
  print_map-text n zero i entries d enough small going end = absurd (omega arith)
  print_map-text zero (suc fuel) i entries d enough small going end =
      let here : i + 0 ≡ i = omega arith in
      let stop : (entries i).base ≡ mem_e820_end_map =
        sym (ap (λ k. (entries k).base) here) ∙ end in
      rw stop refl
  print_map-text (suc n) (suc fuel) i entries d enough small going end =
      let e = entries i in
      let more : (e.base == mem_e820_end_map) ≡ false =
        ne→== e.base mem_e820_end_map (going i (omega arith) (omega arith)) in
      let shift : i + suc n ≡ i + 1 + n = omega arith in
      let t = calls_text strings (region_list e) in
      rw more (
        ap (λ c. kprintf_all strings c d >>= print_map strings fuel entries (i + 1))
          (region_calls-eq e (small i))
        ∙ ap (λ r. r >>= print_map strings fuel entries (i + 1))
            (kprintf_all-text strings (region_list e) d
              (region_list-AreCalls e (omega (arith, small i))))
        ∙ print_map-text n fuel (i + 1) entries (send_text kprintf_help t d) (omega arith) small
            (λ j lo hi. going j (omega arith) (omega arith))
            (sym (ap (λ k. (entries k).base) shift) ∙ end)
        ∙ ap ok (sym (send_text-append kprintf_help t (map_text entries (i + 1) n) d)))

  -- The whole text.
  abbrev pub report_text : ℕ → (ℕ → E820MemoryMap) → ℕ → Vm → List ℕ
  report_text at entries n m =
      calls_text strings ((map_pieces, at ∷ []) ∷ [])
      ++ (map_text entries 0 n ++ calls_text strings (memory_list m))

  -- When the map of the BIOS has `n` regions before the entry that ends it, all below 4 GB, and the
  -- addresses and sizes are machine words, `print_mem_info` comes to its end with more than `n`
  -- rounds, and prints its heading, a line for each region and the lines about the kernel's memory.
  -- The line of a region has its base and its kind, but 0xFFFFFFFF in place of its end.
  pub print_mem_info-prints :
      (fuel at n : ℕ) (entries : ℕ → E820MemoryMap) (m : Vm) (d : Display)
      → n < fuel
      → at < 2 ^ 32
      → ((j : ℕ) → (entries j).base + (entries j).length < 2 ^ 32)
      → ((j : ℕ) → j < n → (entries j).base ≢ mem_e820_end_map)
      → (entries n).base ≡ mem_e820_end_map
      → IsReported m
      → print_mem_info strings fuel at entries m d
        ≡ ok (send_text kprintf_help (report_text at entries n m) d)
  unfolding print_mem_info memory_calls bytes2kb are_pieces
  print_mem_info-prints fuel at n entries m d enough asmall small going end reported =
      let first : 0 + n ≡ n = omega arith in
      let t1 = calls_text strings ((map_pieces, at ∷ []) ∷ []) in
      let t2 = map_text entries 0 n in
      let t3 = calls_text strings (memory_list m) in
      let d1 = send_text kprintf_help t1 d in
      ap
        (λ r.
          r
          >>= (λ d'. print_map strings fuel entries 0 d' >>= kprintf_all strings (memory_calls m)))
        (kprintf_all-text strings ((map_pieces, at ∷ []) ∷ []) d
          (ArePieces-are_pieces map_pieces refl, ((asmall, tt), tt)))
      ∙ ap (λ r. r >>= kprintf_all strings (memory_calls m))
          (print_map-text n fuel 0 entries d1 enough small (λ j lo hi. going j (omega arith))
            (ap (λ k. (entries k).base) first ∙ end))
      ∙ kprintf_all-text strings (memory_list m) (send_text kprintf_help t2 d1)
          (memory_list-AreCalls m reported)
      ∙ ap ok (
          sym (
            send_text-append kprintf_help t1 (t2 ++ t3) d ∙ send_text-append kprintf_help t2 t3 d1))
