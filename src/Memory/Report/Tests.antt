-- ===== src/Memory/Report/Tests.antt =====
-- The report of a machine with one region of memory and one reserved region.
use ktux.Base.{ℕ, ◌+◌, ◌^◌, ◌<◌, ◌≡◌, ◌≢◌, refl, [], ◌==◌, if◌then◌else◌, arith}
use ktux.Base.Run.{ok}
use ktux.Memory.Paging.Tests.{vm}
use ktux.Memory.Report.{E820MemoryMap, mem_e820_end_map, print_mem_info}
use ktux.Memory.Report.Printed.{report_text, print_mem_info-prints}
use ktux.Stdio.Printers.{kprintf_help}
use ktux.Stdio.Rendered.{send_text}
use ktux.Video.Consoles.{Display}

abbrev entries : ℕ → E820MemoryMap
entries i = record {
  base = if i == 0 then 0 else if i == 1 then 0xF0000 else mem_e820_end_map;
  length = if i == 0 then 0x9FC00 else 0x10000;
  kind = if i == 0 then 1 else 2;
}

entries-small : (i : ℕ) → (entries i).base + (entries i).length < 2 ^ 32
entries-small i = ground arith

entries-going : (i : ℕ) → i < 2 → (entries i).base ≢ mem_e820_end_map
entries-going i small = ground arith

abbrev pub vga : Display
vga = record {
  width = 80;
  height = 25;
  crtc_io_adr = 0x3D4;
  vc = λ k. record {
    esc = 0;
    attrib = 7;
    csr_x = 0;
    csr_y = 0;
    esc1 = 0;
    esc2 = 0;
    esc3 = 0;
    fb_adr = 0;
  };
  num_vcs = 1;
  curr_vc = 0;
  cells = λ _. 0x720;
  ports = [];
}

print_mem_info-prints_example :
    print_mem_info (λ _. []) 3 0x504 entries vm vga
    ≡ ok (send_text kprintf_help (report_text (λ _. []) 0x504 entries 2 vm) vga)
print_mem_info-prints_example =
    print_mem_info-prints (λ _. []) 3 0x504 2 entries vm vga (omega arith) (omega arith)
      entries-small entries-going refl
      (record {
        total = omega arith;
        used = omega arith;
        free = omega arith;
        kernel_end = omega arith;
        size = omega arith;
        start = omega arith;
      })
