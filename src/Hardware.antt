-- ===== src/Hardware.antt =====
-- src/kernel/hardware.c and src/include/hardware.h: the report of the processor.
--
-- `cpu` is the address of the packed structure `cpuInfo`, in which the two strings stand.
use ktux.Base.{ℕ, List, [], ◌∷◌, add32}
use ktux.Base.Run.{Run}
use ktux.Stdio.Calls.{kprintf_all}
use ktux.Video.Consoles.{Display}

abbrev pub cpu_format : List ℕ
cpu_format = b'c' ∷ b'p' ∷ b'u' ∷ b' ' ∷ b'i' ∷ b'n' ∷ b'f' ∷ b'o' ∷ b':' ∷ 0x0A ∷ []

abbrev pub vendor_format : List ℕ
vendor_format =
    b'v' ∷ b'e' ∷ b'n' ∷ b'd' ∷ b'o' ∷ b'r' ∷ b' ' ∷ b'i' ∷ b'd' ∷ b':' ∷ b' ' ∷ b'%' ∷ b's' ∷ 0x0A
    ∷ []

abbrev pub model_format : List ℕ
model_format =
    b'm' ∷ b'o' ∷ b'd' ∷ b'e' ∷ b'l' ∷ b' ' ∷ b'n' ∷ b'a' ∷ b'm' ∷ b'e' ∷ b':' ∷ b' ' ∷ b'%' ∷ b's'
    ∷ 0x0A ∷ []

abbrev pub freq_format : List ℕ
freq_format = b'f' ∷ b'r' ∷ b'e' ∷ b'q' ∷ b':' ∷ b' ' ∷ b'%' ∷ b'u' ∷ 0x0A ∷ []

-- The places of `vendorString` and `extName`.
abbrev pub vendor_string : ℕ
vendor_string = 6

abbrev pub ext_name : ℕ
ext_name = 55

unfoldable pub display_cpu_info : (ℕ → List ℕ) → ℕ → ℕ → Display → Run Display
display_cpu_info strings cpu freq d =
    kprintf_all strings
      ((cpu_format, [])
        ∷ (vendor_format, add32 cpu vendor_string ∷ [])
        ∷ (model_format, add32 cpu ext_name ∷ [])
        ∷ (freq_format, freq ∷ [])
        ∷ [])
      d
