-- ===== src/Memory/Address.antt =====
-- src/include/memory.h: the constants, and the macros on addresses and page-table entries. A word
-- is below 2 ^ 32.
pub mod Fields
use ktux.Base.{ℕ, ◌+◌, ◌-◌, ◌*◌, ◌/◌, ◌%◌, ◌^◌, bit_and, bit_or, add32, sub32, mul32, u32_mod}

abbrev pub kernel_phys_addr : ℕ
kernel_phys_addr = 0x00100000

abbrev pub kernel_stack_size : ℕ
kernel_stack_size = 0x00001000

abbrev pub p_kernel_stack_addr : ℕ
p_kernel_stack_addr = 0x00003000

abbrev pub p_kernel_page_directory : ℕ
p_kernel_page_directory = 0x00004000

abbrev pub p_page_table_first_4mb : ℕ
p_page_table_first_4mb = 0x00005000

abbrev pub p_page_table_kernel_1 : ℕ
p_page_table_kernel_1 = 0x00006000

abbrev pub p_page_table_heap_1 : ℕ
p_page_table_heap_1 = 0x00007000

abbrev pub p_start_free_ram : ℕ
p_start_free_ram = 0x00009000

abbrev pub kernel_virt_addr : ℕ
kernel_virt_addr = 0xC0000000

abbrev pub v_kernel_heap_addr : ℕ
v_kernel_heap_addr = 0xD0000000

abbrev pub v_kernel_driver_heap : ℕ
v_kernel_driver_heap = 0xE0000000

abbrev pub v_kernel_page_table_1 : ℕ
v_kernel_page_table_1 = 0xF0000000

abbrev pub page_size : ℕ
page_size = 4096

abbrev pub pde_addr_mask : ℕ
pde_addr_mask = 0xFFFFF000

abbrev pub flag_present : ℕ
flag_present = 0x001

abbrev pub flag_rw : ℕ
flag_rw = 0x002

-- PDE_FLAG_PRESENT | PDE_FLAG_RW | PDE_FLAG_KERNEL, the flags of every mapping of the kernel.
abbrev pub kernel_flags : ℕ
kernel_flags = 0x003

-- `virt2Phys` and `phys2Virt`.
unfoldable pub virt2phys : ℕ → ℕ
virt2phys addr = add32 (sub32 addr kernel_virt_addr) kernel_phys_addr

unfoldable pub phys2virt : ℕ → ℕ
phys2virt addr = sub32 (add32 addr kernel_virt_addr) kernel_phys_addr

-- `virt2Dir`: `addr >> 22`.
unfoldable pub virt2dir : ℕ → ℕ
virt2dir addr = addr / 2 ^ 22

-- `virt2Page`: `(addr >> 12) & 0x3FF`.
unfoldable pub virt2page : ℕ → ℕ
virt2page addr = bit_and (addr / 2 ^ 12) 0x3FF

-- `virt2Map`: `(addr >> 22 << 12) + 0xF0000000`.
unfoldable pub virt2map : ℕ → ℕ
virt2map addr = add32 (mul32 (addr / 2 ^ 22) (2 ^ 12)) v_kernel_page_table_1

-- `makePDEphys` and `makePTEphys`, which are one macro: `~0xFFFFF000` is `0xFFF`.
unfoldable pub make_entry : ℕ → ℕ → ℕ
make_entry phys flags = bit_or (bit_and phys pde_addr_mask) (bit_and flags 0xFFF)
