-- ===== src/Idt/Exception/Tests.antt =====
-- A division by zero.
use ktux.Base.{◌≡◌, refl, true, false, ◌||◌, [], arith}
use ktux.Base.Run.{ok}
use ktux.Video.Consoles.{Display}
use ktux.Stdio.Rendered.{send_text}
use ktux.Stdio.Printers.{kprintf_help}
use ktux.Idt.Exception.{Regs, exception_handler}
use ktux.Idt.Exception.Texts.{panics, panic_of}
use ktux.Idt.Exception.Spelled.{AreWords}
use ktux.Idt.Exception.Reported.{report, exception_handler-reports}

abbrev regs : Regs
regs = record {
  ds = 0x10;
  es = 0x10;
  fs = 0x10;
  gs = 0x10;
  edi = 0;
  esi = 0;
  ebp = 0x8000;
  esp = 0x7F00;
  ebx = 0;
  edx = 0;
  ecx = 0;
  eax = 1;
  interrupt_num = 0;
  eip = 0x100234;
  cs = 8;
  eflags = 0x202;
}

regs-AreWords : AreWords regs
regs-AreWords = (
  omega arith,
  (
    omega arith,
    (
      omega arith,
      (
        omega arith,
        (
          omega arith,
          (
            omega arith,
            (
              omega arith,
              (
                omega arith,
                (
                  omega arith,
                  (
                    omega arith,
                    (
                      omega arith,
                      (omega arith, (omega arith, (omega arith, (omega arith, (omega arith, tt))))),
                    ),
                  ),
                ),
              ),
            ),
          ),
        ),
      ),
    ),
  ),
)

abbrev vga : Display
vga = record {
  width = 80;
  height = 25;
  crtc_io_adr = 0x3D4;
  vc = λ k. record {
    esc = 0;
    attrib = 7;
    csr_x = 0;
    csr_y = 0;
    esc1 = 0;
    esc2 = 0;
    esc3 = 0;
    fb_adr = 0;
  };
  num_vcs = 1;
  curr_vc = 0;
  cells = λ _. 0x720;
  ports = [];
}

-- Interrupts stay off; an invalid opcode, which is to halt, would take them again.
exception_handler-reports_example :
    exception_handler (λ _. []) (λ _. 0) regs (false, vga)
    ≡ ok ((panic_of 0).0 || false, send_text kprintf_help (report (λ _. []) (λ _. 0) regs) vga)
exception_handler-reports_example =
    exception_handler-reports (λ _. []) (λ _. 0) regs false vga regs-AreWords (omega arith)
      (λ a. omega arith)

invalid_opcode_halts : (panic_of 6).0 ≡ true
unfolding panic_of panics
invalid_opcode_halts = refl
