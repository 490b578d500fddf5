-- ===== src/Process/Report/Tests.antt =====
-- The report of one thread.
use ktux.Base.{ℕ, ◌≡◌, List, [], ◌∷◌, arith}
use ktux.Base.Int.{pos}
use ktux.Base.Run.{ok}
use ktux.Video.Consoles.{Display}
use ktux.Stdio.Rendered.{send_text}
use ktux.Stdio.Printers.{kprintf_help}
use ktux.Process.{Thread, running}
use ktux.Process.Report.{ps}
use ktux.Process.Report.Lines.{report, ps-prints}

abbrev idle_name : List ℕ
idle_name = b'i' ∷ b'd' ∷ b'l' ∷ b'e' ∷ []

abbrev idle_thread : Thread
idle_thread = record {
  name = idle_name;
  id = 1;
  priority = pos 0;
  status = running;
  priv = 0;
  esp0 = 0x2000;
  esp0base = 0x1E00;
  cr3 = 0;
  time = 12;
  quantum = 64;
}

abbrev one_console : Display
one_console = record {
  width = 80;
  height = 25;
  crtc_io_adr = 0x3D4;
  vc = λ k. record {
    esc = 0;
    attrib = 7;
    csr_x = 0;
    csr_y = 0;
    esc1 = 0;
    esc2 = 0;
    esc3 = 0;
    fb_adr = 0;
  };
  num_vcs = 1;
  curr_vc = 0;
  cells = λ _. 0x720;
  ports = [];
}

ps-prints_example :
    ps (λ _. idle_name) (λ _. idle_thread) (0x9000 ∷ []) one_console
    ≡ ok (
        send_text kprintf_help
          (0x0A ∷ report (λ _. idle_name) (λ _. idle_thread) (0x9000 ∷ []))
          one_console)
ps-prints_example =
    ps-prints (λ _. idle_name) (λ _. idle_thread) (0x9000 ∷ []) one_console (omega arith, tt)
      (λ _. record { id = omega arith; esp0 = omega arith; time = omega arith })
