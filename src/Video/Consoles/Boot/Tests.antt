-- ===== src/Video/Consoles/Boot/Tests.antt =====
-- A display of 80 columns and 25 rows, which has room for eight consoles.
use ktux.Base.{◌≡◌, refl, [], arith}
use ktux.Base.Run.{ok}
use ktux.Video.Consoles.{Display}
use ktux.Video.Consoles.Isolation.{IsLaidOut}
use ktux.Video.Consoles.Boot.{init_console}
use ktux.Video.Consoles.Boot.Loop.{blank}
use ktux.Video.Consoles.Boot.Ready.{console_count, init_console-IsLaidOut}

abbrev before_boot : Display
before_boot = record {
  width = 0;
  height = 0;
  crtc_io_adr = 0;
  vc = λ _. blank;
  num_vcs = 0;
  curr_vc = 0;
  cells = λ _. 0x720;
  ports = [];
}

eight_consoles : console_count 80 25 ≡ 8
eight_consoles = refl

init_console-IsLaidOut_example :
    (d' : Display) × (init_console (λ _. []) 1 80 24 before_boot ≡ ok d')
    × (d'.num_vcs ≡ console_count 80 25)
    × IsLaidOut d'
init_console-IsLaidOut_example =
    init_console-IsLaidOut (λ _. []) 1 80 24 before_boot (omega arith) refl (omega arith)
      (λ k. refl)
