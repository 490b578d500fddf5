-- ===== src/Timer/Tests.antt =====
-- The timer at 18 Hz.
use ktux.Base.{◌≡◌, refl}
use ktux.Base.Run.{ok}
use ktux.Timer.{reload}

-- At 18 Hz, the rate of the BIOS, the count no longer fits: the timer runs at about 1588 Hz.
reload_wraps : reload 18 ≡ ok 751
unfolding reload
reload_wraps = refl
