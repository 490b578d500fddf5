-- ===== src/Video/Consoles/Shown.antt =====
-- What the video controller is told: the memory that it shows, and the place of the cursor.
use ktux.Base.{ℕ, ◌+◌, ◌*◌, ◌/◌, ◌%◌, ◌^◌, ◌<◌, ◌≡◌, refl, List, ◌∷◌, false, leb, arith}
use ktux.Video.{cell_index}
use ktux.Video.Consoles.{Display, outportb, move_csr, select_vc}

-- The log grows by a pair of bytes, high then low, for the registers `index` and `index + 1` of the
-- video controller at port `adr`, and the pair stands for `value`.
pub record Tells (adr index value : ℕ) (before after : List (ℕ × ℕ)) : Type 0 where
  pub high : ℕ
  pub low : ℕ
  pub bytes : after ≡ (adr + 1, low) ∷ (adr, index + 1) ∷ (adr + 1, high) ∷ (adr, index) ∷ before
  pub stands : high * 2 ^ 8 + low ≡ value

move_csr-Tells :
    (d : Display)
    → cell_index d.width d.height (d.vc d.curr_vc) < 2 ^ 16
    → Tells d.crtc_io_adr 14
        (cell_index d.width d.height (d.vc d.curr_vc))
        d.ports
        (move_csr d).ports
unfolding move_csr outportb cell_index
move_csr-Tells d small = record { high = _; low = _; bytes = refl; stands = omega arith }

-- Selecting a console that exists, whose screen and cursor lie in the first 2 ^ 16 cells, tells the
-- controller to show that console's memory, and then to put the cursor at that console's cell.
select_vc-Tells :
    (which : ℕ) (d : Display)
    → which < d.num_vcs
    → (d.vc which).fb_adr < 2 ^ 16
    → cell_index d.width d.height (d.vc which) < 2 ^ 16
    → ((select_vc which d).curr_vc ≡ which)
      × (mid : List (ℕ × ℕ)) × Tells d.crtc_io_adr 12 (d.vc which).fb_adr d.ports mid
      × Tells d.crtc_io_adr 14
          (cell_index d.width d.height (d.vc which))
          mid
          (select_vc which d).ports
unfolding select_vc outportb move_csr cell_index
select_vc-Tells which d exists fb small =
    let known : leb d.num_vcs which ≡ false = ground arith in
    let adr = d.crtc_io_adr in
    let base = (d.vc which).fb_adr in
    let mid : List (ℕ × ℕ) =
      (adr + 1, base % 2 ^ 8) ∷ (adr, 13) ∷ (adr + 1, base / 2 ^ 8 % 2 ^ 8) ∷ (adr, 12) ∷ d.ports in
    let start : Tells adr 12 base d.ports mid = record {
      high = _;
      low = _;
      bytes = refl;
      stands = omega arith;
    } in
    rw known (refl, mid, start, move_csr-Tells (record d { curr_vc = which; ports = mid }) small)
