-- ===== src/Video/Consoles/Boot/Ready.antt =====
-- After `init_console` the consoles are laid out.
use ktux.Base.{
  ℕ, ◌+◌, ◌*◌, ◌/◌, ◌%◌, ◌≤◌, ◌<◌, ◌≡◌, refl, ap, sym, subst, ◌∙◌, List, ltb, leb, ◌==◌, ne→==,
  if◌then◌else◌, if_both, bit_and, arith,
}
use ktux.Base.Run.{ok, ◌>>=◌}
use ktux.Video.Step.{mul_le}
use ktux.Video.Consoles.{Display, outportb, move_csr, select_vc}
use ktux.Video.Consoles.Isolation.{IsLaidOut}
use ktux.Video.Consoles.Boot.{max_vc, init_console}
use ktux.Video.Consoles.Boot.Loop.{blank, first, IsSetUp, init_vcs-IsSetUp, area_one}

-- Choosing the console shown keeps the layout.
select_vc-IsLaidOut : (which : ℕ) (d : Display) → IsLaidOut d → IsLaidOut (select_vc which d)
unfolding select_vc move_csr outportb
select_vc-IsLaidOut which d laid = if_both IsLaidOut (leb d.num_vcs which) laid (record {
  columns = laid.columns;
  rows = laid.rows;
  tabs = laid.tabs;
  narrow = laid.narrow;
  low = laid.low;
  fits = laid.fits;
  screens = laid.screens;
  cursors = laid.cursors;
})

select_vc-num_vcs : (which : ℕ) (d : Display) → (select_vc which d).num_vcs ≡ d.num_vcs
unfolding select_vc move_csr outportb
select_vc-num_vcs which d =
    if_both (λ (d' : Display). d'.num_vcs ≡ d.num_vcs) (leb d.num_vcs which) refl refl

-- As many consoles as fit the display's memory, and at most 12.
abbrev pub console_count : ℕ → ℕ → ℕ
console_count width height =
    let many = 32768 / (width * height * 2) in if ltb max_vc many then max_vc else many

-- The two sides of a screen that fits.
sides :
    (w h : ℕ) → 0 < w → 0 < h → w * h * 2 ≤ 32768 → (w ≤ 16384) × ((h ≤ 16384) × (h * w ≤ 16384))
sides w h some some' fits =
    let across : 1 * w ≤ h * w = mul_le 1 h w some' in
    let down : 1 * h ≤ w * h = mul_le 1 w h some in
    let same : h * w ≡ w * h = area_one w h in (omega arith, (omega arith, omega arith))

-- On a screen whose columns are a multiple of 8 and of which at least one fits the 32768 bytes of
-- display memory, with consoles that are blank before, `init_console` does not fault: there are as many
-- consoles as fit, and at most 12, and they lie one behind the other, with their cursors on their
-- screens.
pub init_console-IsLaidOut :
    (strings : ℕ → List ℕ) (misc columns last_row : ℕ) (d : Display)
    → 0 < columns
    → columns % 8 ≡ 0
    → columns * (last_row + 1) * 2 ≤ 32768
    → ((k : ℕ) → d.vc k ≡ blank)
    → (d' : Display) × (init_console strings misc columns last_row d ≡ ok d')
      × (d'.num_vcs ≡ console_count columns (last_row + 1))
      × IsLaidOut d'
unfolding init_console
init_console-IsLaidOut strings misc columns last_row d some tabs fits blanks =
    let rows = last_row + 1 in
    let num = console_count columns rows in
    let (wide, (tall, area_fits)) = sides columns rows some (omega arith) fits in
    let few : num ≤ 12 = ground arith in
    let sized : Display = record d {
      crtc_io_adr = if bit_and misc 0x01 == 0 then 0x3B4 else 0x3D4;
      width = columns;
      height = rows;
      num_vcs = num;
    } in
    let start : IsSetUp 0 columns rows num sized = record {
      laid = record {
        columns = some;
        rows = omega arith;
        tabs = tabs;
        narrow = omega (arith, wide);
        low = omega (arith, tall);
        fits = omega (arith, area_fits);
        screens = λ k h. absurd (omega arith);
        cursors = λ k h. absurd (omega arith);
      };
      wide = refl;
      high = refl;
      all = refl;
      blanks = λ j _. blanks j;
    } in
    let (d', run, p) =
      init_vcs-IsSetUp strings columns rows num max_vc 0 sized (omega (arith, few)) (omega arith)
        (omega (arith, few)) start in
    let laid : IsLaidOut d' = subst (λ n. IsLaidOut (first n d')) (sym p.all) p.laid in
    (
      select_vc 0 d',
      rw (ne→== columns 0 (omega arith)) (ap (λ r. r >>= λ d'. ok (select_vc 0 d')) run),
      select_vc-num_vcs 0 d' ∙ p.all,
      select_vc-IsLaidOut 0 d' laid,
    )
