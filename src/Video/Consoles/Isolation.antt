-- ===== src/Video/Consoles/Isolation.antt =====
-- The consoles do not disturb each other.
use ktux.Base.{
  ℕ, suc, ◌+◌, ◌*◌, ◌%◌, ◌^◌, ◌≤◌, ◌<◌, ◌≡◌, ◌≢◌, refl, ap, ◌∙◌, ◌==◌, ◌⊎◌, write, write-ne,
  write_self, if_both, arith,
}
use native.Mathlib.Decide.{ℕ_discrete}
use ktux.Video.{Screen, putch_help}
use ktux.Video.Step.{mul_le}
use ktux.Video.Place.{IsPlaced, putch_help-IsPlaced}
use ktux.Video.Outside.{putch_help-outside}
use ktux.Video.Kept.{putch_help-fb_adr}
use ktux.Video.Consoles.{Display, outportb, move_csr, putch_to}

-- The consoles have their screens one behind the other, and their cursors on them; the screen has
-- columns of tabs, and its size is that of some display.
pub record IsLaidOut (d : Display) : Type 0 where
  pub columns : 0 < d.width
  pub rows : 0 < d.height
  pub tabs : d.width % 8 ≡ 0
  pub narrow : d.width < 2 ^ 15
  pub low : d.height < 2 ^ 31
  pub fits : d.height * d.width < 2 ^ 32
  pub screens : (k : ℕ) → k < d.num_vcs → (d.vc k).fb_adr ≡ k * (d.height * d.width)
  pub cursors : (k : ℕ) → k < d.num_vcs → IsPlaced d.width d.height (d.vc k)

-- What `move_csr` leaves alone: all but the log.
abbrev pub OnlyTells : Display → Display → Type 0
OnlyTells d d' =
    (d'.width ≡ d.width)
    × (d'.height ≡ d.height)
    × (d'.vc ≡ d.vc)
    × (d'.num_vcs ≡ d.num_vcs)
    × (d'.cells ≡ d.cells)

-- The screens of different consoles lie apart.
screens_apart :
    (size j k x : ℕ)
    → j ≢ k
    → x < size
    → (j * size + x < k * size) ⊎ (k * size + size ≤ j * size + x)
screens_apart size j k x ne h = elim (ℕ_discrete j k) [
  | yes e ↦ absurd (ne e)
  | no _ ↦ grind (arith, mul_le (suc j) k size, mul_le (suc k) j size)
]

-- A character sent to console `k` does what `putch_help` does to that console and its screen.
module _ (k c : ℕ) (d : Display) where
  abbrev pub after : Screen
  after = (putch_help d.width d.height (record { con = d.vc k; cells = d.cells }) c).0

  pub putch_to-kept :
      OnlyTells (record d { vc = write d.vc k (after.con); cells = after.cells }) (putch_to k c d)
  unfolding putch_to move_csr outportb
  putch_to-kept =
      let Kept : Display → Type 0 =
        OnlyTells (record d { vc = write d.vc k (after.con); cells = after.cells }) in
      let finished = (putch_help d.width d.height (record { con = d.vc k; cells = d.cells }) c).1 in
      if_both Kept finished
        (if_both Kept (d.curr_vc == k) (refl, refl, refl, refl, refl)
          (refl, refl, refl, refl, refl))
        (refl, refl, refl, refl, refl)

module _ (k c : ℕ) (d : Display) (laid : IsLaidOut d) (known : k < d.num_vcs) where
  -- On a screen whose width is a multiple of 8 and below 2 ^ 15, with fewer than 2 ^ 31 rows and
  -- fewer than 2 ^ 32 cells, a character sent to one of several consoles whose screens lie one
  -- behind the other, with their cursors on them, leaves every other console, its cursor and each
  -- cell of its screen as they were.
  pub putch_to-Isolated :
      (j x : ℕ)
      → j < d.num_vcs
      → j ≢ k
      → x < d.height * d.width
      → ((putch_to k c d).vc j ≡ d.vc j)
        × ((putch_to k c d).cells ((d.vc j).fb_adr + x) ≡ d.cells ((d.vc j).fb_adr + x))
  putch_to-Isolated j x other ne inside =
      let size = d.height * d.width in
      let apart = screens_apart size j k x ne inside in
      let at = laid.screens j other in
      let at' = laid.screens k known in
      let s : Screen = record { con = d.vc k; cells = d.cells } in
      let same =
        putch_help-outside d.width d.height laid.fits (j * size + x) s c (laid.cursors k known)
          laid.columns laid.rows laid.low laid.narrow laid.tabs (rw at' apart) in
      let (_, _, vc, _, cells) = putch_to-kept k c d in
      (
        ap (λ f. f j) vc ∙ write-ne d.vc k j ((after k c d).con) ne,
        ap (λ f. f ((d.vc j).fb_adr + x)) cells ∙ rw at same,
      )

  -- Consoles that are laid out one behind the other, each with its cursor on its screen, are so
  -- again after any character sent to any of them, on a screen whose width is a multiple of 8 and
  -- whose size fits a machine word.
  pub putch_to-IsLaidOut : IsLaidOut (putch_to k c d)
  putch_to-IsLaidOut =
      let s : Screen = record { con = d.vc k; cells = d.cells } in
      let placed =
        putch_help-IsPlaced d.width d.height s c laid.columns laid.rows laid.low
          (laid.cursors k known) in
      let fb = putch_help-fb_adr d.width d.height s c in
      let (w, h, vc, n, cells) = putch_to-kept k c d in
      let new = (after k c d).con in
      let each : (j : ℕ)
          → j < d.num_vcs
          → ((write d.vc k new j).fb_adr ≡ j * (d.height * d.width))
            × IsPlaced d.width d.height (write d.vc k new j) =
        λ j hj. elim (ℕ_discrete j k) [
          | yes e ↦ rw (e, write_self d.vc k new) (fb ∙ laid.screens k known, placed)
          | no ne ↦ rw (write-ne d.vc k j new ne) (laid.screens j hj, laid.cursors j hj)
        ] in
      record {
        columns = rw w laid.columns;
        rows = rw h laid.rows;
        tabs = rw w laid.tabs;
        narrow = rw w laid.narrow;
        low = rw h laid.low;
        fits = rw (w, h) laid.fits;
        screens = λ j hj. rw (w, h, vc) (each j (omega (arith, n, hj))).0;
        cursors = λ j hj. rw (w, h, vc) (each j (omega (arith, n, hj))).1;
      }
