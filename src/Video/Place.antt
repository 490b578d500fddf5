-- ===== src/Video/Place.antt =====
-- The cursor stays on the screen, and the automaton in its states.
use ktux.Base.{
  ℕ, zero, suc, ◌+◌, ◌^◌, ◌≤◌, ◌<◌, ◌≡◌, refl, ◌⊎◌, inl, inr, ◌==◌, sub32, Bool, Bool-cases,
  if_both, arith,
}
use ktux.Video.{
  Console, Screen, put_cell, end_of_tab, put_plain, tab_loop, set_attrib, wrap, scroll, put_char,
  put_esc2, put_esc3, put_esc4, putch_help,
}

-- The cursor is on the screen, and `esc` is a state of the automaton.
pub record IsPlaced (width height : ℕ) (con : Console) : Type 0 where
  pub column : con.csr_x < width
  pub row : con.csr_y < height
  pub state : con.esc ≤ 4

-- The lines that a character can move the cursor: none, or one, to its start.
abbrev pub StaysOrFeeds : Console → Console → Type 0
StaysOrFeeds con con' =
    (con'.fb_adr ≡ con.fb_adr)
    × (con'.esc ≡ con.esc)
    × ((con'.csr_y ≡ con.csr_y) ⊎ ((con'.csr_x ≡ 0) × (con'.csr_y ≡ con.csr_y + 1)))

module _ (width height : ℕ) where
  pub tab_loop-line :
      (rounds : ℕ) (s : Screen)
      → ((tab_loop width height rounds s).con.fb_adr ≡ s.con.fb_adr)
        × ((tab_loop width height rounds s).con.esc ≡ s.con.esc)
        × ((tab_loop width height rounds s).con.csr_y ≡ s.con.csr_y)
  unfolding tab_loop
  tab_loop-line zero s = (refl, refl, refl)
  tab_loop-line (suc rounds) s = tab_loop-line rounds _

  pub put_plain-line :
      (c : ℕ) (s : Screen)
      → s.con.csr_y + 1 < 2 ^ 32
      → StaysOrFeeds s.con (put_plain width height c s).con
  unfolding put_plain put_cell
  put_plain-line c s small =
      let t = tab_loop-line (sub32 (end_of_tab width height s.con.csr_x) s.con.csr_x) s in
      ground arith

  -- The end of the line and of the screen, behind one character.
  scroll-wrap-IsPlaced :
      (before : Console) (s : Screen)
      → 0 < width
      → 0 < height
      → height < 2 ^ 31
      → before.csr_y < height
      → before.esc ≤ 4
      → StaysOrFeeds before s.con
      → IsPlaced width height (scroll width height (wrap width height s)).con
  unfolding wrap scroll
  scroll-wrap-IsPlaced before s w h small y e line = record {
    column = ground arith;
    row = ground arith;
    state = ground arith;
  }

  put_char-IsPlaced :
      (c : ℕ) (s : Screen)
      → 0 < width
      → 0 < height
      → height < 2 ^ 31
      → IsPlaced width height s.con
      → IsPlaced width height (put_char width height c s).0.con
  unfolding put_char
  put_char-IsPlaced c s w h small p =
      let s' = record s { con = record (s.con) { esc = 0 } } in
      let line = put_plain-line c s' (omega (arith, p.row)) in
      let printed =
        scroll-wrap-IsPlaced (s'.con) (put_plain width height c s') w h small p.row (omega arith)
          line in
      elim (Bool-cases (c == 0x1B)) [
        | inl e ↦ rw e (record { column = p.column; row = p.row; state = omega arith })
        | inr e ↦ rw e printed
      ]

  put_esc2-IsPlaced :
      (c : ℕ) (s : Screen)
      → 0 < width
      → 0 < height
      → IsPlaced width height s.con
      → IsPlaced width height (put_esc2 width height c s).con
  unfolding put_esc2 set_attrib
  put_esc2-IsPlaced c s w h p =
      let x = p.column in
      let y = p.row in
      let e = p.state in record { column = ground arith; row = ground arith; state = ground arith }

  put_esc3-IsPlaced :
      (c : ℕ) (s : Screen)
      → IsPlaced width height s.con
      → IsPlaced width height (put_esc3 width height c s).con
  unfolding put_esc3 set_attrib
  put_esc3-IsPlaced c s p =
      let x = p.column in
      let y = p.row in
      let e = p.state in record { column = ground arith; row = ground arith; state = ground arith }

  put_esc4-IsPlaced :
      (c : ℕ) (s : Screen)
      → IsPlaced width height s.con
      → IsPlaced width height (put_esc4 width height c s).con
  unfolding put_esc4 set_attrib
  put_esc4-IsPlaced c s p =
      let x = p.column in
      let y = p.row in
      let e = p.state in record { column = ground arith; row = ground arith; state = ground arith }

  -- On a screen of at least one cell and fewer than 2 ^ 31 rows, every character, inside an escape
  -- sequence or not, leaves the cursor on the screen and the automaton in one of its five states.
  pub putch_help-IsPlaced :
      (s : Screen) (c : ℕ)
      → 0 < width
      → 0 < height
      → height < 2 ^ 31
      → IsPlaced width height s.con
      → IsPlaced width height (putch_help width height s c).0.con
  unfolding putch_help
  putch_help-IsPlaced s c w h small p =
      let Placed : Screen × Bool → Type 0 = λ r. IsPlaced width height (r.0).con in
      let con = s.con in
      let plain = put_char-IsPlaced c s w h small p in
      let opened : IsPlaced width height (record con { esc = 2; esc1 = 0 }) = record {
        column = p.column;
        row = p.row;
        state = omega arith;
      } in
      if_both Placed (con.esc == 1) (if_both Placed (c == b'[') opened plain) (
        if_both Placed (con.esc == 2) (put_esc2-IsPlaced c s w h p) (
          if_both Placed (con.esc == 3) (put_esc3-IsPlaced c s p)
            (if_both Placed (con.esc == 4) (put_esc4-IsPlaced c s p) plain)))
