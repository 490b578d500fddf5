-- ===== src/Video/Outside.antt =====
-- A character sent to a console changes no memory outside the console's screen.
use ktux.Base.{
  ℕ, zero, suc, ◌+◌, ◌*◌, ◌/◌, ◌%◌, ◌^◌, ◌≤◌, ◌<◌, ◌≡◌, refl, ap, ◌∙◌, ◌⊎◌, inl, inr, false, Bool,
  leb, ◌==◌, if◌then◌else◌, write-ne, if_both, bit_or, add32, sub32, mul32, Bool-cases, arith,
}
use native.Mathlib.Decide.{ℕ_discrete}
use ktux.Base.Bits.{bit_and-high, bit_and-mod}
use ktux.Strings.Blocks.{memsetw-fills}
use ktux.Strings.{memsetw}
use ktux.Video.{
  Console, Screen, att_of, is_digit, cell_index, put_cell, end_of_tab, put_plain, tab_loop, wrap,
  scroll, put_char, put_esc2, put_esc3, put_esc4, putch_help,
}
use ktux.Video.Step.{row_in, scroll-IsScrolled}
use ktux.Video.Place.{IsPlaced, StaysOrFeeds, put_plain-line}

-- A tab stops at the next multiple of 8.
end_of_tab-value :
    (width height x : ℕ) → x + 8 < 2 ^ 16 → end_of_tab width height x ≡ (x / 8 + 1) * 8
unfolding end_of_tab
end_of_tab-value width height x small =
    let q = x / 8 + 1 in
    let parts : add32 x 8 ≡ q * 2 ^ 3 + x % 8 = omega arith in
    let mask = bit_and-high 3 q (x % 8) 0x1FFFFFFF (omega arith) in
    rw (parts, mask, bit_and-mod 29 q) (omega arith)

module _ (width height : ℕ) (fits : height * width < 2 ^ 32) (q : ℕ) where
  abbrev pub IsOutside : Console → Type 0
  IsOutside con = (q < con.fb_adr) ⊎ (con.fb_adr + height * width ≤ q)

  put_cell-outside :
      (value : ℕ) (s : Screen)
      → s.con.csr_y < height
      → s.con.csr_x < width
      → IsOutside s.con
      → (put_cell width height value s).cells q ≡ s.cells q
  unfolding put_cell cell_index
  put_cell-outside value s row column out =
      let inside = row_in s.con.csr_y height width s.con.csr_x row column in
      let at : add32 (mul32 s.con.csr_y width) s.con.csr_x ≡ s.con.csr_y * width + s.con.csr_x =
        omega arith in
      rw at (
        write-ne s.cells (s.con.fb_adr + (s.con.csr_y * width + s.con.csr_x)) q (value % 2 ^ 16)
          (omega arith))

  tab_loop-outside :
      (rounds : ℕ) (s : Screen)
      → s.con.csr_y < height
      → s.con.csr_x + rounds ≤ width
      → width < 2 ^ 16
      → IsOutside s.con
      → (tab_loop width height rounds s).cells q ≡ s.cells q
  unfolding tab_loop put_cell
  tab_loop-outside zero s row columns small out = refl
  tab_loop-outside (suc rounds) s row columns small out =
      let step : add32 s.con.csr_x 1 ≡ s.con.csr_x + 1 = omega arith in
      let blank = bit_or 0x20 (att_of s.con) in
      let next : Screen = record (put_cell width height blank s) {
        con = record (s.con) { csr_x = add32 s.con.csr_x 1 };
      } in
      tab_loop-outside rounds next row (omega arith) small out
      ∙ put_cell-outside blank s row (omega arith) out

  put_plain-outside :
      (c : ℕ) (s : Screen)
      → s.con.csr_y < height
      → s.con.csr_x < width
      → width < 2 ^ 15
      → width % 8 ≡ 0
      → IsOutside s.con
      → (put_plain width height c s).cells q ≡ s.cells q
  unfolding put_plain
  put_plain-outside c s row column small even out =
      let Same : Screen → Type 0 = λ r. r.cells q ≡ s.cells q in
      let con = s.con in
      let x = con.csr_x in
      let stop = end_of_tab-value width height x (omega arith) in
      let rounds : x + sub32 (end_of_tab width height x) x ≤ width = rw stop (omega arith) in
      let backspace : Same (
          if x == 0
          then s
          else put_cell width height (bit_or 0x20 (att_of con))
              (record s { con = record con { csr_x = sub32 x 1 } })) =
        elim (Bool-cases (x == 0)) [
          | inl e ↦ rw e refl
          | inr e ↦ rw e (
              put_cell-outside (bit_or 0x20 (att_of con))
                (record s { con = record con { csr_x = sub32 x 1 } }) row (ground arith) out)
        ] in
      let tab =
        tab_loop-outside (sub32 (end_of_tab width height x) x) s row rounds (omega arith) out in
      let printed = put_cell-outside (bit_or c (att_of con)) s row column out in
      if_both Same (c == 0x08) backspace (
        if_both Same (c == 0x09) tab (
          if_both Same (c == 0x0D) refl
            (if_both Same (c == 0x0A) refl (if_both Same (leb 0x20 c) printed refl))))

  scroll-outside :
      (s : Screen)
      → 0 < width
      → 0 < height
      → height < 2 ^ 31
      → s.con.csr_y ≤ height
      → IsOutside s.con
      → (scroll width height s).cells q ≡ s.cells q
  unfolding scroll
  scroll-outside s w h small row out = elim (ℕ_discrete s.con.csr_y height) [
    | yes e ↦ (scroll-IsScrolled width height s w h small fits e).outside q out
    | no ne ↦ let above : leb height s.con.csr_y ≡ false = ground arith in rw above refl
  ]

  wrap-kept :
      (before : Console) (s : Screen)
      → height < 2 ^ 31
      → before.csr_y < height
      → StaysOrFeeds before s.con
      → 0 < width
      → ((wrap width height s).con.csr_y ≤ height)
        × ((wrap width height s).con.fb_adr ≡ before.fb_adr)
        × ((wrap width height s).cells ≡ s.cells)
  unfolding wrap
  wrap-kept before s small row line w =
      let fb = line.0 in (ground arith, ground arith, ground arith)

  put_char-outside :
      (c : ℕ) (s : Screen)
      → IsPlaced width height s.con
      → 0 < width
      → 0 < height
      → height < 2 ^ 31
      → width < 2 ^ 15
      → width % 8 ≡ 0
      → IsOutside s.con
      → (put_char width height c s).0.cells q ≡ s.cells q
  unfolding put_char
  put_char-outside c s p w h small narrow even out =
      let Same : Screen × Bool → Type 0 = λ r. (r.0).cells q ≡ s.cells q in
      let s' = record s { con = record (s.con) { esc = 0 } } in
      let printed = put_plain width height c s' in
      let line = put_plain-line width height c s' (omega (arith, p.row)) in
      let (row, fb, same) = wrap-kept (s'.con) printed small p.row line w in
      let rolled = scroll-outside (wrap width height printed) w h small row (rw fb out) in
      let plain = put_plain-outside c s' p.row p.column narrow even out in
      if_both Same (c == 0x1B) refl (rolled ∙ ap (λ m. m q) same ∙ plain)

  put_esc2-outside :
      (c : ℕ) (s : Screen) → IsOutside s.con → (put_esc2 width height c s).cells q ≡ s.cells q
  unfolding put_esc2
  put_esc2-outside c s out =
      let Same : Screen → Type 0 = λ r. r.cells q ≡ s.cells q in
      let con = s.con in
      let whole : mul32 height width ≡ height * width = omega arith in
      let cleared : memsetw con.fb_adr (bit_or 0x20 (att_of con)) (mul32 height width) s.cells q
          ≡ s.cells q =
        rw whole ((memsetw-fills con.fb_adr _ (height * width) s.cells q).1 out) in
      if_both Same (is_digit c) refl (
        if_both Same (c == b';') refl (
          if_both Same (c == b'J') (if_both Same (con.esc1 == 2) cleared refl)
            (if_both Same (c == b'm') refl refl)))

  put_esc3-outside : (c : ℕ) (s : Screen) → (put_esc3 width height c s).cells q ≡ s.cells q
  unfolding put_esc3
  put_esc3-outside c s =
      let Same : Screen → Type 0 = λ r. r.cells q ≡ s.cells q in
      if_both Same (is_digit c) refl (
        if_both Same (c == b';') refl
          (if_both Same (c == b'H') refl (if_both Same (c == b'm') refl refl)))

  put_esc4-outside : (c : ℕ) (s : Screen) → (put_esc4 width height c s).cells q ≡ s.cells q
  unfolding put_esc4
  put_esc4-outside c s =
      let Same : Screen → Type 0 = λ r. r.cells q ≡ s.cells q in
      if_both Same (is_digit c) refl (if_both Same (c == b'm') refl refl)

  -- On a screen whose width is a multiple of 8 below 2 ^ 15 and whose size fits a machine word, a
  -- character sent to a console with its cursor on the screen changes no cell of the frame buffer
  -- outside the console's own screen, whatever the character and the state of the automaton.
  pub putch_help-outside :
      (s : Screen) (c : ℕ)
      → IsPlaced width height s.con
      → 0 < width
      → 0 < height
      → height < 2 ^ 31
      → width < 2 ^ 15
      → width % 8 ≡ 0
      → IsOutside s.con
      → (putch_help width height s c).0.cells q ≡ s.cells q
  unfolding putch_help
  putch_help-outside s c p w h small narrow even out =
      let Same : Screen × Bool → Type 0 = λ r. (r.0).cells q ≡ s.cells q in
      let con = s.con in
      let plain = put_char-outside c s p w h small narrow even out in
      if_both Same (con.esc == 1) (if_both Same (c == b'[') refl plain) (
        if_both Same (con.esc == 2) (put_esc2-outside c s out) (
          if_both Same (con.esc == 3) (put_esc3-outside c s)
            (if_both Same (con.esc == 4) (put_esc4-outside c s) plain)))
