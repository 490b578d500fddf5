-- ===== src/Video/Step.antt =====
-- Scrolling: what it does to the rows of the screen, and to the memory around it.
use ktux.Base.{
  ℕ, zero, suc, ◌+◌, ◌-◌, ◌*◌, ◌%◌, ◌^◌, ◌≤◌, ◌<◌, ◌≡◌, refl, ap, ◌∙◌, ◌⊎◌, inl, true, false, leb,
  bit_or, add32, sub32, mul32, arith,
}
use ktux.Strings.{memcpy, memsetw}
use ktux.Strings.Blocks.{memcpy-down, memsetw-fills}
use ktux.Video.{Screen, att_of, put_plain, wrap, scroll, put_char, putch_help}

pub mul_le : (a b c : ℕ) → a ≤ b → a * c ≤ b * c
mul_le a b zero h = omega arith
mul_le a b (suc c) h = omega (arith, mul_le a b c h)

pub row_in : (r h w x : ℕ) → r < h → x < w → r * w + x < h * w
row_in r h w x p q = omega (arith, mul_le (suc r) h w p)

last_row : (h w : ℕ) → 0 < h → (h - 1) * w + w ≡ h * w
last_row zero w p = absurd (omega arith)
last_row (suc h) w p = let less : suc h - 1 ≡ h = omega arith in rw less (omega arith)

module _ (width height : ℕ) where
  -- Every row holds what the row below it held, the last one is blank in the console's colours,
  -- the cursor is on the last row, and memory outside the screen is as before.
  pub record IsScrolled (s s' : Screen) : Type 0 where
    pub rows :
        (r x : ℕ)
        → r + 1 < height
        → x < width
        → s'.cells (s.con.fb_adr + (r * width + x)) ≡ s.cells (s.con.fb_adr + ((r + 1) * width + x))
    pub bottom :
        (x : ℕ)
        → x < width
        → s'.cells (s.con.fb_adr + ((height - 1) * width + x)) ≡ bit_or 0x20 (att_of s.con) % 2 ^ 16
    pub outside :
        (q : ℕ) → (q < s.con.fb_adr) ⊎ (s.con.fb_adr + height * width ≤ q) → s'.cells q ≡ s.cells q
    pub cursor : s'.con ≡ record (s.con) { csr_y = height - 1 }

  -- A screen whose cells are moved up by one row.
  moved : Screen → ℕ → ℕ
  moved s =
      memsetw (s.con.fb_adr + (height - 1) * width) (bit_or 0x20 (att_of s.con)) width
        (memcpy s.con.fb_adr (s.con.fb_adr + width) ((height - 1) * width) s.cells)

  scroll-moved :
      (s : Screen)
      → 0 < height
      → height < 2 ^ 31
      → height * width < 2 ^ 32
      → s.con.csr_y ≡ height
      → scroll width height s
        ≡ record { con = record (s.con) { csr_y = height - 1 }; cells = moved s }
  unfolding scroll moved
  scroll-moved s h small fits below =
      let less : sub32 height 1 ≡ height - 1 = omega arith in
      let one : add32 (sub32 height height) 1 ≡ 1 = omega arith in
      let rows : mul32 (height - 1) width ≡ (height - 1) * width =
        omega (arith, mul_le (height - 1) height width (omega arith)) in
      let row : mul32 1 width ≡ width = omega (arith, mul_le 1 height width (omega arith)) in
      let full : leb height height ≡ true = ground arith in
      rw (below, one, less, rows, row, full) refl

  moved-IsScrolled :
      (s : Screen)
      → 0 < width
      → 0 < height
      → IsScrolled s (record { con = record (s.con) { csr_y = height - 1 }; cells = moved s })
  unfolding moved
  moved-IsScrolled s w h =
      let fb = s.con.fb_adr in
      let rows = (height - 1) * width in
      let copy = λ (q : ℕ). memcpy-down fb (fb + width) rows s.cells q (omega arith) in
      let fill = λ (q : ℕ).
        memsetw-fills (fb + rows) (bit_or 0x20 (att_of s.con)) width
          (memcpy fb (fb + width) rows s.cells) q in
      let all : rows + width ≡ height * width = last_row height width h in
      record {
        rows = λ r x hr hx.
            let q = fb + (r * width + x) in
            let inside : r * width + x < rows = row_in r (height - 1) width x (omega arith) hx in
            let below : fb + width + (q - fb) ≡ fb + ((r + 1) * width + x) = omega arith in
            (fill q).1 (inl (omega arith))
            ∙ (copy q).0 (omega arith) (omega arith)
            ∙ ap s.cells below;
        bottom = λ x hx. (fill (fb + (rows + x))).0 (omega arith) (omega arith);
        outside = λ q out. (fill q).1 (omega arith) ∙ (copy q).1 (omega arith);
        cursor = refl;
      }

  pub scroll-IsScrolled :
      (s : Screen)
      → 0 < width
      → 0 < height
      → height < 2 ^ 31
      → height * width < 2 ^ 32
      → s.con.csr_y ≡ height
      → IsScrolled s (scroll width height s)
  scroll-IsScrolled s w h small fits below =
      rw (scroll-moved s h small fits below) (moved-IsScrolled s w h)

  -- A line feed outside escape sequences, on the last row of a screen whose size fits a machine
  -- word, moves every row up by one, blanks the last row in the console's colours, leaves memory
  -- outside the screen alone and puts the cursor at the start of the last row.
  line_feed-IsScrolled :
      (s : Screen)
      → 0 < width
      → 0 < height
      → height < 2 ^ 31
      → height * width < 2 ^ 32
      → s.con.esc ≡ 0
      → s.con.csr_y + 1 ≡ height
      → IsScrolled
          (record s { con = record (s.con) { esc = 0; csr_x = 0 } })
          (putch_help width height s 0x0A).0
  unfolding putch_help put_char put_plain wrap moved
  line_feed-IsScrolled s w h small fits ground_state last =
      let fed : Screen = record s {
        con = record (s.con) { esc = 0; csr_x = 0; csr_y = add32 s.con.csr_y 1 };
      } in
      let below : add32 s.con.csr_y 1 ≡ height = omega arith in
      let in_line : leb width 0 ≡ false = ground arith in
      let up = scroll-moved fed h small fits below in
      rw (ground_state, in_line, up)
        (moved-IsScrolled (record s { con = record (s.con) { esc = 0; csr_x = 0 } }) w h)
