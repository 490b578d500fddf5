-- ===== src/Video/Kept.antt =====
-- No character moves a console's screen to another place of the frame buffer.
use ktux.Base.{ℕ, ◌≡◌, refl, Bool, ◌==◌, if_both, sub32, arith}
use ktux.Video.{
  Screen, set_attrib, end_of_tab, put_cell, put_plain, wrap, scroll, put_char, put_esc2, put_esc3,
  put_esc4, putch_help,
}
use ktux.Video.Place.{tab_loop-line}

module _ (width height : ℕ) where
  put_char-fb_adr : (c : ℕ) (s : Screen) → (put_char width height c s).0.con.fb_adr ≡ s.con.fb_adr
  unfolding put_char put_plain put_cell wrap scroll
  put_char-fb_adr c s =
      let tab =
        tab_loop-line width height (sub32 (end_of_tab width height s.con.csr_x) s.con.csr_x)
          (record s { con = record (s.con) { esc = 0 } }) in
      ground arith

  put_esc2-fb_adr : (c : ℕ) (s : Screen) → (put_esc2 width height c s).con.fb_adr ≡ s.con.fb_adr
  unfolding put_esc2 set_attrib
  put_esc2-fb_adr c s = ground arith

  put_esc3-fb_adr : (c : ℕ) (s : Screen) → (put_esc3 width height c s).con.fb_adr ≡ s.con.fb_adr
  unfolding put_esc3 set_attrib
  put_esc3-fb_adr c s = ground arith

  put_esc4-fb_adr : (c : ℕ) (s : Screen) → (put_esc4 width height c s).con.fb_adr ≡ s.con.fb_adr
  unfolding put_esc4 set_attrib
  put_esc4-fb_adr c s = ground arith

  pub putch_help-fb_adr :
      (s : Screen) (c : ℕ) → (putch_help width height s c).0.con.fb_adr ≡ s.con.fb_adr
  unfolding putch_help
  putch_help-fb_adr s c =
      let Same : Screen × Bool → Type 0 = λ r. (r.0).con.fb_adr ≡ s.con.fb_adr in
      let con = s.con in
      let plain = put_char-fb_adr c s in
      if_both Same (con.esc == 1) (if_both Same (c == b'[') refl plain) (
        if_both Same (con.esc == 2) (put_esc2-fb_adr c s) (
          if_both Same (con.esc == 3) (put_esc3-fb_adr c s)
            (if_both Same (con.esc == 4) (put_esc4-fb_adr c s) plain)))
