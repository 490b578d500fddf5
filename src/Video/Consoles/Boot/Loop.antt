-- ===== src/Video/Consoles/Boot/Loop.antt =====
-- The loop of `init_console` sets the consoles up one after the other.
use ktux.Base.{
  ℕ, zero, suc, ◌+◌, ◌-◌, ◌*◌, ◌^◌, ◌≤◌, ◌<◌, ◌≡◌, refl, ap, sym, subst, ◌∙◌, Bool-cases, inl, inr,
  false, List, [], ◌∷◌, ltb, ge→ltb, ◌==◌, if_alike, write_self, write-ne, get_or-AllBelow, arith,
}
use native.Mathlib.Decide.{ℕ_discrete}
use ktux.Base.Run.{ok}
use ktux.Video.{Console, putch_help}
use ktux.Video.Place.{IsPlaced}
use ktux.Video.Consoles.{Display, outportb, move_csr, putch_to, putch}
use ktux.Video.Consoles.Isolation.{IsLaidOut, putch_to-kept}
use ktux.Stdio.{promote}
use ktux.Stdio.Fields.{Piece, literal, field, decimal, render}
use ktux.Stdio.Formats.{are_pieces, no_percent, ArePieces-are_pieces}
use ktux.Stdio.Rendered.{send_text}
use ktux.Stdio.Printers.{words, kprintf_help}
use ktux.Stdio.Printers.Shown.{kprintf_help-kept, kprintf_help-IsLaidOut, kprintf-renders}
use ktux.Video.Consoles.Boot.{set_up, init_vc, init_vcs}

-- A console as the kernel starts.
abbrev pub blank : Console
blank = record {
  esc = 0;
  attrib = 0;
  csr_x = 0;
  csr_y = 0;
  esc1 = 0;
  esc2 = 0;
  esc3 = 0;
  fb_adr = 0;
}

-- The first `n` consoles of a display.
abbrev pub first : ℕ → Display → Display
first n d = record d { num_vcs = n }

-- The number of consoles plays no part in output.
kprintf_help-first :
    (n c : ℕ) (d : Display) → first n (kprintf_help c d) ≡ kprintf_help c (first n d)
unfolding kprintf_help putch putch_to move_csr outportb
kprintf_help-first n c d =
    let Same : Display → Display → Type 0 = λ a b. first n a ≡ b in
    let finished =
      (putch_help d.width d.height (record { con = d.vc d.curr_vc; cells = d.cells }) c).1 in
    if_alike Same finished (if_alike Same (d.curr_vc == d.curr_vc) refl refl) refl

-- The first `n` consoles are set up, and the others are blank.
pub record IsSetUp (n width height num : ℕ) (d : Display) : Type 0 where
  pub laid : IsLaidOut (first n d)
  pub wide : d.width ≡ width
  pub high : d.height ≡ height
  pub all : d.num_vcs ≡ num
  pub blanks : (j : ℕ) → n ≤ j → d.vc j ≡ blank

kprintf_help-IsSetUp :
    (n width height num c : ℕ) (d : Display)
    → d.curr_vc < n
    → IsSetUp n width height num d
    → IsSetUp n width height num (kprintf_help c d)
unfolding kprintf_help putch
kprintf_help-IsSetUp n width height num c d known p =
    let (_, count) = kprintf_help-kept c d in
    let (w, h, vc, _, _) = putch_to-kept d.curr_vc c d in
    record {
      laid =
          subst IsLaidOut (sym (kprintf_help-first n c d))
            (kprintf_help-IsLaidOut c (first n d) p.laid known);
      wide = w ∙ p.wide;
      high = h ∙ p.high;
      all = count ∙ p.all;
      blanks = λ j le.
          ap (λ f. f j) vc
          ∙ write-ne d.vc d.curr_vc j _ (λ e. omega (arith, known))
          ∙ p.blanks j le;
    }

send_text-IsSetUp :
    (n width height num : ℕ) (t : List ℕ) (d : Display)
    → d.curr_vc < n
    → IsSetUp n width height num d
    → IsSetUp n width height num (send_text kprintf_help t d)
send_text-IsSetUp n width height num [] d known p = p
send_text-IsSetUp n width height num (c ∷ t) d known p =
    let (curr, _) = kprintf_help-kept (promote c) d in
    send_text-IsSetUp n width height num t (kprintf_help (promote c) d) (rw curr known)
      (kprintf_help-IsSetUp n width height num (promote c) d known p)

abbrev console_pieces : List Piece
console_pieces =
    literal (
      0x1B ∷ b'[' ∷ b'2' ∷ b'J' ∷ b'k' ∷ b't' ∷ b'u' ∷ b'x' ∷ b' ' ∷ b'c' ∷ b'o' ∷ b'n' ∷ b's'
      ∷ b'o' ∷ b'l' ∷ b'e' ∷ b' ' ∷ [])
    ∷ field (record { left = false; zeroes = false; wide = []; conversion = decimal })
    ∷ literal (0x0A ∷ 0x0A ∷ [])
    ∷ []

-- The place of a screen, as the code and as the layout count it.
pub area_one : (w h : ℕ) → h * w ≡ w * h
area_one w h = grind arith

area : (w h n : ℕ) → w * h * n ≡ n * (h * w)
area w h n = grind arith

set_up-current : (n : ℕ) (d : Display) → (set_up n d).curr_vc < suc n
unfolding set_up
set_up-current n d = omega arith

set_up-IsSetUp :
    (n width height num : ℕ) (d : Display)
    → IsSetUp n width height num d
    → IsSetUp (suc n) width height num (set_up n d)
unfolding set_up
set_up-IsSetUp n width height num d p =
    let laid = p.laid in
    let new = record (d.vc n) { attrib = n + 1; fb_adr = d.width * d.height * n } in
    let empty = p.blanks n (omega arith) in
    let placed : IsPlaced d.width d.height new = record {
      column = rw empty laid.columns;
      row = rw empty laid.rows;
      state = rw empty (omega arith);
    } in
    record {
      laid = record {
        columns = laid.columns;
        rows = laid.rows;
        tabs = laid.tabs;
        narrow = laid.narrow;
        low = laid.low;
        fits = laid.fits;
        screens = λ k h. elim (ℕ_discrete k n) [
          | yes e ↦ rw (e, write_self d.vc n new) (area d.width d.height n)
          | no ne ↦ rw (write-ne d.vc n k new ne) (laid.screens k (omega arith))
        ];
        cursors = λ k h. elim (ℕ_discrete k n) [
          | yes e ↦ rw (e, write_self d.vc n new) placed
          | no ne ↦ rw (write-ne d.vc n k new ne) (laid.cursors k (omega arith))
        ];
      };
      wide = p.wide;
      high = p.high;
      all = p.all;
      blanks = λ j le. write-ne d.vc n j new (λ e. omega arith) ∙ p.blanks j (omega arith);
    }

module _ (strings : ℕ → List ℕ) (width height num : ℕ) where
  init_vc-IsSetUp :
      (n : ℕ) (d : Display)
      → num < 2 ^ 32
      → n < num
      → IsSetUp n width height num d
      → (d' : Display) × (init_vc strings n d ≡ ok d') × IsSetUp (suc n) width height num d'
  unfolding init_vc are_pieces no_percent
  init_vc-IsSetUp n d small lt p =
      let ready = set_up-IsSetUp n width height num d p in
      let current : (set_up n d).curr_vc < suc n = set_up-current n d in
      let printed =
        kprintf-renders (words (n ∷ (d.num_vcs - 1) ∷ [])) strings console_pieces (set_up n d)
          (ArePieces-are_pieces console_pieces refl)
          (λ a.
            get_or-AllBelow (2 ^ 32) 0 a (n ∷ (d.num_vcs - 1) ∷ [])
              (omega arith, (omega (arith, p.all), tt)) (omega arith)) in
      elim (Bool-cases (ltb 0 n)) [
        | inl e ↦ rw e (
          _,
          printed,
          send_text-IsSetUp (suc n) width height num
              (render (words (n ∷ (d.num_vcs - 1) ∷ [])) strings 0 console_pieces) (set_up n d)
              current ready,
        )
        | inr e ↦ rw e (set_up n d, refl, ready)
      ]

  pub init_vcs-IsSetUp :
      (rounds n : ℕ) (d : Display)
      → num < 2 ^ 32
      → n ≤ num
      → num ≤ rounds + n
      → IsSetUp n width height num d
      → (d' : Display) × (init_vcs strings rounds n d ≡ ok d') × IsSetUp num width height num d'
  unfolding init_vcs
  init_vcs-IsSetUp zero n d small le enough p =
      let done : n ≡ num = omega arith in
      rw (ge→ltb n d.num_vcs (omega (arith, p.all)))
        (d, refl, subst (λ m. IsSetUp m width height num d) done p)
  init_vcs-IsSetUp (suc rounds) n d small le enough p = elim (Bool-cases (ltb n d.num_vcs)) [
    | inl more ↦
        let lt : n < d.num_vcs = ground arith in
        let (d1, run, p1) = init_vc-IsSetUp n d small (omega (arith, lt, p.all)) p in
        let next : n + 1 ≡ suc n = omega arith in
        let (d2, run2, p2) =
          init_vcs-IsSetUp rounds (suc n) d1 small (omega (arith, lt, p.all)) (omega arith) p1 in
        rw (more, run, next) (d2, run2, p2)
    | inr last ↦
        let ge : d.num_vcs ≤ n = ground arith in
        let done : n ≡ num = omega (arith, ge, p.all) in
        rw last (d, refl, subst (λ m. IsSetUp m width height num d) done p)
  ]
