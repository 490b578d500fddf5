-- ===== src/Stdio/Printers/Shown.antt =====
-- Formats printed on the current console: its layout is kept, and it shows what a text does.
use ktux.Base.{
  Bool, true, false, ◌||◌, ℕ, ◌^◌, ◌<◌, ◌≡◌, refl, ap, sym, subst, ◌∙◌, List, [], ◌∷◌, ◌++◌, ◌==◌,
  write_self, if_both, arith,
}
use ktux.Base.Run.{ok, ◌>>=◌}
use ktux.Video.{Screen, putch_help}
use ktux.Video.Escape.{AreDigits, put_text}
use ktux.Video.Consoles.{Display, outportb, move_csr, putch, putch_to}
use ktux.Video.Consoles.Isolation.{IsLaidOut, putch_to-kept, putch_to-IsLaidOut}
use ktux.Stdio.{promote}
use ktux.Stdio.Fields.{Piece, format, ArePieces, render}
use ktux.Stdio.Rendered.{send_text, do_printf-renders}
use ktux.Stdio.Printers.{kprintf_help, kprintf, panic}

-- The console shown and its screen.
abbrev pub shown : Display → Screen
shown d = record { con = d.vc d.curr_vc; cells = d.cells }

-- A character changes neither which console is shown nor how many there are.
pub kprintf_help-kept :
    (c : ℕ) (d : Display)
    → ((kprintf_help c d).curr_vc ≡ d.curr_vc) × ((kprintf_help c d).num_vcs ≡ d.num_vcs)
unfolding kprintf_help putch putch_to move_csr outportb
kprintf_help-kept c d =
    let Kept : Display → Type 0 = λ d'. (d'.curr_vc ≡ d.curr_vc) × (d'.num_vcs ≡ d.num_vcs) in
    let finished =
      (putch_help d.width d.height (record { con = d.vc d.curr_vc; cells = d.cells }) c).1 in
    if_both Kept finished (if_both Kept (d.curr_vc == d.curr_vc) (refl, refl) (refl, refl))
      (refl, refl)

pub kprintf_help-IsLaidOut :
    (c : ℕ) (d : Display) → IsLaidOut d → d.curr_vc < d.num_vcs → IsLaidOut (kprintf_help c d)
unfolding kprintf_help putch
kprintf_help-IsLaidOut c d laid known = putch_to-IsLaidOut d.curr_vc c d laid known

send_text-IsLaidOut :
    (t : List ℕ) (d : Display)
    → IsLaidOut d
    → d.curr_vc < d.num_vcs
    → IsLaidOut (send_text kprintf_help t d)
send_text-IsLaidOut [] d laid known = laid
send_text-IsLaidOut (c ∷ t) d laid known =
    let (curr, num) = kprintf_help-kept (promote c) d in
    send_text-IsLaidOut t (kprintf_help (promote c) d)
      (kprintf_help-IsLaidOut (promote c) d laid known) (rw (curr, num) known)

-- The rendered text is sent to the current console.
pub kprintf-renders :
    (stack : ℕ → ℕ) (strings : ℕ → List ℕ) (ps : List Piece) (d : Display)
    → ArePieces ps
    → ((a : ℕ) → stack a < 2 ^ 32)
    → kprintf stack strings (format ps) d
      ≡ ok (send_text kprintf_help (render stack strings 0 ps) d)
unfolding kprintf
kprintf-renders stack strings ps d p words =
    ap (λ r. r >>= λ r. ok r.1) (do_printf-renders kprintf_help stack strings ps d p words)

-- `kprintf` of a format of pieces with 32-bit arguments does not fault, and consoles that are laid out
-- one behind the other, the current one of them among them, stay so.
kprintf-IsLaidOut :
    (stack : ℕ → ℕ) (strings : ℕ → List ℕ) (ps : List Piece) (d : Display)
    → ArePieces ps
    → ((a : ℕ) → stack a < 2 ^ 32)
    → IsLaidOut d
    → d.curr_vc < d.num_vcs
    → (d' : Display) × (kprintf stack strings (format ps) d ≡ ok d') × IsLaidOut d'
kprintf-IsLaidOut stack strings ps d p words laid known =
    let t = render stack strings 0 ps in
    (
      send_text kprintf_help t d,
      kprintf-renders stack strings ps d p words,
      send_text-IsLaidOut t d laid known,
    )

-- Characters of 7 bits, which are not changed by their promotion.
abbrev pub AreAscii : List ℕ → Type 0
AreAscii [] = Unit
AreAscii (c ∷ t) = (c < 0x80) × AreAscii t

pub AreAscii-digits : (s t : List ℕ) → AreDigits s → AreAscii t → AreAscii (s ++ t)
AreAscii-digits [] t p q = q
AreAscii-digits (c ∷ s) t (_, (hi, p)) q = (omega arith, AreAscii-digits s t p q)

promote-ascii : (c : ℕ) → c < 0x80 → promote c ≡ c
unfolding promote
promote-ascii c small = ground arith

-- One character.
kprintf_help-shown :
    (c : ℕ) (d : Display)
    → ((kprintf_help c d).width ≡ d.width)
      × ((kprintf_help c d).height ≡ d.height)
      × (shown (kprintf_help c d) ≡ (putch_help d.width d.height (shown d) c).0)
unfolding kprintf_help putch
kprintf_help-shown c d =
    let curr : (putch_to d.curr_vc c d).curr_vc ≡ d.curr_vc = (kprintf_help-kept c d).0 in
    let (w, h, vc, _, cells) = putch_to-kept d.curr_vc c d in
    let s = (putch_help d.width d.height (shown d) c).0 in
    (w, h, rw (vc, curr, cells, write_self d.vc d.curr_vc (s.con)) refl)

-- `d'` shows what `put_text` makes of the console that `d` shows.
abbrev pub Shows : List ℕ → Display → Display → Type 0
Shows t d d' = (d'.curr_vc ≡ d.curr_vc) × (shown d' ≡ put_text d.width d.height (shown d) t)

pub send_text-Shows :
    (t : List ℕ) (d : Display) → AreAscii t → Shows t d (send_text kprintf_help t d)
send_text-Shows [] d p = (refl, refl)
send_text-Shows (c ∷ t) d (small, p) =
    let (w, h, s) = kprintf_help-shown c d in
    let (curr, s') = send_text-Shows t (kprintf_help c d) p in
    subst (λ c'. Shows (c ∷ t) d (send_text kprintf_help t (kprintf_help c' d)))
      (sym (promote-ascii c small)) (curr ∙ (kprintf_help-kept c d).0, s' ∙ rw (w, h, s) refl)

-- `panic` with a format of pieces and 32-bit arguments prints its text and comes back, whether it is
-- to halt or not; when it is to halt, interrupts are taken again afterwards.
pub panic-returns :
    (stack : ℕ → ℕ) (strings : ℕ → List ℕ) (halt_on taken : Bool) (ps : List Piece) (d : Display)
    → ArePieces ps
    → ((a : ℕ) → stack a < 2 ^ 32)
    → panic stack strings halt_on (format ps) (taken, d)
      ≡ ok (halt_on || taken, send_text kprintf_help (render stack strings 0 ps) d)
unfolding panic
panic-returns stack strings true taken ps d p words =
    ap (λ r. r >>= λ r. ok (true, r.1)) (do_printf-renders kprintf_help stack strings ps d p words)
panic-returns stack strings false taken ps d p words =
    ap (λ r. r >>= λ r. ok (taken, r.1)) (do_printf-renders kprintf_help stack strings ps d p words)
