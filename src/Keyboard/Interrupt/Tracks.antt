-- ===== src/Keyboard/Interrupt/Tracks.antt =====
-- `process_kbd` keeps track of the keys: an abstract keyboard that follows the scan codes.
use ktux.Base.{
  AllBelow, ℕ, ◌-◌, ◌%◌, ◌^◌, ◌≤◌, ◌<◌, ◌≡◌, refl, ap, sym, subst, ◌∙◌, Bool, true, false, ◌&&◌,
  ◌||◌, not, List, leb, ◌==◌, if◌then◌else◌, if_both, if_alike, bit_and, bit_or, bit_xor, arith,
}
use ktux.Base.Bits.{bit_and-mod}
use ktux.Base.Run.{Run, ok, ◌>>=◌}
use ktux.Process.{Thread}
use ktux.Process.Report.Lines.{IsPrintable, ps-prints}
use ktux.Video.Consoles.{putch}
use ktux.Pic.{Ports}
use ktux.Keyboard.{kbd_meta_alt, kbd_meta_ctrl, kbd_meta_shift, kbd_meta_caps}
use ktux.Keyboard.Codes.{convert-ascii}
use ktux.Keyboard.Line.{cmd_buf_size}
use ktux.Keyboard.Line.Returns.{cmd_buf_add-Returns}
use ktux.Keyboard.Interrupt.{
  Kbd, Handled, handled, kbd_meta_num, kbd_meta_scrl, clear_meta, set_leds, release, type_char,
  type_key, press_other, press, process_kbd,
}
use ktux.Keyboard.Interrupt.Keys.{
  Keys, status_of, set_alt, set_ctrl, set_shift, clear_alt, clear_ctrl, clear_shift, toggle_scroll,
  toggle_num, toggle_caps,
}

-- A key goes up.
abbrev pub key_up : ℕ → Keys → Keys
key_up key h =
    if key == 0x38
    then record h { alt = false }
    else if key == 0x1D
    then record h { ctrl = false }
    else if key == 0x2A || key == 0x36
    then record h { shift = false }
    else h

-- A lock changes with each press.
abbrev pub lock_down : ℕ → Keys → Keys
lock_down key h =
    if key == 0x46
    then record h { scroll = not h.scroll }
    else if key == 0x45
    then record h { num = not h.num }
    else if key == 0x3A
    then record h { caps = not h.caps }
    else h

-- A key goes down: the locks change with each press.
abbrev pub key_down : ℕ → Keys → Keys
key_down key h =
    if key == 0x38
    then record h { alt = true }
    else if key == 0x1D
    then record h { ctrl = true }
    else if key == 0x2A || key == 0x36
    then record h { shift = true }
    else lock_down key h

-- The scan codes from 128 on are keys that go up.
abbrev pub follow : ℕ → Keys → Keys
follow keycode h = if leb 0x80 keycode then key_up (keycode - 0x80) h else key_down keycode h

module _ {W : Type 0} (io : Ports W) (read_status : W → ℕ × W) (strings : ℕ → List ℕ)
    (threads : ℕ → Thread) (entries : List ℕ) where
  -- The handler comes back, with the keys `h`.
  abbrev pub Follows : Keys → Run (Handled W) → Type 0
  Follows h r =
      (k : Kbd W) × (r ≡ ok (handled k)) × (k.kbd_status ≡ status_of h) × (k.saw_break_code ≡ false)

  released :
      (key st : ℕ) (h : Keys)
      → st ≡ status_of h
      → (if key == 0x38
          then clear_meta kbd_meta_alt st
          else if key == 0x1D
          then clear_meta kbd_meta_ctrl st
          else if key == 0x2A || key == 0x36
          then clear_meta kbd_meta_shift st
          else st)
        ≡ status_of (key_up key h)
  released key st h e =
      let Stands : ℕ → Keys → Type 0 = λ s h'. s ≡ status_of h' in
      if_alike Stands (key == 0x38) (ap (clear_meta kbd_meta_alt) e ∙ clear_alt h) (
        if_alike Stands (key == 0x1D) (ap (clear_meta kbd_meta_ctrl) e ∙ clear_ctrl h) (
          if_alike Stands (key == 0x2A || key == 0x36)
            (ap (clear_meta kbd_meta_shift) e ∙ clear_shift h) e))

  release-Follows :
      (key : ℕ) (k : Kbd W) (h : Keys)
      → k.kbd_status ≡ status_of h
      → Follows (key_up key h) (ok (handled (release io read_status key k)))
  unfolding release
  release-Follows key k h e =
      let after = release io read_status key k in (after, refl, released key k.kbd_status h e, refl)

  -- What the handler relies on: the position in the command line, and the threads that can be
  -- reported.
  abbrev pub IsReady : Kbd W → Type 0
  IsReady k = (k.shell.cmd_buf_pos ≤ cmd_buf_size) × (k.saw_break_code ≡ false)

  module _ (listed : AllBelow (2 ^ 32) entries)
      (printable : (p : ℕ) → IsPrintable (threads p)) where
    type_char-Follows :
        (i : ℕ) (k : Kbd W) (h : Keys)
        → IsReady k
        → k.kbd_status ≡ status_of h
        → Follows h (type_char io read_status strings threads entries i k >>= λ k'. ok (handled k'))
    unfolding type_char
    type_char-Follows i k h (low, fresh) e =
        let (r, added) = cmd_buf_add-Returns io i k.shell low in
        let shown = record k { shell = r.1; display = putch i k.display } in
        let reported = ps-prints strings threads entries shown.display listed printable in
        let P : Run (Kbd W) → Type 0 = λ m. Follows h (m >>= λ k'. ok (handled k')) in
        rw added (
          if_both P (r.0 == 1 && k.echo)
            (if_both P (i == b's') (rw reported (_, refl, e, fresh)) (_, refl, e, fresh))
            (_, refl, e, fresh))

    type_key-Follows :
        (key : ℕ) (k : Kbd W) (h : Keys)
        → IsReady k
        → k.kbd_status ≡ status_of h
        → Follows h (type_key io read_status strings threads entries key k)
    unfolding type_key
    type_key-Follows key k h ready e =
        let (c, converted, _) = convert-ascii key k.kbd_status in
        rw (converted, type_key)
          (if_both (Follows h) (c == 0) (k, refl, e, ready.1) (type_char-Follows c k h ready e))

    -- Setting the LEDs changes neither of the variables.
    leds :
        (st : ℕ) (k : Kbd W) (h : Keys)
        → st ≡ status_of h
        → k.saw_break_code ≡ false
        → Follows h (ok (handled (set_leds io read_status (record k { kbd_status = st }))))
    unfolding set_leds
    leds st k h e fresh = (_, refl, e, fresh)

    press_other-Follows :
        (key : ℕ) (k : Kbd W) (h : Keys)
        → IsReady k
        → k.kbd_status ≡ status_of h
        → Follows (lock_down key h) (press_other io read_status strings threads entries key k)
    unfolding press_other
    press_other-Follows key k h ready e =
        if_alike Follows (key == 0x46)
          (leds _ k _ (ap (λ st. bit_xor st kbd_meta_scrl) e ∙ toggle_scroll h) ready.1)
          (if_alike Follows (key == 0x45)
            (leds _ k _ (ap (λ st. bit_xor st kbd_meta_num) e ∙ toggle_num h) ready.1)
            (if_alike Follows (key == 0x3A)
              (leds _ k _ (ap (λ st. bit_xor st kbd_meta_caps) e ∙ toggle_caps h) ready.1)
              (if_both (Follows h) (leb 0x3B key && leb key 0x44) (_, refl, e, ready.1)
                (type_key-Follows key k h ready e))))

    press-Follows :
        (key : ℕ) (k : Kbd W) (h : Keys)
        → IsReady k
        → k.kbd_status ≡ status_of h
        → Follows (key_down key h) (press io read_status strings threads entries key k)
    unfolding press
    press-Follows key k h ready e =
        if_alike Follows (key == 0x38)
          (_, refl, ap (λ st. bit_or st kbd_meta_alt) e ∙ set_alt h, ready.1)
          (if_alike Follows (key == 0x1D)
            (_, refl, ap (λ st. bit_or st kbd_meta_ctrl) e ∙ set_ctrl h, ready.1)
            (if_alike Follows (key == 0x2A || key == 0x36)
              (_, refl, ap (λ st. bit_or st kbd_meta_shift) e ∙ set_shift h, ready.1)
              (press_other-Follows key k h ready e)))

    processed :
        (up broke : Bool) (low keycode : ℕ) (k : Kbd W) (h : Keys)
        → IsReady k
        → k.kbd_status ≡ status_of h
        → broke ≡ false
        → (up ≡ true → low ≡ keycode - 0x80)
        → Follows (if up then key_up (keycode - 0x80) h else key_down keycode h) (
            if up || broke
            then ok (handled (release io read_status (if up then low else keycode) k))
            else press io read_status strings threads entries (if up then low else keycode) k)
    processed true broke low keycode k h ready e fresh code =
        subst
          (λ key. Follows (key_up (keycode - 0x80) h) (ok (handled (release io read_status key k))))
          (sym (code refl)) (release-Follows (keycode - 0x80) k h e)
    processed false true low keycode k h ready e fresh code = ground arith
    processed false false low keycode k h ready e fresh code = press-Follows keycode k h ready e

    -- A scan code that comes between whole keys always lets the handler come back, when the command
    -- line is not past its buffer and the listed threads can be reported; the keys held and the locks
    -- are then those of the keyboard that follows the scan code.
    pub process_kbd-Follows :
        (keycode : ℕ) (k : Kbd W) (h : Keys)
        → keycode < 0x100
        → IsReady k
        → k.kbd_status ≡ status_of h
        → Follows (follow keycode h) (process_kbd io read_status strings threads entries keycode k)
    unfolding process_kbd
    process_kbd-Follows keycode k h byte ready e =
        let low : bit_and keycode 0x7F ≡ keycode % 2 ^ 7 = bit_and-mod 7 keycode in
        processed (leb 0x80 keycode) k.saw_break_code (bit_and keycode 0x7F) keycode k h ready e
          ready.1 (λ up. ground (arith, low))
