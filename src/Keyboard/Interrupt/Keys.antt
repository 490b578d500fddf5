-- ===== src/Keyboard/Interrupt/Keys.antt =====
-- The keys that are held and the locks that are on, and the bits of `kbd_status` that stand for them.
use ktux.Base.{
  ℕ, ◌+◌, ◌≡◌, refl, Bool, true, false, ◌&&◌, not, ◌==◌, ==_iff, bit_or, bit_xor, arith,
}
use ktux.Keyboard.{kbd_meta_alt, kbd_meta_ctrl, kbd_meta_shift, kbd_meta_caps}
use ktux.Keyboard.Interrupt.{kbd_meta_num, kbd_meta_scrl, clear_meta, led_bits}

pub record Keys : Type 0 where
  pub alt : Bool
  pub ctrl : Bool
  pub shift : Bool
  pub caps : Bool
  pub num : Bool
  pub scroll : Bool

abbrev pub flag : Bool → ℕ → ℕ
flag true mask = mask
flag false mask = 0

abbrev pub status_of : Keys → ℕ
status_of h =
    flag h.alt kbd_meta_alt
    + flag h.ctrl kbd_meta_ctrl
    + flag h.shift kbd_meta_shift
    + flag h.caps kbd_meta_caps
    + flag h.num kbd_meta_num
    + flag h.scroll kbd_meta_scrl

-- A test of all keys.
abbrev both : (Bool → Bool) → Bool
both f = f true && f false

both-holds : (f : Bool → Bool) (b : Bool) → both f ≡ true → f b ≡ true
both-holds f true e = ground arith
both-holds f false e = ground arith

abbrev all_keys : (Keys → Bool) → Bool
all_keys f = both λ a. both λ c. both λ s. both λ p.
    both λ n. both λ l. f (record { alt = a; ctrl = c; shift = s; caps = p; num = n; scroll = l })

all_keys-holds : (f : Keys → Bool) (h : Keys) → all_keys f ≡ true → f h ≡ true
all_keys-holds f h e =
    let g : Bool → Bool → Bool → Bool → Bool → Bool → Bool =
      λ a c s p n l. f (record { alt = a; ctrl = c; shift = s; caps = p; num = n; scroll = l }) in
    both-holds (λ l. g h.alt h.ctrl h.shift h.caps h.num l) h.scroll
      (both-holds (λ n. both λ l. g h.alt h.ctrl h.shift h.caps n l) h.num
        (both-holds (λ p. both λ n. both λ l. g h.alt h.ctrl h.shift p n l) h.caps
          (both-holds (λ s. both λ p. both λ n. both λ l. g h.alt h.ctrl s p n l) h.shift
            (both-holds (λ c. both λ s. both λ p. both λ n. both λ l. g h.alt c s p n l) h.ctrl
              (both-holds (λ a. both λ c. both λ s. both λ p. both λ n. both λ l. g a c s p n l)
                h.alt e)))))

-- Two functions of the keys that agree on all of them.
same_keys : (f g : Keys → ℕ) → all_keys (λ h. f h == g h) ≡ true → (h : Keys) → f h ≡ g h
same_keys f g e h = (==_iff (f h) (g h)).0 (all_keys-holds (λ h. f h == g h) h e)

pub set_alt : (h : Keys) → bit_or (status_of h) kbd_meta_alt ≡ status_of (record h { alt = true })
set_alt = same_keys _ _ refl

pub clear_alt :
    (h : Keys) → clear_meta kbd_meta_alt (status_of h) ≡ status_of (record h { alt = false })
unfolding clear_meta
clear_alt = same_keys _ _ refl

pub set_ctrl :
    (h : Keys) → bit_or (status_of h) kbd_meta_ctrl ≡ status_of (record h { ctrl = true })
set_ctrl = same_keys _ _ refl

pub clear_ctrl :
    (h : Keys) → clear_meta kbd_meta_ctrl (status_of h) ≡ status_of (record h { ctrl = false })
unfolding clear_meta
clear_ctrl = same_keys _ _ refl

pub set_shift :
    (h : Keys) → bit_or (status_of h) kbd_meta_shift ≡ status_of (record h { shift = true })
set_shift = same_keys _ _ refl

pub clear_shift :
    (h : Keys) → clear_meta kbd_meta_shift (status_of h) ≡ status_of (record h { shift = false })
unfolding clear_meta
clear_shift = same_keys _ _ refl

pub toggle_scroll :
    (h : Keys)
    → bit_xor (status_of h) kbd_meta_scrl ≡ status_of (record h { scroll = not h.scroll })
toggle_scroll = same_keys _ _ refl

pub toggle_num :
    (h : Keys) → bit_xor (status_of h) kbd_meta_num ≡ status_of (record h { num = not h.num })
toggle_num = same_keys _ _ refl

pub toggle_caps :
    (h : Keys) → bit_xor (status_of h) kbd_meta_caps ≡ status_of (record h { caps = not h.caps })
toggle_caps = same_keys _ _ refl

pub led_bits-Keys :
    (h : Keys) → led_bits (status_of h) ≡ flag h.scroll 1 + flag h.num 2 + flag h.caps 4
unfolding led_bits
led_bits-Keys = same_keys _ _ refl
