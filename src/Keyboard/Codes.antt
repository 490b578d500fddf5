-- ===== src/Keyboard/Codes.antt =====
-- What the tables of scan codes hold.
use ktux.Base.{
  ℕ, zero, suc, ◌-◌, ◌<◌, ◌≡◌, refl, Bool, true, false, ◌&&◌, List, [], ◌∷◌, ltb, leb, ◌==◌,
  if◌then◌else◌, if_both, ==_iff, ne→==, get_or, arith,
}
use ktux.Base.Below.{all_below-holds}
use ktux.Keyboard.{
  kbd_meta_alt, kbd_meta_ctrl, kbd_meta_shift, kbd_meta_caps, scancode_to_ascii,
  scancode_to_ascii_caps, scancode_to_ascii_shift, key_del, Converted, character, reboot, has_meta,
  convert,
}

-- Every element is an ASCII code.
all_ascii : List ℕ → Bool
all_ascii [] = true
all_ascii (c ∷ s) = ltb c 0x80 && all_ascii s

all_ascii-get_or : (s : List ℕ) (i : ℕ) → all_ascii s ≡ true → get_or s i 0 < 0x80
unfolding all_ascii
all_ascii-get_or [] i h = omega arith
all_ascii-get_or (c ∷ s) zero h = ground arith
all_ascii-get_or (c ∷ s) (suc i) h = all_ascii-get_or s i (ground arith)

table : ℕ → List ℕ
table kbd_status =
    if has_meta kbd_status kbd_meta_shift
    then scancode_to_ascii_shift
    else if has_meta kbd_status kbd_meta_caps
    then scancode_to_ascii_caps
    else scancode_to_ascii

table-ascii : (kbd_status : ℕ) → all_ascii (table kbd_status) ≡ true
unfolding table all_ascii scancode_to_ascii scancode_to_ascii_caps scancode_to_ascii_shift
table-ascii kbd_status =
    if_both (λ t. all_ascii t ≡ true) (has_meta kbd_status kbd_meta_shift) refl
      (if_both (λ t. all_ascii t ≡ true) (has_meta kbd_status kbd_meta_caps) refl refl)

and-false : (a b : Bool) → (a && (b && false)) ≡ false
and-false true true = refl
and-false true false = refl
and-false false b = refl

-- Whatever the key and the keys held down, `convert` comes to a 7-bit character: Ctrl, Alt and Del
-- never reboot, because no table has the code of Del.
pub convert-ascii :
    (key kbd_status : ℕ) → (c : ℕ) × (convert key kbd_status ≡ character c) × (c < 0x80)
unfolding convert table
convert-ascii key kbd_status =
    let temp = get_or (table kbd_status) key 0 in
    let small = all_ascii-get_or (table kbd_status) key (table-ascii kbd_status) in
    let ctrl = has_meta kbd_status kbd_meta_ctrl in
    let alt = has_meta kbd_status kbd_meta_alt in
    let no_salute : (ctrl && (alt && temp == key_del)) ≡ false =
      rw (ne→== temp key_del (omega arith)) (and-false ctrl alt) in
    let Ascii : Converted → Type 0 = λ r. (c : ℕ) × (r ≡ character c) × (c < 0x80) in
    let none_given : Ascii (character 0) = (0, refl, omega arith) in
    let given : Ascii (character temp) = (temp, refl, small) in
    let pressed : Ascii (if ctrl && (alt && temp == key_del) then reboot else character temp) =
      rw no_salute given in
    if_both Ascii (leb 0x100 key) none_given (
      if_both Ascii (leb 0x3B key && leb key 0x46) none_given
        (if_both Ascii (temp == 0) given pressed))

-- Below the function keys, the table for CapsLock has the plain
-- table's letters in upper case and every other character unchanged.
pub caps-letters :
    (key : ℕ)
    → key < 0x3B
    → get_or scancode_to_ascii_caps key 0 ≡ (
        if leb b'a' (get_or scancode_to_ascii key 0) && leb (get_or scancode_to_ascii key 0) b'z'
        then get_or scancode_to_ascii key 0 - 32
        else get_or scancode_to_ascii key 0)
unfolding scancode_to_ascii scancode_to_ascii_caps
caps-letters key h =
    let upper : ℕ → ℕ = λ c. if leb b'a' c && leb c b'z' then c - 32 else c in
    let test : ℕ → Bool =
      λ k. get_or scancode_to_ascii_caps k 0 == upper (get_or scancode_to_ascii k 0) in
    (==_iff (get_or scancode_to_ascii_caps key 0) (upper (get_or scancode_to_ascii key 0))).0
      (all_below-holds 0x3B test key refl h)
