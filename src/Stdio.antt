-- ===== src/Stdio.antt =====
-- src/kernel/stdio.c: formatted output. `fn` is the function that takes the characters, and `P` what
-- it keeps behind `ptr`.
--
-- `stack` holds the words on the stack from the first argument on, `ap` counts those that are taken,
-- and `strings` gives the string at an address. The two places where the code steps to the next
-- character of the format without looking for its end, behind `%` and `%0`, are states of their own,
-- in which the end of the format is a fault: the loop goes on behind it.
pub mod Digits
pub mod Numeral
pub mod Decimal
pub mod Fields
pub mod Formats
pub mod Emit
pub mod Conversions
pub mod Pieces
pub mod Rendered
pub mod Printers
pub mod Calls
mod Tests
use ktux.Base.{
  ℕ, zero, suc, ◌+◌, ◌-◌, ◌*◌, ◌/◌, ◌%◌, ◌^◌, Bool, true, false, ◌&&◌, not, List, [], ◌∷◌, ltb, leb,
  ◌==◌, if◌then◌else◌, add32, mul32,
}
use ktux.Base.Run.{Run, ok, fault, ◌>>=◌}
use ktux.Strings.{strlen}

pub data State : Type 0 where
  text percent flags zero_flag width modifiers : State

-- The PR_ bits of `flags`, without PR_FP, which nothing reads.
pub record Flags : Type 0 where
  pub lj : Bool
  pub ca : Bool
  pub sg : Bool
  pub l32 : Bool
  pub l64 : Bool
  pub h16 : Bool
  pub ws : Bool
  pub lz : Bool

abbrev pub no_flags : Flags
no_flags = record {
  lj = false;
  ca = false;
  sg = false;
  l32 = false;
  l64 = false;
  h16 = false;
  ws = false;
  lz = false;
}

-- The local variables of `do_printf`.
pub record Printf (P : Type 0) : Type 0 where
  pub state : State
  pub flags : Flags
  pub given_wd : ℕ
  pub count : ℕ
  pub ap : ℕ
  pub ptr : P

-- A `char` as the `unsigned` argument of `fn`: the sign is extended.
unfoldable pub promote : ℕ → ℕ
promote c = if ltb c 0x80 then c else c + (2 ^ 32 - 2 ^ 8)

-- The loop that writes the digits of `num` backwards into the buffer, of which `room` bytes are left;
-- a write before the buffer is a fault.
unfoldable pub to_digits : ℕ → Bool → ℕ → ℕ → List ℕ → Run (List ℕ)
to_digits radix ca zero num digits = fault
to_digits radix ca (suc room) num digits =
    let temp = num % radix in
    let digit =
      if ltb temp 10 then temp + b'0' else if ca then temp - 10 + b'A' else temp - 10 + b'a' in
    let rest = to_digits radix ca room (num / radix) (digit ∷ digits) in
    if num / radix == 0 then ok (digit ∷ digits) else rest

-- `PR_BUFLEN`, less the byte of the NUL.
abbrev pub pr_bufroom : ℕ
pr_bufroom = 32 - 1

-- The value of a numeric argument, from its first word, as the bits of a `long`.
unfoldable pub load : Flags → ℕ → ℕ
load f w =
    let low = w % 2 ^ 16 in
    if f.l32
    then w
    else if f.l64
    then w
    else if f.h16
    then if f.sg && leb 0x8000 low then low + (2 ^ 32 - 2 ^ 16) else low
    else w

-- The words that it takes on the stack.
unfoldable pub arg_words : Flags → ℕ
arg_words f = if f.l32 then 1 else if f.l64 then 2 else 1

module _ {P : Type 0} (fn : ℕ → P → P) (stack : ℕ → ℕ) (strings : ℕ → List ℕ) where
  -- `fn(c, &ptr); count++`.
  unfoldable pub put : ℕ → Printf P → Printf P
  put c st = record st { ptr = fn c st.ptr; count = add32 st.count 1 }

  unfoldable pub put_all : List ℕ → Printf P → Printf P
  unfolding put promote
  put_all [] st = st
  put_all (c ∷ s) st = put_all s (put (promote c) st)

  -- A loop that pads `n` times.
  unfoldable pub pad : ℕ → ℕ → Printf P → Printf P
  unfolding put
  pad zero c st = st
  pad (suc n) c st = pad n c (put c st)

  -- `state = flags = given_wd = 0`.
  unfoldable pub reset : Printf P → Printf P
  reset st = record st { state = text; flags = no_flags; given_wd = 0 }

  -- From EMIT2 on: the string at `where`, padded to the field's width.
  unfoldable pub emit2 : List ℕ → ℕ → Printf P → Printf P
  unfolding put_all pad
  emit2 chars actual_wd st =
      let f = st.flags in
      let left = if f.lj then 0 else st.given_wd - actual_wd in
      let padded = pad left (if f.lz then b'0' else b' ') st in
      let signed = if f.ws && not f.lz then put b'-' padded else padded in
      pad (st.given_wd - left - actual_wd) b' ' (put_all chars signed)

  -- From EMIT on.
  unfoldable pub emit : List ℕ → Printf P → Printf P
  unfolding emit2
  emit chars st =
      let f = st.flags in
      let actual_wd = strlen chars + (if f.ws then 1 else 0) in
      emit2 chars actual_wd (if f.ws && f.lz then put b'-' st else st)

  -- From DO_NUM on.
  unfoldable pub do_num : ℕ → Printf P → Run (Printf P)
  unfolding load arg_words emit
  do_num radix st =
      let f = st.flags in
      let num = load f (stack st.ap) in
      let negative = f.sg && leb (2 ^ 31) num in
      let magnitude = if negative then 2 ^ 32 - num else num in
      let st' = record st { ap = st.ap + arg_words f; flags = record f { ws = negative } } in
      to_digits radix f.ca pr_bufroom magnitude [] >>= λ chars. ok (emit chars st')

  -- State 4, and the reset behind it.
  unfoldable pub convert : ℕ → Printf P → Run (Printf P)
  unfolding do_num emit2 reset
  convert c st =
      let f = st.flags in
      let signed = record st { flags = record f { sg = true } } in
      let no_zeroes = record st { flags = record f { lz = false }; ap = st.ap + 1 } in
      let char = stack st.ap % 2 ^ 8 in
      let st' =
        if c == b'X'
        then do_num 16 (record st { flags = record f { ca = true } })
        else if c == b'x'
        then do_num 16 st
        else if c == b'p'
        then do_num 16 st
        else if c == b'n'
        then do_num 16 st
        else if c == b'd'
        then do_num 10 signed
        else if c == b'i'
        then do_num 10 signed
        else if c == b'u'
        then do_num 10 st
        else if c == b'o'
        then do_num 8 st
        else if c == b'c'
        then ok (emit2 (if char == 0 then [] else char ∷ []) 1 no_zeroes)
        else if c == b's'
        then ok (emit (strings (stack st.ap)) no_zeroes)
        else ok st in
      st' >>= λ r. ok (reset r)

  unfoldable pub at_modifiers : ℕ → Printf P → Run (Printf P)
  unfolding convert
  at_modifiers c st =
      let f = st.flags in
      let st' = record st { state = modifiers } in
      if c == b'F'
      then ok st'
      else if c == b'N'
      then ok st'
      else if c == b'L'
      then ok (record st' { flags = record f { l64 = true } })
      else if c == b'l'
      then ok (record st' { flags = record f { l32 = true } })
      else if c == b'h'
      then ok (record st' { flags = record f { h16 = true } })
      else convert c st

  unfoldable pub at_width : ℕ → Printf P → Run (Printf P)
  unfolding at_modifiers
  at_width c st =
      if leb b'0' c && leb c b'9'
      then ok (record st { state = width; given_wd = add32 (mul32 10 st.given_wd) (c - b'0') })
      else at_modifiers c st

  unfoldable pub at_flags : ℕ → Printf P → Run (Printf P)
  unfolding at_width put promote
  at_flags c st =
      let f = st.flags in
      if c == b'%'
      then ok (reset (put (promote c) st))
      else if c == b'-'
      then if f.lj
        then ok (reset st)
        else ok (record st { state = flags; flags = record f { lj = true } })
      else if c == b'0'
      then ok (record st { state = zero_flag; flags = record f { lz = true } })
      else at_width c st

  -- One character of the format.
  unfoldable pub step : ℕ → Printf P → Run (Printf P)
  unfolding at_flags
  step c st = elim st.state [
    | text ↦ if c == b'%' then ok (record st { state = percent }) else ok (put (promote c) st)
    | percent ↦ at_flags c st
    | flags ↦ at_flags c st
    | zero_flag ↦ at_width c st
    | width ↦ at_width c st
    | modifiers ↦ at_modifiers c st
  ]

  -- The end of the format.
  unfoldable pub at_end : State → Printf P → Run (Printf P)
  at_end percent st = fault
  at_end zero_flag st = fault
  at_end text st = ok st
  at_end flags st = ok st
  at_end width st = ok st
  at_end modifiers st = ok st

  unfoldable pub scan_format : List ℕ → Printf P → Run (Printf P)
  unfolding step at_end
  scan_format [] st = at_end st.state st
  scan_format (c ∷ fmt) st = step c st >>= λ st'. scan_format fmt st'

  -- `do_printf`: its answer, and what `fn` has made of `ptr`.
  unfoldable pub do_printf : List ℕ → P → Run (ℕ × P)
  unfolding scan_format
  do_printf fmt ptr =
      scan_format fmt
        (record { state = text; flags = no_flags; given_wd = 0; count = 0; ap = 0; ptr = ptr })
      >>= λ st. ok (st.count, st.ptr)
