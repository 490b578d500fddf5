-- ===== src/Keyboard/Line/Typing.antt =====
-- What typing a line does.
use ktux.Base.{
  ℕ, suc, ◌+◌, ◌%◌, ◌^◌, ◌<◌, ◌≡◌, ◌≢◌, refl, ap, sym, subst, ◌∙◌, true, List, [], ◌∷◌, ◌++◌,
  replicate, set, length, ltb, bit_and, ne→==, ge→ltb, lt→ltb, length-append, add32, sub32, arith,
}
use mathlib.Core.Path.{fun_ext}
use mathlib.Core.List.{append-nil}
use ktux.Base.Bits.{bit_and-mod}
use ktux.Base.Run.{Run, ok, ◌>>=◌, >>=-assoc}
use ktux.Strings.{strcmp}
use ktux.Pic.{Ports, toggle_irq}
use ktux.Keyboard.Line.{Shell, timer_command, cmd_buf_size, c_string, process_command, cmd_buf_add}

-- Characters that go into the line: neither NUL, nor backspace, tab or line feed.
abbrev pub IsPlain : ℕ → Type 0
IsPlain c = (c ≢ 0) × (c ≢ 0x08) × (c ≢ 0x09) × (c ≢ 0x0A)

abbrev pub ArePlain : List ℕ → Type 0
ArePlain [] = Unit
ArePlain (c ∷ s) = (IsPlain c) × (ArePlain s)

set-length : (t r : List ℕ) (c d : ℕ) → set (t ++ c ∷ r) (length t) d ≡ t ++ d ∷ r
set-length [] r c d = refl
set-length (x ∷ t) r c d = ap (λ s. x ∷ s) (set-length t r c d)

append-assoc_one : (t ks : List ℕ) (c : ℕ) → (t ++ c ∷ []) ++ ks ≡ t ++ c ∷ ks
append-assoc_one [] ks c = refl
append-assoc_one (x ∷ t) ks c = ap (λ s. x ∷ s) (append-assoc_one t ks c)

c_string-line : (t : List ℕ) (n : ℕ) → ArePlain t → c_string (t ++ replicate (suc n) 0) ≡ t
unfolding c_string
c_string-line [] n p = refl
c_string-line (c ∷ t) n (plain, p) = rw (ne→== c 0 plain.0) (ap (λ s. c ∷ s) (c_string-line t n p))

module _ {W : Type 0} (io : Ports W) where
  -- The keys, one after the other.
  abbrev pub type_keys : List ℕ → Shell W → Run (Shell W)
  type_keys [] s = ok s
  type_keys (k ∷ ks) s = cmd_buf_add io k s >>= λ r. type_keys ks r.1

  -- `s` with the text in its buffer, and `n` zeros behind it.
  abbrev pub with_line : List ℕ → ℕ → Shell W → Shell W
  with_line t n s = record s { cmd_buf_pos = length t; command_buffer = t ++ replicate n 0 }

  add-plain :
      (t : List ℕ) (n c : ℕ) (s : Shell W)
      → IsPlain c
      → length t + suc n ≡ cmd_buf_size
      → cmd_buf_add io c (with_line t (suc n) s) ≡ ok (1, with_line (t ++ c ∷ []) n s)
  unfolding cmd_buf_add
  add-plain t n c s (_, no_back, no_tab, no_feed) size =
      let index : length t % cmd_buf_size ≡ length t = omega arith in
      let next : add32 (length t) 1 ≡ length (t ++ c ∷ []) =
        omega (arith, length-append t (c ∷ [])) in
      let line : set (t ++ replicate (suc n) 0) (length t) c ≡ (t ++ c ∷ []) ++ replicate n 0 =
        set-length t (replicate n 0) 0 c ∙ sym (append-assoc_one t (replicate n 0) c) in
      rw (ne→== c 0x08 no_back, ne→== c 0x09 no_tab, ne→== c 0x0A no_feed, index, next, line) refl

  type_keys-line :
      (t ks : List ℕ) (n : ℕ) (s : Shell W)
      → ArePlain ks
      → length t + (length ks + n) ≡ cmd_buf_size
      → type_keys ks (with_line t (length ks + n) s) ≡ ok (with_line (t ++ ks) n s)
  type_keys-line t [] n s p size =
      let none_left : 0 + n ≡ n = omega arith in rw (none_left, append-nil t) refl
  type_keys-line t (c ∷ ks) n s (plain, p) size =
      let fewer : suc (length ks) + n ≡ suc (length ks + n) = omega arith in
      let size' : length (t ++ c ∷ []) + (length ks + n) ≡ cmd_buf_size =
        omega (arith, size, length-append t (c ∷ [])) in
      rw (fewer, add-plain t (length ks + n) c s plain (omega arith))
        (type_keys-line (t ++ c ∷ []) ks n s p size')
      ∙ ap (λ l. ok (record s { cmd_buf_pos = length l; command_buffer = l ++ replicate n 0 }))
          (append-assoc_one t ks c)

  type_keys-append :
      (ks : List ℕ) (k : ℕ) (s : Shell W)
      → type_keys (ks ++ k ∷ []) s ≡ (type_keys ks s >>= λ s'. type_keys (k ∷ []) s')
  type_keys-append [] k s = refl
  type_keys-append (c ∷ ks) k s =
      ap (λ f. cmd_buf_add io c s >>= f) (fun_ext λ r. type_keys-append ks k r.1)
      ∙ sym (>>=-assoc (cmd_buf_add io c s) (λ r. type_keys ks r.1) (λ s'. type_keys (k ∷ []) s'))

  enter_step :
      (s : Shell W)
      → cmd_buf_add io 0x0A s ≡ (
          process_command io (c_string s.command_buffer) s >>= λ s'.
          ok (1, with_line [] cmd_buf_size s'))
  unfolding cmd_buf_add
  enter_step s = refl

  erase_step :
      (t : List ℕ) (n c : ℕ) (s : Shell W)
      → length t + suc n ≡ cmd_buf_size
      → cmd_buf_add io 0x08 (with_line (t ++ c ∷ []) n s) ≡ ok (1, with_line t (suc n) s)
  unfolding cmd_buf_add
  erase_step t n c s size =
      let longer = length-append t (c ∷ []) in
      let some_left : ltb 0 (length (t ++ c ∷ [])) ≡ true = lt→ltb 0 _ (omega arith) in
      let before : sub32 (length (t ++ c ∷ [])) 1 ≡ length t = omega arith in
      let in_bounds : ltb (length t) cmd_buf_size ≡ true = lt→ltb _ _ (omega arith) in
      let line : set ((t ++ c ∷ []) ++ replicate n 0) (length t) 0 ≡ t ++ replicate (suc n) 0 =
        ap (λ l. set l (length t) 0) (append-assoc_one t (replicate n 0) c)
        ∙ set-length t (replicate n 0) c 0 in
      rw (some_left, before, in_bounds, line) refl

  -- A line of at most 255 plain characters, typed into an empty command line and entered, runs
  -- exactly the command that was typed, and then the command line is empty again.
  pub enter_line :
      (text : List ℕ) (n : ℕ) (s : Shell W)
      → ArePlain text
      → length text + suc n ≡ cmd_buf_size
      → type_keys (text ++ 0x0A ∷ []) (with_line [] cmd_buf_size s) ≡ (
          process_command io text (with_line text (suc n) s) >>= λ s'.
          ok (with_line [] cmd_buf_size s'))
  enter_line text n s p size =
      let typed : type_keys text (with_line [] cmd_buf_size s) ≡ ok (with_line text (suc n) s) =
        subst (λ m. type_keys text (with_line [] m s) ≡ ok (with_line text (suc n) s)) size
          (type_keys-line [] text (suc n) s p (omega (arith, size))) in
      type_keys-append text 0x0A (with_line [] cmd_buf_size s)
      ∙ rw (typed, enter_step (with_line text (suc n) s), c_string-line text n p)
          (>>=-assoc (process_command io text (with_line text (suc n) s))
            (λ s'. ok (1, with_line [] cmd_buf_size s')) (λ r. ok r.1))

  -- Backspace takes back the plain character typed last, on any line with room for it.
  type_erase :
      (t : List ℕ) (n c : ℕ) (s : Shell W)
      → IsPlain c
      → length t + suc n ≡ cmd_buf_size
      → type_keys (c ∷ 0x08 ∷ []) (with_line t (suc n) s) ≡ ok (with_line t (suc n) s)
  type_erase t n c s plain size = rw (add-plain t n c s plain size, erase_step t n c s size) refl

  -- A tab, at a position that does not wrap when 8 is added, answers 1 and puts nothing into the
  -- line: the stop that it pads to is the position's remainder by 8.
  tab_nothing : (s : Shell W) → s.cmd_buf_pos + 8 < 2 ^ 32 → cmd_buf_add io 0x09 s ≡ ok (1, s)
  unfolding cmd_buf_add
  tab_nothing s small =
      let stop : bit_and (add32 s.cmd_buf_pos 8) 7 ≡ s.cmd_buf_pos % 8 =
        bit_and-mod 3 (add32 s.cmd_buf_pos 8) ∙ omega arith in
      rw (stop, ge→ltb s.cmd_buf_pos (s.cmd_buf_pos % 8) (omega arith)) refl

  -- In an initialised shell the word `timer` changes nothing, because `strcmp` answers 0 for equal
  -- strings, while any command that starts with `u`, the letter behind `t`, toggles the timer's
  -- line.
  process_command-toggles :
      (rest : List ℕ) (s : Shell W)
      → s.shell_initialized ≡ true
      → (process_command io timer_command s ≡ ok s)
        × (process_command io (b'u' ∷ rest) s
            ≡ (toggle_irq io 0 s.pic >>= λ r. ok (record s { pic = r.1 })))
  unfolding process_command strcmp
  process_command-toggles rest s init = (rw init refl, rw init refl)
