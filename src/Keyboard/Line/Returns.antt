-- ===== src/Keyboard/Line/Returns.antt =====
-- The command line comes back: no key makes `cmd_buf_add` leave its buffer or go on for ever.
use ktux.Base.{
  ℕ, zero, suc, ◌+◌, ◌%◌, ◌≤◌, ◌<◌, ◌≡◌, refl, List, ltb, ◌==◌, if_both, lt→ltb, ge→ltb, get_or,
  set, Bool-cases, inl, inr, bit_and, add32, sub32, arith,
}
use ktux.Base.Bits.{bit_and-mod}
use ktux.Base.Run.{ok, ◌>>=◌, Returns, >>=-Returns}
use ktux.Strings.{strcmp}
use ktux.Pic.{Ports, Pic, enable_irq, disable_irq, change_irq, toggle_irq}
use ktux.Keyboard.Line.{
  Shell, cmd_buf_size, is_one, timer_command, pad, c_string, process_command, cmd_buf_add,
}

module _ {W : Type 0} (io : Ports W) where
  toggle_timer-Returns : (p : Pic W) → Returns (toggle_irq io 0 p)
  unfolding toggle_irq enable_irq disable_irq change_irq
  toggle_timer-Returns p =
      let changed =
        if_both Returns (get_or p.irq_status 0 0 == 0) {x = enable_irq io 0 p}
          {y = disable_irq io 0 p} (_, refl) (_, refl) in
      if_both Returns p.idt_initialized (>>=-Returns _ (λ r. ok (1, r.1)) changed (λ r. (_, refl)))
        (_, refl)

  process_command-Returns :
      (command : List ℕ) (s : Shell W) → Returns (process_command io command s)
  unfolding process_command
  process_command-Returns command s =
      if_both Returns s.shell_initialized
        (if_both Returns (is_one (strcmp command timer_command))
          (>>=-Returns _ (λ r. ok (record s { pic = r.1 })) (toggle_timer-Returns s.pic)
            (λ r. (_, refl)))
          (_, refl))
        (_, refl)

  pad-Returns :
      (rounds stop : ℕ) (s : Shell W)
      → stop ≤ s.cmd_buf_pos + rounds
      → stop ≤ cmd_buf_size
      → Returns (pad io rounds stop s)
  unfolding pad
  pad-Returns zero stop s near low = rw (ge→ltb s.cmd_buf_pos stop (omega arith)) (_, refl)
  pad-Returns (suc rounds) stop s near low = elim (Bool-cases (ltb s.cmd_buf_pos stop)) [
    | inl more ↦
        let below : s.cmd_buf_pos < stop = ground arith in
        let next : add32 s.cmd_buf_pos 1 ≡ s.cmd_buf_pos + 1 = omega arith in
        rw (more, lt→ltb s.cmd_buf_pos cmd_buf_size (omega arith))
          (pad-Returns rounds stop
            (record s {
              command_buffer = set s.command_buffer s.cmd_buf_pos b' ';
              cmd_buf_pos = add32 s.cmd_buf_pos 1;
            })
            (omega arith) low)
    | inr done ↦ rw done (_, refl)
  ]

  tab-Returns :
      (s : Shell W)
      → s.cmd_buf_pos ≤ cmd_buf_size
      → Returns {A = ℕ × Shell W}
          (pad io 8 (bit_and (add32 s.cmd_buf_pos 8) 7) s >>= λ s'. ok (1, s'))
  tab-Returns s low =
      let stop : bit_and (add32 s.cmd_buf_pos 8) 7 ≡ add32 s.cmd_buf_pos 8 % 8 =
        bit_and-mod 3 (add32 s.cmd_buf_pos 8) in
      >>=-Returns _ _ (pad-Returns 8 _ s (omega (arith, stop)) (omega (arith, stop)))
        (λ s'. (_, refl))

  -- At a position of at most 256, whatever the key, `cmd_buf_add` comes back: it leaves neither its
  -- buffer nor the table of interrupt lines.
  pub cmd_buf_add-Returns :
      (key : ℕ) (s : Shell W) → s.cmd_buf_pos ≤ cmd_buf_size → Returns (cmd_buf_add io key s)
  unfolding cmd_buf_add
  cmd_buf_add-Returns key s low = elim (Bool-cases (key == 0x08)) [
    | inl back ↦ rw back (elim (Bool-cases (ltb 0 s.cmd_buf_pos)) [
      | inl some ↦
          let inside : sub32 s.cmd_buf_pos 1 < cmd_buf_size = ground arith in
          rw (some, lt→ltb (sub32 s.cmd_buf_pos 1) cmd_buf_size inside) (_, refl)
      | inr none ↦ rw none (_, refl)
    ])
    | inr no_back ↦ rw no_back (
        if_both Returns (key == 0x09) (tab-Returns s low) (
          if_both Returns (key == 0x0A)
            (>>=-Returns _ _ (process_command-Returns (c_string s.command_buffer) s)
              (λ s'. (_, refl)))
            (_, refl)))
  ]
