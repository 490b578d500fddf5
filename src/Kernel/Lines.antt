-- ===== src/Kernel/Lines.antt =====
-- The interrupt lines that are open when the kernel takes interrupts.
use mathlib.Core.List.{append-nil}
use ktux.Base.{
  subst, write, ℕ, zero, suc, ◌/◌, ◌^◌, ◌<◌, ◌≡◌, ◌≢◌, refl, ap, ◌∙◌, true, List, [], ◌∷◌, ltb,
  ◌==◌, ne→==, if◌then◌else◌, get_or, length, bit_and, arith,
}
use ktux.Base.Run.{Run, ok, ◌>>=◌}
use ktux.Kernel.{
  Kernel, say, hardware_message, dot, hardware_ok_message, start_hardware, start_lines, open_lines,
}
use ktux.Keyboard.Line.{init_keyboard, init_shell}
use ktux.Keyboard.Prompt.{prompt, shell_prompt}
use ktux.Pic.{Ports, Pic, init_pic, enable_irq, max_irq_imp}
use ktux.Pic.Controller.{IsController, enable_irq-IsReady, init_pic-IsReady, timer-IsReady}
use ktux.Pic.Mask.{bit}
use ktux.Process.{Sched, max_threads}
use ktux.Process.Create.{start_scheduler}
use ktux.Stdio.Calls.{kprintf_all, kprintf_all-text, calls_text}
use ktux.Stdio.Formats.{no_percent, IsLiteral-no_percent}
use ktux.Stdio.Fields.{literal, IsLiteral}
use ktux.Stdio.Rendered.{send_text}
use ktux.Stdio.Printers.{words, kprintf, kprintf_help}
use ktux.Stdio.Printers.Shown.{kprintf-renders}
use ktux.Timer.{reload, reprogram_timer}
use ktux.Video.Consoles.{Display}

-- The messages have no directives.
abbrev pub AreLiteral : List (List ℕ) → Type 0
AreLiteral [] = Unit
AreLiteral (t ∷ ts) = IsLiteral t × AreLiteral ts

-- `start_scheduler` runs the first thread behind the opened line of the timer.
start_scheduler-run :
    {W H L : Type 0} (io : Ports W) (q q' : Pic W) (s : Sched H L)
    → s.num_threads ≢ max_threads
    → enable_irq io 0 q ≡ ok (1, q')
    → start_scheduler io q s
      ≡ ok (
        q',
        record s {
          current_task = 0;
          p_current_task = get_or s.p_threads 0 0;
          threads =
              write s.threads
                (get_or s.p_threads 0 0)
                (record (s.threads (get_or s.p_threads 0 0)) { time = 0; quantum = 0 });
        },
      )
unfolding start_scheduler
start_scheduler-run {W} {H} {L} io q q' s room ticks =
    let thread = get_or s.p_threads 0 0 in
    let running = record s {
      current_task = 0;
      p_current_task = thread;
      threads = write s.threads thread (record (s.threads thread) { time = 0; quantum = 0 });
    } in
    let finish = λ (r : Run (ℕ × Pic W)). r >>= λ e. ok (e.1, running) in
    ap (λ b. if b then ok (q, s) else finish (enable_irq io 0 q))
      (ne→== s.num_threads max_threads room)
    ∙ ap finish ticks

bit_fb : (j : ℕ) → j < 8 → bit j 0xFB ≡ (if j == 2 then 0 else 1)
bit_fb zero h = refl
bit_fb (suc zero) h = refl
bit_fb (suc (suc zero)) h = refl
bit_fb (suc (suc (suc zero))) h = refl
bit_fb (suc (suc (suc (suc zero)))) h = refl
bit_fb (suc (suc (suc (suc (suc zero))))) h = refl
bit_fb (suc (suc (suc (suc (suc (suc zero)))))) h = refl
bit_fb (suc (suc (suc (suc (suc (suc (suc zero))))))) h = refl
bit_fb (suc (suc (suc (suc (suc (suc (suc (suc j)))))))) h = absurd (omega arith)

three_open :
    (j : ℕ)
    → ◌≡◌ {A = ℕ}
        (if j == 0 then 0 else if j == 1 then 0 else if j == 2 then 0 else 1)
        (if ltb j 3 then 0 else 1)
three_open j = ground arith

init_pic-full :
    {W : Type 0} (io : Ports W) (p : Pic W) → length (init_pic io p).irq_status ≡ max_irq_imp
unfolding init_pic
init_pic-full io p = refl

module _ (strings : ℕ → List ℕ) {W H L : Type 0} where
  -- A message is printed, and changes the display only.
  pub say-lem :
      (ts : List (List ℕ)) (k : Kernel W H L)
      → AreLiteral ts
      → (d : Display) × (say strings ts k ≡ ok (record k { display = d }))
  unfolding say
  say-lem [] k lit = (k.display, refl)
  say-lem (t ∷ ts) k (here, lit) =
      let calls = (literal t ∷ [], []) ∷ [] in
      let d = send_text kprintf_help (calls_text strings calls) k.display in
      let one : kprintf_all strings ((t, []) ∷ []) k.display ≡ ok d =
        subst (λ u. kprintf_all strings ((u, []) ∷ []) k.display ≡ ok d) (append-nil t)
          (kprintf_all-text strings calls k.display ((here, tt), (tt, tt))) in
      let (d', rest) = say-lem ts (record k { display = d }) lit in
      (d', ap (λ r. r >>= λ e. say strings ts (record k { display = e })) one ∙ rest)

  -- The kernel behind `start_hardware`, for a display and threads.
  abbrev pub hardware_started : Ports W → Kernel W H L → Display → Sched H L → Kernel W H L
  hardware_started io k d s = record k {
    display = d;
    shell = record k.shell { pic = init_pic io k.shell.pic; kbd_buf_pos = 0; cmd_buf_pos = 0 };
    sched = s;
  }

  -- `start_hardware` comes to its end.
  pub hardware-lem :
      (io : Ports W) (k : Kernel W H L)
      → (d : Display) × (start_hardware strings io k ≡ ok (hardware_started io k d k.sched))
  unfolding start_hardware init_keyboard no_percent
  hardware-lem io k =
      let (d1, one) =
        say-lem (hardware_message ∷ []) k (IsLiteral-no_percent hardware_message refl, tt) in
      let shell = record k.shell { pic = init_pic io k.shell.pic } in
      let (d2, two) =
        say-lem (dot ∷ dot ∷ []) (record k { display = d1; shell = shell })
          (IsLiteral-no_percent dot refl, (IsLiteral-no_percent dot refl, tt)) in
      let typed = record shell { kbd_buf_pos = 0; cmd_buf_pos = 0 } in
      let (d3, three) =
        say-lem (hardware_ok_message ∷ []) (record k { display = d2; shell = typed })
          (IsLiteral-no_percent hardware_ok_message refl, tt) in
      (d3, rw (one, two) three)

  -- `start_lines` behind `start_hardware` and the threads.
  pub start_lines_lem :
      (io : Ports W) (IsReady : W → Type 0)
      → IsController io IsReady
      → (k : Kernel W H L) (d : Display) (s : Sched H L) (j : ℕ)
      → k.shell.pic.idt_initialized ≡ true
      → s.num_threads ≢ max_threads
      → j < 8
      → (k2 : Kernel W H L) × (start_lines strings io (hardware_started io k d s) ≡ ok k2)
        × (k2.interrupts ≡ true)
        × (k2.sched.current_task ≡ 0)
        × (k2.sched.p_current_task ≡ get_or s.p_threads 0 0)
        × (bit j (io.read_port 0x21 k2.shell.pic.world) ≡ (if ltb j 3 then 0 else 1))
  unfolding start_lines open_lines init_shell shell_prompt reprogram_timer reload no_percent
  start_lines_lem io IsReady chips k d s j ready room small =
      let p0 = init_pic io k.shell.pic in
      let w = p0.world in
      let (low, started) = init_pic-IsReady io IsReady chips k.shell.pic ready in
      let w3 =
        io.write_port 0x40 (1193 / 2 ^ 8)
          (io.write_port 0x40 (bit_and 1193 0xFF) (io.write_port 0x43 0x36 w)) in
      let timed : reprogram_timer io 1000 w ≡ ok w3 = refl in
      let p1 = record p0 { world = w3 } in
      let (same, ready3) =
        timer-IsReady io IsReady chips 0x36 (bit_and 1193 0xFF) (1193 / 2 ^ 8) w started in
      let kept : io.read_port 0x21 w3 ≡ 0xFB = same ∙ low in
      let (q1, on, line, ready1) =
        enable_irq-IsReady io IsReady chips 1 p1 (omega arith) (init_pic-full io k.shell.pic)
          ready3 in
      let (q2, ticks, clock, _) =
        enable_irq-IsReady io IsReady chips 0 q1 (omega arith)
          (line.length ∙ init_pic-full io k.shell.pic) ready1 in
      let typed = record k.shell { pic = p0; kbd_buf_pos = 0; cmd_buf_pos = 0 } in
      let k1 = hardware_started io k d s in
      let thread = get_or s.p_threads 0 0 in
      let prompted = send_text kprintf_help prompt d in
      let shelled = record typed { shell_initialized = true } in
      let finish = λ (started : Pic W × Sched H L). ok (record k1 {
        display = prompted;
        shell = record shelled { pic = started.0 };
        sched = started.1;
        interrupts = true;
      }) in
      let opened = λ (r : ℕ × Pic W). start_scheduler io r.1 s >>= finish in
      let enabled = λ (w' : W). enable_irq io 1 (record p0 { world = w' }) >>= opened in
      let running = record s {
        current_task = 0;
        p_current_task = thread;
        threads = write s.threads thread (record (s.threads thread) { time = 0; quantum = 0 });
      } in
      let scheduled : start_scheduler io q1 s ≡ ok (q2, running) =
        start_scheduler-run io q1 q2 s room ticks in
      let said : kprintf (words []) strings prompt d ≡ ok prompted =
        kprintf-renders (words []) strings (literal prompt ∷ []) d
          (IsLiteral-no_percent prompt refl, tt) (λ a. omega arith) in
      (
        record k1 {
          display = prompted;
          shell = record typed { pic = q2; shell_initialized = true };
          sched = running;
          interrupts = true;
        },
        ap (λ r. r >>= λ e. open_lines strings io shelled e k1) said
            ∙ ap (λ r. r >>= enabled) timed
            ∙ ap (λ r. r >>= opened) on
            ∙ ap (λ r. r >>= finish) scheduled,
        refl,
        refl,
        refl,
        clock.line j small
            ∙ ap (λ b. if j == 0 then 0 else b) (line.line j small)
            ∙ ap (λ b. if j == 0 then 0 else if j == 1 then 0 else b)
                (ap (bit j) kept ∙ bit_fb j small)
            ∙ three_open j,
      )
