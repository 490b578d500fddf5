-- ===== src/Process/Context.antt =====
-- What a thread finds when it comes back to the processor.
use ktux.Base.{
  ℕ, ◌+◌, ◌%◌, ◌^◌, ◌≤◌, ◌≡◌, ◌≢◌, refl, sym, ap, ◌∙◌, ◌==◌, ==_refl, if◌then◌else◌, get_or, write,
  ne→==, arith,
}
use native.Mathlib.Decide.{ℕ_discrete}
use ktux.Base.Run.{ok}
use ktux.Process.{
  quantum_amount, running, wait, zombie, Thread, Sched, retire, dispatch, task_switch,
}
use ktux.Process.Search.{IsNext}
use ktux.Process.Switch.{HasSlots, retired, task_switch-IsNext}

queued : ℕ → Thread → Thread
queued esp t = record t { time = (t.time + 1) % 2 ^ 32; esp0 = esp; status = wait }

retire-queued :
    (esp : ℕ) (t : Thread) → t.status ≢ zombie → t.quantum ≡ 0 → retire esp t ≡ queued esp t
unfolding retire queued
retire-queued esp t alive q = ground arith

-- The stack pointer of the thread that gave up the processor is kept in its structure, that of the
-- thread of slot `c` is returned, and no third thread changes.
pub record IsSwitched {H L : Type 0} (esp c : ℕ) (s : Sched H L) (r : ℕ × Sched H L) : Type 0 where
  pub slot : r.1.current_task ≡ c
  pub current : r.1.p_current_task ≡ get_or s.p_threads c 0
  pub saved : (r.1.threads s.p_current_task).esp0 ≡ esp
  pub counted :
      (r.1.threads s.p_current_task).time ≡ ((s.threads s.p_current_task).time + 1) % 2 ^ 32
  pub waits :
      (r.1.threads s.p_current_task).status
      ≡ (if s.p_current_task == get_or s.p_threads c 0 then running else wait)
  pub resumed : r.0 ≡ (
      if s.p_current_task == get_or s.p_threads c 0
      then esp
      else (s.threads (get_or s.p_threads c 0)).esp0)
  pub runs : (r.1.threads (get_or s.p_threads c 0)).status ≡ running
  pub others :
      (x : ℕ) → x ≢ s.p_current_task → x ≢ get_or s.p_threads c 0 → r.1.threads x ≡ s.threads x

-- Memory when `t` was stored at `p` and the thread at `q` runs.
after_switch : (ℕ → Thread) → ℕ → ℕ → Thread → ℕ → Thread
after_switch mem p q t =
    let next = write mem p t q in
    write (write mem p t) q (record next { quantum = quantum_amount next; status = running })

after_switch_lem :
    (mem : ℕ → Thread) (p q : ℕ) (t : Thread)
    → ((after_switch mem p q t p).esp0 ≡ t.esp0)
      × ((after_switch mem p q t p).time ≡ t.time)
      × ((after_switch mem p q t p).status ≡ (if p == q then running else t.status))
      × ((write mem p t q).esp0 ≡ (if p == q then t.esp0 else (mem q).esp0))
      × ((after_switch mem p q t q).status ≡ running)
      × ((x : ℕ) → x ≢ p → x ≢ q → after_switch mem p q t x ≡ mem x)
unfolding after_switch
after_switch_lem mem p q t = elim (ℕ_discrete p q) [
  | yes e ↦ rw (sym e, ==_refl p) (refl, refl, refl, refl, refl, λ x np nq. rw (ne→== x p np) refl)
  | no ne ↦
      rw (ne→== p q ne, ne→== q p (λ e. ne (sym e)), ==_refl p, ==_refl q)
        (refl, refl, refl, refl, refl, λ x np nq. rw (ne→== x p np, ne→== x q nq) refl)
]

module _ {H L : Type 0} where
  dispatch-IsSwitched :
      (esp c : ℕ) (s : Sched H L)
      → (s.threads s.p_current_task).quantum ≡ 0
      → (s.threads s.p_current_task).status ≢ zombie
      → IsSwitched esp c s (dispatch c (record s { threads = retired esp s }))
  unfolding dispatch queued after_switch
  dispatch-IsSwitched esp c s spent alive =
      let p = s.p_current_task in
      let t = s.threads p in
      let (saved, counted, waits, resumed, runs, others) =
        after_switch_lem s.threads p (get_or s.p_threads c 0) (retire esp t) in
      let kept : retire esp t ≡ queued esp t = retire-queued esp t alive spent in
      record {
        slot = refl;
        current = refl;
        saved = saved ∙ ap (λ u. u.esp0) kept;
        counted = counted ∙ ap (λ u. u.time) kept;
        waits = waits ∙ ap (λ u. if p == get_or s.p_threads c 0 then running else u.status) kept;
        resumed =
            resumed
            ∙ ap
                (λ u.
                  if p == get_or s.p_threads c 0
                  then u.esp0
                  else (s.threads (get_or s.p_threads c 0)).esp0)
                kept;
        runs = runs;
        others = others;
      }

  -- At the end of the quantum of a thread that is not killed, with fuel for a search over all slots,
  -- the switch to the next thread in the order of slots keeps the context of both: the stack pointer
  -- that the timer interrupt passes on is saved in the structure of the thread, which waits and has
  -- one more tick of time; the stack pointer returned is the one saved in the structure of the next
  -- thread, which runs and is the current one; and no third thread changes. When the next thread is
  -- the same one, it goes on with its own stack pointer.
  pub task_switch-IsSwitched :
      (fuel esp : ℕ) (s : Sched H L)
      → HasSlots s
      → s.p_current_task ≢ 0
      → get_or s.p_threads s.current_task 0 ≡ s.p_current_task
      → (s.threads s.p_current_task).quantum ≡ 0
      → (s.threads s.p_current_task).status ≢ zombie
      → s.num_threads ≤ fuel
      → (c : ℕ) × (r : ℕ × Sched H L) × (task_switch fuel esp s ≡ ok r)
        × IsNext s.p_threads (retired esp s) s.num_threads s.current_task c
        × IsSwitched esp c s r
  task_switch-IsSwitched fuel esp s slots live linked spent alive enough =
      let (c, run, next) = task_switch-IsNext fuel esp s slots live linked spent alive enough in
      (c, _, run, next, dispatch-IsSwitched esp c s spent alive)
