-- ===== src/Process/Kill.antt =====
-- `kill`: the thread is freed, taken out of the schedule, and followed by another one.
use ktux.Base.{
  ℕ, ◌≤◌, ◌<◌, ◌≡◌, sym, ap, ◌∙◌, ◌≢◌, true, false, get_or, set, length, write, write-write,
  ==_refl, ne→==, get_or-set_self, get_or-set_ne, length-set, arith,
}
use mathlib.Core.Bool.{false≢true}
use native.Mathlib.Decide.{ℕ_discrete}
use ktux.Base.Run.{ok, out_of_fuel, ◌>>=◌}
use ktux.Process.{
  free, Thread, Sched, ThreadList, runnable, retire, dispatch, find, switch, task_switch, kill,
}
use ktux.Process.Search.{RunnableAt, IsNext, find-IsNext, find_spins}
use ktux.Process.Switch.{HasSlots}

-- The structure of a killed thread, ready to be used again.
abbrev pub freed : Thread → Thread
freed t = record t { id = 0; esp0 = t.esp0base; status = free; quantum = 0 }

module _ {H L : Type 0} (ls : ThreadList L) where
  -- The state in which the next thread is looked for.
  abbrev pub killed : Sched H L → Sched H L
  killed s = record s {
    threads = write s.threads s.p_current_task (freed (s.threads s.p_current_task));
    p_threads = set s.p_threads s.current_task 0;
    l_threads = ls.list_del s.p_current_task s.l_threads;
  }

  kill-find :
      (fuel esp : ℕ) (s : Sched H L)
      → s.p_current_task ≢ 0
      → kill ls fuel esp s ≡ (
          find fuel (killed s).p_threads (killed s).threads s.num_threads s.current_task >>= λ c.
          ok (dispatch c (killed s)))
  unfolding kill task_switch switch retire
  kill-find fuel esp s live =
      let p = s.p_current_task in
      rw (ne→== p 0 live, ==_refl p)
        (ap
          (λ m. find fuel (killed s).p_threads m s.num_threads s.current_task >>= λ c.
            ok (dispatch c (record (killed s) { threads = m })))
          (write-write (write s.threads p _) p _ _ ∙ write-write s.threads p _ _))

  -- The slot of the killed thread is empty, and every other slot is as it was.
  killed-idle :
      (s : Sched H L)
      → HasSlots s
      → runnable (killed s).threads (get_or (killed s).p_threads s.current_task 0) ≡ false
  unfolding runnable
  killed-idle s h =
      rw (
        get_or-set_self s.p_threads s.current_task 0 0 (omega (arith, h.slots, h.count, h.current)))

  killed-other :
      (s : Sched H L) (j : ℕ)
      → j ≢ s.current_task
      → get_or s.p_threads j 0 ≢ s.p_current_task
      → runnable (killed s).threads (get_or (killed s).p_threads j 0)
        ≡ runnable s.threads (get_or s.p_threads j 0)
  unfolding runnable
  killed-other s j ne other = rw (
    get_or-set_ne s.p_threads s.current_task j 0 0 (λ e. ne (sym e)),
    ne→== (get_or s.p_threads j 0) s.p_current_task other,
  )

  killed-fits : (s : Sched H L) → HasSlots s → s.num_threads ≤ length (killed s).p_threads
  killed-fits s h = omega (arith, length-set s.p_threads s.current_task 0, h.slots, h.count)

  -- `kill` with another thread that can run, and with fuel for a search over all slots, returns:
  -- the killed thread is freed and loses its slot, and the switch goes to the next thread in the
  -- order of slots that can run, which is another one.
  pub kill-IsNext :
      (fuel esp j : ℕ) (s : Sched H L)
      → HasSlots s
      → s.p_current_task ≢ 0
      → j < s.num_threads
      → j ≢ s.current_task
      → get_or s.p_threads j 0 ≢ s.p_current_task
      → RunnableAt s.p_threads s.threads s.num_threads j
      → s.num_threads ≤ fuel
      → (c : ℕ) × (kill ls fuel esp s ≡ ok (dispatch c (killed s)))
        × (c ≢ s.current_task)
        × IsNext (killed s).p_threads (killed s).threads s.num_threads s.current_task c
  kill-IsNext fuel esp j s h live p ne other able enough =
      let n = s.num_threads in
      let cur = s.current_task in
      let still : runnable (killed s).threads (get_or (killed s).p_threads j 0) ≡ true =
        killed-other s j ne other ∙ able in
      let (c, found, next) =
        find-IsNext (killed s).p_threads (killed s).threads n h.count (killed-fits s h) fuel cur j
          h.current p still (ground (arith, h.current)) in
      (
        c,
        rw (kill-find fuel esp s live, found),
        λ e. false≢true (
            sym (killed-idle s h)
            ∙ ap (λ k. runnable (killed s).threads (get_or (killed s).p_threads k 0)) (sym e)
            ∙ next.able),
        next,
      )

  -- `kill` of the last thread that can run never returns, however long its search goes on.
  pub kill_spins :
      (fuel esp : ℕ) (s : Sched H L)
      → HasSlots s
      → s.p_current_task ≢ 0
      → ((j : ℕ)
          → j < s.num_threads
          → j ≢ s.current_task
          → (get_or s.p_threads j 0 ≢ s.p_current_task)
            × (runnable s.threads (get_or s.p_threads j 0) ≡ false))
      → kill ls fuel esp s ≡ out_of_fuel
  kill_spins fuel esp s h live idle =
      let n = s.num_threads in
      let cur = s.current_task in
      let none_able : (j : ℕ)
          → j < n
          → runnable (killed s).threads (get_or (killed s).p_threads j 0) ≡ false =
        λ j p. elim (ℕ_discrete j cur) [
          | yes e ↦
              ap (λ k. runnable (killed s).threads (get_or (killed s).p_threads k 0)) e
              ∙ killed-idle s h
          | no ne ↦ killed-other s j ne (idle j p ne).0 ∙ (idle j p ne).1
        ] in
      rw (
        kill-find fuel esp s live,
        find_spins (killed s).p_threads (killed s).threads n h.count (killed-fits s h) none_able
            fuel cur h.current,
      )
