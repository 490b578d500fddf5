-- ===== src/Process/Switch.antt =====
-- The timer interrupt: how long a thread keeps the processor, and which thread follows it.
use ktux.Base.{
  ℕ, zero, suc, ◌+◌, ◌-◌, ◌%◌, ◌^◌, ◌≤◌, ◌<◌, ◌≡◌, sym, ap, ◌∙◌, ◌≢◌, true, get_or, length, write,
  write-write, write_same, ==_refl, ge→ltb, lt→ltb, ne→==, sub32, arith,
}
use ktux.Base.Run.{Run, ok, ◌>>=◌}
use ktux.Process.{
  max_threads, wait, zombie, Thread, Sched, runnable, retire, dispatch, switch, task_switch,
}
use ktux.Process.Search.{distance, RunnableAt, IsNext, find-IsNext}

distance-le : (n cur j : ℕ) → cur < n → j < n → distance n cur j ≤ n
distance-le n cur j h p = ground arith

retire-wait :
    (esp : ℕ) (t : Thread) → t.status ≢ zombie → t.quantum ≡ 0 → (retire esp t).status ≡ wait
unfolding retire
retire-wait esp t alive q = ground arith

module _ {H L : Type 0} where
  -- The memory of the threads once the running one has given up the processor.
  abbrev pub retired : ℕ → Sched H L → ℕ → Thread
  retired esp s = write s.threads s.p_current_task (retire esp (s.threads s.p_current_task))

  -- The slots in use lie in `pThreads`, and one of them is the current one.
  pub record HasSlots (s : Sched H L) : Type 0 where
    pub slots : length s.p_threads ≡ max_threads
    pub count : s.num_threads ≤ max_threads
    pub current : s.current_task < s.num_threads

  -- `k` timer interrupts, each of which finds the stack pointer that the one before left.
  pub ticks : ℕ → ℕ → ℕ → Sched H L → Run (ℕ × Sched H L)
  ticks fuel zero esp s = ok (esp, s)
  ticks fuel (suc k) esp s = task_switch fuel esp s >>= λ r. ticks fuel k r.0 r.1

  -- The state in which the running thread has used `k` ticks of its quantum.
  abbrev pub used_ticks : ℕ → Sched H L → Sched H L
  used_ticks k s =
      let t = s.threads s.p_current_task in
      record s {
        threads =
            write s.threads s.p_current_task
              (record t { time = (t.time + k) % 2 ^ 32; quantum = t.quantum - k });
      }

  pub tick-used :
      (fuel esp : ℕ) (s : Sched H L)
      → s.p_current_task ≢ 0
      → 0 < (s.threads s.p_current_task).quantum
      → (s.threads s.p_current_task).quantum < 2 ^ 32
      → task_switch fuel esp s ≡ ok (esp, used_ticks 1 s)
  unfolding task_switch
  tick-used fuel esp s live q small =
      let t = s.threads s.p_current_task in
      let less : sub32 t.quantum 1 ≡ t.quantum - 1 = omega arith in
      rw (ne→== s.p_current_task 0 live, lt→ltb 0 t.quantum q, less)

  -- At the end of its quantum the running thread is switched away from.
  pub tick-switch :
      (fuel esp : ℕ) (s : Sched H L)
      → s.p_current_task ≢ 0
      → (s.threads s.p_current_task).quantum ≡ 0
      → task_switch fuel esp s ≡ switch fuel esp s
  unfolding task_switch
  tick-switch fuel esp s live q =
      rw
        (ne→== s.p_current_task 0 live, ge→ltb 0 (s.threads s.p_current_task).quantum (omega arith))

  with_thread : Sched H L → ℕ → Thread → Sched H L
  with_thread s p t = record s { threads = write s.threads p t }

  used_ticks-zero :
      (s : Sched H L) → (s.threads s.p_current_task).time < 2 ^ 32 → used_ticks 0 s ≡ s
  unfolding with_thread
  used_ticks-zero s small =
      let t = s.threads s.p_current_task in
      let same : record t { time = (t.time + 0) % 2 ^ 32; quantum = t.quantum - 0 } ≡ t =
        ground arith in
      ap (with_thread s s.p_current_task) same
      ∙ ap (λ m. record s { threads = m }) (write_same s.threads s.p_current_task)

  used_ticks-suc : (k : ℕ) (s : Sched H L) → used_ticks k (used_ticks 1 s) ≡ used_ticks (suc k) s
  unfolding with_thread
  used_ticks-suc k s =
      let t = s.threads s.p_current_task in
      let p = s.p_current_task in
      let time : ((t.time + 1) % 2 ^ 32 + k) % 2 ^ 32 ≡ (t.time + suc k) % 2 ^ 32 = omega arith in
      let left : t.quantum - 1 - k ≡ t.quantum - suc k = omega arith in
      rw (==_refl p, time, left) (ap (λ m. record s { threads = m }) (write-write s.threads p _ _))

  -- A thread keeps the processor, with its stack pointer, for each tick of its quantum, every tick
  -- counts as processor time, and no other thread changes.
  pub ticks-used :
      (fuel k esp : ℕ) (s : Sched H L)
      → s.p_current_task ≢ 0
      → (s.threads s.p_current_task).time < 2 ^ 32
      → (s.threads s.p_current_task).quantum < 2 ^ 32
      → k ≤ (s.threads s.p_current_task).quantum
      → ticks fuel k esp s ≡ ok (esp, used_ticks k s)
  unfolding ticks
  ticks-used fuel zero esp s live time small h =
      ap (λ u. ok (esp, u)) (sym (used_ticks-zero s time))
  ticks-used fuel (suc k) esp s live time small h =
      rw (tick-used fuel esp s live (omega arith) small) (
        ticks-used fuel k esp (used_ticks 1 s) live (rw (==_refl s.p_current_task) (omega arith))
          (rw (==_refl s.p_current_task) (omega arith))
          (rw (==_refl s.p_current_task) (omega arith))
        ∙ ap (λ u. ok (esp, u)) (used_ticks-suc k s))

  -- The thread that follows, in the order of slots.
  switch-IsNext :
      (fuel esp j : ℕ) (s : Sched H L)
      → HasSlots s
      → j < s.num_threads
      → RunnableAt s.p_threads (retired esp s) s.num_threads j
      → s.num_threads ≤ fuel
      → (c : ℕ) × (switch fuel esp s ≡ ok (dispatch c (record s { threads = retired esp s })))
        × IsNext s.p_threads (retired esp s) s.num_threads s.current_task c
  unfolding switch
  switch-IsNext fuel esp j s ok_slots p r enough =
      let n = s.num_threads in
      let cur = s.current_task in
      let (c, found, next) =
        find-IsNext s.p_threads (retired esp s) n ok_slots.count
          (omega (arith, ok_slots.slots, ok_slots.count)) fuel cur j ok_slots.current p r
          (omega (arith, distance-le n cur j ok_slots.current p)) in
      (c, rw found, next)

  -- At the end of the quantum of a thread that is not killed, with fuel for a search over all
  -- slots, the switch returns: the thread is queued, and the first thread behind it in the order of
  -- slots that can run is dispatched, at the latest the thread itself.
  pub task_switch-IsNext :
      (fuel esp : ℕ) (s : Sched H L)
      → HasSlots s
      → s.p_current_task ≢ 0
      → get_or s.p_threads s.current_task 0 ≡ s.p_current_task
      → (s.threads s.p_current_task).quantum ≡ 0
      → (s.threads s.p_current_task).status ≢ zombie
      → s.num_threads ≤ fuel
      → (c : ℕ) × (task_switch fuel esp s ≡ ok (dispatch c (record s { threads = retired esp s })))
        × IsNext s.p_threads (retired esp s) s.num_threads s.current_task c
  unfolding runnable
  task_switch-IsNext fuel esp s ok_slots live linked q alive enough =
      let p = s.p_current_task in
      let self : runnable (retired esp s) (get_or s.p_threads s.current_task 0) ≡ true =
        rw (linked, ne→== p 0 live, ==_refl p, retire-wait esp (s.threads p) alive q) in
      let (c, run, next) =
        switch-IsNext fuel esp s.current_task s ok_slots ok_slots.current self enough in
      (c, tick-switch fuel esp s live q ∙ run, next)
