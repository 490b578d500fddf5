-- ===== src/Process.antt =====
-- src/kernel/process.c and src/include/process.h: kernel threads and the round-robin scheduler.
--
-- A thread structure lives in a flat memory, at the address that `kmalloc` returned; `pThreads` is
-- the array of their addresses, with 0 for NULL, and `pCurrentTask` is an address too, so that both
-- may name one structure. `kprintf` output, `cli` and `sti` leave no trace in the state. A function
-- runs to its end before another one starts: the timer interrupt is a call of `task_switch`.
pub mod Search
pub mod Switch
pub mod Context
pub mod Kill
pub mod Invariant
pub mod Create
pub mod Report
pub mod Tests
use ktux.Base.{
  ℕ, zero, suc, ◌+◌, ◌-◌, ◌%◌, ◌≡◌, Bool, true, false, ◌&&◌, not, Option, none, some, List, ◌∷◌,
  ltb, ◌==◌, if◌then◌else◌, get_elem?, get_or, set, replicate, length, write, add32, sub32,
}
use ktux.Base.Int.{ℤ, pos, negsuc, ◌-ℤ◌, ltb_ℤ, to_u32}
use ktux.Base.Run.{Run, ok, out_of_fuel, fault, ◌>>=◌}

abbrev pub max_threads : ℕ
max_threads = 1024

abbrev pub int_per_slice : ℕ
int_per_slice = 64

abbrev pub stack_size : ℕ
stack_size = 0x200

-- `sizeof(kernel_thread_t)`: a name of 64 bytes, eleven words, two list links and a pointer.
abbrev pub thread_size : ℕ
thread_size = 120

-- The PROCESS_ codes.
pub data Status : Type 0 where
  init ready running wait sleep stop zombie free : Status

-- `struct kernel_thread_struct`, without its list links (the list is a parameter of the functions
-- that use it) and the fields that no function reads or writes.
pub record Thread : Type 0 where
  pub name : List ℕ
  pub id : ℕ
  pub priority : ℤ
  pub status : Status
  pub priv : ℕ
  pub esp0 : ℕ
  pub esp0base : ℕ
  pub cr3 : ℕ
  pub time : ℕ
  pub quantum : ℕ

-- `QuantumAmount(thread)`, stored in an unsigned field.
unfoldable pub quantum_amount : Thread → ℕ
quantum_amount t = to_u32 (pos int_per_slice -ℤ t.priority)

-- The variables of process.c, the memory of the thread structures, the words of the stacks, the
-- heap behind `kmalloc` and the list `lThreads`.
pub record Sched (H L : Type 0) : Type 0 where
  pub threads : ℕ → Thread
  pub p_threads : List ℕ
  pub current_task : ℕ
  pub p_current_task : ℕ
  pub num_threads : ℕ
  pub words : ℕ → ℕ
  pub heap : H
  pub l_threads : L

-- `kmalloc` as process.c sees it: an address, or 0.
pub record Allocator (H : Type 0) : Type 0 where
  pub kmalloc : ℕ → H → ℕ × H

-- The operations of include/list.h, a copy of Linux's list, on the list headed by `lThreads`; an
-- entry is named by the address of its thread.
pub record ThreadList (L : Type 0) : Type 0 where
  pub list_add : ℕ → L → L
  pub list_del : ℕ → L → L

-- The test of `__task_switch`'s loop on one entry of `pThreads`.
unfoldable pub is_runnable : Status → Bool
is_runnable ready = true
is_runnable wait = true
is_runnable init = false
is_runnable running = false
is_runnable sleep = false
is_runnable stop = false
is_runnable zombie = false
is_runnable free = false

unfoldable pub runnable : (ℕ → Thread) → ℕ → Bool
unfolding is_runnable
runnable mem p = not (p == 0) && is_runnable (mem p).status

-- `if (++currentTask == get_num_threads()) currentTask = 0;`
unfoldable pub advance : ℕ → ℕ → ℕ
advance n cur = if add32 cur 1 == n then 0 else add32 cur 1

-- The loop `while(1)` that finds a new thread: its index in `pThreads`. It has no exit but a
-- runnable thread, so it may go on for ever.
unfoldable pub find : ℕ → List ℕ → (ℕ → Thread) → ℕ → ℕ → Run ℕ
find zero ts mem n cur = out_of_fuel
find (suc f) ts mem n cur =
    let next = advance n cur in
    let rest = find f ts mem n next in
    elim (get_elem? ts next) [ none ↦ fault | some p ↦ if runnable mem p then ok next else rest ]

-- The thread that gives up the processor: a killed one is freed, any other is queued.
unfoldable pub retire : ℕ → Thread → Thread
retire esp t = elim t.status [
  | zombie ↦ record t { id = 0; esp0 = t.esp0base; status = free }
  | _ ↦ if t.quantum == 0 then record t { time = add32 t.time 1; esp0 = esp; status = wait } else t
]

module _ {H L : Type 0} where
  -- The thread of slot `c` gets a quantum and runs: the stack pointer to return to.
  unfoldable pub dispatch : ℕ → Sched H L → ℕ × Sched H L
  unfolding quantum_amount
  dispatch c s =
      let p = get_or s.p_threads c 0 in
      let t = s.threads p in
      (
        t.esp0,
        record s {
          threads = write s.threads p (record t { quantum = quantum_amount t; status = running });
          current_task = c;
          p_current_task = p;
        },
      )

  -- `pCurrentTask` is queued or freed, and the next thread is looked for, `fuel` slots far.
  unfoldable pub switch : ℕ → ℕ → Sched H L → Run (ℕ × Sched H L)
  unfolding retire advance find dispatch
  switch fuel esp s =
      let mem = write s.threads s.p_current_task (retire esp (s.threads s.p_current_task)) in
      find fuel s.p_threads mem s.num_threads s.current_task >>= λ c.
      ok (dispatch c (record s { threads = mem }))

  -- `__task_switch`, the body of the timer interrupt: the stack pointer to go on with.
  unfoldable pub task_switch : ℕ → ℕ → Sched H L → Run (ℕ × Sched H L)
  unfolding switch
  task_switch fuel esp s =
      let t = s.threads s.p_current_task in
      if s.p_current_task == 0
      then ok (esp, s)
      else if ltb 0 t.quantum
      then ok (
        esp,
        record s {
          threads =
              write s.threads s.p_current_task
                (record t { time = add32 t.time 1; quantum = sub32 t.quantum 1 });
        },
      )
      else switch fuel esp s

  -- `yield`: the rest of the slice is given up, and interrupt 0x20 calls the switch with the stack
  -- pointer `esp` that it has after saving the registers.
  unfoldable pub yield_task : ℕ → ℕ → Sched H L → Run (ℕ × Sched H L)
  unfolding task_switch
  yield_task fuel esp s =
      let t = s.threads s.p_current_task in
      task_switch fuel esp
        (record s { threads = write s.threads s.p_current_task (record t { quantum = 0 }) })

  -- `kill`, up to its call of `yield`.
  unfoldable pub mark_killed : ThreadList L → Sched H L → Sched H L
  mark_killed ls s =
      let t = s.threads s.p_current_task in
      record s {
        threads = write s.threads s.p_current_task (record t { status = zombie });
        l_threads = ls.list_del s.p_current_task s.l_threads;
        p_threads = set s.p_threads s.current_task 0;
      }

  unfoldable pub kill : ThreadList L → ℕ → ℕ → Sched H L → Run (ℕ × Sched H L)
  unfolding mark_killed yield_task
  kill ls fuel esp s = yield_task fuel esp (mark_killed ls s)

  -- `p_nice`, and `nice`, its case of the running thread.
  unfoldable pub p_nice : ℕ → ℤ → Sched H L → Sched H L
  p_nice p new_priority s =
      if ltb_ℤ (negsuc (int_per_slice - 1)) new_priority && ltb_ℤ new_priority (pos int_per_slice)
      then record s {
        threads = write s.threads p (record (s.threads p) { priority = new_priority });
      }
      else s

  unfoldable pub nice : ℤ → Sched H L → Sched H L
  unfolding p_nice
  nice new_priority s = p_nice s.p_current_task new_priority s
