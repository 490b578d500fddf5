-- ===== src/Process/Create.antt =====
-- src/kernel/process.c: new threads, and the start of the scheduler.
pub mod Frame
pub mod Slot
use ktux.Base.{
  ℕ, ◌+◌, ◌≡◌, Bool, List, [], ◌∷◌, ltb, ◌==◌, if◌then◌else◌, get_or, set, replicate, write, add32,
  sub32,
}
use ktux.Base.Int.{ℤ, pos}
use ktux.Base.Run.{Run, ok, fault, ◌>>=◌}
use ktux.Pic.{Ports, Pic, enable_irq}
use ktux.Process.{
  max_threads, stack_size, thread_size, Status, ready, Thread, Sched, Allocator, ThreadList,
}

-- include/selectors.h.
abbrev pub kernel_code_selector : ℕ
kernel_code_selector = 0x18

abbrev pub kernel_data_selector : ℕ
kernel_data_selector = 0x20

-- `*--stack = value`, on the stack pointer and the words of memory.
unfoldable pub push : ℕ → ℕ × (ℕ → ℕ) → ℕ × (ℕ → ℕ)
push value (sp, words) = (sub32 sp 4, write words (sub32 sp 4) value)

unfoldable pub push_all : List ℕ → ℕ × (ℕ → ℕ) → ℕ × (ℕ → ℕ)
push_all [] st = st
push_all (v ∷ vs) st = push_all vs (push v st)

-- What `create_kernel_thread` pushes, in order: EFLAGS, CS, EIP, the eight registers of PUSHA, and
-- DS, ES, FS, GS.
unfoldable pub first_frame : ℕ → List ℕ
first_frame eip =
    0x0202 ∷ kernel_code_selector ∷ eip ∷ 0 ∷ 0 ∷ 0 ∷ 0 ∷ 0 ∷ 0 ∷ 0 ∷ 0 ∷ kernel_data_selector
    ∷ kernel_data_selector ∷ kernel_data_selector ∷ kernel_data_selector ∷ []

-- The structure that the function fills in. `kmalloc` clears memory, so that `cr3` is 0.
unfoldable pub new_thread : List ℕ → ℕ → ℕ → ℕ → Thread
new_thread name id esp0 esp0base = record {
  name = name;
  id = id;
  priority = pos 0;
  status = ready;
  priv = 0;
  esp0 = esp0;
  esp0base = esp0base;
  cr3 = 0;
  time = 0;
  quantum = 0;
}

module _ {H L : Type 0} where
  -- `alloc_pid`.
  unfoldable pub alloc_pid : Sched H L → ℕ × Sched H L
  alloc_pid s = (s.num_threads, record s { num_threads = add32 s.num_threads 1 })

  -- `start_scheduler`, which enables the timer's line.
  unfoldable pub start_scheduler :
      {W : Type 0} → Ports W → Pic W → Sched H L → Run (Pic W × Sched H L)
  unfolding enable_irq
  start_scheduler io pic s =
      let p = get_or s.p_threads 0 0 in
      let started = record s {
        current_task = 0;
        p_current_task = p;
        threads = write s.threads p (record (s.threads p) { time = 0; quantum = 0 });
      } in
      let enabled = enable_irq io 0 pic >>= λ r. ok (r.1, started) in
      if s.num_threads == max_threads then ok (pic, s) else enabled

module _ {H L : Type 0} (al : Allocator H) (ls : ThreadList L) where
  -- The part of `create_kernel_thread` behind the two allocations: `thread` and `base` are what
  -- they returned. A slot outside `pThreads` is a fault.
  unfoldable pub fill_thread : ℕ → ℕ → List ℕ → ℕ → Sched H L → Run (ℕ × Sched H L)
  unfolding alloc_pid
  fill_thread thread base name eip s =
      let (stack, words) = push_all (first_frame eip) (add32 base stack_size, s.words) in
      let (id, s') = alloc_pid s in
      if ltb id max_threads
      then ok (
        id,
        record s' {
          words = words;
          threads = write s.threads thread (new_thread name id stack base);
          l_threads = ls.list_add thread s.l_threads;
          p_threads = set s.p_threads id thread;
        },
      )
      else fault

  -- `create_kernel_thread`; `name` is the 64 bytes that it copies from its argument. The second
  -- allocation is not tested, as in the source.
  unfoldable pub create_kernel_thread : List ℕ → ℕ → Sched H L → Run (ℕ × Sched H L)
  unfolding fill_thread
  create_kernel_thread name eip s =
      let (thread, h1) = al.kmalloc thread_size s.heap in
      let (base, h2) = al.kmalloc stack_size h1 in
      if thread == 0
      then ok (0, record s { heap = h1 })
      else fill_thread thread base name eip (record s { heap = h2 })

  -- `init_multitasking`: the thread that is running already, which gets its registers at the first
  -- interrupt, and the four of tasks.c. `name` and `entry` are the bytes at the names and the
  -- addresses of the functions.
  unfoldable pub init_multitasking : (ℕ → List ℕ) → (ℕ → ℕ) → Sched H L → Run (Sched H L)
  unfolding create_kernel_thread
  init_multitasking name entry s = do
    a ←
        create_kernel_thread (name 0) 0
          (record s { num_threads = 0; p_threads = replicate max_threads 0 })
    b ← create_kernel_thread (name 1) (entry 1) a.1
    c ← create_kernel_thread (name 2) (entry 2) b.1
    d ← create_kernel_thread (name 3) (entry 3) c.1
    e ← create_kernel_thread (name 4) (entry 4) d.1
    ok e.1
