-- ===== src/Kernel/Threads.antt =====
-- The threads that `init_multitasking` creates, when memory is handed out.
use ktux.Base.{
  ℕ, ◌+◌, ◌<◌, ◌≡◌, ◌≢◌, refl, ap, ◌∙◌, List, replicate, get_or, set, get_or-set_self,
  get_or-set_ne, length-replicate, lt→ltb, ne→==, add32, write, arith,
}
use ktux.Base.Run.{ok}
use ktux.Process.{max_threads, stack_size, thread_size, Sched, Allocator, ThreadList}
use ktux.Process.Create.{push_all, first_frame, new_thread, create_kernel_thread, init_multitasking}

-- `kmalloc` never runs out of memory.
abbrev pub HandsOut : {H : Type 0} → Allocator H → Type 0
HandsOut {H} al = (n : ℕ) (h : H) → (al.kmalloc n h).0 ≢ 0

module _ {H L : Type 0} (al : Allocator H) (ls : ThreadList L) (handed : HandsOut al) where
  create_slot :
      (name : List ℕ) (eip n : ℕ) (s : Sched H L)
      → s.num_threads ≡ n
      → n < max_threads
      → (s' : Sched H L) × (create_kernel_thread al ls name eip s ≡ ok (n, s'))
        × (s'.num_threads ≡ n + 1)
        × (s'.p_threads ≡ set s.p_threads n (al.kmalloc thread_size s.heap).0)
  unfolding create_kernel_thread
  create_slot name eip n s count room =
      let (thread, h1) = al.kmalloc thread_size s.heap in
      let (base, h2) = al.kmalloc stack_size h1 in
      let (stack, words) = push_all (first_frame eip) (add32 base stack_size, s.words) in
      (
        record s {
          heap = h2;
          num_threads = add32 n 1;
          words = words;
          threads = write s.threads thread (new_thread name n stack base);
          l_threads = ls.list_add thread s.l_threads;
          p_threads = set s.p_threads n thread;
        },
        rw (ne→== thread 0 (handed thread_size s.heap), count, lt→ltb n max_threads room) refl,
        omega arith,
        refl,
      )

  create_later :
      (name : List ℕ) (eip n : ℕ) (s : Sched H L)
      → s.num_threads ≡ n
      → n < max_threads
      → n ≢ 0
      → (s' : Sched H L) × (create_kernel_thread al ls name eip s ≡ ok (n, s'))
        × (s'.num_threads ≡ n + 1)
        × (get_or s'.p_threads 0 0 ≡ get_or s.p_threads 0 0)
  create_later name eip n s count room later =
      let (s', run, next, slots) = create_slot name eip n s count room in
      (
        s',
        run,
        next,
        ap (λ l. get_or l 0 0) slots ∙ get_or-set_ne s.p_threads n 0 _ 0 (λ e. later (omega arith)),
      )

  -- Five threads, of which the first is the first that is allocated.
  pub init_multitasking_lem :
      (name : ℕ → List ℕ) (entry : ℕ → ℕ) (s : Sched H L)
      → (s' : Sched H L) × (init_multitasking al ls name entry s ≡ ok s')
        × (s'.num_threads ≡ 5)
        × (get_or s'.p_threads 0 0 ≡ (al.kmalloc thread_size s.heap).0)
  unfolding init_multitasking
  init_multitasking_lem name entry s =
      let s0 = record s { num_threads = 0; p_threads = replicate max_threads 0 } in
      let (a, ra, na, slots) = create_slot (name 0) 0 0 s0 refl (omega arith) in
      let (b, rb, nb, kb) = create_later (name 1) (entry 1) 1 a na (omega arith) (omega arith) in
      let (c, rc, nc, kc) = create_later (name 2) (entry 2) 2 b nb (omega arith) (omega arith) in
      let (d, rd, nd, kd) = create_later (name 3) (entry 3) 3 c nc (omega arith) (omega arith) in
      let (e, re, ne, ke) = create_later (name 4) (entry 4) 4 d nd (omega arith) (omega arith) in
      let own : get_or a.p_threads 0 0 ≡ (al.kmalloc thread_size s.heap).0 =
        ap (λ l. get_or l 0 0) slots
        ∙ get_or-set_self (replicate max_threads 0) 0 _ 0
            (omega (arith, length-replicate {A = ℕ} max_threads 0)) in
      (e, rw (ra, rb, rc, rd, re) refl, ne, ke ∙ kd ∙ kc ∙ kb ∙ own)
