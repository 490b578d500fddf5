-- ===== src/Process/Create/Slot.antt =====
-- `create_kernel_thread`: what it builds, and where it goes wrong.
use ktux.Base.{
  ℕ, ◌+◌, ◌≤◌, ◌<◌, ◌^◌, ◌≡◌, refl, sym, ap, ◌∙◌, ◌≢◌, ◌⊎◌, inl, inr, List, [], ◌∷◌, length, write,
  write_self, write-ne, get_or, set, get_or-set_self, get_or-set_ne, length-set, lt→ltb, ge→ltb,
  ne→==, add32, arith,
}
use ktux.Base.Run.{ok, fault}
use ktux.Base.Int.{pos}
use ktux.Process.{max_threads, stack_size, thread_size, ready, Sched, Allocator, ThreadList}
use ktux.Process.Invariant.{IsValid, update-IsValid}
use ktux.Process.Create.{push_all, first_frame, new_thread, create_kernel_thread}
use ktux.Process.Create.Frame.{pop_all, IsPushed, push_all-IsPushed}

module _ {H L : Type 0} (al : Allocator H) (ls : ThreadList L) (name : List ℕ) (eip : ℕ)
    (s : Sched H L) where
  -- What the two calls of `kmalloc` return.
  abbrev pub thread_of : ℕ
  thread_of = (al.kmalloc thread_size s.heap).0

  abbrev pub base_of : ℕ
  base_of = (al.kmalloc stack_size (al.kmalloc thread_size s.heap).1).0

  abbrev pushed : ℕ × (ℕ → ℕ)
  pushed = push_all (first_frame eip) (base_of + stack_size, s.words)

  abbrev created : Sched H L
  created = record s {
    num_threads = s.num_threads + 1;
    heap = (al.kmalloc stack_size (al.kmalloc thread_size s.heap).1).1;
    words = pushed.1;
    threads = write s.threads thread_of (new_thread name s.num_threads pushed.0 base_of);
    l_threads = ls.list_add thread_of s.l_threads;
    p_threads = set s.p_threads s.num_threads thread_of;
  }

  -- A thread that is ready at the top of its stack, and nothing else changed but the list, the
  -- heap and the count.
  pub record IsCreated (s' : Sched H L) : Type 0 where
    pub slot : get_or s'.p_threads s.num_threads 0 ≡ thread_of
    pub others : (j : ℕ) → j ≢ s.num_threads → get_or s'.p_threads j 0 ≡ get_or s.p_threads j 0
    pub count : s'.num_threads ≡ s.num_threads + 1
    pub listed : s'.l_threads ≡ ls.list_add thread_of s.l_threads
    pub fresh : s'.threads thread_of ≡ record {
      name = name;
      id = s.num_threads;
      priority = pos 0;
      status = ready;
      priv = 0;
      esp0 = base_of + 452;
      esp0base = base_of;
      cr3 = 0;
      time = 0;
      quantum = 0;
    }
    pub rest : (p : ℕ) → p ≢ thread_of → s'.threads p ≡ s.threads p
    pub frame :
        pop_all 15 (base_of + 452) s'.words
        ≡ 0x20 ∷ 0x20 ∷ 0x20 ∷ 0x20 ∷ 0 ∷ 0 ∷ 0 ∷ 0 ∷ 0 ∷ 0 ∷ 0 ∷ 0 ∷ eip ∷ 0x18 ∷ 0x202 ∷ []
    pub outside :
        (q : ℕ) → (q < base_of + 452) ⊎ (base_of + stack_size ≤ q) → s'.words q ≡ s.words q
    pub valid : IsValid s → IsValid s'

  create-created :
      s.num_threads < max_threads
      → thread_of ≢ 0
      → base_of + stack_size < 2 ^ 32
      → create_kernel_thread al ls name eip s ≡ ok (s.num_threads, created)
  unfolding create_kernel_thread
  create-created room got fits =
      let top : add32 base_of stack_size ≡ base_of + stack_size = omega arith in
      let count : add32 s.num_threads 1 ≡ s.num_threads + 1 = omega arith in
      rw (ne→== thread_of 0 got, lt→ltb s.num_threads max_threads room, top, count)

  created-IsValid : s.num_threads < max_threads → IsValid s → IsValid created
  unfolding new_thread
  created-IsValid room v =
      let u =
        update-IsValid thread_of (new_thread name s.num_threads pushed.0 base_of) v
          (refl, refl, omega arith) (λ e. cc) in
      record {
        slots = record {
          slots = length-set s.p_threads s.num_threads thread_of ∙ v.slots.slots;
          count = omega arith;
          current = omega (arith, v.slots.current);
        };
        calm = u.calm;
        sole = u.sole;
      }

  frame-IsPushed :
      base_of + stack_size < 2 ^ 32
      → IsPushed (first_frame eip) (base_of + stack_size) s.words pushed
  unfolding first_frame
  frame-IsPushed fits =
      push_all-IsPushed (first_frame eip) (base_of + stack_size) s.words (omega arith) fits

  frame_outside :
      IsPushed (first_frame eip) (base_of + stack_size) s.words pushed
      → pushed.0 ≡ base_of + 452
      → (q : ℕ) → (q < base_of + 452) ⊎ (base_of + stack_size ≤ q)
      → pushed.1 q ≡ s.words q
  frame_outside k sp q (inl h) = k.below q (omega (arith, sp))
  frame_outside k sp q (inr h) = k.above q h

  created-IsCreated :
      length s.p_threads ≡ max_threads
      → s.num_threads < max_threads
      → base_of + stack_size < 2 ^ 32
      → IsCreated created
  unfolding first_frame new_thread
  created-IsCreated slots room fits =
      let k = frame-IsPushed fits in
      let sp : pushed.0 ≡ base_of + 452 = omega (arith, k.moved) in
      record {
        slot = get_or-set_self s.p_threads s.num_threads thread_of 0 (omega arith);
        others = λ j ne. get_or-set_ne s.p_threads s.num_threads j thread_of 0 (λ e. ne (sym e));
        count = refl;
        listed = refl;
        fresh =
            write_self s.threads thread_of _ ∙ ap (λ a. new_thread name s.num_threads a base_of) sp;
        rest = λ p ne. write-ne s.threads thread_of p _ ne;
        frame = ap (λ a. pop_all 15 a pushed.1) (sym sp) ∙ k.popped;
        outside = λ q h. frame_outside k sp q h;
        valid = created-IsValid room;
      }

  -- With a slot left in `pThreads`, a structure allocated and a stack that does not wrap,
  -- `create_kernel_thread` answers the count of threads before it as the PID, and the new thread is
  -- set up: its structure says that it is ready, of priority 0 and without quantum or time, with
  -- that PID and its stack pointer 60 bytes below the top of the new stack; it has its slot and its
  -- entry in the list; and what will be popped from its stack are the kernel's data selector four
  -- times, eight registers of 0, the address of its function, the kernel's code selector and the
  -- flags 0x202, with which interrupts are taken. Other structures, slots and words of memory stay.
  pub create-IsCreated :
      length s.p_threads ≡ max_threads
      → s.num_threads < max_threads
      → thread_of ≢ 0
      → base_of + stack_size < 2 ^ 32
      → (s' : Sched H L) × (create_kernel_thread al ls name eip s ≡ ok (s.num_threads, s'))
        × IsCreated s'
  create-IsCreated slots room got fits =
      (created, create-created room got fits, created-IsCreated slots room fits)

  -- With 1024 threads or more and a structure allocated, `create_kernel_thread` writes the new
  -- thread's slot behind the end of `pThreads`.
  create_overflow :
      max_threads ≤ s.num_threads → thread_of ≢ 0 → create_kernel_thread al ls name eip s ≡ fault
  unfolding create_kernel_thread
  create_overflow full got = rw (ne→== thread_of 0 got, ge→ltb s.num_threads max_threads full)
