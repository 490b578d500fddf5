-- ===== src/Process/Tests.antt =====
-- The scheduler on two threads, and the theorems about it at that state.
use ktux.Base.{
  ℕ, ◌+◌, ◌≡◌, refl, ◌≢◌, List, [], ◌∷◌, replicate, write, set, if◌then◌else◌, ◌==◌, arith,
}
use ktux.Base.Int.{pos}
use ktux.Base.Run.{ok, out_of_fuel}
use ktux.Process.{
  max_threads, ready, running, free, Thread, Sched, Allocator, ThreadList, runnable, dispatch,
  task_switch, kill,
}
use ktux.Process.Search.{IsNext}
use ktux.Process.Switch.{HasSlots, retired, ticks, used_ticks, ticks-used, task_switch-IsNext}
use ktux.Process.Kill.{killed, kill-IsNext, kill_spins}
use ktux.Process.Invariant.{IsValid, task_switch-IsValid}
use ktux.Process.Context.{IsSwitched, task_switch-IsSwitched}
use ktux.Process.Create.{new_thread, create_kernel_thread}
use ktux.Process.Create.Slot.{create-IsCreated, IsCreated}

-- A heap that hands out addresses upwards, and a list that is the list of its entries.
abbrev bump : Allocator ℕ
bump = record { kmalloc = λ n h. (h, h + n) }

abbrev remove : ℕ → List ℕ → List ℕ
remove p [] = []
remove p (q ∷ qs) = if p == q then qs else q ∷ remove p qs

abbrev entries : ThreadList (List ℕ)
entries = record { list_add = λ p l. p ∷ l; list_del = remove }

abbrev thread_in : ℕ → ℕ → Thread
thread_in id esp = record (new_thread [] id esp 0x3000) { name = [] }

abbrev zero_thread : Thread
zero_thread = record {
  name = [];
  id = 0;
  priority = pos 0;
  status = free;
  priv = 0;
  esp0 = 0;
  esp0base = 0;
  cr3 = 0;
  time = 0;
  quantum = 0;
}

abbrev thread_a : Thread
thread_a = record zero_thread { status = running; quantum = 3; esp0base = 0x3000 }

abbrev thread_b : Thread
thread_b = record zero_thread { status = ready; id = 1; esp0 = 0x5000 }

abbrev pub two : Sched ℕ (List ℕ)
two = record {
  threads = write (write (λ _. zero_thread) 0x1000 thread_a) 0x2000 thread_b;
  p_threads = set (set (replicate max_threads 0) 0 0x1000) 1 0x2000;
  current_task = 0;
  p_current_task = 0x1000;
  num_threads = 2;
  words = λ _. 0;
  heap = 0x8000;
  l_threads = 0x2000 ∷ 0x1000 ∷ [];
}

-- The same, at the end of the slice.
abbrev late : Sched ℕ (List ℕ)
late = record two {
  threads =
      write (write (λ _. zero_thread) 0x1000 (record thread_a { quantum = 0 })) 0x2000 thread_b;
}

two-HasSlots : HasSlots two
two-HasSlots = record { slots = refl; count = omega arith; current = omega arith }

late-HasSlots : HasSlots late
late-HasSlots = record { slots = refl; count = omega arith; current = omega arith }

ticks-used_example : ticks 2 3 0x2ff0 two ≡ ok (0x2ff0, used_ticks 3 two)
ticks-used_example =
    ticks-used 2 3 0x2ff0 two (omega arith) (omega arith) (omega arith) (omega arith)

task_switch-IsNext_example :
    (c : ℕ) × (task_switch 2 0x2ff0 late
      ≡ ok (dispatch c (record late { threads = retired 0x2ff0 late })))
    × IsNext late.p_threads (retired 0x2ff0 late) 2 0 c
task_switch-IsNext_example =
    task_switch-IsNext 2 0x2ff0 late late-HasSlots (omega arith) refl refl (λ e. cc) (omega arith)

task_switch-IsSwitched_example :
    (c : ℕ) × (r : ℕ × Sched ℕ (List ℕ)) × (task_switch 2 0x2ff0 late ≡ ok r)
    × IsNext late.p_threads (retired 0x2ff0 late) 2 0 c
    × IsSwitched 0x2ff0 c late r
task_switch-IsSwitched_example =
    task_switch-IsSwitched 2 0x2ff0 late late-HasSlots (omega arith) refl refl (λ e. cc)
      (omega arith)

-- It is the other thread that follows.
switch_to_b : (elim (task_switch 2 0x2ff0 late) as (λ _. ℕ) [ ok r ↦ r.0 | _ ↦ 0 ]) ≡ 0x5000
unfolding task_switch runnable
switch_to_b = refl

kill-IsNext_example :
    (c : ℕ) × (kill entries 2 0x2ff0 two ≡ ok (dispatch c (killed entries two)))
    × (c ≢ 0)
    × IsNext (killed entries two).p_threads (killed entries two).threads 2 0 c
unfolding runnable
kill-IsNext_example =
    kill-IsNext entries 2 0x2ff0 1 two two-HasSlots (omega arith) (omega arith) (omega arith)
      (omega arith) refl (omega arith)

-- One thread alone.
abbrev alone : Sched ℕ (List ℕ)
alone = record two { num_threads = 1; p_threads = set (replicate max_threads 0) 0 0x1000 }

alone-HasSlots : HasSlots alone
alone-HasSlots = record { slots = refl; count = omega arith; current = omega arith }

kill_spins_example : kill entries 1000 0x2ff0 alone ≡ out_of_fuel
kill_spins_example =
    kill_spins entries 1000 0x2ff0 alone alone-HasSlots (omega arith)
      (λ j h ne. absurd (omega arith))

two-IsValid : IsValid two
two-IsValid = record { slots = two-HasSlots; calm = λ p. ground arith; sole = λ p h. ground arith }

task_switch-IsValid_example : IsValid (used_ticks 1 two)
unfolding task_switch
task_switch-IsValid_example =
    task_switch-IsValid 2 0x2ff0 {r = (0x2ff0, used_ticks 1 two)} two-IsValid refl

create-IsCreated_example :
    (s' : Sched ℕ (List ℕ)) × (create_kernel_thread bump entries [] 0xC0001000 two ≡ ok (2, s'))
    × IsCreated bump entries [] 0xC0001000 two s'
create-IsCreated_example =
    create-IsCreated bump entries [] 0xC0001000 two refl (omega arith) (omega arith) (omega arith)
