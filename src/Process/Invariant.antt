-- ===== src/Process/Invariant.antt =====
-- What every function of process.c keeps: the slots in use lie in `pThreads`, priorities and
-- quanta are in range, and no thread but `pCurrentTask` is marked as running.
use native.Mathlib.Decide.{ℕ_discrete}
use ktux.Base.{
  ℕ, zero, suc, ◌-◌, ◌*◌, ◌≤◌, ◌<◌, ◌≡◌, refl, sym, subst, ◌∙◌, ◌≢◌, inl, inr, true, ◌&&◌, ltb,
  ltb→lt, ◌==◌, ==_refl, ne→==, Bool-cases, get_or, length-set, write, List, arith,
}
use ktux.Base.Int.{ℤ, pos, negsuc, ltb_ℤ}
use ktux.Base.Run.{ok, >>=-eq-ok, ok-injective}
use ktux.Process.{
  max_threads, int_per_slice, zombie, running, Thread, quantum_amount, Sched, ThreadList, retire,
  advance, dispatch, find, switch, task_switch, yield_task, mark_killed, kill, p_nice,
}
use ktux.Process.Search.{advance_lem}
use ktux.Process.Switch.{HasSlots, retired, tick-used}

-- `nice` lets no other priority in, and a quantum is below two slices.
abbrev pub IsCalm : Thread → Type 0
IsCalm t =
    (ltb_ℤ (negsuc (int_per_slice - 1)) t.priority ≡ true)
    × (ltb_ℤ t.priority (pos int_per_slice) ≡ true)
    × (t.quantum < 2 * int_per_slice)

-- A calm thread gets at least one tick, and less than two slices.
pub quantum_amount_bounds :
    (t : Thread) → IsCalm t → (0 < quantum_amount t) × (quantum_amount t < 2 * int_per_slice)
unfolding quantum_amount
quantum_amount_bounds t calm = ground arith

write-all {ℓ} :
    (P : ℕ → Thread → Type ℓ) (m : ℕ → Thread) (p : ℕ) (v : Thread)
    → ((q : ℕ) → q ≢ p → P q (m q))
    → P p v
    → (q : ℕ) → P q (write m p v q)
write-all P m p v old new q = elim (ℕ_discrete q p) [
  | yes e ↦ rw (e, ==_refl p) new
  | no ne ↦ rw (ne→== q p ne) (old q ne)
]

retire-IsCalm : (esp : ℕ) (t : Thread) → IsCalm t → IsCalm (retire esp t)
unfolding retire
retire-IsCalm esp t calm = ground arith

retire-ne-running : (esp : ℕ) (t : Thread) → t.quantum ≡ 0 → (retire esp t).status ≢ running
unfolding retire
retire-ne-running esp t q = ground arith

find-lt :
    (f : ℕ) (ts : List ℕ) (mem : ℕ → Thread) (n cur c : ℕ)
    → n ≤ max_threads
    → cur < n
    → find f ts mem n cur ≡ ok c
    → c < n
unfolding find
find-lt zero ts mem n cur c small h e = cc
find-lt (suc f) ts mem n cur c small h e =
    let within : advance n cur < n = (advance_lem n cur h small).0 in
    ground (arith, find-lt f ts mem n (advance n cur) c small within)

module _ {H L : Type 0} where
  pub record IsValid (s : Sched H L) : Type 0 where
    pub slots : HasSlots s
    pub calm : (p : ℕ) → IsCalm (s.threads p)
    pub sole : (p : ℕ) → (s.threads p).status ≡ running → p ≡ s.p_current_task

  -- A new value of one thread keeps the invariant if it is calm, and marks none but the current
  -- one as running.
  pub update-IsValid :
      (p : ℕ) (t : Thread) {s : Sched H L}
      → IsValid s
      → IsCalm t
      → (t.status ≡ running → p ≡ s.p_current_task)
      → IsValid (record s { threads = write s.threads p t })
  update-IsValid p t {s} v calm sole = record {
    slots = record { slots = v.slots.slots; count = v.slots.count; current = v.slots.current };
    calm = write-all (λ _ t. IsCalm t) s.threads p t (λ q _. v.calm q) calm;
    sole =
        write-all (λ q t. t.status ≡ running → q ≡ s.p_current_task) s.threads p t (λ q _. v.sole q)
          sole;
  }

  -- The thread that gets the processor is marked as running, and it alone.
  dispatch-IsValid :
      (c : ℕ) {s : Sched H L}
      → HasSlots s
      → ((p : ℕ) → IsCalm (s.threads p))
      → ((p : ℕ) → (s.threads p).status ≢ running)
      → c < s.num_threads
      → IsValid (dispatch c s).1
  unfolding dispatch
  dispatch-IsValid c {s} slots calm idle h =
      let p = get_or s.p_threads c 0 in
      record {
        slots = record { slots = slots.slots; count = slots.count; current = h };
        calm =
            write-all (λ _ t. IsCalm t) s.threads p _ (λ q _. calm q)
              (let k = calm p in (k.0, k.1, (quantum_amount_bounds (s.threads p) k).1));
        sole =
            write-all (λ q t. t.status ≡ running → q ≡ p) s.threads p _ (λ q _ e. absurd (idle q e))
              (λ _. refl);
      }

  switch-IsValid :
      (fuel esp : ℕ) {s : Sched H L} {r : ℕ × Sched H L}
      → IsValid s
      → (s.threads s.p_current_task).quantum ≡ 0
      → switch fuel esp s ≡ ok r
      → IsValid r.1
  unfolding switch
  switch-IsValid fuel esp {s} {r} v q e =
      let p = s.p_current_task in
      let (c, found, next) = >>=-eq-ok (find fuel s.p_threads (retired esp s) _ _) _ e in
      subst (λ x. IsValid x.1) (ok-injective next)
        (dispatch-IsValid c {s = record s { threads = retired esp s }}
          (record { slots = v.slots.slots; count = v.slots.count; current = v.slots.current })
          (write-all (λ _ t. IsCalm t) s.threads p _ (λ k _. v.calm k)
            (retire-IsCalm esp (s.threads p) (v.calm p)))
          (write-all (λ _ t. t.status ≢ running) s.threads p _ (λ k ne e. ne (v.sole k e))
            (retire-ne-running esp (s.threads p) q))
          (find-lt fuel s.p_threads (retired esp s) s.num_threads s.current_task c v.slots.count
            v.slots.current found))

  -- The timer interrupt, whenever it returns, keeps the invariant: the slots in use and the current
  -- one lie in `pThreads`, each priority and quantum is in its range, and no thread but the current
  -- one is marked as running.
  pub task_switch-IsValid :
      (fuel esp : ℕ) {s : Sched H L} {r : ℕ × Sched H L}
      → IsValid s
      → task_switch fuel esp s ≡ ok r
      → IsValid r.1
  unfolding task_switch
  task_switch-IsValid fuel esp {s} {r} v e =
      let q = (s.threads s.p_current_task).quantum in
      elim (Bool-cases (s.p_current_task == 0)) [
        | inl off ↦ subst (λ x. IsValid x.1) (ok-injective (rw off at e)) v
        | inr on ↦
            let live : s.p_current_task ≢ 0 = ground arith in
            elim (Bool-cases (ltb 0 q)) [
              | inl left ↦
                  let used =
                    tick-used fuel esp s live (ltb→lt 0 q left)
                      (omega (arith, (v.calm s.p_current_task).2)) in
                  subst (λ x. IsValid x.1) (ok-injective (sym used ∙ e))
                    (update-IsValid s.p_current_task _ v (ground (arith, v.calm s.p_current_task))
                      (λ _. refl))
              | inr over ↦ switch-IsValid fuel esp v (ground arith) (rw (on, over) at e)
            ]
      ]

  yield_task-IsValid :
      (fuel esp : ℕ) {s : Sched H L} {r : ℕ × Sched H L}
      → IsValid s
      → yield_task fuel esp s ≡ ok r
      → IsValid r.1
  unfolding yield_task
  yield_task-IsValid fuel esp {s} v e =
      task_switch-IsValid fuel esp
        (update-IsValid s.p_current_task _ v (ground (arith, v.calm s.p_current_task)) (λ _. refl))
        e

  mark_killed-IsValid : (ls : ThreadList L) {s : Sched H L} → IsValid s → IsValid (mark_killed ls s)
  unfolding mark_killed
  mark_killed-IsValid ls {s} v =
      let u =
        update-IsValid s.p_current_task (record (s.threads s.p_current_task) { status = zombie }) v
          (v.calm s.p_current_task) (λ _. refl) in
      record {
        slots = record {
          slots = length-set s.p_threads s.current_task 0 ∙ v.slots.slots;
          count = v.slots.count;
          current = v.slots.current;
        };
        calm = u.calm;
        sole = u.sole;
      }

  -- `kill`, whenever it returns, keeps the same invariant on slots, priorities, quanta and the one
  -- thread that is marked as running.
  kill-IsValid :
      (ls : ThreadList L) (fuel esp : ℕ) {s : Sched H L} {r : ℕ × Sched H L}
      → IsValid s
      → kill ls fuel esp s ≡ ok r
      → IsValid r.1
  unfolding kill
  kill-IsValid ls fuel esp {s} v e = yield_task-IsValid fuel esp (mark_killed-IsValid ls v) e

  -- `p_nice` keeps the same invariant, in particular the range of the priorities, for any thread
  -- and whatever new priority it is given.
  p_nice-IsValid :
      (p : ℕ) (new_priority : ℤ) {s : Sched H L} → IsValid s → IsValid (p_nice p new_priority s)
  unfolding p_nice
  p_nice-IsValid p new {s} v =
      elim (Bool-cases (ltb_ℤ (negsuc (int_per_slice - 1)) new && ltb_ℤ new (pos int_per_slice))) [
        | inl fits ↦ rw fits (
            update-IsValid p (record (s.threads p) { priority = new }) v (ground (arith, v.calm p))
              (v.sole p))
        | inr not_in ↦ rw not_in v
      ]
