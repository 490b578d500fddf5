-- ===== src/Memory/Heap/Clear.antt =====
-- `memsetd` on a block of the heap whose pages are all mapped.
use mathlib.Core.Option.{some-injective}
use ktux.Base.{
  ℕ, zero, suc, ◌+◌, ◌-◌, ◌*◌, ◌/◌, ◌%◌, ◌^◌, ◌≤◌, ◌<◌, ◌≡◌, refl, sym, ap, ◌∙◌, some, write,
  write_self, write-ne, ◌==◌, ==_iff, Bool-cases, inl, inr, add32, arith,
}
use ktux.Base.Run.{ok, ◌>>=◌}
use ktux.Memory.Address.{p_kernel_page_directory, p_page_table_heap_1, v_kernel_heap_addr}
use ktux.Memory.Heap.{store_heap, clear}
use ktux.Memory.Heap.Space.{IsHeapSpace}
use ktux.Memory.Heap.Faults.{InHeap, word_of-heap}
use ktux.Memory.Heap.Grow.{IsSameHeap}
use ktux.Memory.Paging.{Mmu, Vm, store}
use ktux.Memory.Paging.Walk.{walk, Walks, walk-alike}

-- The `count` words from `a` on are mapped to memory behind the tables.
abbrev pub IsBacked : Vm → ℕ → ℕ → Type 0
IsBacked m a count =
    (j : ℕ) → j < count → (p : ℕ) × (walk m.words m.cr3 (a + 4 * j) ≡ some p) × (0x8000 ≤ p)

-- Stores behind the tables: translations of the heap stay, and so do zeros.
pub record IsStored (m m' : Vm) : Type 0 where
  pub tables : (x : ℕ) → x < 0x8000 → m'.words x ≡ m.words x
  pub directory : m'.cr3 ≡ m.cr3
  pub same : IsSameHeap m m'
  pub zeros : (x : ℕ) → m.words x ≡ 0 → m'.words x ≡ 0

pub stored-IsHeapSpace : (m m' : Vm) → IsStored m m' → IsHeapSpace m → IsHeapSpace m'
stored-IsHeapSpace m m' stored space = record {
  space = record {
    directory = stored.directory ∙ space.space.directory;
    low = stored.tables 0x4000 (omega arith) ∙ space.space.low;
    seen = stored.tables 0x5010 (omega arith) ∙ space.space.seen;
    window = stored.tables 0x4F00 (omega arith) ∙ space.space.window;
  };
  heap = stored.tables 0x4D00 (omega arith) ∙ space.heap;
  heap_seen = stored.tables 0x501C (omega arith) ∙ space.heap_seen;
}

pub walk-stored :
    (m m' : Vm) (w : ℕ)
    → IsStored m m'
    → IsHeapSpace m
    → InHeap w
    → walk m'.words m'.cr3 w ≡ walk m.words m.cr3 w
walk-stored m m' w stored space inside =
    let at = word_of-heap m w space inside in
    let dir = stored.tables (p_kernel_page_directory + 4 * (w / 2 ^ 22)) (omega arith) in
    let entry =
      ap m'.words at
      ∙ stored.tables (p_page_table_heap_1 + 4 * (w / 4096 % 1024)) (omega arith)
      ∙ sym (ap m.words at) in
    ap (λ c. walk m'.words c w) (stored.directory ∙ space.space.directory)
    ∙ walk-alike m.words m'.words p_kernel_page_directory w dir entry
    ∙ ap (λ c. walk m.words c w) (sym space.space.directory)

write-zero : (f : ℕ → ℕ) (p x : ℕ) → f x ≡ 0 → write f p 0 x ≡ 0
write-zero f p x h = ground arith

IsStored-trans : (m m1 m' : Vm) → IsStored m m1 → IsStored m1 m' → IsStored m m'
IsStored-trans m m1 m' one two = record {
  tables = λ x h. two.tables x h ∙ one.tables x h;
  directory = two.directory ∙ one.directory;
  same = record {
    limit = two.same.limit ∙ one.same.limit;
    end = two.same.end ∙ one.same.end;
    free = two.same.free ∙ one.same.free;
  };
  zeros = λ x h. two.zeros x (one.zeros x h);
}

module _ (mmu : Mmu) (walks : Walks mmu) (fuel eip : ℕ) where
  store_heap-lem :
      (a v p : ℕ) (m : Vm)
      → a % 4 ≡ 0
      → a < 2 ^ 32
      → walk m.words m.cr3 a ≡ some p
      → store_heap mmu (suc fuel) eip a v m ≡ ok (record m { words = write m.words p v })
  unfolding store_heap store
  store_heap-lem a v p m aligned small seen =
      rw (store_heap, walks m.words m.cr3 a small, seen, aligned, walks m.words m.cr3 a small, seen)
        refl

  pub clear-IsStored :
      (count a : ℕ) (m : Vm)
      → a % 4 ≡ 0
      → v_kernel_heap_addr ≤ a
      → a + 4 * count ≤ v_kernel_heap_addr + 4194304
      → IsHeapSpace m
      → IsBacked m a count
      → (m' : Vm) × (clear mmu (suc fuel) eip a count m ≡ ok m')
        × IsStored m m'
        × ((j p : ℕ) → j < count → walk m.words m.cr3 (a + 4 * j) ≡ some p → m'.words p ≡ 0)
  unfolding clear
  clear-IsStored zero a m aligned low high space backed = (
    m,
    refl,
    record {
      tables = λ x h. refl;
      directory = refl;
      same = record { limit = refl; end = refl; free = refl };
      zeros = λ x h. h;
    },
    λ j p h e. absurd (omega arith),
  )
  clear-IsStored (suc count) a m aligned low high space backed =
      let (p, seen, behind) = backed 0 (omega arith) in
      let at : a + 4 * 0 ≡ a = omega arith in
      let m1 = record m { words = write m.words p 0 } in
      let one : IsStored m m1 = record {
        tables = λ x h. write-ne m.words p x 0 (omega arith);
        directory = refl;
        same = record { limit = refl; end = refl; free = refl };
        zeros = λ x h. write-zero m.words p x h;
      } in
      let rest = λ (n : Vm). clear mmu (suc fuel) eip (add32 a 4) count n in
      let next : add32 a 4 ≡ a + 4 = omega arith in
      let shift = λ (j : ℕ). let e : a + 4 + 4 * j ≡ a + 4 * suc j = omega arith in e in
      let kept = λ (j : ℕ) (h : j < count).
        walk-stored m m1 (a + 4 + 4 * j) one space (omega arith, omega arith)
        ∙ ap (λ w. walk m.words m.cr3 w) (shift j) in
      let backed1 : IsBacked m1 (a + 4) count =
        λ j h. let (q, e, b) = backed (suc j) (omega arith) in (q, kept j h ∙ e, b) in
      let (m', run, stored, cleared) =
        clear-IsStored count (a + 4) m1 (omega arith) (omega arith) (omega arith)
          (stored-IsHeapSpace m m1 one space) backed1 in
      (
        m',
        ap (λ r. r >>= rest)
              (store_heap-lem a 0 p m aligned (omega arith)
                (sym (ap (λ w. walk m.words m.cr3 w) at) ∙ seen))
            ∙ ap (λ b. clear mmu (suc fuel) eip b count m1) next
            ∙ run,
        IsStored-trans m m1 m' one stored,
        λ j q h e. elim (Bool-cases (j == 0)) [
          | inl first ↦
              let z : a + 4 * j ≡ a + 4 * 0 = omega (arith, (==_iff j 0).0 first) in
              let same : q ≡ p =
                some-injective q p (sym e ∙ ap (λ w. walk m.words m.cr3 w) z ∙ seen) in
              stored.zeros q (ap m1.words same ∙ write_self m.words p 0)
          | inr later ↦
              let pos : 0 < j = ground arith in
              let z : a + 4 + 4 * (j - 1) ≡ a + 4 * j = omega arith in
              cleared (j - 1) q (omega arith) (
                walk-stored m m1 (a + 4 + 4 * (j - 1)) one space (omega arith, omega arith)
                ∙ ap (λ w. walk m.words m.cr3 w) z
                ∙ e)
        ],
      )
