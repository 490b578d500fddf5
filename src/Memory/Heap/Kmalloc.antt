-- ===== src/Memory/Heap/Kmalloc.antt =====
-- `kmalloc` at the start of a page.
use ktux.Base.{
  ℕ, zero, suc, ◌+◌, ◌-◌, ◌*◌, ◌/◌, ◌%◌, ◌^◌, ◌≤◌, ◌<◌, ◌≡◌, refl, sym, ap, ◌∙◌, ◌∷◌, [], List,
  some, inl, inr, ◌==◌, ne→==, ltb, leb, Bool-cases, true, false, get_or, length, subst, AllBelow,
  add32, sub32, mul32, arith,
}
use ktux.Base.Run.{ok, ok-injective}
use ktux.Memory.Address.{v_kernel_heap_addr, page_size}
use ktux.Memory.FreeList.Scan.{AllOf}
use ktux.Memory.Frames.{Frames, alloc_page}
use ktux.Memory.Frames.Laws.{alloc_many}
use ktux.Memory.Heap.{kmalloc, hand_out, sbrk}
use ktux.Memory.Heap.Space.{IsHeapSpace}
use ktux.Memory.Heap.Faults.{IsHeapSpace-alike}
use ktux.Memory.Heap.Sbrk.{new_pages, sbrk-Maps}
use ktux.Memory.Heap.Remap.{inside_range}
use ktux.Memory.Heap.Clear.{IsBacked, stored-IsHeapSpace, walk-stored, clear-IsStored}
use ktux.Memory.Messages.{kmalloc1_format, kmalloc2_format, kmalloc3_format}
use ktux.Memory.Paging.{Mmu, Vm, print}
use ktux.Memory.Paging.Walk.{walk, Walks}

-- A frame behind the tables.
abbrev pub IsSafe : ℕ → Type 0
IsSafe f = (0x8000 ≤ f) × (f < 2 ^ 32)

IsSafe-AllBelow : (fs : List ℕ) → AllOf IsSafe fs → AllBelow (2 ^ 32) fs
IsSafe-AllBelow [] safe = tt
IsSafe-AllBelow (f ∷ fs) (s, safe) = (s.1, IsSafe-AllBelow fs safe)

IsSafe-get : (i : ℕ) (fs : List ℕ) → AllOf IsSafe fs → i < length fs → IsSafe (get_or fs i 0)
IsSafe-get i [] safe h = absurd (omega arith)
IsSafe-get zero (f ∷ fs) (s, safe) h = s
IsSafe-get (suc i) (f ∷ fs) (s, safe) h = IsSafe-get i fs safe (omega arith)

length-alloc_many : (k : ℕ) (fr : Frames) → length (alloc_many k fr).0 ≡ k
unfolding alloc_many
length-alloc_many zero fr = refl
length-alloc_many (suc k) fr = ap suc (length-alloc_many k (alloc_page fr).1)

-- The first `count` words at `base` are mapped to words of memory that hold 0.
abbrev pub AreZero : Vm → ℕ → ℕ → Type 0
AreZero m base count =
    (j : ℕ) → j < count → (p : ℕ) × (walk m.words m.cr3 (base + 4 * j) ≡ some p) × (m.words p ≡ 0)

-- A new block at the start of a page.
pub record IsNew (m : Vm) (nbytes fuel : ℕ) : Type 0 where
  pub asked : 0 < nbytes
  pub aligned : m.heap_mapped_limit % 4096 ≡ 0
  pub low : v_kernel_heap_addr ≤ m.heap_mapped_limit
  pub room : m.heap_mapped_limit + 4096 * ((nbytes + 4095) / 4096) ≤ v_kernel_heap_addr + 4194304
  pub safe : AllOf IsSafe (alloc_many ((nbytes + 4095) / 4096) m.frames).0
  pub space : IsHeapSpace m
  pub enough : (nbytes + 4095) / 4096 < fuel

module _ (mmu : Mmu) (walks : Walks mmu) (nbytes fuel : ℕ) (m : Vm)
    (new : IsNew m nbytes fuel) where
  abbrev count : ℕ
  count = (nbytes + 4095) / 4096

  sbrk-IsBacked :
      (m' : Vm) × (sbrk mmu fuel nbytes m ≡ ok (m.heap_mapped_limit, m'))
      × IsHeapSpace m'
      × (m'.heap_mapped_limit ≡ m.heap_mapped_limit + nbytes)
      × (m'.free_bytes ≡ m.free_bytes)
      × IsBacked m' m.heap_mapped_limit (nbytes / 4)
  sbrk-IsBacked =
      let limit = m.heap_mapped_limit in
      let base = limit / 4096 in
      let asked = new.asked in
      let aligned = new.aligned in
      let low = new.low in
      let room = new.room in
      let pages : new_pages nbytes limit ≡ count = omega arith in
      let frames = (alloc_many count m.frames).0 in
      let grown = λ (w : ℕ) (h : w < 2 ^ 32) (heap : w / 2 ^ 22 ≡ 0x340).
        sbrk-Maps mmu walks nbytes w h fuel m (omega (arith, new.enough)) (low, omega arith)
          (omega arith)
          (subst (λ k. AllBelow (2 ^ 32) (alloc_many k m.frames).0) (sym pages)
            (IsSafe-AllBelow frames new.safe))
          new.space (inl heap) in
      let (m', run, space, moved, _, free, _, _) = grown v_kernel_heap_addr (omega arith) refl in
      (
        m',
        run,
        space,
        moved,
        free,
        λ j h.
            let w = limit + 4 * j in
            let (m2, run2, _, _, _, _, _, mapped) = grown w (omega arith) (omega arith) in
            let same : m2 ≡ m' = ap (λ r. r.1) (ok-injective (sym run2 ∙ run)) in
            let frame =
              get_or (alloc_many (new_pages nbytes limit) m.frames).0 (w / 4096 - base) 0 in
            let s : IsSafe frame =
              subst (λ k. IsSafe (get_or (alloc_many k m.frames).0 (w / 4096 - base) 0)) (sym pages)
                (IsSafe-get (w / 4096 - base) frames new.safe
                  (omega (arith, length-alloc_many count m.frames))) in
            (
              frame / 4096 * 4096 + w % 4096,
              ap (λ n. walk n.words n.cr3 w) (sym same)
                  ∙ mapped
                  ∙ inside_range (new_pages nbytes limit) base
                      (alloc_many (new_pages nbytes limit) m.frames).0 (walk m.words m.cr3 w) w
                      (omega arith) (omega arith),
              omega (arith, s.0),
            ),
      )

  -- The end of the call, whichever branch made the block: the state of the heap stays.
  handed_out :
      (eip f : ℕ) (fmt : List ℕ) (n : Vm)
      → IsHeapSpace n
      → IsBacked n m.heap_mapped_limit (nbytes / 4)
      → (m' : Vm) × (hand_out mmu (suc f) eip fmt nbytes m.heap_mapped_limit n
          ≡ ok (m.heap_mapped_limit, m'))
        × IsHeapSpace m'
        × (m'.heap_mapped_limit ≡ n.heap_mapped_limit)
        × (m'.free_bytes ≡ n.free_bytes)
        × AreZero m' m.heap_mapped_limit (nbytes / 4)
  unfolding hand_out print
  handed_out eip f fmt n space backed =
      let limit = m.heap_mapped_limit in
      let (m1, run, stored, cleared) =
        clear-IsStored mmu walks f eip (nbytes / 4) limit n (omega arith) new.low (omega arith)
          space backed in
      let m' =
        print fmt (nbytes ∷ limit ∷ m1.kernel_heap_end ∷ m1.heap_mapped_limit ∷ m1.free_bytes ∷ [])
          m1 in
      (
        m',
        rw run refl,
        IsHeapSpace-alike m1 m' refl refl (stored-IsHeapSpace n m1 stored space),
        stored.same.limit,
        stored.same.free,
        λ j small.
            let (p, seen, _) = backed j small in
            (
              p,
              walk-stored n m1 (limit + 4 * j) stored space (omega arith, omega arith) ∙ seen,
              cleared j p small seen,
            ),
      )

short_sum : (free n : ℕ) → free ≡ 0 → ltb page_size n ≡ false → add32 free n ≡ n
short_sum free n z short = let h : n ≤ page_size = ground arith in omega arith

not_kept : (n free : ℕ) → 0 < n → free ≡ 0 → leb n free ≡ false
not_kept n free pos z = ground arith

-- When the limit is at the start of a page of the first 4 MB of the heap, the pages of the block
-- lie in those 4 MB, the frames that will be handed out are behind the tables and below 2 ^ 32, the
-- entries of the kernel's address space and of the heap are in place, nothing is kept back, and there
-- is a round for each page and one more, `kmalloc` of one byte or more succeeds: it returns the limit
-- and moves it by the bytes asked for, it keeps the address space and keeps nothing back, and each
-- whole word of the block is mapped to a word of memory that holds 0.
pub kmalloc-Zeroed :
    (mmu : Mmu)
    → Walks mmu
    → (nbytes f eip : ℕ) (m : Vm) → IsNew m nbytes (suc (suc f))
    → m.free_bytes ≡ 0
    → (m' : Vm) × (kmalloc mmu (suc (suc f)) eip nbytes m ≡ ok (m.heap_mapped_limit, m'))
      × IsHeapSpace m'
      × (m'.heap_mapped_limit ≡ m.heap_mapped_limit + nbytes)
      × (m'.free_bytes ≡ 0)
      × AreZero m' m.heap_mapped_limit (nbytes / 4)
unfolding kmalloc print
kmalloc-Zeroed mmu walks nbytes f eip m new none_kept =
    let limit = m.heap_mapped_limit in
    let (m1, run, space, moved, free, backed) =
      sbrk-IsBacked mmu walks nbytes (suc (suc f)) m new in
    let first : leb nbytes m.free_bytes ≡ false =
      not_kept nbytes m.free_bytes new.asked none_kept in
    let valid : (limit == 0xFFFFFFFF) ≡ false = ne→== limit 0xFFFFFFFF (omega arith) in
    elim (Bool-cases (ltb page_size nbytes)) [
      | inl large ↦
          let n = record m1 { kernel_heap_end = add32 limit nbytes } in
          let (m', out, space', limit', free', zeroes) =
            handed_out mmu walks nbytes (suc (suc f)) m new eip (suc f) kmalloc2_format n
              (IsHeapSpace-alike m1 n refl refl space) backed in
          (
            m',
            rw (first, large, run, valid) out,
            space',
            limit' ∙ moved,
            free' ∙ free ∙ none_kept,
            zeroes,
          )
      | inr short ↦
          let sum : add32 m1.free_bytes nbytes ≡ nbytes =
            short_sum m1.free_bytes nbytes (free ∙ none_kept) short in
          let rest : sub32 nbytes nbytes ≡ 0 = omega arith in
          let whole : leb nbytes nbytes ≡ true = ground arith in
          let n1 = record m1 { kernel_heap_end = limit; free_bytes = nbytes } in
          let n2 = print kmalloc3_format (nbytes ∷ limit ∷ m1.heap_mapped_limit ∷ nbytes ∷ []) n1 in
          let n3 = record n2 { kernel_heap_end = add32 limit (mul32 4 nbytes); free_bytes = 0 } in
          let (m', out, space', limit', free', zeroes) =
            handed_out mmu walks nbytes (suc (suc f)) m new eip f kmalloc1_format n3
              (IsHeapSpace-alike m1 n3 refl refl space) backed in
          (
            m',
            rw (first, short, run, valid, sum, whole, rest) out,
            space',
            limit' ∙ moved,
            free',
            zeroes,
          )
    ]
