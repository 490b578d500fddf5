-- ===== src/Memory/Heap/Served.antt =====
-- When the page fault handler returns, and what it has mapped then.
use ktux.Base.{
  ℕ, ◌+◌, ◌*◌, ◌/◌, ◌%◌, ◌^◌, ◌≤◌, ◌<◌, ◌≡◌, refl, sym, ap, ◌∙◌, [], ◌∷◌, some, write, ◌==◌,
  if◌then◌else◌, bit_and, Option, arith,
}
use ktux.Base.Bits.{bit_and-mod}
use ktux.Base.Run.{ok, ◌>>=◌, >>=-eq-ok}
use ktux.Memory.Address.{
  p_kernel_page_directory, p_page_table_heap_1, v_kernel_heap_addr, v_kernel_driver_heap,
  flag_present, pde_addr_mask, kernel_flags, make_entry, virt2page, virt2dir,
}
use ktux.Memory.Address.Fields.{make_entry-eq}
use ktux.Memory.Heap.{answer_fault, page_fault_handler}
use ktux.Memory.Heap.Space.{IsHeapSpace}
use ktux.Memory.Heap.Faults.{
  InHeap, heap-IsMappable, word_of-heap, IsHeapSpace-alike, write-IsHeapSpace, handler-reports,
  give_page-lem,
}
use ktux.Memory.Messages.{
  page_fault_format, directory_entry_format, table_entry_format, updated_format,
}
use ktux.Memory.Paging.{Mmu, Vm, alloc, load, print}
use ktux.Memory.Paging.Mapped.{AreApart, walk-rewritten, entry_maps}
use ktux.Memory.Paging.Walk.{walk, Walks}
use ktux.Memory.Paging.Window.{word_of}

-- The heap maps the page of `a` to the frame at `frame`, and the rest is as before.
pub walk-served :
    (m m' : Vm) (a frame w : ℕ)
    → m'.words
      ≡ write m.words (p_page_table_heap_1 + 4 * (a / 4096 % 1024)) (make_entry frame kernel_flags)
    → m'.cr3 ≡ m.cr3
    → IsHeapSpace m
    → InHeap a
    → frame < 2 ^ 32
    → w < 2 ^ 32
    → AreApart m a w
    → walk m'.words m'.cr3 w ≡ (
        if w / 4096 == a / 4096
        then some (frame / 4096 * 4096 + w % 4096)
        else walk m.words m.cr3 w)
walk-served m m' a frame w written c space inside fsmall wsmall apart =
    let e = make_entry frame kernel_flags in
    let table = heap-IsMappable m a space inside in
    let fields = make_entry-eq frame kernel_flags fsmall in
    let bit : e % 2 ≡ 1 = omega (arith, fields) in
    let page : e / 4096 * 4096 ≡ frame / 4096 * 4096 = omega (arith, fields) in
    let maps : entry_maps e w ≡ some (frame / 4096 * 4096 + w % 4096) = rw (bit, page) refl in
    let at = word_of-heap m a space inside in
    let other = λ (o : Option ℕ).
      if w / 4096 == a / 4096 then o else walk m.words p_kernel_page_directory w in
    ap (λ f. walk f m'.cr3 w) written
    ∙ ap (λ x. walk (write m.words x e) m'.cr3 w) (sym at)
    ∙ ap (λ k. walk (write m.words (word_of m a) e) k w) (c ∙ space.space.directory)
    ∙ walk-rewritten m a e table.there table.proper w wsmall (omega arith) apart
    ∙ ap other maps
    ∙ ap
        (λ (k : ℕ).
          if w / 4096 == a / 4096 then some (frame / 4096 * 4096 + w % 4096) else walk m.words k w)
        (sym space.space.directory)

module _ (mmu : Mmu) where
  answer_fault-returns :
      (a code table entry : ℕ) (m m' : Vm)
      → answer_fault mmu a code table entry m ≡ ok m'
      → (bit_and code flag_present ≡ 0)
        × (v_kernel_heap_addr ≤ a)
        × (a < v_kernel_driver_heap)
        × (a < m.kernel_heap_end)
  unfolding answer_fault
  answer_fault-returns a code table entry m m' run = ground arith

  -- A fault for which the handler returns is one on a page that is not present, in the heap and
  -- below its end: for every other one it does not return.
  pub page_fault_handler-returns :
      (a code eip : ℕ) (m m' : Vm)
      → page_fault_handler mmu a code eip m ≡ ok m'
      → (code % 2 ≡ 0)
        × (v_kernel_heap_addr ≤ a)
        × (a < v_kernel_driver_heap)
        × (a < m.kernel_heap_end)
  unfolding page_fault_handler
  page_fault_handler-returns a code eip m m' run =
      let reported = λ (dir : ℕ).
        print directory_entry_format (dir ∷ []) (print page_fault_format (a ∷ eip ∷ []) m) in
      let tables = λ (dir : ℕ). bit_and dir pde_addr_mask in
      let answer = λ (dir entry : ℕ). answer_fault mmu a code (tables dir) entry (reported dir) in
      let rest =
        λ (dir : ℕ). load mmu (tables dir + 4 * virt2page a) (reported dir) >>= answer dir in
      let (dir, _, run1) =
        >>=-eq-ok (load mmu (p_kernel_page_directory + 4 * virt2dir a) m) rest run in
      let (entry, _, run2) =
        >>=-eq-ok (load mmu (tables dir + 4 * virt2page a) (reported dir)) (answer dir) run1 in
      let (clean, low, high, below) =
        answer_fault-returns a code (tables dir) entry (reported dir) m' run2 in
      (sym (bit_and-mod 1 code) ∙ clean, low, high, below)

  module _ (walks : Walks mmu) where
    -- On an address of the first 4 MB of the heap that is below its end, for a page that is not
    -- present, the handler returns: the address space is kept, and the walk for an address `w` gives
    -- the frame that `alloc_page` hands out if `w` is in the page of the fault, and else what it
    -- gave before, where `w` has another table or is in those 4 MB too.
    pub page_fault_handler-Maps :
        (a code eip w : ℕ) (m : Vm)
        → IsHeapSpace m
        → InHeap a
        → a < m.kernel_heap_end
        → code % 2 ≡ 0
        → (alloc m).0 < 2 ^ 32
        → w < 2 ^ 32
        → AreApart m a w
        → (m' : Vm) × (page_fault_handler mmu a code eip m ≡ ok m')
          × IsHeapSpace m'
          × (m'.frames ≡ (alloc m).1.frames)
          × (walk m'.words m'.cr3 w ≡ (
              if w / 4096 == a / 4096
              then some ((alloc m).0 / 4096 * 4096 + w % 4096)
              else walk m.words m.cr3 w))
    unfolding alloc print
    page_fault_handler-Maps a code eip w m space inside below clean fsmall wsmall apart =
        let j = a / 4096 % 1024 in
        let e = make_entry (alloc m).0 kernel_flags in
        let at = p_page_table_heap_1 + 4 * j in
        let m2 =
          print table_entry_format (p_page_table_heap_1 ∷ virt2page a ∷ m.words at ∷ []) (
            print directory_entry_format (0x7003 ∷ [])
              (print page_fault_format (a ∷ eip ∷ []) m)) in
        let m' =
          print updated_format (p_page_table_heap_1 ∷ j ∷ e ∷ [])
            (record (alloc m2).1 { words = write m.words at e }) in
        (
          m',
          handler-reports mmu walks a code eip m space inside below clean
              ∙ give_page-lem mmu walks a m2 (IsHeapSpace-alike m m2 refl refl space),
          write-IsHeapSpace m m' at e (omega arith) refl refl space,
          refl,
          walk-served m m' a (alloc m).0 w refl refl space inside fsmall wsmall apart,
        )
