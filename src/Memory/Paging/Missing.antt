-- ===== src/Memory/Paging/Missing.antt =====
-- Mapping a page whose table is not there: `create_new_table` writes the entry of the directory
-- that has the index of the page in its table.
use ktux.Base.{
  [], ◌∷◌, ℕ, zero, suc, ◌+◌, ◌*◌, ◌/◌, ◌%◌, ◌^◌, ◌<◌, ◌≡◌, refl, ap, ◌∙◌, ◌≢◌, write, write-ne,
  bit_and, false, arith,
}
use ktux.Base.Run.{ok, out_of_fuel}
use ktux.Base.Bits.{bit_and-mod}
use ktux.Memory.Address.{p_kernel_page_directory, flag_present, kernel_flags, virt2map, make_entry}
use ktux.Memory.Address.Fields.{virt2page-eq}
use ktux.Memory.Paging.{
  Mmu, Vm, alloc, print, new_table_format, virt2table_format, returning_format, set_pte_addr,
  create_new_table, map_page_helper,
}
use ktux.Memory.Paging.Walk.{Walks}
use ktux.Memory.Paging.Window.{IsKernelSpace, slot, lower, load-directory, store-directory}

-- The call makes a table for another entry of the directory, at every turn.
abbrev pub IsMissing : Vm → ℕ → Type 0
IsMissing m v =
    (slot m v % 2 ≡ 0)
    × (v / 4096 % 1024 ≢ v / 2 ^ 22)
    × (v / 4096 % 1024 ≢ 0)
    × (v / 4096 % 1024 ≢ 0x3C0)

module _ (mmu : Mmu) (walks : Walks mmu) where
  new_table :
      (v : ℕ) (m : Vm)
      → v < 2 ^ 32
      → IsKernelSpace m
      → IsMissing m v
      → (m' : Vm) × (create_new_table mmu p_kernel_page_directory v m ≡ ok (virt2map v, m'))
        × IsKernelSpace m'
        × IsMissing m' v
  unfolding create_new_table set_pte_addr alloc print
  new_table v m small space (absent, apart, first, window) =
      let j = v / 4096 % 1024 in
      let page = virt2page-eq v in
      let a = alloc m in
      let m2 =
        print virt2table_format (v ∷ virt2map v ∷ []) (print new_table_format (a.0 ∷ v ∷ []) a.1) in
      let e = make_entry a.0 kernel_flags in
      let at = p_kernel_page_directory + 4 * j in
      let keep = λ (x : ℕ) (ne : x ≢ at). write-ne m.words at x e ne in
      let s : IsKernelSpace m2 = record {
        directory = space.directory;
        low = space.low;
        seen = space.seen;
        window = space.window;
      } in
      (
        print returning_format (virt2map v ∷ []) (record m2 { words = write m.words at e }),
        rw (page, store-directory m2 (lower s) mmu walks j e (omega arith)) refl,
        record {
          directory = space.directory;
          low = keep p_kernel_page_directory (omega arith) ∙ space.low;
          seen = keep 0x5010 (omega arith) ∙ space.seen;
          window = keep 0x4F00 (omega arith) ∙ space.window;
        },
        (
          ap (λ k. k % 2) (keep (p_kernel_page_directory + 4 * (v / 2 ^ 22)) (omega arith))
              ∙ absent,
          apart,
          first,
          window,
        ),
      )

  -- When the entry of the directory for a 32-bit address `v` is not present, and the index of its
  -- page in its table is neither 0, nor 0x3C0, nor the index of that entry, mapping the page of `v`
  -- does not return: however many calls are made, the entry is still not present in the last one.
  pub map_page_helper-spins :
      (fuel v phys flags : ℕ) (m : Vm)
      → v < 2 ^ 32
      → IsKernelSpace m
      → IsMissing m v
      → map_page_helper mmu fuel p_kernel_page_directory v phys flags m ≡ out_of_fuel
  unfolding map_page_helper
  map_page_helper-spins zero v phys flags m small space missing = refl
  map_page_helper-spins (suc fuel) v phys flags m small space missing =
      let off = record m { interrupts = false } in
      let s : IsKernelSpace off = record {
        directory = space.directory;
        low = space.low;
        seen = space.seen;
        window = space.window;
      } in
      let bit : bit_and (slot m v) flag_present ≡ 0 = bit_and-mod 1 (slot m v) ∙ missing.0 in
      let (m', made, space', missing') = new_table v off small s missing in
      let later = map_page_helper-spins fuel v phys flags m' small space' missing' in
      rw
        (
          load-directory m space mmu walks v small,
          bit,
          made,
          load-directory m' space' mmu walks v small,
          later,
        )
        refl
