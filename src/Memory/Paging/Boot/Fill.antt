-- ===== src/Memory/Paging/Boot/Fill.antt =====
-- The loops of `init_virt_mem` over the entries of a table, as the writing of a row of words.
use mathlib.Core.Bool.{false≢true}
use ktux.Base.{
  ℕ, zero, suc, ◌+◌, ◌*◌, ◌%◌, ◌^◌, ◌≤◌, ◌<◌, ◌≡◌, refl, sym, ap, ◌∙◌, ◌≢◌, ◌⊎◌, inl, inr, write,
  write_self, ◌==◌, ==_iff, Bool-cases, write-ne, lt→ltb, ge→ltb, add32, arith,
}
use ktux.Base.Run.{ok}
use ktux.Memory.Address.{page_size, flag_rw, kernel_flags, make_entry}
use ktux.Memory.Paging.{set_entry}
use ktux.Memory.Paging.Boot.{map_up, pad_table}

-- The `n` words of `table` from index `i` on take the values of `e`.
unfoldable pub fill_table : ℕ → (ℕ → ℕ) → ℕ → ℕ → (ℕ → ℕ) → ℕ → ℕ
fill_table table e zero i words = words
fill_table table e (suc n) i words =
    fill_table table e n (i + 1) (write words (table + 4 * i) (e i))

module _ (table : ℕ) (e : ℕ → ℕ) where
  pub fill_table-out :
      (n i x : ℕ) (words : ℕ → ℕ)
      → (x < table + 4 * i) ⊎ (table + 4 * (i + n) ≤ x)
      → fill_table table e n i words x ≡ words x
  unfolding fill_table
  fill_table-out zero i x words h = refl
  fill_table-out (suc n) i x words h =
      fill_table-out n (i + 1) x (write words (table + 4 * i) (e i))
        (elim h [ inl lo ↦ inl (omega arith) | inr hi ↦ inr (omega arith) ])
      ∙ write-ne words (table + 4 * i) x (e i)
          (elim h [ inl lo ↦ omega arith | inr hi ↦ omega arith ])

  pub fill_table-at :
      (n i j : ℕ) (words : ℕ → ℕ)
      → i ≤ j
      → j < i + n
      → fill_table table e n i words (table + 4 * j) ≡ e j
  unfolding fill_table
  fill_table-at zero i j words lo hi = absurd (omega arith)
  fill_table-at (suc n) i j words lo hi = elim (Bool-cases (i == j)) [
    | inl same ↦
        let e' : i ≡ j = (==_iff i j).0 same in
        fill_table-out n (i + 1) (table + 4 * j) _ (inl (omega arith))
        ∙ ap (λ k. write words (table + 4 * k) (e k) (table + 4 * j)) e'
        ∙ write_self words (table + 4 * j) (e j)
    | inr other ↦
        let ne : i ≢ j = λ z. false≢true (sym other ∙ (==_iff i j).1 z) in
        fill_table-at n (i + 1) j _ (omega arith) (omega arith)
  ]

-- The entry of index `j` in a table for the pages from `base` on.
abbrev pub mapped_from : ℕ → ℕ → ℕ
mapped_from base j = make_entry (base + 4096 * j) kernel_flags

-- The loops, with a round for each entry and one more.
module _ (table : ℕ) where
  pub map_up_lem :
      (k f i limit base : ℕ) (words : ℕ → ℕ)
      → k < f
      → limit ≤ base + 4096 * (i + k)
      → base + 4096 * (i + k) < limit + 4096
      → limit + 4096 ≤ 2 ^ 32
      → map_up f table limit i (base + 4096 * i) words
        ≡ ok (i + k, fill_table table (mapped_from base) k i words)
  unfolding map_up fill_table set_entry
  map_up_lem k zero i limit base words enough low high room = absurd (omega arith)
  map_up_lem zero (suc f) i limit base words enough low high room =
      let e : i + 0 ≡ i = omega arith in rw (ge→ltb (base + 4096 * i) limit (omega arith), e) refl
  map_up_lem (suc k) (suc f) i limit base words enough low high room =
      let next : add32 (base + 4096 * i) page_size ≡ base + 4096 * (i + 1) = omega arith in
      let index : add32 i 1 ≡ i + 1 = omega arith in
      let count : i + 1 + k ≡ i + suc k = omega arith in
      rw (lt→ltb (base + 4096 * i) limit (omega arith), next, index)
        (map_up_lem k f (i + 1) limit base _ (omega arith) (omega arith) (omega arith) room
          ∙ ap (λ c. ok (c, fill_table table (mapped_from base) (suc k) i words)) count)

  pub pad_table_lem :
      (k f i : ℕ) (words : ℕ → ℕ)
      → k < f
      → 0 < i
      → i + k ≡ 1024
      → pad_table f table i words ≡ ok (fill_table table (λ _. make_entry 0 flag_rw) k i words)
  unfolding pad_table fill_table set_entry
  pad_table_lem k zero i words enough pos end = absurd (omega arith)
  pad_table_lem zero (suc f) i words enough pos end =
      let full : i % 1024 ≡ 0 = omega arith in rw full refl
  pad_table_lem (suc k) (suc f) i words enough pos end =
      let index : add32 i 1 ≡ i + 1 = omega arith in
      rw (lt→ltb 0 (i % 1024) (omega arith), index)
        (pad_table_lem k f (i + 1) _ (omega arith) (omega arith) (omega arith))
