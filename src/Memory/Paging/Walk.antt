-- ===== src/Memory/Paging/Walk.antt =====
-- What the paging unit does with an address, and what that gives for the tables of the kernel.
use ktux.Base.{
  arith, ℕ, ◌+◌, ◌*◌, ◌/◌, ◌%◌, ◌^◌, ◌<◌, ◌≡◌, refl, Option, none, some, ◌==◌, if◌then◌else◌,
}
use ktux.Memory.Paging.{Mmu}

-- The entry of the directory and the entry of the table for an address.
abbrev pub dir_entry : (ℕ → ℕ) → ℕ → ℕ → ℕ
dir_entry words cr3 v = words (cr3 + 4 * (v / 2 ^ 22))

abbrev pub table_word : (ℕ → ℕ) → ℕ → ℕ → ℕ
table_word words cr3 v = dir_entry words cr3 v / 4096 * 4096 + 4 * (v / 4096 % 1024)

-- The walk of the i386 with pages of 4 KB: both entries must have bit 0 set.
abbrev pub walk : (ℕ → ℕ) → ℕ → ℕ → Option ℕ
walk words cr3 v =
    if dir_entry words cr3 v % 2 == 0
    then none
    else if words (table_word words cr3 v) % 2 == 0
    then none
    else some (words (table_word words cr3 v) / 4096 * 4096 + v % 4096)

-- A paging unit whose translation of every 32-bit address is the walk.
abbrev pub Walks : Mmu → Type 0
Walks mmu = (words : ℕ → ℕ) (cr3 v : ℕ) → v < 2 ^ 32 → mmu.translate words cr3 v ≡ walk words cr3 v

pub walk-some :
    (words : ℕ → ℕ) (cr3 v : ℕ)
    → dir_entry words cr3 v % 2 ≡ 1
    → words (table_word words cr3 v) % 2 ≡ 1
    → walk words cr3 v ≡ some (words (table_word words cr3 v) / 4096 * 4096 + v % 4096)
walk-some words cr3 v d t = rw (d, t) refl

pub walk-no_table :
    (words : ℕ → ℕ) (cr3 v : ℕ) → dir_entry words cr3 v % 2 ≡ 0 → walk words cr3 v ≡ none
walk-no_table words cr3 v d = rw d refl

pub walk-no_page :
    (words : ℕ → ℕ) (cr3 v : ℕ)
    → dir_entry words cr3 v % 2 ≡ 1
    → words (table_word words cr3 v) % 2 ≡ 0
    → walk words cr3 v ≡ none
walk-no_page words cr3 v d t = rw (d, t) refl

-- A walk depends on its two entries only.
pub walk-alike :
    (words words' : ℕ → ℕ) (cr3 v : ℕ)
    → dir_entry words' cr3 v ≡ dir_entry words cr3 v
    → words' (table_word words cr3 v) ≡ words (table_word words cr3 v)
    → walk words' cr3 v ≡ walk words cr3 v
walk-alike words words' cr3 v d t = rw (d, t) refl

-- The same with the entries written as a page address and the flags.
module _ (words : ℕ → ℕ) (cr3 v t : ℕ) where
  pub walk-maps :
      (p : ℕ)
      → dir_entry words cr3 v ≡ 4096 * t + 3
      → words (4096 * t + 4 * (v / 4096 % 1024)) ≡ 4096 * p + 3
      → walk words cr3 v ≡ some (4096 * p + v % 4096)
  walk-maps p d e =
      let table : (4096 * t + 3) / 4096 * 4096 ≡ 4096 * t = omega arith in
      let page : (4096 * p + 3) / 4096 * 4096 ≡ 4096 * p = omega arith in
      let odd : (4096 * t + 3) % 2 ≡ 1 = omega arith in
      let odd_page : (4096 * p + 3) % 2 ≡ 1 = omega arith in
      rw (d, odd, table, e, odd_page, page) refl

  pub walk-absent :
      dir_entry words cr3 v ≡ 4096 * t + 3
      → words (4096 * t + 4 * (v / 4096 % 1024)) ≡ 2
      → walk words cr3 v ≡ none
  walk-absent d e =
      let table : (4096 * t + 3) / 4096 * 4096 ≡ 4096 * t = omega arith in
      let odd : (4096 * t + 3) % 2 ≡ 1 = omega arith in rw (d, odd, table, e) refl
