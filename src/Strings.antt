-- ===== src/Strings.antt =====
-- src/kernel/string.c: the block operations on memory, and the comparisons of strings.
--
-- A memory is a function from the addresses of its units; the block operations count in the units
-- that they move. A string is the list of its characters before the NUL.
pub mod Blocks
pub mod Compare
mod Tests
use ktux.Base.{
  ℕ, zero, suc, ◌+◌, ◌-◌, ◌%◌, ◌^◌, Bool, true, false, ◌&&◌, List, [], ◌∷◌, ltb, ◌==◌,
  if◌then◌else◌, write,
}
use ktux.Base.Int.{ℤ, sub_ℕ}

module _ {ℓ} {A : Type ℓ} where
  -- `memcpy`: the units are copied upwards, one after the other.
  unfoldable pub memcpy : ℕ → ℕ → ℕ → (ℕ → A) → ℕ → A
  memcpy dst src zero mem = mem
  memcpy dst src (suc count) mem = memcpy (dst + 1) (src + 1) count (write mem dst (mem src))

-- `memsetw` and `memsetd`, on memories of 16-bit and of 32-bit units.
unfoldable pub memset_units : ℕ → ℕ → ℕ → ℕ → (ℕ → ℕ) → ℕ → ℕ
memset_units bits dst val zero mem = mem
memset_units bits dst val (suc count) mem =
    memset_units bits (dst + 1) val count (write mem dst (val % 2 ^ bits))

unfoldable pub memsetw : ℕ → ℕ → ℕ → (ℕ → ℕ) → ℕ → ℕ
unfolding memset_units
memsetw = memset_units 16

unfoldable pub memsetd : ℕ → ℕ → ℕ → (ℕ → ℕ) → ℕ → ℕ
unfolding memset_units
memsetd = memset_units 32

unfoldable pub strlen : List ℕ → ℕ
strlen [] = 0
strlen (c ∷ s) = suc (strlen s)

-- The first character of a string, its NUL included.
abbrev pub head_of : List ℕ → ℕ
head_of [] = 0
head_of (c ∷ s) = c

-- `strcmp`: the difference of the first two characters that differ, or of the two NULs.
unfoldable pub strcmp : List ℕ → List ℕ → ℤ
strcmp [] t = sub_ℕ 0 (head_of t)
strcmp (c ∷ s) [] = sub_ℕ c 0
strcmp (c ∷ s) (d ∷ t) = if c == d then strcmp s t else sub_ℕ c d

-- `strncmp`: after `len` equal characters it still compares the next two.
unfoldable pub strncmp : List ℕ → List ℕ → ℕ → ℤ
strncmp [] t len = sub_ℕ 0 (head_of t)
strncmp (c ∷ s) [] len = sub_ℕ c 0
strncmp (c ∷ s) (d ∷ t) zero = sub_ℕ c d
strncmp (c ∷ s) (d ∷ t) (suc len) = if c == d then strncmp s t len else sub_ℕ c d
