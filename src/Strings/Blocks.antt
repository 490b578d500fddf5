-- ===== src/Strings/Blocks.antt =====
-- What the block operations do to memory.
use ktux.Base.{
  ℕ, zero, suc, ◌+◌, ◌-◌, ◌%◌, ◌^◌, ◌≤◌, ◌<◌, ◌≡◌, refl, ap, ◌∙◌, ◌⊎◌, write, write_self, write-ne,
  arith,
}
use native.Mathlib.Decide.{ℕ_discrete}
use ktux.Strings.{memcpy, memset_units, memsetw}

module _ {ℓ} {A : Type ℓ} where
  memcpy-outside :
      (dst src count : ℕ) (mem : ℕ → A) (q : ℕ)
      → (q < dst) ⊎ (dst + count ≤ q)
      → memcpy dst src count mem q ≡ mem q
  unfolding memcpy
  memcpy-outside dst src zero mem q h = refl
  memcpy-outside dst src (suc count) mem q h =
      memcpy-outside (dst + 1) (src + 1) count _ q (omega arith)
      ∙ write-ne mem dst q (mem src) (omega arith)

  memcpy-inside :
      (dst src count : ℕ) (mem : ℕ → A) (q : ℕ)
      → dst < src
      → dst ≤ q
      → q < dst + count
      → memcpy dst src count mem q ≡ mem (src + (q - dst))
  unfolding memcpy
  memcpy-inside dst src zero mem q h lo hi = absurd (omega arith)
  memcpy-inside dst src (suc count) mem q h lo hi = elim (ℕ_discrete q dst) [
    | yes e ↦
        let at : src ≡ src + (q - dst) = omega arith in
        memcpy-outside (dst + 1) (src + 1) count (write mem dst (mem src)) q (omega arith)
        ∙ ap (write mem dst (mem src)) e
        ∙ write_self mem dst (mem src)
        ∙ ap mem at
    | no ne ↦
        let at : src + 1 + (q - (dst + 1)) ≡ src + (q - dst) = omega arith in
        memcpy-inside (dst + 1) (src + 1) count (write mem dst (mem src)) q (omega arith)
          (omega arith) (omega arith)
        ∙ write-ne mem dst (src + 1 + (q - (dst + 1))) (mem src) (omega arith)
        ∙ ap mem at
  ]

  -- Copying upwards to a lower address moves the block whole, also where the two overlap, and
  -- leaves the rest of memory as it is.
  pub memcpy-down :
      (dst src count : ℕ) (mem : ℕ → A) (q : ℕ)
      → dst < src
      → (dst ≤ q → q < dst + count → memcpy dst src count mem q ≡ mem (src + (q - dst)))
        × ((q < dst) ⊎ (dst + count ≤ q) → memcpy dst src count mem q ≡ mem q)
  memcpy-down dst src count mem q h =
      (memcpy-inside dst src count mem q h, memcpy-outside dst src count mem q)

memset-outside :
    (bits dst val count : ℕ) (mem : ℕ → ℕ) (q : ℕ)
    → (q < dst) ⊎ (dst + count ≤ q)
    → memset_units bits dst val count mem q ≡ mem q
unfolding memset_units
memset-outside bits dst val zero mem q h = refl
memset-outside bits dst val (suc count) mem q h =
    memset-outside bits (dst + 1) val count _ q (omega arith) ∙ write-ne mem dst q _ (omega arith)

memset-inside :
    (bits dst val count : ℕ) (mem : ℕ → ℕ) (q : ℕ)
    → dst ≤ q
    → q < dst + count
    → memset_units bits dst val count mem q ≡ val % 2 ^ bits
unfolding memset_units
memset-inside bits dst val zero mem q lo hi = absurd (omega arith)
memset-inside bits dst val (suc count) mem q lo hi = elim (ℕ_discrete q dst) [
  | yes e ↦
      memset-outside bits (dst + 1) val count (write mem dst (val % 2 ^ bits)) q (omega arith)
      ∙ ap (write mem dst (val % 2 ^ bits)) e
      ∙ write_self mem dst (val % 2 ^ bits)
  | no ne ↦
      memset-inside bits (dst + 1) val count (write mem dst (val % 2 ^ bits)) q (omega arith)
        (omega arith)
]

-- `memsetw` fills its block with the low 16 bits of the value, and writes nowhere else.
pub memsetw-fills :
    (dst val count : ℕ) (mem : ℕ → ℕ) (q : ℕ)
    → (dst ≤ q → q < dst + count → memsetw dst val count mem q ≡ val % 2 ^ 16)
      × ((q < dst) ⊎ (dst + count ≤ q) → memsetw dst val count mem q ≡ mem q)
unfolding memsetw
memsetw-fills dst val count mem q =
    (memset-inside 16 dst val count mem q, memset-outside 16 dst val count mem q)
