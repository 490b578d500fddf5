-- ===== src/Memory/FreeList/Listed.antt =====
-- Which pages `init_virt_mem` takes for free.
use ktux.Base.{
  ℕ, zero, suc, ◌+◌, ◌*◌, ◌%◌, ◌^◌, ◌≤◌, ◌<◌, ◌≡◌, refl, Bool, ◌&&◌, ◌||◌, List, [], ◌∷◌, leb, ◌==◌,
  if◌then◌else◌, arith,
}
use ktux.Memory.FreeList.{is_listed}
use ktux.Memory.FreeList.Scan.{listed_pages}

-- From 0x9000 to 0xA0000, the first pages of the ROMs, and from 1 MB on.
abbrev pub is_open : ℕ → Bool
is_open a =
    leb 0x9000 a
    && (leb a 0xA0000 || a == 0xC0000 || a == 0xC8000 || a == 0xF0000 || leb 0x100000 a)

-- The open ones of the `k` pages of 4096 bytes from `a` on.
unfoldable pub open_pages : ℕ → ℕ → List ℕ
open_pages zero a = []
open_pages (suc k) a = if is_open a then a ∷ open_pages k (a + 4096) else open_pages k (a + 4096)

-- For a page below the end of a memory under 4 GiB, and a free memory that starts at 1 MiB or
-- above, the tests of the loop list exactly the open pages: among them are the first page of each
-- reserved region that starts at a page, and every page of the kernel.
is_listed-open :
    (total free_start a : ℕ)
    → 0x100000 ≤ free_start
    → a % 4096 ≡ 0
    → a < total
    → total < 2 ^ 32
    → is_listed total free_start a ≡ is_open a
unfolding is_listed
is_listed-open total free_start a high aligned h small = ground arith

pub listed_pages-open :
    (total free_start k a : ℕ)
    → 0x100000 ≤ free_start
    → total < 2 ^ 32
    → a % 4096 ≡ 0
    → a + 4096 * k < total + 4096
    → listed_pages total free_start k a ≡ open_pages k a
unfolding listed_pages open_pages
listed_pages-open total free_start zero a high small aligned fits = refl
listed_pages-open total free_start (suc k) a high small aligned fits =
    let one = is_listed-open total free_start a high aligned (omega arith) small in
    let rest =
      listed_pages-open total free_start k (a + 4096) high small (omega arith) (omega arith) in
    rw (one, rest) refl
