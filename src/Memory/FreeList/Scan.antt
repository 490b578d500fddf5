-- ===== src/Memory/FreeList/Scan.antt =====
-- The loop of `init_virt_mem` over all pages: it ends, and leaves the listed pages on the stack.
use mathlib.Core.List.{reverse, reverse-append}
use ktux.Base.{
  ℕ, zero, suc, ◌+◌, ◌-◌, ◌*◌, ◌/◌, ◌%◌, ◌^◌, ◌≤◌, ◌<◌, ◌≡◌, refl, sym, ap, subst, ◌∙◌, true, List,
  [], ◌∷◌, ◌++◌, length, write, write_self, write-ne, Bool-cases, inl, inr, lt→ltb, ge→ltb,
  if◌then◌else◌, add32, sub32, mul32, arith,
}
use ktux.Base.Run.{ok}
use ktux.Memory.Address.{page_size}
use ktux.Memory.Frames.{Frames}
use ktux.Memory.Frames.Laws.{frames_of, contents}
use ktux.Memory.FreeList.{is_listed, scan, free_memory_start, init_free_list}

-- The listed ones of the `k` pages from `a` on.
unfoldable pub listed_pages : ℕ → ℕ → ℕ → ℕ → List ℕ
listed_pages total free_start zero a = []
listed_pages total free_start (suc k) a =
    let rest = listed_pages total free_start k (a + page_size) in
    if is_listed total free_start a then a ∷ rest else rest

-- Writing a list from index `i` on.
fill : (ℕ → ℕ) → ℕ → List ℕ → ℕ → ℕ
fill l i [] = l
fill l i (p ∷ ps) = fill (write l i p) (i + 1) ps

-- The `n` words from index `i` on.
abbrev words_from : (ℕ → ℕ) → ℕ → ℕ → List ℕ
words_from l i zero = []
words_from l i (suc n) = l i ∷ words_from l (i + 1) n

fill-below : (l : ℕ → ℕ) (i j : ℕ) (ps : List ℕ) → j < i → fill l i ps j ≡ l j
unfolding fill
fill-below l i j [] h = refl
fill-below l i j (p ∷ ps) h =
    fill-below (write l i p) (i + 1) j ps (omega arith) ∙ write-ne l i j p (omega arith)

words_from-fill : (l : ℕ → ℕ) (i : ℕ) (ps : List ℕ) → words_from (fill l i ps) i (length ps) ≡ ps
unfolding fill
words_from-fill l i [] = refl
words_from-fill l i (p ∷ ps) =
    rw (fill-below (write l i p) (i + 1) i ps (omega arith), write_self l i p)
      (ap (λ qs. p ∷ qs) (words_from-fill (write l i p) (i + 1) ps))

words_from-suc : (l : ℕ → ℕ) (i n : ℕ) → words_from l i (suc n) ≡ words_from l i n ++ l (i + n) ∷ []
words_from-suc l i zero = ap (λ k. l k ∷ []) (omega arith)
words_from-suc l i (suc n) =
    let e : i + 1 + n ≡ i + suc n = omega arith in
    ap (λ ps. l i ∷ ps)
      (words_from-suc l (i + 1) n ∙ ap (λ k. words_from l (i + 1) n ++ l k ∷ []) e)

frames_of-words : (l : ℕ → ℕ) (n : ℕ) → frames_of l n ≡ reverse (words_from l 1 n)
frames_of-words l zero = refl
frames_of-words l (suc n) =
    let e : suc n ≡ 1 + n = omega arith in
    ap (λ ps. l (suc n) ∷ ps) (frames_of-words l n)
    ∙ ap (λ k. l k ∷ reverse (words_from l 1 n)) e
    ∙ sym (ap reverse (words_from-suc l 1 n) ∙ reverse-append (words_from l 1 n) (l (1 + n) ∷ []))

module _ (total free_start : ℕ) (room : total + page_size ≤ 2 ^ 32) where
  -- The loop over the `k` pages that are left below the end of memory.
  scan_lem :
      (k f a i : ℕ) (l : ℕ → ℕ)
      → k < f
      → total ≤ a + page_size * k
      → a + page_size * k < total + page_size
      → i + k < 2 ^ 32
      → let ps = listed_pages total free_start k a in
        scan f total free_start a i l ≡ ok (i + length ps, fill l i ps)
  unfolding scan listed_pages fill
  scan_lem k zero a i l enough low high count = absurd (omega arith)
  scan_lem zero (suc f) a i l enough low high count =
      let e : i + 0 ≡ i = omega arith in rw (ge→ltb a total (omega arith), e)
  scan_lem (suc k) (suc f) a i l enough low high count =
      let next : add32 a page_size ≡ a + page_size = omega arith in
      let index : add32 i 1 ≡ i + 1 = omega arith in
      rw (lt→ltb a total (omega arith), next, index)
        (elim (Bool-cases (is_listed total free_start a)) [
          | inl here ↦
              let later =
                scan_lem k f (a + page_size) (i + 1) (write l i a) (omega arith) (omega arith)
                  (omega arith) (omega arith) in
              let n = length (listed_pages total free_start k (a + page_size)) in
              let e : i + 1 + n ≡ i + suc n = omega arith in
              let out =
                fill (write l i a) (i + 1) (listed_pages total free_start k (a + page_size)) in
              rw here (later ∙ ap (λ m. ok (m, out)) e)
          | inr out ↦ rw out (
              scan_lem k f (a + page_size) i l (omega arith) (omega arith) (omega arith)
                (omega arith))
        ])

abbrev pub AllOf : (ℕ → Type 0) → List ℕ → Type 0
AllOf P [] = Unit
AllOf P (p ∷ ps) = P p × AllOf P ps

-- Strictly ascending, from `lo` on.
abbrev pub IsAscending : ℕ → List ℕ → Type 0
IsAscending lo [] = Unit
IsAscending lo (p ∷ ps) = (lo ≤ p) × IsAscending (p + 1) ps

-- A whole page of memory that passes the tests of the loop.
abbrev pub IsFrame : ℕ → ℕ → ℕ → Type 0
IsFrame total free_start p =
    (0 < p) × (p < total) × (p % 4096 ≡ 0) × (is_listed total free_start p ≡ true)

IsAscending-weaken : (lo hi : ℕ) (ps : List ℕ) → lo ≤ hi → IsAscending hi ps → IsAscending lo ps
IsAscending-weaken lo hi [] h asc = tt
IsAscending-weaken lo hi (p ∷ ps) h asc = (omega arith, asc.1)

listed-pos : (total free_start a : ℕ) → is_listed total free_start a ≡ true → 0 < a
unfolding is_listed
listed-pos total free_start zero e = ground arith
listed-pos total free_start (suc a) e = omega arith

-- The number of pages that the loop visits.
abbrev pub page_count : ℕ → ℕ
page_count total = (total + 4095) / 4096

module _ (total free_start : ℕ) where
  length-listed : (k a : ℕ) → length (listed_pages total free_start k a) ≤ k
  unfolding listed_pages
  length-listed zero a = omega arith
  length-listed (suc k) a = ground (arith, length-listed k (a + page_size))

  listed_pages-IsAscending : (k a : ℕ) → IsAscending a (listed_pages total free_start k a)
  unfolding listed_pages
  listed_pages-IsAscending zero a = tt
  listed_pages-IsAscending (suc k) a =
      let rest = listed_pages-IsAscending k (a + page_size) in
      let ps = listed_pages total free_start k (a + page_size) in
      elim (Bool-cases (is_listed total free_start a)) [
        | inl here ↦ rw here (omega arith, IsAscending-weaken (a + 1) _ ps (omega arith) rest)
        | inr out ↦ rw out (IsAscending-weaken a _ ps (omega arith) rest)
      ]

  listed_pages-IsFrame :
      (k a : ℕ)
      → a % 4096 ≡ 0
      → a + page_size * k < total + page_size
      → AllOf (IsFrame total free_start) (listed_pages total free_start k a)
  unfolding listed_pages
  listed_pages-IsFrame zero a aligned high = tt
  listed_pages-IsFrame (suc k) a aligned high =
      let rest = listed_pages-IsFrame k (a + page_size) (omega arith) (omega arith) in
      elim (Bool-cases (is_listed total free_start a)) [
        | inl here ↦
            rw here ((listed-pos total free_start a here, omega arith, aligned, here), rest)
        | inr out ↦ rw out rest
      ]

  -- The pages that the loop keeps.
  abbrev pub all_listed : List ℕ
  all_listed = listed_pages total free_start (page_count total) 0

-- What `init_virt_mem` leaves: of the listed pages, which ascend, the first one lies under the
-- stack and is never handed out; the others are on it, the highest on top; and the memory in use is
-- what is not free.
pub record IsBooted (total free_start : ℕ) (fr : Frames) : Type 0 where
  pub first : ℕ
  pub rest : List ℕ
  pub pages : all_listed total free_start ≡ first ∷ rest
  pub ascending : IsAscending 0 (first ∷ rest)
  pub frames : AllOf (IsFrame total free_start) (first ∷ rest)
  pub stacked : contents fr ≡ reverse rest
  pub installed : fr.total_memory ≡ total
  pub free : fr.free_memory ≡ page_size * length rest
  pub balanced : fr.used_memory + fr.free_memory ≡ total

module _ (fuel total kernel_end : ℕ) (list : ℕ → ℕ) where
  abbrev start : ℕ
  start = free_memory_start total kernel_end

  -- The stack of the state that has the pages `first ∷ rest` in its list.
  contents-fill :
      (first : ℕ) (rest : List ℕ)
      → frames_of (fill list 0 (first ∷ rest)) (length rest) ≡ reverse rest
  unfolding fill
  contents-fill first rest =
      frames_of-words (fill list 0 (first ∷ rest)) (length rest)
      ∙ ap reverse (words_from-fill (write list 0 first) 1 rest)

  -- When at least one page is listed, the memory ends a page or more below 2 ^ 32, and there is a
  -- round for each page and one more, the part of `init_virt_mem` that lists the free pages comes
  -- to its end: the listed pages ascend, each is one that the tests let pass, the first lies under
  -- the stack and is never handed out, the others are on it with the highest on top, and the memory
  -- free and in use adds up to all of it.
  pub init-IsBooted :
      (first : ℕ) (rest : List ℕ)
      → total + page_size ≤ 2 ^ 32
      → page_count total < fuel
      → all_listed total start ≡ first ∷ rest
      → (fr : Frames) × (init_free_list fuel total kernel_end list ≡ ok fr)
        × IsBooted total start fr
  unfolding init_free_list
  init-IsBooted first rest room enough pages =
      let n = length rest in
      let count = length-listed total start (page_count total) 0 in
      let size : suc n ≤ page_count total = omega (arith, count, ap length pages) in
      let loop =
        scan_lem total start room (page_count total) fuel 0 0 list enough (omega arith)
          (omega arith) (omega arith) in
      let top : sub32 (0 + suc n) 1 ≡ n = omega arith in
      let bytes : mul32 n page_size ≡ page_size * n = omega arith in
      let used : sub32 total (page_size * n) ≡ total - page_size * n = omega arith in
      (
        record {
          list = fill list 0 (first ∷ rest);
          entries = n;
          total_memory = total;
          free_memory = page_size * n;
          used_memory = total - page_size * n;
        },
        rw (loop, pages, top, bytes, used),
        record {
          first = first;
          rest = rest;
          pages = pages;
          ascending =
              subst (IsAscending 0) pages
                (listed_pages-IsAscending total start (page_count total) 0);
          frames =
              subst (AllOf (IsFrame total start)) pages
                (listed_pages-IsFrame total start (page_count total) 0 (omega arith) (omega arith));
          stacked = contents-fill first rest;
          installed = refl;
          free = refl;
          balanced = omega arith;
        },
      )
