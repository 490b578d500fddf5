-- ===== src/Memory/Frames/Laws.antt =====
-- The frame allocator against a stack of addresses, and what giving a frame back does to it.
use ktux.Base.{
  ℕ, zero, suc, ◌+◌, ◌-◌, ◌%◌, ◌^◌, ◌<◌, ◌≡◌, refl, sym, ap, ◌∙◌, ◌≢◌, List, [], ◌∷◌, ◌++◌, length,
  replicate, write, write_self, write-ne, ne→==, lt→ltb, add32, sub32, arith,
}
use ktux.Memory.Address.{page_size}
use ktux.Memory.Address.Fields.{mask_low}
use ktux.Memory.Frames.{Frames, alloc_page, free_page}

-- The frames that can be handed out, the top first. The word at index 0 is never one of them.
abbrev pub frames_of : (ℕ → ℕ) → ℕ → List ℕ
frames_of l zero = []
frames_of l (suc n) = l (suc n) ∷ frames_of l n

abbrev pub contents : Frames → List ℕ
contents fr = frames_of fr.list fr.entries

abbrev pub AllPositive : List ℕ → Type 0
AllPositive [] = Unit
AllPositive (p ∷ ps) = (0 < p) × AllPositive ps

-- `k` calls of `alloc_page`, and what they return.
unfoldable pub alloc_many : ℕ → Frames → List ℕ × Frames
alloc_many zero fr = ([], fr)
alloc_many (suc k) fr =
    let (p, fr') = alloc_page fr in let (ps, fr'') = alloc_many k fr' in (p ∷ ps, fr'')

frames_of-cons :
    (l : ℕ → ℕ) (n p : ℕ) (ps : List ℕ)
    → frames_of l n ≡ p ∷ ps
    → (0 < n) × (l n ≡ p) × (frames_of l (n - 1) ≡ ps)
frames_of-cons l zero p ps e = cc
frames_of-cons l (suc n) p ps e = ground arith

frames_of-write : (l : ℕ → ℕ) (n k v : ℕ) → n < k → frames_of (write l k v) n ≡ frames_of l n
frames_of-write l zero k v h = refl
frames_of-write l (suc n) k v h =
    rw (write-ne l k (suc n) v (omega arith))
      (ap (λ ps. l (suc n) ∷ ps) (frames_of-write l n k v (omega arith)))

-- What `alloc_page` returns is the word at the top, unless there is nothing to return.
alloc-word :
    (fr : Frames) → fr.total_memory ≢ 0 → fr.entries ≢ 0 → (alloc_page fr).0 ≡ fr.list fr.entries
unfolding alloc_page
alloc-word fr on left = ground arith

-- At a word of 0 it changes nothing.
alloc-stuck : (fr : Frames) → fr.list fr.entries ≡ 0 → alloc_page fr ≡ (0, fr)
unfolding alloc_page
alloc-stuck fr e = ground arith

abbrev popped : Frames → Frames
popped fr = record fr {
  list = write fr.list fr.entries 0;
  entries = fr.entries - 1;
  used_memory = sub32 fr.used_memory page_size;
}

alloc-popped :
    (fr : Frames) (p : ℕ) (ps : List ℕ)
    → fr.total_memory ≢ 0
    → contents fr ≡ p ∷ ps
    → 0 < p
    → alloc_page fr ≡ (p, popped fr)
unfolding alloc_page
alloc-popped fr p ps on e pos =
    let k = frames_of-cons fr.list fr.entries p ps e in
    rw (ne→== fr.total_memory 0 on, ne→== fr.entries 0 (omega (arith, k.0)), k.1, lt→ltb 0 p pos)

-- The frame on top is handed out, the rest stays, and 4096 bytes are taken off the count of memory
-- in use.
pub alloc-top :
    (fr : Frames) (p : ℕ) (ps : List ℕ)
    → fr.total_memory ≢ 0
    → contents fr ≡ p ∷ ps
    → 0 < p
    → ((alloc_page fr).0 ≡ p)
      × (contents (alloc_page fr).1 ≡ ps)
      × ((alloc_page fr).1.used_memory ≡ sub32 fr.used_memory page_size)
      × ((alloc_page fr).1.total_memory ≡ fr.total_memory)
alloc-top fr p ps on e pos =
    let k = frames_of-cons fr.list fr.entries p ps e in
    rw (alloc-popped fr p ps on e pos) (
      refl,
      frames_of-write fr.list (fr.entries - 1) fr.entries 0 (omega (arith, k.0)) ∙ k.2,
      refl,
      refl,
    )

-- With the memory initialised, successive calls of `alloc_page` refine the removal from a stack: if
-- the stack holds `xs` and then `ys`, and no frame of `xs` is at address 0, `length xs` calls hand
-- out `xs` in order and leave `ys`.
pub alloc_many-contents :
    (xs ys : List ℕ) (fr : Frames)
    → fr.total_memory ≢ 0
    → contents fr ≡ xs ++ ys
    → AllPositive xs
    → ((alloc_many (length xs) fr).0 ≡ xs) × (contents (alloc_many (length xs) fr).1 ≡ ys)
unfolding alloc_many
alloc_many-contents [] ys fr on e pos = (refl, e)
alloc_many-contents (x ∷ xs) ys fr on e pos =
    let (first, rest, _, total) = alloc-top fr x (xs ++ ys) on e pos.0 in
    let (later, left) =
      alloc_many-contents xs ys (alloc_page fr).1 (λ z. on (sym total ∙ z)) rest pos.1 in
    (rw (first, later), left)

-- `free_page` of an aligned address writes over the word of the top frame, and moves the top on to
-- the word behind it: the frame that was on top is lost.
free-over :
    (fr : Frames) (a : ℕ)
    → fr.total_memory ≢ 0
    → a % 4096 ≡ 0
    → free_page a fr ≡ (
      0,
      record fr {
        list = write fr.list fr.entries a;
        entries = add32 fr.entries 1;
        used_memory = add32 fr.used_memory page_size;
      },
    )
unfolding free_page
free-over fr a on aligned = rw (ne→== fr.total_memory 0 on, mask_low a, aligned)

-- With the memory initialised, after an aligned address is given back the next `alloc_page` hands
-- out whatever the word behind the old top holds: the address that was given back lies in the word
-- of the frame that was on top, and both are passed over.
free-then-alloc :
    (fr : Frames) (a : ℕ)
    → fr.total_memory ≢ 0
    → a % 4096 ≡ 0
    → fr.entries + 1 < 2 ^ 32
    → ((alloc_page (free_page a fr).1).0 ≡ fr.list (fr.entries + 1))
      × ((free_page a fr).1.list fr.entries ≡ a)
free-then-alloc fr a on aligned small =
    let next : add32 fr.entries 1 ≡ fr.entries + 1 = omega arith in
    let other = write-ne fr.list fr.entries (fr.entries + 1) a (omega arith) in
    rw (free-over fr a on aligned, next)
      (alloc-word _ on (omega arith) ∙ other, write_self fr.list fr.entries a)

alloc_many-stuck :
    (k : ℕ) (fr : Frames) → fr.list fr.entries ≡ 0 → alloc_many k fr ≡ (replicate k 0, fr)
unfolding alloc_many
alloc_many-stuck zero fr e = refl
alloc_many-stuck (suc k) fr e = rw (alloc-stuck fr e, alloc_many-stuck k fr e)

-- With the memory initialised, if the frame on top of the stack, at an aligned address other than
-- 0, is handed out and given back at once, then every later `alloc_page` returns 0, however many
-- frames were left.
pub alloc-free-alloc :
    (k : ℕ) (fr : Frames) (p : ℕ) (ps : List ℕ)
    → fr.total_memory ≢ 0
    → contents fr ≡ p ∷ ps
    → 0 < p
    → p % 4096 ≡ 0
    → fr.entries < 2 ^ 32
    → let back = (free_page p (alloc_page fr).1).1 in alloc_many k back ≡ (replicate k 0, back)
alloc-free-alloc k fr p ps on e pos aligned small =
    let left = (frames_of-cons fr.list fr.entries p ps e).0 in
    let next : add32 (fr.entries - 1) 1 ≡ fr.entries = omega arith in
    rw (alloc-popped fr p ps on e pos, free-over (popped fr) p on aligned, next)
      (alloc_many-stuck k _ (
        write-ne (write fr.list fr.entries 0) (fr.entries - 1) fr.entries p (omega arith)
        ∙ write_self fr.list fr.entries 0))
