-- ===== src/Strings/Compare.antt =====
-- What the comparisons answer.
use ktux.Base.{ℕ, ◌≡◌, refl, ◌↔◌, ◌≢◌, List, [], ◌∷◌, ◌++◌, ==_refl, length, arith}
use ktux.Base.Int.{pos, sub_ℕ}
use ktux.Strings.{strcmp, strncmp}

-- No character of a string is the NUL that ends it.
abbrev pub IsText : List ℕ → Type 0
IsText [] = Unit
IsText (c ∷ s) = (c ≢ 0) × IsText s

strcmp_refl : (s : List ℕ) → strcmp s s ≡ pos 0
unfolding strcmp
strcmp_refl [] = refl
strcmp_refl (c ∷ s) = rw (==_refl c) (strcmp_refl s)

strcmp-eq : (s t : List ℕ) → IsText s → IsText t → strcmp s t ≡ pos 0 → s ≡ t
unfolding strcmp
strcmp-eq [] [] p q e = refl
strcmp-eq [] (d ∷ t) p q e = absurd (ground arith)
strcmp-eq (c ∷ s) [] p q e = absurd (ground arith)
strcmp-eq (c ∷ s) (d ∷ t) p q e = ground (arith, strcmp-eq s t)

-- For strings without a NUL inside, `strcmp` is 0 exactly if they are equal.
strcmp_zero_iff : (s t : List ℕ) → IsText s → IsText t → (strcmp s t ≡ pos 0) ↔ (s ≡ t)
strcmp_zero_iff s t p q = (strcmp-eq s t p q, λ e. rw e (strcmp_refl t))

-- `strncmp` of two strings that share their first `len` characters is the difference of the next
-- two: the limit does not keep it from comparing one more.
strncmp_overruns :
    (p s t : List ℕ) (c d : ℕ) → strncmp (p ++ c ∷ s) (p ++ d ∷ t) (length p) ≡ sub_ℕ c d
unfolding strncmp
strncmp_overruns [] s t c d = refl
strncmp_overruns (a ∷ p) s t c d = rw (==_refl a) (strncmp_overruns p s t c d)
