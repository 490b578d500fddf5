-- ===== src/Strings/Tests.antt =====
-- The block operations on a small memory, and the comparisons on short strings.
use ktux.Base.{ℕ, ◌*◌, ◌≡◌, refl, List, [], ◌∷◌, arith}
use ktux.Base.Int.{pos}
use ktux.Strings.{memsetd, strlen, strcmp}
use ktux.Strings.Compare.{IsText}

-- The memory whose word at `p` is `p * 10`.
abbrev tens : ℕ → ℕ
tens p = p * 10

abbrev ti : List ℕ
ti = b't' ∷ b'i' ∷ []

ti-IsText : IsText ti
ti-IsText = (omega arith, (omega arith, tt))

abbrev two_chars : List ℕ
two_chars = 1 ∷ 2 ∷ []

-- A command is not told from its prefix by the sign 1.
strcmp_longer : strcmp (b'a' ∷ b'b' ∷ []) (b'a' ∷ []) ≡ pos 98
unfolding strcmp
strcmp_longer = refl

strlen_two : strlen (b'a' ∷ b'b' ∷ []) ≡ 2
unfolding strlen
strlen_two = refl

memsetd_two : memsetd 4 7 2 tens 5 ≡ 7
unfolding memsetd
memsetd_two = refl
