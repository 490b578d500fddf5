-- ===== src/Stdio/Numeral.antt =====
-- Numbers as text, in positional notation.
use mathlib.Core.List.{append_assoc, append-nil}
use ktux.Base.{
  ℕ, zero, suc, ◌+◌, ◌-◌, ◌*◌, ◌/◌, ◌%◌, ◌^◌, ◌≤◌, ◌<◌, ◌≡◌, refl, sym, ap, ◌∙◌, subst, Bool, true,
  false, List, [], ◌∷◌, ◌++◌, ltb, ◌==◌, ==_iff, ne→==, if◌then◌else◌, get_or, arith,
}
use native.Mathlib.Decide.{ℕ_discrete}
use native.Mathlib.Nat.{div-lt_iff_lt-mul, mod-lt, pow-suc, pow-zero}
use ktux.Base.Below.{all_below-holds}
use ktux.Base.Run.{ok}
use ktux.Stdio.{to_digits, pr_bufroom}

-- The digits up to sixteen.
abbrev pub digit_char : Bool → ℕ → ℕ
digit_char true d =
    get_or
      (b'0' ∷ b'1' ∷ b'2' ∷ b'3' ∷ b'4' ∷ b'5' ∷ b'6' ∷ b'7' ∷ b'8' ∷ b'9' ∷ b'A' ∷ b'B' ∷ b'C'
        ∷ b'D' ∷ b'E' ∷ b'F' ∷ [])
      d 0
digit_char false d =
    get_or
      (b'0' ∷ b'1' ∷ b'2' ∷ b'3' ∷ b'4' ∷ b'5' ∷ b'6' ∷ b'7' ∷ b'8' ∷ b'9' ∷ b'a' ∷ b'b' ∷ b'c'
        ∷ b'd' ∷ b'e' ∷ b'f' ∷ [])
      d 0

-- A number of at most `k` digits: those of its quotient by the radix, and that of the rest.
unfoldable pub numeral_in : ℕ → ℕ → Bool → ℕ → List ℕ
numeral_in zero radix ca n = []
numeral_in (suc k) radix ca n =
    (if n / radix == 0 then [] else numeral_in k radix ca (n / radix))
    ++ digit_char ca (n % radix) ∷ []

-- A number below 2 ^ 32, in a radix from 8 on, has at most eleven digits.
abbrev pub numeral : ℕ → Bool → ℕ → List ℕ
numeral radix ca n = numeral_in 11 radix ca n

-- The character that the code computes.
abbrev digit_of : Bool → ℕ → ℕ
digit_of ca d = if ltb d 10 then d + b'0' else if ca then d - 10 + b'A' else d - 10 + b'a'

digit_of-char : (ca : Bool) (d : ℕ) → d < 16 → digit_of ca d ≡ digit_char ca d
digit_of-char true d h =
    (==_iff _ _).0 (all_below-holds 16 (λ i. digit_of true i == digit_char true i) d refl h)
digit_of-char false d h =
    (==_iff _ _).0 (all_below-holds 16 (λ i. digit_of false i == digit_char false i) d refl h)

numeral_last :
    (radix : ℕ) (ca : Bool) (room k num : ℕ) (rest : List ℕ)
    → 2 ≤ radix
    → radix ≤ 16
    → num / radix ≡ 0
    → to_digits radix ca (suc room) num rest ≡ ok (numeral_in (suc k) radix ca num ++ rest)
unfolding to_digits numeral_in
numeral_last radix ca room k num rest low high e =
    let digit =
      digit_of-char ca (num % radix) (omega (arith, mod-lt num {m = radix} (omega arith))) in
    rw e (ap (λ c. ok (c ∷ rest)) digit)

-- The loop of the conversion writes the numeral in front of what it has written.
pub to_digits-numeral :
    (radix : ℕ) (ca : Bool) (room k num : ℕ) (rest : List ℕ)
    → 2 ≤ radix
    → radix ≤ 16
    → k ≤ room
    → num < radix ^ suc k
    → to_digits radix ca (suc room) num rest ≡ ok (numeral_in (suc k) radix ca num ++ rest)
unfolding to_digits numeral_in
to_digits-numeral radix ca room zero num rest low high fits small =
    let one : num < 1 * radix =
      subst (λ p. num < p * radix) (pow-zero radix)
        (subst (λ p. num < p) (pow-suc radix 0) small) in
    let none_left : num / radix < 1 = (div-lt_iff_lt-mul (omega arith)).1 one in
    numeral_last radix ca room 0 num rest low high (omega arith)
to_digits-numeral radix ca zero (suc k) num rest low high fits small = absurd (omega arith)
to_digits-numeral radix ca (suc room) (suc k) num rest low high fits small =
    elim (ℕ_discrete (num / radix) 0) [
      | yes e ↦ numeral_last radix ca (suc room) (suc k) num rest low high e
      | no ne ↦
          let fewer : num / radix < radix ^ suc k =
            (div-lt_iff_lt-mul (omega arith)).1 (omega (arith, pow-suc radix (suc k))) in
          let digit =
            digit_of-char ca (num % radix) (omega (arith, mod-lt num {m = radix} (omega arith))) in
          let before =
            to_digits-numeral radix ca room k (num / radix) (digit_of ca (num % radix) ∷ rest) low
              high (omega arith) fewer in
          let front = numeral_in (suc k) radix ca (num / radix) in
          rw (ne→== (num / radix) 0 ne) (
            before
            ∙ ap (λ c. ok (front ++ c ∷ rest)) digit
            ∙ ap ok (sym (append_assoc front (digit_char ca (num % radix) ∷ []) rest)))
    ]

-- From an empty buffer.
pub to_digits-numeral_all :
    (radix : ℕ) (ca : Bool) (num : ℕ)
    → 2 ≤ radix
    → radix ≤ 16
    → num < radix ^ 11
    → to_digits radix ca pr_bufroom num [] ≡ ok (numeral radix ca num)
to_digits-numeral_all radix ca num low high small =
    to_digits-numeral radix ca 30 10 num [] low high (omega arith) small
    ∙ ap ok (append-nil (numeral radix ca num))
