-- ===== src/Stdio/Digits.antt =====
-- The conversion of numbers: the digits denote the number, and the buffer is large enough.
use ktux.Base.{
  ℕ, zero, suc, ◌+◌, ◌-◌, ◌*◌, ◌/◌, ◌%◌, ◌^◌, ◌≤◌, ◌<◌, ◌≡◌, refl, ap, sym, subst, ◌∙◌, Bool, true,
  false, List, [], ◌∷◌, ltb, leb, ne→==, if◌then◌else◌, length, arith,
}
use native.Mathlib.Decide.{ℕ_discrete}
use native.Mathlib.Nat.{div-add-mod', div-lt_iff_lt-mul, mod-lt, pow-suc, pow-zero}
use ktux.Base.Run.{ok}
use ktux.Stdio.{to_digits}

-- The digits of the radices up to 16, in either case, as a reader takes them.
abbrev pub digit_value : ℕ → ℕ
digit_value c = if leb c b'9' then c - b'0' else if leb c b'F' then c - b'A' + 10 else c - b'a' + 10

-- The number that digits denote, behind those of `n`.
abbrev pub value_from : ℕ → ℕ → List ℕ → ℕ
value_from radix n [] = n
value_from radix n (c ∷ s) = value_from radix (n * radix + digit_value c) s

abbrev digit_of : Bool → ℕ → ℕ
digit_of ca n = if ltb n 10 then n + b'0' else if ca then n - 10 + b'A' else n - 10 + b'a'

digit_value-digit_of : (ca : Bool) (n : ℕ) → n < 16 → digit_value (digit_of ca n) ≡ n
digit_value-digit_of true n h = ground arith
digit_value-digit_of false n h = ground arith

-- What the loop has made of `num`, in at most `k` digits before `rest`.
pub record AreDigitsOf (radix num k : ℕ) (rest out : List ℕ) : Type 0 where
  pub denotes : value_from radix 0 out ≡ value_from radix num rest
  pub short : length out ≤ length rest + k
  pub some_digit : length rest < length out

-- One digit, behind those of `num / radix`.
value_step :
    (radix num : ℕ) (ca : Bool) (rest : List ℕ)
    → 2 ≤ radix
    → radix ≤ 16
    → value_from radix (num / radix) (digit_of ca (num % radix) ∷ rest) ≡ value_from radix num rest
value_step radix num ca rest low high =
    let digit =
      digit_value-digit_of ca (num % radix) (omega (arith, mod-lt num {m = radix} (omega arith))) in
    ap (λ n. value_from radix n rest)
      (ap (λ d. num / radix * radix + d) digit ∙ div-add-mod' num radix)

to_digits_last :
    (radix : ℕ) (ca : Bool) (room k num : ℕ) (rest : List ℕ)
    → 2 ≤ radix
    → radix ≤ 16
    → num / radix ≡ 0
    → (out : List ℕ) × (to_digits radix ca (suc room) num rest ≡ ok out)
      × AreDigitsOf radix num (suc k) rest out
unfolding to_digits
to_digits_last radix ca room k num rest low high e = (
  digit_of ca (num % radix) ∷ rest,
  rw e refl,
  record {
    denotes =
        ap (λ n. value_from radix n (digit_of ca (num % radix) ∷ rest)) (sym e)
        ∙ value_step radix num ca rest low high;
    short = omega arith;
    some_digit = omega arith;
  },
)

-- Enough room for as many digits as the number can have.
pub to_digits_lem :
    (radix : ℕ) (ca : Bool) (room k num : ℕ) (rest : List ℕ)
    → 2 ≤ radix
    → radix ≤ 16
    → k ≤ room
    → num < radix ^ suc k
    → (out : List ℕ) × (to_digits radix ca (suc room) num rest ≡ ok out)
      × AreDigitsOf radix num (suc k) rest out
unfolding to_digits
to_digits_lem radix ca room zero num rest low high fits small =
    let one : num < 1 * radix =
      subst (λ p. num < p * radix) (pow-zero radix)
        (subst (λ p. num < p) (pow-suc radix 0) small) in
    let none_left : num / radix < 1 = (div-lt_iff_lt-mul (omega arith)).1 one in
    to_digits_last radix ca room 0 num rest low high (omega arith)
to_digits_lem radix ca zero (suc k) num rest low high fits small = absurd (omega arith)
to_digits_lem radix ca (suc room) (suc k) num rest low high fits small =
    elim (ℕ_discrete (num / radix) 0) [
      | yes e ↦ to_digits_last radix ca (suc room) (suc k) num rest low high e
      | no ne ↦
          let fewer : num / radix < radix ^ suc k =
            (div-lt_iff_lt-mul (omega arith)).1 (omega (arith, pow-suc radix (suc k))) in
          let (out, run, digits) =
            to_digits_lem radix ca room k (num / radix) (digit_of ca (num % radix) ∷ rest) low high
              (omega arith) fewer in
          (
            out,
            rw (ne→== (num / radix) 0 ne) run,
            record {
              denotes = digits.denotes ∙ value_step radix num ca rest low high;
              short = omega (arith, digits.short);
              some_digit = omega (arith, digits.some_digit);
            },
          )
    ]
