-- ===== src/Stdio/Decimal.antt =====
-- Decimal numbers: the digits that are printed, as a reader of decimal digits takes them.
use ktux.Base.{
  ℕ, zero, suc, ◌+◌, ◌-◌, ◌*◌, ◌/◌, ◌%◌, ◌^◌, ◌≤◌, ◌<◌, ◌≡◌, refl, sym, subst, ◌∙◌, false, List, [],
  ◌∷◌, ltb, if◌then◌else◌, ne→==, arith,
}
use native.Mathlib.Decide.{ℕ_discrete}
use ktux.Base.Run.{ok, ok-injective}
use ktux.Video.Escape.{AreDigits, number_from}
use ktux.Stdio.{to_digits, pr_bufroom}
use ktux.Stdio.Digits.{to_digits_lem, digit_value, value_from}
use ktux.Stdio.Numeral.{numeral, to_digits-numeral_all}

-- Decimal digits in front of decimal digits.
decimal-AreDigits :
    (room num : ℕ) (rest out : List ℕ)
    → AreDigits rest
    → to_digits 10 false room num rest ≡ ok out
    → AreDigits out
unfolding to_digits
decimal-AreDigits zero num rest out p e = cc
decimal-AreDigits (suc room) num rest out p e =
    let digit : ℕ = if ltb (num % 10) 10 then num % 10 + b'0' else num % 10 - 10 + b'a' in
    let low : b'0' ≤ digit = ground arith in
    let high : digit ≤ b'9' = ground arith in
    elim (ℕ_discrete (num / 10) 0) [
      | yes last ↦ subst AreDigits (ok-injective (rw last at e)) (low, (high, p))
      | no more ↦
          decimal-AreDigits room (num / 10) (digit ∷ rest) out (low, (high, p))
            (rw (ne→== (num / 10) 0 more) at e)
    ]

-- A reader of decimal digits takes them as a reader of any radix does.
number_from-value_from : (n : ℕ) (s : List ℕ) → AreDigits s → number_from n s ≡ value_from 10 n s
number_from-value_from n [] p = refl
number_from-value_from n (c ∷ s) (lo, (hi, p)) =
    let digit : digit_value c ≡ c - b'0' = ground arith in
    rw digit (number_from-value_from (n * 10 + (c - b'0')) s p)

-- A number of decimal digits, with nothing around it.
pub numeral-decimal :
    (n : ℕ) → n < 2 ^ 32 → AreDigits (numeral 10 false n) × (number_from 0 (numeral 10 false n) ≡ n)
numeral-decimal n small =
    let (out, run, digits) =
      to_digits_lem 10 false 30 10 n [] (omega arith) (omega arith) (omega arith) (omega arith) in
    let are = decimal-AreDigits pr_bufroom n [] out tt run in
    let same : out ≡ numeral 10 false n =
      ok-injective
        (sym run ∙ to_digits-numeral_all 10 false n (omega arith) (omega arith) (omega arith)) in
    rw (sym same) (are, number_from-value_from 0 out are ∙ digits.denotes)
