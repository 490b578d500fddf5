-- ===== src/Base/Run.antt =====
-- What a run of C code comes to: a result, a loop that is still going when the fuel is gone, or an
-- access outside the object that the code indexes.
use mathlib.Core.Path.{◌≡◌, refl, ap}

pub data Run {ℓ} (A : Type ℓ) : Type ℓ where
  ok : A → Run A
  out_of_fuel : Run A
  fault : Run A

infixl 5 ◌>>=◌
abbrev pub ◌>>=◌ {ℓ κ} : {A : Type ℓ} {B : Type κ} → Run A → (A → Run B) → Run B
ok a >>= f = f a
out_of_fuel >>= f = out_of_fuel
fault >>= f = fault

module _ {ℓ} {A : Type ℓ} where
  abbrev pub value_or : A → Run A → A
  value_or d (ok a) = a
  value_or d out_of_fuel = d
  value_or d fault = d

  pub ok-injective : {a b : A} → ok a ≡ ok b → a ≡ b
  ok-injective {a} e = ap (value_or a) e

-- A chain that comes to a result passed its first part with a value.
pub >>=-eq-ok {ℓ κ} :
    {A : Type ℓ} {B : Type κ} (first : Run A) (next : A → Run B) {out : B}
    → (first >>= next) ≡ ok out
    → (mid : A) × (first ≡ ok mid) × (next mid ≡ ok out)
>>=-eq-ok fault next e = cc
>>=-eq-ok out_of_fuel next e = cc
>>=-eq-ok (ok mid) next e = (mid, refl, e)

pub >>=-assoc {ℓ κ μ} :
    {A : Type ℓ} {B : Type κ} {C : Type μ} (m : Run A) (f : A → Run B) (g : B → Run C)
    → (m >>= f >>= g) ≡ (m >>= λ a. f a >>= g)
>>=-assoc (ok a) f g = refl
>>=-assoc out_of_fuel f g = refl
>>=-assoc fault f g = refl

-- A run that comes to a result.
abbrev pub Returns {ℓ} : {A : Type ℓ} → Run A → Type ℓ
Returns {A} r = (a : A) × (r ≡ ok a)

pub >>=-Returns {ℓ κ} :
    {A : Type ℓ} {B : Type κ} (first : Run A) (next : A → Run B)
    → Returns first
    → ((a : A) → Returns (next a))
    → Returns (first >>= next)
>>=-Returns first next (a, e) h = let (b, e') = h a in (b, rw e e')
