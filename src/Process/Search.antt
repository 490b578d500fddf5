-- ===== src/Process/Search.antt =====
-- The search for the next thread, against the order of slots that starts behind the current one.
use ktux.Base.{
  ℕ, zero, suc, ◌+◌, ◌-◌, ◌≤◌, ◌<◌, ◌≡◌, refl, sym, ap, ◌∙◌, ◌≢◌, inl, inr, true, false, some, List,
  [], ◌∷◌, ltb, if◌then◌else◌, Bool-cases, get_elem?, get_or, length, arith,
}
use mathlib.Core.Bool.{false≢true}
use ktux.Base.Run.{ok, out_of_fuel}
use ktux.Process.{Thread, max_threads, runnable, advance, find}

-- How many slots behind `cur` slot `j` is, going round at `n`: from 1 to `n`.
abbrev pub distance : ℕ → ℕ → ℕ → ℕ
distance n cur j = if ltb cur j then j - cur else j + n - cur

get_elem?-eq-get_or : (xs : List ℕ) (i : ℕ) → i < length xs → get_elem? xs i ≡ some (get_or xs i 0)
get_elem?-eq-get_or [] i h = absurd (omega arith)
get_elem?-eq-get_or (x ∷ xs) zero h = refl
get_elem?-eq-get_or (x ∷ xs) (suc i) h = get_elem?-eq-get_or xs i (omega arith)

pub advance_lem :
    (n cur : ℕ)
    → cur < n
    → n ≤ max_threads
    → (advance n cur < n)
      × ((j : ℕ) → j < n → j ≢ advance n cur → distance n cur j ≡ distance n (advance n cur) j + 1)
      × (distance n cur (advance n cur) ≡ 1)
unfolding advance
advance_lem n cur h k = (ground arith, λ j p q. ground arith, ground arith)

module _ (ts : List ℕ) (mem : ℕ → Thread) (n : ℕ) where
  abbrev pub RunnableAt : ℕ → Type 0
  RunnableAt j = runnable mem (get_or ts j 0) ≡ true

  -- Slot `c` is the first one behind `cur` whose thread can run.
  pub record IsNext (cur c : ℕ) : Type 0 where
    pub within : c < n
    pub able : RunnableAt c
    pub first : (j : ℕ) → j < n → RunnableAt j → distance n cur c ≤ distance n cur j

  find-hit :
      (f cur : ℕ)
      → advance n cur < length ts
      → RunnableAt (advance n cur)
      → find (suc f) ts mem n cur ≡ ok (advance n cur)
  unfolding find
  find-hit f cur h r = ground (arith, get_elem?-eq-get_or ts (advance n cur) h)

  find-miss :
      (f cur : ℕ)
      → advance n cur < length ts
      → runnable mem (get_or ts (advance n cur) 0) ≡ false
      → find (suc f) ts mem n cur ≡ find f ts mem n (advance n cur)
  unfolding find
  find-miss f cur h r = ground (arith, get_elem?-eq-get_or ts (advance n cur) h)

  module _ (cur : ℕ) (within : cur < n) (small : n ≤ max_threads) where
    step :
        (advance n cur < n)
        × ((i : ℕ)
            → i < n
            → i ≢ advance n cur
            → distance n cur i ≡ distance n (advance n cur) i + 1)
        × (distance n cur (advance n cur) ≡ 1)
    step = advance_lem n cur within small

    IsNext-hit : RunnableAt (advance n cur) → IsNext cur (advance n cur)
    IsNext-hit hit = record { within = step.0; able = hit; first = λ i q _. ground (arith, step.2) }

    module _ (miss : runnable mem (get_or ts (advance n cur) 0) ≡ false) where
      apart : (i : ℕ) → RunnableAt i → i ≢ advance n cur
      apart i able e = false≢true (sym miss ∙ ap (λ k. runnable mem (get_or ts k 0)) (sym e) ∙ able)

      nearer : (i : ℕ) → i < n → RunnableAt i → distance n cur i ≡ distance n (advance n cur) i + 1
      nearer i q able = step.1 i q (apart i able)

      IsNext-miss : (c : ℕ) → IsNext (advance n cur) c → IsNext cur c
      IsNext-miss c k = record {
        within = k.within;
        able = k.able;
        first =
            λ i q able. omega (arith, nearer i q able, nearer c k.within k.able, k.first i q able);
      }

  -- Where some slot can run, the loop ends, within one round of the slots, at the next one that
  -- can.
  pub find-IsNext :
      n ≤ max_threads
      → n ≤ length ts
      → (f cur j : ℕ) → cur < n
      → j < n
      → RunnableAt j
      → distance n cur j ≤ f
      → (c : ℕ) × (find f ts mem n cur ≡ ok c) × IsNext cur c
  find-IsNext small fits zero cur j h p r d = absurd (ground arith)
  find-IsNext small fits (suc f) cur j h p r d =
      elim (Bool-cases (runnable mem (get_or ts (advance n cur) 0))) [
        | inl hit ↦ (advance n cur, find-hit f cur inside hit, IsNext-hit cur h small hit)
        | inr miss ↦
            let (c, found, next) =
              find-IsNext small fits f (advance n cur) j (step cur h small).0 p r
                (omega (arith, nearer cur h small miss j p r)) in
            (c, find-miss f cur inside miss ∙ found, IsNext-miss cur h small miss c next)
      ]
    where
      inside : advance n cur < length ts
      inside = omega (arith, (step cur h small).0)

  -- Where no slot can run, the loop goes on however long it is given.
  pub find_spins :
      n ≤ max_threads
      → n ≤ length ts
      → ((j : ℕ) → j < n → runnable mem (get_or ts j 0) ≡ false)
      → (f cur : ℕ) → cur < n
      → find f ts mem n cur ≡ out_of_fuel
  unfolding find
  find_spins small fits idle zero cur h = refl
  find_spins small fits idle (suc f) cur h =
      find-miss f cur (omega (arith, (step cur h small).0))
        (idle (advance n cur) (step cur h small).0)
      ∙ find_spins small fits idle f (advance n cur) (step cur h small).0
