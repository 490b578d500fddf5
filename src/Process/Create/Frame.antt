-- ===== src/Process/Create/Frame.antt =====
-- The stack of a new thread: what the interrupt's return will pop from it.
use mathlib.Core.List.{reverse, reverse-append}
use ktux.Base.{
  ℕ, zero, suc, ◌+◌, ◌-◌, ◌*◌, ◌≤◌, ◌<◌, ◌^◌, ◌≡◌, refl, sym, ap, ◌∙◌, List, [], ◌∷◌, ◌++◌, length,
  write, write_self, write-ne, sub32, arith,
}
use ktux.Process.Create.{push, push_all}

-- The `n` words from `sp` up, in the order in which they are popped.
abbrev pub pop_all : ℕ → ℕ → (ℕ → ℕ) → List ℕ
pop_all zero sp words = []
pop_all (suc n) sp words = words sp ∷ pop_all n (sp + 4) words

pop_all-suc :
    (n sp : ℕ) (words : ℕ → ℕ)
    → pop_all (suc n) sp words ≡ pop_all n sp words ++ words (sp + 4 * n) ∷ []
pop_all-suc zero sp words = ap (λ a. words a ∷ []) (omega arith)
pop_all-suc (suc n) sp words =
    let e : sp + 4 + 4 * n ≡ sp + 4 * suc n = omega arith in
    ap (λ l. words sp ∷ l)
      (pop_all-suc n (sp + 4) words ∙ ap (λ a. pop_all n (sp + 4) words ++ words a ∷ []) e)

-- Pushes move the pointer down by four bytes each, are popped in reverse, and leave the words at
-- and above the old pointer, and below the new one, as they are.
pub record IsPushed (vs : List ℕ) (sp : ℕ) (words : ℕ → ℕ) (out : ℕ × (ℕ → ℕ)) : Type 0 where
  pub moved : out.0 + 4 * length vs ≡ sp
  pub popped : pop_all (length vs) out.0 out.1 ≡ reverse vs
  pub above : (q : ℕ) → sp ≤ q → out.1 q ≡ words q
  pub below : (q : ℕ) → q < out.0 → out.1 q ≡ words q

IsPushed-cons :
    (v : ℕ) (vs : List ℕ) (sp : ℕ) (words : ℕ → ℕ) (out : ℕ × (ℕ → ℕ))
    → 4 ≤ sp
    → IsPushed vs (sp - 4) (write words (sp - 4) v) out
    → IsPushed (v ∷ vs) sp words out
IsPushed-cons v vs sp words out room ih = record {
  moved = omega (arith, ih.moved);
  popped =
      pop_all-suc (length vs) out.0 out.1
      ∙ ap (λ l. l ++ out.1 (out.0 + 4 * length vs) ∷ []) ih.popped
      ∙ ap (λ a. reverse vs ++ a ∷ []) top
      ∙ sym (reverse-append (v ∷ []) vs);
  above = λ q h. ih.above q (omega arith) ∙ write-ne words (sp - 4) q v (omega arith);
  below = λ q h. ih.below q h ∙ write-ne words (sp - 4) q v (omega (arith, ih.moved));
}
  where
    top : out.1 (out.0 + 4 * length vs) ≡ v
    top = ap out.1 ih.moved ∙ ih.above (sp - 4) (omega arith) ∙ write_self words (sp - 4) v

pub push_all-IsPushed :
    (vs : List ℕ) (sp : ℕ) (words : ℕ → ℕ)
    → 4 * length vs ≤ sp
    → sp < 2 ^ 32
    → IsPushed vs sp words (push_all vs (sp, words))
unfolding push_all push
push_all-IsPushed [] sp words room small = record {
  moved = omega arith;
  popped = refl;
  above = λ q h. refl;
  below = λ q h. refl;
}
push_all-IsPushed (v ∷ vs) sp words room small =
    let lower : sub32 sp 4 ≡ sp - 4 = omega arith in
    rw lower (
      IsPushed-cons v vs sp words _ (omega arith)
        (push_all-IsPushed vs (sp - 4) (write words (sp - 4) v) (omega arith) (omega arith)))
