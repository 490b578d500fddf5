-- ===== src/Idt/Installed.antt =====
-- What a gate holds, and what the loops of the start leave in the table.
use ktux.Base.{
  ℕ, zero, suc, ◌+◌, ◌-◌, ◌*◌, ◌^◌, ◌≤◌, ◌<◌, ◌≡◌, ◌≢◌, refl, ap, ◌∙◌, ◌⊎◌, inl, inr, Bool, true,
  false, if◌then◌else◌, ltb, ◌==◌, if_both, ==_iff, write, write_self, write-ne, ne→==, ge→ltb,
  lt→ltb, arith,
}
use native.Mathlib.Decide.{ℕ_discrete}
use ktux.Base.Bits.{bit_and-mod}
use ktux.Base.Int.{ℤ, pos}
use ktux.Idt.{Gate, Idt, gate_of, set_idt_entry, is_false, install, err_bounds_exceed}

-- The address that the processor jumps to.
abbrev pub target : Gate → ℕ
target g = g.offset_high * 2 ^ 16 + g.offset_low

pub gate_of-target : (handler dpl : ℕ) → target (gate_of handler dpl) ≡ handler
unfolding gate_of
gate_of-target handler dpl = rw (bit_and-mod 16 handler) (omega arith)

pub set_idt_entry-set :
    (vector handler dpl : ℕ) (t : Idt)
    → vector < 256
    → handler ≢ 0
    → set_idt_entry vector handler dpl t
      ≡ (pos 1, record t { gates = write t.gates vector (gate_of handler dpl) })
unfolding set_idt_entry
set_idt_entry-set vector handler dpl t low ne =
    rw (ge→ltb 0xFF vector (omega arith), ne→== handler 0 ne) refl

set_idt_entry-refused :
    (vector handler dpl : ℕ) (t : Idt)
    → (256 ≤ vector) ⊎ (handler ≡ 0)
    → set_idt_entry vector handler dpl t ≡ (err_bounds_exceed, t)
unfolding set_idt_entry
set_idt_entry-refused vector handler dpl t (inl high) = rw (lt→ltb 0xFF vector (omega arith)) refl
set_idt_entry-refused vector handler dpl t (inr null) =
    let test : (handler == 0) ≡ true = (==_iff handler 0).1 null in
    if_both (λ r. r ≡ (err_bounds_exceed, t)) (ltb 0xFF vector) refl (rw test refl)

low_or_high : (a b : ℕ) → (a < b) ⊎ (b ≤ a)
low_or_high a b = ground arith

-- Setting an entry answers 1 exactly for a vector below 256 and a handler that is not NULL: the gate
-- then leads to the handler and no other gate changes; otherwise nothing changes and it answers -4.
pub set_idt_entry-cases :
    (vector handler dpl : ℕ) (t : Idt)
    → ((vector < 256)
        × (handler ≢ 0)
        × ((set_idt_entry vector handler dpl t).0 ≡ pos 1)
        × (target ((set_idt_entry vector handler dpl t).1.gates vector) ≡ handler)
        × ((v : ℕ) → v ≢ vector → (set_idt_entry vector handler dpl t).1.gates v ≡ t.gates v))
      ⊎ (((256 ≤ vector) ⊎ (handler ≡ 0))
          × (set_idt_entry vector handler dpl t ≡ (err_bounds_exceed, t)))
set_idt_entry-cases vector handler dpl t =
    let refused = set_idt_entry-refused vector handler dpl t in
    elim (ℕ_discrete handler 0) [
      | yes e ↦ inr (inr e, refused (inr e))
      | no ne ↦ elim (low_or_high vector 256) [
        | inr high ↦ inr (inl high, refused (inl high))
        | inl low ↦ inl (
            rw (set_idt_entry-set vector handler dpl t low ne) (
              low,
              ne,
              refl,
              rw (write_self t.gates vector (gate_of handler dpl)) (gate_of-target handler dpl),
              λ v other. write-ne t.gates vector v (gate_of handler dpl) other,
            ))
      ]
    ]

-- A loop that stays in the table comes to its end, installs each handler that is not NULL, and
-- leaves the rest of the table.
pub record IsInstalled (base count i : ℕ) (handler : ℕ → ℕ) (t : Idt) (r : Bool × ℤ × Idt)
    : Type 0 where
  pub ended : r.0 ≡ true
  pub inside :
      (v : ℕ)
      → base + i ≤ v
      → v < base + i + count
      → handler (v - base) ≢ 0
      → r.2.gates v ≡ gate_of (handler (v - base)) 0
  pub outside : (v : ℕ) → (v < base + i) ⊎ (base + i + count ≤ v) → r.2.gates v ≡ t.gates v
  pub uninitialized : r.2.idt_initialized ≡ t.idt_initialized

pub install-IsInstalled :
    (base count i : ℕ) (handler : ℕ → ℕ) (status : ℤ) (t : Idt)
    → base + i + count ≤ 256
    → IsInstalled base count i handler t (install base count i handler (status, t))
unfolding install is_false
install-IsInstalled base zero i handler status t fits = record {
  ended = refl;
  inside = λ v lo hi ne. absurd (omega arith);
  outside = λ v out. refl;
  uninitialized = refl;
}
install-IsInstalled base (suc count) i handler status t fits = elim (ℕ_discrete (handler i) 0) [
  | yes e ↦
      let rest = install-IsInstalled base count (i + 1) handler err_bounds_exceed t (omega arith) in
      rw (set_idt_entry-refused (base + i) (handler i) 0 t (inr e)) record {
        ended = rest.ended;
        inside = λ v lo hi nn. elim (ℕ_discrete v (base + i)) [
          | yes at ↦ let index : v - base ≡ i = omega arith in absurd (nn (ap handler index ∙ e))
          | no other ↦ rest.inside v (omega arith) (omega arith) nn
        ];
        outside = λ v out. rest.outside v (omega arith);
        uninitialized = rest.uninitialized;
      }
  | no ne ↦
      let t' = record t { gates = write t.gates (base + i) (gate_of (handler i) 0) } in
      let rest = install-IsInstalled base count (i + 1) handler (pos 1) t' (omega arith) in
      rw (set_idt_entry-set (base + i) (handler i) 0 t (omega arith) ne) record {
        ended = rest.ended;
        inside = λ v lo hi nn. elim (ℕ_discrete v (base + i)) [
          | yes at ↦
              let index : v - base ≡ i = omega arith in
              rest.outside v (omega arith)
              ∙ rw (index, at) (write_self t.gates (base + i) (gate_of (handler i) 0))
          | no other ↦ rest.inside v (omega arith) (omega arith) nn
        ];
        outside =
            λ v out. rest.outside v (omega arith) ∙ write-ne t.gates (base + i) v _ (omega arith);
        uninitialized = rest.uninitialized;
      }
]

-- What one entry answers.
abbrev pub answer : ℕ → ℤ
answer handler = if handler == 0 then err_bounds_exceed else pos 1

set_idt_entry-answer :
    (vector handler : ℕ) (t : Idt)
    → vector < 256
    → (u : Idt) × (set_idt_entry vector handler 0 t ≡ (answer handler, u))
      × (is_false (answer handler) ≡ false)
unfolding is_false
set_idt_entry-answer vector handler t low = elim (ℕ_discrete handler 0) [
  | yes e ↦ rw e (t, set_idt_entry-refused vector 0 0 t (inr refl), refl)
  | no ne ↦ rw (ne→== handler 0 ne) (_, set_idt_entry-set vector handler 0 t low ne, refl)
]

-- A loop answers what its last entry does.
pub install-answer :
    (base count i : ℕ) (handler : ℕ → ℕ) (status : ℤ) (t : Idt)
    → base + i + count < 256
    → (install base (suc count) i handler (status, t)).1 ≡ answer (handler (i + count))
unfolding install
install-answer base zero i handler status t fits =
    let (u, run, going) = set_idt_entry-answer (base + i) (handler i) t (omega arith) in
    let index : i + 0 ≡ i = omega arith in rw (run, going, index) refl
install-answer base (suc count) i handler status t fits =
    let (u, run, going) = set_idt_entry-answer (base + i) (handler i) t (omega arith) in
    let index : i + 1 + count ≡ i + suc count = omega arith in
    rw (run, going)
      (install-answer base count (i + 1) handler (answer (handler i)) u (omega arith)
        ∙ ap (λ k. answer (handler k)) index)
