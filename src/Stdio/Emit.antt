-- ===== src/Stdio/Emit.antt =====
-- What the loops of a conversion send: the field's text.
use ktux.Base.{
  ℕ, zero, suc, ◌+◌, ◌-◌, ◌≡◌, refl, ap, subst, Bool, true, false, ◌&&◌, not, List, [], ◌∷◌, ◌++◌,
  if◌then◌else◌, replicate, length, Bool-cases, inl, inr, arith,
}
use ktux.Strings.{strlen}
use ktux.Stdio.{Printf, promote, put, put_all, pad, emit2, emit, reset}
use ktux.Stdio.Fields.{Content, justify}

strlen-length : (t : List ℕ) → strlen t ≡ length t
unfolding strlen
strlen-length [] = refl
strlen-length (c ∷ t) = ap suc (strlen-length t)

module _ {P : Type 0} (fn : ℕ → P → P) (stack : ℕ → ℕ) (strings : ℕ → List ℕ) where
  send : List ℕ → Printf P → Printf P
  send = put_all fn stack strings

  pub put_all-append :
      (s t : List ℕ) (st : Printf P)
      → put_all fn stack strings (s ++ t) st
        ≡ put_all fn stack strings t (put_all fn stack strings s st)
  unfolding put_all
  put_all-append [] t st = refl
  put_all-append (c ∷ s) t st = put_all-append s t (put fn stack strings (promote c) st)

  pad_spaces :
      (n : ℕ) (st : Printf P)
      → pad fn stack strings n b' ' st ≡ put_all fn stack strings (replicate n b' ') st
  unfolding pad put_all promote
  pad_spaces zero st = refl
  pad_spaces (suc n) st = pad_spaces n (put fn stack strings b' ' st)

  pad_zeroes :
      (n : ℕ) (st : Printf P)
      → pad fn stack strings n b'0' st ≡ put_all fn stack strings (replicate n b'0') st
  unfolding pad put_all promote
  pad_zeroes zero st = refl
  pad_zeroes (suc n) st = pad_zeroes n (put fn stack strings b'0' st)

  put_minus :
      (st : Printf P) → put fn stack strings b'-' st ≡ put_all fn stack strings (b'-' ∷ []) st
  unfolding put_all promote
  put_minus st = refl

  pub reset-put_all :
      (t : List ℕ) (st : Printf P)
      → reset fn stack strings (put_all fn stack strings t st)
        ≡ put_all fn stack strings t (reset fn stack strings st)
  unfolding put_all put reset
  reset-put_all [] st = refl
  reset-put_all (c ∷ t) st = reset-put_all t (put fn stack strings (promote c) st)

  -- `emit2` behind the sign of a number that is padded with zeroes, flag by flag.
  emitted : Bool → Bool → Bool → ℕ → List ℕ → ℕ → Printf P → Printf P
  emitted left zeroes negative width chars actual st =
      let before = if negative && zeroes then put fn stack strings b'-' st else st in
      let fill = if left then 0 else width - actual in
      let padded = pad fn stack strings fill (if zeroes then b'0' else b' ') before in
      let signed = if negative && not zeroes then put fn stack strings b'-' padded else padded in
      pad fn stack strings (width - fill - actual) b' ' (put_all fn stack strings chars signed)

  emitted-justify :
      (left zeroes negative : Bool) (width columns : ℕ) (chars : List ℕ) (st : Printf P)
      → emitted left zeroes negative width chars (columns + (if negative then 1 else 0)) st
        ≡ put_all fn stack strings
            (justify left zeroes width
              (record { negative = negative; chars = chars; columns = columns }))
            st
  unfolding emitted put_all
  emitted-justify true true true width columns chars st =
      let gap : width - 0 - (columns + 1) ≡ width - (columns + 1) = omega arith in
      simp (gap, pad_spaces, pad_zeroes, put_minus, put_all-append)
  emitted-justify true true false width columns chars st =
      let gap : width - 0 - (columns + 0) ≡ width - (columns + 0) = omega arith in
      simp (gap, pad_spaces, pad_zeroes, put_all-append)
  emitted-justify true false true width columns chars st =
      let gap : width - 0 - (columns + 1) ≡ width - (columns + 1) = omega arith in
      simp (gap, pad_spaces, put_minus, put_all-append)
  emitted-justify true false false width columns chars st =
      let gap : width - 0 - (columns + 0) ≡ width - (columns + 0) = omega arith in
      simp (gap, pad_spaces, put_all-append)
  emitted-justify false true true width columns chars st =
      let gone : width - (width - (columns + 1)) - (columns + 1) ≡ 0 = omega arith in
      simp (gone, pad_spaces, pad_zeroes, put_minus, put_all-append)
  emitted-justify false true false width columns chars st =
      let gone : width - (width - (columns + 0)) - (columns + 0) ≡ 0 = omega arith in
      simp (gone, pad_spaces, pad_zeroes, put_all-append)
  emitted-justify false false true width columns chars st =
      let gone : width - (width - (columns + 1)) - (columns + 1) ≡ 0 = omega arith in
      simp (gone, pad_spaces, put_minus, put_all-append)
  emitted-justify false false false width columns chars st =
      let gone : width - (width - (columns + 0)) - (columns + 0) ≡ 0 = omega arith in
      simp (gone, pad_spaces, put_all-append)

  pub emit-justify :
      (chars : List ℕ) (st : Printf P)
      → emit fn stack strings chars st
        ≡ put_all fn stack strings
            (justify st.flags.lj st.flags.lz st.given_wd
              (record { negative = st.flags.ws; chars = chars; columns = length chars }))
            st
  unfolding emit emitted
  emit-justify chars st =
      let f = st.flags in
      let sends = emitted-justify f.lj f.lz f.ws st.given_wd (length chars) chars st in
      elim (Bool-cases (f.ws && f.lz)) [
        | inl e ↦ rw (strlen-length chars, e) (rw e at sends)
        | inr e ↦ rw (strlen-length chars, e) (rw e at sends)
      ]

  pub emit2-justify :
      (chars : List ℕ) (columns : ℕ) (st : Printf P)
      → st.flags.ws ≡ false
      → emit2 fn stack strings chars columns st
        ≡ put_all fn stack strings
            (justify st.flags.lj st.flags.lz st.given_wd
              (record { negative = false; chars = chars; columns = columns }))
            st
  unfolding emit2 emitted
  emit2-justify chars columns st positive =
      let f = st.flags in
      let whole : columns + 0 ≡ columns = omega arith in
      let content : Content = record { negative = false; chars = chars; columns = columns } in
      let sends =
        subst
          (λ a.
            emitted f.lj f.lz false st.given_wd chars a st
            ≡ put_all fn stack strings (justify f.lj f.lz st.given_wd content) st)
          whole (emitted-justify f.lj f.lz false st.given_wd columns chars st) in
      simp positive sends
