-- ===== src/Types/Interval/Payload.antt =====
-- The payload of an interval is read back.
use tarant.Base.{
  ℕ, ◌^◌, ◌<◌, ◌≤◌, ◌≡◌, refl, sym, ap, ◌∙◌, true, List, [], ◌∷◌, ◌++◌, length, length-append,
  append_assoc, Result, ok, err, panic, stuck, ◌>>=◌, arith, ◌⊎◌, inl, inr, All-append, Bool-cases,
  All,
}
use tarant.Base.Int.{ℤ, pos, negsuc, eqb_ℤ}
use tarant.Rmp.{Rmp, ReadsBack, IsI64}
use tarant.Types.Interval.{
  Adjust, Interval, IntervalError, code, fields, nonzero, adjust_field, store, put_fields,
  to_payload, read_fields, whole, from_payload, zero_interval,
}

Adjust-cases : (a : Adjust) → (a ≡ Adjust.excess) ⊎ ((a ≡ Adjust.limit) ⊎ (a ≡ Adjust.snap))
Adjust-cases Adjust.excess = inl refl
Adjust-cases Adjust.limit = inr (inl refl)
Adjust-cases Adjust.snap = inr (inr refl)

-- What reading fields one after the other comes to.
store_all : List (ℕ × ℤ) → Interval → Result IntervalError Interval
store_all [] i = ok i
store_all ((id, z) ∷ rest) i = store id z i >>= λ i'. store_all rest i'

abbrev pub AreFields : List (ℕ × ℤ) → Type 0
AreFields = All (λ f. (f.0 < 2 ^ 64) × IsI64 f.1)

>>=_rebind :
    {E A B C : Type 0} (r : Result E A) (h : A → Result E C) (f : A → Result E B)
    (g : B → Result E C)
    → ((a : A) → h a ≡ (f a >>= g))
    → (r >>= h) ≡ ((r >>= f) >>= g)
>>=_rebind (ok a) h f g e = e a
>>=_rebind (err e') h f g e = refl
>>=_rebind panic h f g e = refl
>>=_rebind stuck h f g e = refl

eq_zero : (z : ℤ) → eqb_ℤ z (pos 0) ≡ true → z ≡ pos 0
eq_zero (pos n) e = ap pos (ground arith)
eq_zero (negsuc n) e = ground arith

-- A unit that is left out is one that stands at zero.
store_all-nonzero :
    (id : ℕ) (z : ℤ) (rest more : List (ℕ × ℤ)) (i i' : Interval)
    → store id z i ≡ ok i'
    → (z ≡ pos 0 → i' ≡ i)
    → store_all (nonzero ((id, z) ∷ rest) ++ more) i ≡ store_all (nonzero rest ++ more) i'
unfolding store_all nonzero
store_all-nonzero id z rest more i i' s same = elim (Bool-cases (eqb_ℤ z (pos 0))) [
  | inl e ↦ rw (e, same (eq_zero z e)) refl
  | inr e ↦ rw (e, s) refl
]

nonzero_nil :
    (i : Interval) (more : List (ℕ × ℤ)) → store_all (nonzero [] ++ more) i ≡ store_all more i
unfolding nonzero
nonzero_nil i more = refl

store_all-fields :
    (i : Interval) (more : List (ℕ × ℤ))
    → store_all (nonzero (fields i) ++ more) (record zero_interval { adjust = Adjust.excess })
      ≡ store_all more (record i { adjust = Adjust.excess })
unfolding fields store
store_all-fields i more =
    let z : Interval = record zero_interval { adjust = Adjust.excess } in
    let a : Interval = record z { years = i.years } in
    let b : Interval = record a { months = i.months } in
    let c : Interval = record b { weeks = i.weeks } in
    let d : Interval = record c { days = i.days } in
    let e : Interval = record d { hours = i.hours } in
    let f : Interval = record e { minutes = i.minutes } in
    let g : Interval = record f { seconds = i.seconds } in
    let h : Interval = record g { nanoseconds = i.nanoseconds } in
    store_all-nonzero 0 i.years _ more z a refl (λ q. ap (λ v. record z { years = v }) q)
    ∙ (store_all-nonzero 1 i.months _ more a b refl (λ q. ap (λ v. record a { months = v }) q)
        ∙ (store_all-nonzero 2 i.weeks _ more b c refl (λ q. ap (λ v. record b { weeks = v }) q)
            ∙ (store_all-nonzero 3 i.days _ more c d refl (λ q. ap (λ v. record c { days = v }) q)
                ∙ (store_all-nonzero 4 i.hours _ more d e refl
                      (λ q. ap (λ v. record d { hours = v }) q)
                    ∙ (store_all-nonzero 5 i.minutes _ more e f refl
                          (λ q. ap (λ v. record e { minutes = v }) q)
                        ∙ (store_all-nonzero 6 i.seconds _ more f g refl
                              (λ q. ap (λ v. record f { seconds = v }) q)
                            ∙ store_all-nonzero 7 i.nanoseconds [] more g h refl
                                (λ q. ap (λ v. record g { nanoseconds = v }) q)
                            ∙ nonzero_nil h more))))))

module _ (rmp : Rmp) (laws : ReadsBack rmp) where
  open laws use {read_u64-write_uint, read_i64-write_sint}

  read_fields-put :
      (fs : List (ℕ × ℤ)) (i : Interval)
      → AreFields fs
      → read_fields rmp (length fs) (put_fields rmp fs) i ≡ (store_all fs i >>= λ i'. ok (i', []))
  unfolding read_fields put_fields store_all
  read_fields-put [] i w = refl
  read_fields-put ((id, z) ∷ rest) i w =
      rw
        (
          read_u64-write_uint id (rmp.write_sint z ++ put_fields rmp rest) w.0.0,
          read_i64-write_sint z (put_fields rmp rest) w.0.1,
        )
        (>>=_rebind (store id z i) _ _ _ (λ i'. read_fields-put rest i' w.1))

  put_fields-append :
      (xs ys : List (ℕ × ℤ)) → put_fields rmp (xs ++ ys) ≡ put_fields rmp xs ++ put_fields rmp ys
  unfolding put_fields
  put_fields-append [] ys = refl
  put_fields-append ((id, z) ∷ rest) ys = rw (put_fields-append rest ys) (simp (append_assoc))

  nonzero-AreFields : (fs : List (ℕ × ℤ)) → AreFields fs → AreFields (nonzero fs)
  unfolding nonzero
  nonzero-AreFields [] w = w
  nonzero-AreFields ((id, z) ∷ rest) w = elim (Bool-cases (eqb_ℤ z (pos 0))) [
    | inl e ↦ rw e (nonzero-AreFields rest w.1)
    | inr e ↦ rw e (w.0, nonzero-AreFields rest w.1)
  ]

  length-nonzero : (fs : List (ℕ × ℤ)) → length (nonzero fs) ≤ length fs
  unfolding nonzero
  length-nonzero [] = omega arith
  length-nonzero ((id, z) ∷ rest) = ground (arith, length-nonzero rest)

  adjust_field-AreFields : (a : Adjust) → AreFields (adjust_field a)
  unfolding adjust_field code
  adjust_field-AreFields Adjust.excess = tt
  adjust_field-AreFields Adjust.limit = ground arith
  adjust_field-AreFields Adjust.snap = ground arith

  length-adjust_field : (a : Adjust) → length (adjust_field a) ≤ 1
  unfolding adjust_field
  length-adjust_field Adjust.excess = omega arith
  length-adjust_field Adjust.limit = omega arith
  length-adjust_field Adjust.snap = omega arith

  fields_length : (i : Interval) → length (fields i) ≡ 8
  unfolding fields
  fields_length i = refl

  store_all-adjust :
      (i : Interval)
      → store_all (adjust_field i.adjust) (record i { adjust = Adjust.excess }) ≡ ok i
  unfolding store_all adjust_field code store
  store_all-adjust i = elim (Adjust-cases i.adjust) [
    | inl e ↦ rw e refl
    | inr (inl e) ↦ rw e refl
    | inr (inr e) ↦ rw e refl
  ]

  -- An interval whose units are 64-bit integers is read back from its payload, every unit and the
  -- rule for the end of a month included.
  pub from_payload-to_payload :
      (i : Interval) → AreFields (fields i) → from_payload rmp (to_payload rmp i) ≡ ok i
  unfolding from_payload to_payload whole
  from_payload-to_payload i w =
      let fs : List (ℕ × ℤ) = nonzero (fields i) ++ adjust_field i.adjust in
      let small : length fs < 2 ^ 64 = omega (
        arith,
        length-nonzero (fields i),
        fields_length i,
        length-adjust_field i.adjust,
        length-append (nonzero (fields i)) (adjust_field i.adjust),
      ) in
      let valid : AreFields fs =
        All-append _ (nonzero (fields i)) (adjust_field i.adjust) (adjust_field-AreFields i.adjust)
          (nonzero-AreFields (fields i) w) in
      let read : read_fields rmp (length fs) (put_fields rmp fs)
            (record zero_interval { adjust = Adjust.excess })
          ≡ ok (i, []) =
        read_fields-put fs (record zero_interval { adjust = Adjust.excess }) valid
        ∙ (rw (store_all-fields i (adjust_field i.adjust), store_all-adjust i) refl) in
      rw
        (
          sym (length-append (nonzero (fields i)) (adjust_field i.adjust)),
          sym (put_fields-append (nonzero (fields i)) (adjust_field i.adjust)),
          read_u64-write_uint (length fs) (put_fields rmp fs) small,
          read,
        )
        refl
