-- ===== src/Msgpack/Complete.antt =====
-- `value_len` measures every value of the format.
use tarant.Base.{
  ℕ, zero, suc, ◌+◌, ◌^◌, ◌≤◌, ◌<◌, ◌≡◌, sym, ap, ◌∙◌, List, [], ◌++◌, length, length-append,
  append_assoc, append-nil, arith, ok, true, false,
}
use native.Mathlib.Nat.{zero-add}
use tarant.Msgpack.{measure_loop, value_len}
use tarant.Msgpack.Heads.{Steps-head}
use tarant.Msgpack.Format.{
  Head, boolean, encode_head, HeadIsValid, children, Value, Values, node, end, more, count, encode,
  encode_all, IsValid, AllValid, append, count-append, AllValid-append, encode_all-append,
}

-- A head takes a byte at least.
length-encode_head : (h : Head) → 1 ≤ length (encode_head h)
unfolding encode_head
length-encode_head (boolean false) = omega arith
length-encode_head (boolean true) = omega arith
length-encode_head _ = omega arith

mutual
  unfolding encode encode_all

  length-encode : (v : Value) → 1 ≤ length (encode v)
  length-encode (node h vs) =
      omega (arith, length-encode_head h, length-append (encode_head h) (encode_all vs))

  count-le-length : (vs : Values) → count vs ≤ length (encode_all vs)
  count-le-length end = omega arith
  count-le-length (more v vs) =
      omega (arith, length-encode v, count-le-length vs, length-append (encode v) (encode_all vs))

-- The values still pending are a worklist: the children of a value come before what follows it.
encode_all-node :
    (h : Head) (us vs : Values)
    → encode_all (more (node h us) vs) ≡ encode_head h ++ encode_all (append us vs)
unfolding encode encode_all
encode_all-node h us vs =
    append_assoc (encode_head h) (encode_all us) (encode_all vs)
    ∙ ap (λ t. encode_head h ++ t) (sym (encode_all-append us vs))

-- One round at a head, and the loop goes on behind it.
measure_loop-head :
    (fuel : ℕ) (pre : List ℕ) (h : Head) (t : List ℕ) (pending : ℕ)
    → HeadIsValid h
    → length (pre ++ (encode_head h ++ t)) < 2 ^ 64
    → pending + children h < 2 ^ 64
    → measure_loop (pre ++ (encode_head h ++ t)) (suc fuel) (length pre) (suc pending)
      ≡ measure_loop
          ((pre ++ encode_head h) ++ t)
          fuel
          (length (pre ++ encode_head h))
          (children h + pending)
unfolding measure_loop
measure_loop-head fuel pre h t pending v small few =
    let count_comm : pending + children h ≡ children h + pending = omega arith in
    rw (
      Steps-head pre pending h v t small few,
      append_assoc pre (encode_head h) t,
      length-append pre (encode_head h),
      count_comm,
    )

measure_loop-encode_all :
    (fuel : ℕ) (pre : List ℕ) (vs : Values) (rest : List ℕ)
    → AllValid vs
    → length (pre ++ (encode_all vs ++ rest)) < 2 ^ 64
    → length (encode_all vs) ≤ fuel
    → measure_loop (pre ++ (encode_all vs ++ rest)) fuel (length pre) (count vs)
      ≡ ok (length pre + length (encode_all vs))
measure_loop-encode_all fuel pre end rest v small enough =
    unfold measure_loop encode_all in ap ok (omega arith)
measure_loop-encode_all zero pre (more u vs) rest v small enough =
    absurd (omega (arith, count-le-length (more u vs)))
measure_loop-encode_all (suc fuel) pre (more (node h us) vs) rest (v, w) small enough =
    let ws : Values = append us vs in
    let bytes : List ℕ = encode_head h ++ encode_all ws in
    let split : encode_all (more (node h us) vs) ≡ bytes = encode_all-node h us vs in
    let regroup : bytes ++ rest ≡ encode_head h ++ (encode_all ws ++ rest) =
      append_assoc (encode_head h) (encode_all ws) rest in
    let total : length bytes ≡ length (encode_head h) + length (encode_all ws) =
      length-append (encode_head h) (encode_all ws) in
    let small' : length (pre ++ (encode_head h ++ (encode_all ws ++ rest))) < 2 ^ 64 =
      rw (← regroup, ← split) small in
    let whole : length (pre ++ (encode_head h ++ (encode_all ws ++ rest)))
        ≡ length pre + (length (encode_head h) + (length (encode_all ws) + length rest)) =
      omega (
        arith,
        length-append pre (encode_head h ++ (encode_all ws ++ rest)),
        length-append (encode_head h) (encode_all ws ++ rest),
        length-append (encode_all ws) rest,
      ) in
    let few : count vs + children h < 2 ^ 64 =
      omega (arith, v.1, count-append us vs, count-le-length ws, whole, small') in
    let kids : children h + count vs ≡ count ws = omega (arith, v.1, count-append us vs) in
    rw (split, regroup)
      (measure_loop-head fuel pre h (encode_all ws ++ rest) (count vs) v.0 small' few
        ∙ ap
            (λ n.
              measure_loop ((pre ++ encode_head h) ++ (encode_all ws ++ rest)) fuel
                (length (pre ++ encode_head h)) n)
            kids
        ∙ (measure_loop-encode_all fuel (pre ++ encode_head h) ws rest (AllValid-append us vs v.2 w)
            (rw (append_assoc pre (encode_head h)) small')
            (omega (arith, total, ap length split, length-encode_head h)))
        ∙ ap ok (omega (arith, length-append pre (encode_head h), total)))

-- Every well-formed MessagePack value in front of any bytes is measured: `value_len` answers the
-- length of its encoding, whatever its depth. The buffer has fewer than 2 ^ 64 bytes.
pub value_len-encode :
    (v : Value) (rest : List ℕ)
    → IsValid v
    → length (encode v ++ rest) < 2 ^ 64
    → value_len (encode v ++ rest) ≡ ok (length (encode v))
unfolding value_len
value_len-encode v rest valid small =
    let one : encode_all (more v end) ≡ encode v = unfold encode_all in append-nil (encode v) in
    let fits : length (encode v) ≤ length (encode v ++ rest) + 1 =
      omega (arith, length-append (encode v) rest) in
    rw (one, zero-add) at
      (measure_loop-encode_all (length (encode v ++ rest) + 1) [] (more v end) rest (valid, tt)
        (rw one small) (rw one fits))
