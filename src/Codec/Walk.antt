-- ===== src/Codec/Walk.antt =====
-- What `Request` of codec.rs builds, walked over by `MapCursor` of msgpack.rs.
use tarant.Base.{
  ℕ, suc, ◌+◌, ◌-◌, ◌^◌, ◌<◌, ◌≡◌, refl, sym, ap, ◌∙◌, leb, true, some, List, [], ◌∷◌, ◌++◌, length,
  take, drop, length-append, take-length_append, drop-length_append, append_assoc, append-nil, ok,
  ◌>>=◌, arith,
}
use tarant.Error.{Outcome}
use tarant.Rmp.{Rmp, ReadsBack}
use tarant.Msgpack.{value_len, slice_from, get_range}
use tarant.Msgpack.Format.{Value, encode, encode_all, IsValid}
use tarant.Msgpack.Complete.{value_len-encode}
use tarant.Msgpack.Cursor.{Entry, next_entry, read_uint, for_each_loop}
use tarant.Msgpack.Entries.{for_each_loop_done, for_each_loop_entry}
use tarant.Codec.Layout.{WritesFormat, AreEntries, number, encode-number, IsValid-number, flat}

-- What is behind a number of bytes.
drop_front : (front back : List ℕ) (n : ℕ) → length front ≡ n → drop n (front ++ back) ≡ back
drop_front front back n h = rw h at (drop-length_append front back)

take_front : (front back : List ℕ) (n : ℕ) → length front ≡ n → take n (front ++ back) ≡ front
take_front front back n h = rw h at (take-length_append front back)

-- A value in the middle of a buffer.
module _ (front back : List ℕ) (v : Value) (valid : IsValid v) where
  abbrev whole : List ℕ
  whole = front ++ (encode v ++ back)

  found : slice_from whole (length front) ≡ ok (encode v ++ back)
  found =
      let inside : leb (length front) (length whole) ≡ true =
        ground (arith, length-append front (encode v ++ back)) in
      rw (inside, drop-length_append front (encode v ++ back)) refl

  measured : length whole < 2 ^ 64 → value_len (encode v ++ back) ≡ ok (length (encode v))
  measured h =
      value_len-encode v back valid (omega (arith, h, length-append front (encode v ++ back)))

  cut : get_range whole (length front) (length front + length (encode v)) ≡ some (encode v)
  cut =
      let inside : leb (length front + length (encode v)) (length whole) ≡ true =
        ground (arith, length-append front (encode v ++ back), length-append (encode v) back) in
      let long : length front + length (encode v) - length front ≡ length (encode v) =
        omega arith in
      rw
        (
          inside,
          long,
          drop-length_append front (encode v ++ back),
          take-length_append (encode v) back,
        )
        refl

module _ (rmp : Rmp) (words : WritesFormat rmp) (reads : ReadsBack rmp) where
  -- A key and a value behind others.
  module _ (front back : List ℕ) (k : ℕ) (v : Value) (n : ℕ) (inside : k < 2 ^ 64)
      (valid : IsValid v) where
    abbrev key : Value
    key = number rmp words k

    abbrev buffer : List ℕ
    buffer = front ++ (encode key ++ (encode v ++ back))

    key-IsValid : IsValid key
    key-IsValid = IsValid-number rmp words k inside

    same_buffer : (front ++ encode key) ++ (encode v ++ back) ≡ buffer
    same_buffer = append_assoc front (encode key) (encode v ++ back)

    key_read : read_uint rmp (encode key) ≡ ok k
    unfolding read_uint
    key_read =
        let read : rmp.read_u64 (rmp.write_uint k) ≡ some (k, []) =
          rw (append-nil (rmp.write_uint k)) at (reads.read_u64-write_uint k [] inside) in
        rw (sym (encode-number rmp words k inside), read) refl

    next_entry-at :
        length buffer < 2 ^ 64
        → next_entry rmp (record { buf = buffer; pos = length front; remaining = suc n })
          ≡ ok (
            (k, length front + length (encode key), encode v),
            record {
              buf = buffer;
              pos = length front + length (encode key) + length (encode v);
              remaining = n;
            },
          )
    unfolding next_entry
    next_entry-at h =
        let there : slice_from buffer (length front + length (encode key)) ≡ ok (encode v ++ back) =
          rw (same_buffer, length-append front (encode key)) at
            (found (front ++ encode key) back v valid) in
        let last =
          rw (same_buffer, length-append front (encode key)) at
            (cut (front ++ encode key) back v valid) in
        let one_less : suc n - 1 ≡ n = omega arith in
        let size = measured (front ++ encode key) back v valid (rw same_buffer h) in
        rw
          (
            found front (encode v ++ back) key key-IsValid,
            measured front (encode v ++ back) key key-IsValid h,
            cut front (encode v ++ back) key key-IsValid,
            key_read,
            there,
            size,
            last,
          )
          (ap
            (λ left. ok (
              (k, length front + length (encode key), encode v),
              record {
                buf = buffer;
                pos = length front + length (encode key) + length (encode v);
                remaining = left;
              },
            ))
            one_less)

-- What a walk is: the body meets each entry in order, with the offset of its value and its bytes.
unfoldable pub visit :
    {S : Type 0} → Rmp → (S → Entry → Outcome S) → ℕ → List (ℕ × Value) → S → Outcome S
visit rmp body at [] s = ok s
visit rmp body at ((k, v) ∷ es) s =
    let behind = at + length (rmp.write_uint k) in
    body s (k, behind, encode v) >>= λ s'. visit rmp body (behind + length (encode v)) es s'

-- The bytes of entries behind one another.
abbrev pub bytes_of : (rmp : Rmp) → WritesFormat rmp → List (ℕ × Value) → List ℕ
bytes_of rmp words es = encode_all (flat rmp words es)

module _ (rmp : Rmp) (words : WritesFormat rmp) (reads : ReadsBack rmp) {S : Type 0}
    (body : S → Entry → Outcome S) where
  -- The bytes of one entry more.
  first_entry :
      (front : List ℕ) (k : ℕ) (v : Value) (es : List (ℕ × Value))
      → front ++ bytes_of rmp words ((k, v) ∷ es)
        ≡ front ++ (encode (number rmp words k) ++ (encode v ++ bytes_of rmp words es))
  unfolding flat encode_all
  first_entry front k v es = refl

  past_entry :
      (front : List ℕ) (k : ℕ) (v : Value) (es : List (ℕ × Value))
      → (front ++ (encode (number rmp words k) ++ encode v)) ++ bytes_of rmp words es
        ≡ front ++ (encode (number rmp words k) ++ (encode v ++ bytes_of rmp words es))
  past_entry front k v es =
      append_assoc front (encode (number rmp words k) ++ encode v) (bytes_of rmp words es)
      ∙ ap (λ t. front ++ t)
          (append_assoc (encode (number rmp words k)) (encode v) (bytes_of rmp words es))

  key_length :
      (k : ℕ) → k < 2 ^ 64 → length (encode (number rmp words k)) ≡ length (rmp.write_uint k)
  key_length k h = ap length (sym (encode-number rmp words k h))

  pub for_each_loop-visit :
      (es : List (ℕ × Value)) (front : List ℕ) (s : S) (buffer : List ℕ) (at : ℕ)
      → AreEntries es
      → front ++ bytes_of rmp words es ≡ buffer
      → length front ≡ at
      → length buffer < 2 ^ 64
      → for_each_loop rmp body
          (suc (length es))
          (record { buf = buffer; pos = at; remaining = length es })
          s
        ≡ visit rmp body at es s
  unfolding visit AreEntries
  for_each_loop-visit [] front s buffer at w e f h = for_each_loop_done rmp body 0 _ s refl
  for_each_loop-visit ((k, v) ∷ es) front s buffer at (inside, valid, rest) e f h =
      let same = sym (first_entry front k v es) ∙ e in
      let long = key_length k inside in
      let one =
        rw (same, f, long) at
          (next_entry-at rmp words reads front (bytes_of rmp words es) k v (length es) inside valid
            (rw same h)) in
      let past : List ℕ = front ++ (encode (number rmp words k) ++ encode v) in
      let behind : length past ≡ at + length (rmp.write_uint k) + length (encode v) = omega (
        arith,
        f,
        long,
        length-append front (encode (number rmp words k) ++ encode v),
        length-append (encode (number rmp words k)) (encode v),
      ) in
      for_each_loop_entry rmp body (suc (length es)) _ s _ _ (λ z. absurd (omega (arith, z))) one
      ∙ (λ i. body s (k, at + length (rmp.write_uint k), encode v) >>= λ s'.
          for_each_loop-visit es past s' buffer (at + length (rmp.write_uint k) + length (encode v))
            rest (past_entry front k v es ∙ same) behind h i)
