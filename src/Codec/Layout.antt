-- ===== src/Codec/Layout.antt =====
-- What a request of codec.rs is on the wire: a header map and a body map of MessagePack.
use tarant.Base.{
  ℕ, ◌+◌, ◌-◌, ◌*◌, ◌^◌, ◌<◌, ◌≡◌, ◌⊎◌, inl, inr, refl, sym, ap, ◌∙◌, Option, none, some, List, [],
  ◌∷◌, ◌++◌, length, drop, ok, arith, append_assoc, append-nil, length-append, drop-length_append,
}
use tarant.Rmp.{Rmp}
use tarant.Iproto.Key
use tarant.Msgpack.{value_len}
use tarant.Msgpack.Format.{
  Head, HeadIsValid, children, Value, node, Values, end, more, count, encode_head, encode,
  encode_all, IsValid, AllValid,
}
use tarant.Msgpack.Complete.{value_len-encode}
use tarant.Codec.Request.{Request, put_uint, stream_part, entry, finish}
use tarant.Codec.Request as Request

-- What `rmp` documents of its writers: they write the format, in one of the forms that hold the number.
pub record WritesFormat (rmp : Rmp) : Type 0 where
  pub uint_head : ℕ → Head
  pub map_head : ℕ → Head
  pub write_uint_format :
      (n : ℕ)
      → n < 2 ^ 64
      → (rmp.write_uint n ≡ encode_head (uint_head n))
        × HeadIsValid (uint_head n)
        × (children (uint_head n) ≡ 0)
  pub write_map_len_format :
      (n : ℕ)
      → n < 2 ^ 32
      → (rmp.write_map_len n ≡ encode_head (map_head n))
        × HeadIsValid (map_head n)
        × (children (map_head n) ≡ 2 * n)
  pub map_shape :
      (n : ℕ) → n < 2 ^ 32 → (map_head n ≡ Head.fixmap n) ⊎ ((i : ℕ) × (map_head n ≡ Head.map i n))

-- Values that the format calls maps.
abbrev IsMapHead : Head → Type 0
IsMapHead (Head.fixmap n) = Unit
IsMapHead (Head.map i n) = Unit
IsMapHead h = ⊥

abbrev pub IsMap : Value → Type 0
IsMap (node h vs) = IsMapHead h

-- Bytes that are two maps of the format, the header and the body, and nothing else, and that `value_len`
-- takes apart where the first ends.
abbrev pub AreTwoMaps : List ℕ → Type 0
AreTwoMaps packet =
    (header : Value) × (body : Value) × IsMap header
    × IsMap body
    × IsValid header
    × IsValid body
    × (packet ≡ encode header ++ encode body)
    × (value_len packet ≡ ok (length (encode header)))
    × (value_len (drop (length (encode header)) packet)
        ≡ ok (length packet - length (encode header)))

-- Entries: keys and the values that the bytes behind them encode.
unfoldable pub add_entries : Rmp → Request → List (ℕ × Value) → Request
unfolding entry
add_entries rmp r [] = r
add_entries rmp r ((k, v) ∷ rest) = add_entries rmp (entry rmp r k (encode v)) rest

unfoldable pub AreEntries : List (ℕ × Value) → Type 0
AreEntries [] = Unit
AreEntries ((k, v) ∷ rest) = (k < 2 ^ 64) × IsValid v × AreEntries rest

module _ (rmp : Rmp) (laws : WritesFormat rmp) where
  open laws use {uint_head, map_head, write_uint_format, write_map_len_format, map_shape}

  abbrev pub number : ℕ → Value
  number n = node (uint_head n) end

  pub encode-number : (n : ℕ) → n < 2 ^ 64 → rmp.write_uint n ≡ encode (number n)
  encode-number n h = (write_uint_format n h).0 ∙ (unfold encode encode_all in sym (append-nil _))

  pub IsValid-number : (n : ℕ) → n < 2 ^ 64 → IsValid (number n)
  IsValid-number n h = ((write_uint_format n h).1, sym ((write_uint_format n h).2), tt)

  -- The entries as the values of a map.
  unfoldable pub flat : List (ℕ × Value) → Values
  flat [] = end
  flat ((k, v) ∷ rest) = more (number k) (more v (flat rest))

  pub AllValid-flat : (es : List (ℕ × Value)) → AreEntries es → AllValid (flat es)
  unfolding flat AreEntries
  AllValid-flat [] w = tt
  AllValid-flat ((k, v) ∷ rest) w = (IsValid-number k w.0, (w.1, AllValid-flat rest w.2))

  count-flat : (es : List (ℕ × Value)) → count (flat es) ≡ 2 * length es
  unfolding flat
  count-flat [] = refl
  count-flat ((k, v) ∷ rest) = omega (arith, count-flat rest)

  body-add_entries :
      (r : Request) (es : List (ℕ × Value))
      → AreEntries es
      → (add_entries rmp r es).body ≡ r.body ++ encode_all (flat es)
  unfolding add_entries flat AreEntries encode_all
  body-add_entries r [] w = sym (append-nil r.body)
  body-add_entries r ((k, v) ∷ rest) w =
      body-add_entries (entry rmp r k (encode v)) rest w.2
      ∙ (unfold entry in rw (encode-number k w.0) (simp (append_assoc)))

  entries-add_entries :
      (r : Request) (es : List (ℕ × Value)) → (add_entries rmp r es).entries ≡ r.entries + length es
  unfolding add_entries entry
  entries-add_entries r [] = omega arith
  entries-add_entries r ((k, v) ∷ rest) =
      omega (arith, entries-add_entries (entry rmp r k (encode v)) rest)

  header-add_entries :
      (r : Request) (es : List (ℕ × Value)) → (add_entries rmp r es).header ≡ r.header
  unfolding add_entries entry
  header-add_entries r [] = refl
  header-add_entries r ((k, v) ∷ rest) = header-add_entries (entry rmp r k (encode v)) rest

  unfoldable pub map_of : List (ℕ × Value) → Value
  map_of es = node (map_head (length es)) (flat es)

  pub IsValid-map_of :
      (es : List (ℕ × Value)) → AreEntries es → length es < 2 ^ 32 → IsValid (map_of es)
  unfolding map_of
  IsValid-map_of es w h = (
    (write_map_len_format (length es) h).1,
    count-flat es ∙ sym ((write_map_len_format (length es) h).2),
    AllValid-flat es w,
  )

  IsMap-map_of : (es : List (ℕ × Value)) → length es < 2 ^ 32 → IsMap (map_of es)
  unfolding map_of
  IsMap-map_of es h = elim (map_shape (length es) h) [ inl e ↦ rw e tt | inr (i, e) ↦ rw e tt ]

  -- The header as a map.
  unfoldable pub header_entries : (ty sync : ℕ) → Option ℕ → List (ℕ × Value)
  header_entries ty sync none = (Key.request_type, number ty) ∷ (Key.sync, number sync) ∷ []
  header_entries ty sync (some id) =
      (Key.request_type, number ty) ∷ (Key.sync, number sync) ∷ (Key.stream_id, number id) ∷ []

  abbrev pub IsWord : Option ℕ → Type 0
  IsWord none = Unit
  IsWord (some n) = n < 2 ^ 64

  pub AreEntries-header :
      (ty sync : ℕ) (stream : Option ℕ)
      → ty < 2 ^ 64
      → sync < 2 ^ 64
      → IsWord stream
      → AreEntries (header_entries ty sync stream)
  unfolding header_entries AreEntries
  AreEntries-header ty sync none t s w =
      (omega arith, IsValid-number ty t, (omega arith, IsValid-number sync s, tt))
  AreEntries-header ty sync (some id) t s w = (
    omega arith,
    IsValid-number ty t,
    (omega arith, IsValid-number sync s, (omega arith, IsValid-number id w, tt)),
  )

  pub length-header :
      (ty sync : ℕ) (stream : Option ℕ) → length (header_entries ty sync stream) < 2 ^ 32
  unfolding header_entries
  length-header ty sync none = omega arith
  length-header ty sync (some id) = omega arith

  header-new :
      (ty sync : ℕ) (stream : Option ℕ)
      → ty < 2 ^ 64
      → sync < 2 ^ 64
      → IsWord stream
      → (Request.new rmp ty sync stream).header ≡ encode (map_of (header_entries ty sync stream))
  unfolding header_entries map_of encode encode_all flat put_uint stream_part
  header-new ty sync none t s w =
      unfold Request.new in
      rw
        (
          (write_map_len_format 2 (omega arith)).0,
          (write_uint_format ty t).0,
          (write_uint_format sync s).0,
          (write_uint_format Key.request_type (omega arith)).0,
          (write_uint_format Key.sync (omega arith)).0,
        )
        (simp (append_assoc, append-nil))
  header-new ty sync (some id) t s w =
      unfold Request.new in
      rw
        (
          (write_map_len_format 3 (omega arith)).0,
          (write_uint_format ty t).0,
          (write_uint_format sync s).0,
          (write_uint_format id w).0,
          (write_uint_format Key.request_type (omega arith)).0,
          (write_uint_format Key.sync (omega arith)).0,
          (write_uint_format Key.stream_id (omega arith)).0,
        )
        (simp (append_assoc, append-nil))

  pub finish-add_entries :
      (ty sync : ℕ) (stream : Option ℕ) (es : List (ℕ × Value))
      → ty < 2 ^ 64
      → sync < 2 ^ 64
      → IsWord stream
      → AreEntries es
      → length es < 2 ^ 32
      → finish rmp (add_entries rmp (Request.new rmp ty sync stream) es)
        ≡ encode (map_of (header_entries ty sync stream)) ++ encode (map_of es)
  unfolding finish map_of encode
  finish-add_entries ty sync stream es t s w v h =
      let start : Request = Request.new rmp ty sync stream in
      let blank : start.body ≡ [] = unfold Request.new in refl in
      let zero_add : 0 + length es ≡ length es = omega arith in
      let none_yet : start.entries ≡ 0 = unfold Request.new in refl in
      rw
        (
          header-add_entries start es ∙ header-new ty sync stream t s w,
          body-add_entries start es v,
          entries-add_entries start es ∙ ap (λ n. n + length es) none_yet,
          zero_add,
          blank,
          (write_map_len_format (length es) h).0,
        )
        refl

  -- A request with any type, sync and stream and any entries whose keys fit in 64 bits and
  -- whose values are well formed is, once finished, a header map and a body map.
  pub finish-AreTwoMaps :
      (ty sync : ℕ) (stream : Option ℕ) (es : List (ℕ × Value))
      → ty < 2 ^ 64
      → sync < 2 ^ 64
      → IsWord stream
      → AreEntries es
      → length es < 2 ^ 32
      → length (finish rmp (add_entries rmp (Request.new rmp ty sync stream) es)) < 2 ^ 64
      → AreTwoMaps (finish rmp (add_entries rmp (Request.new rmp ty sync stream) es))
  finish-AreTwoMaps ty sync stream es t s w v h small =
      let head : Value = map_of (header_entries ty sync stream) in
      let whole : List ℕ = encode head ++ encode (map_of es) in
      let same : finish rmp (add_entries rmp (Request.new rmp ty sync stream) es) ≡ whole =
        finish-add_entries ty sync stream es t s w v h in
      let short : length whole < 2 ^ 64 = rw (sym same) small in
      let is_head : IsValid head =
        IsValid-map_of (header_entries ty sync stream) (AreEntries-header ty sync stream t s w)
          (length-header ty sync stream) in
      let behind : value_len (encode (map_of es)) ≡ ok (length (encode (map_of es))) =
        rw (append-nil (encode (map_of es))) at (
          value_len-encode (map_of es) [] (IsValid-map_of es v h) (
            rw (append-nil (encode (map_of es)))
              (omega (arith, short, length-append (encode head) (encode (map_of es)))))) in
      let sizes : length whole ≡ length (encode head) + length (encode (map_of es)) =
        length-append (encode head) (encode (map_of es)) in
      let left : length (encode (map_of es)) ≡ length whole - length (encode head) =
        omega (arith, sizes) in
      rw same (
        head,
        map_of es,
        IsMap-map_of (header_entries ty sync stream) (length-header ty sync stream),
        IsMap-map_of es h,
        is_head,
        IsValid-map_of es v h,
        refl,
        value_len-encode head (encode (map_of es)) is_head short,
        rw (drop-length_append (encode head) (encode (map_of es))) (behind ∙ ap ok left),
      )
