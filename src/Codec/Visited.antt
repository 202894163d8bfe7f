-- ===== src/Codec/Visited.antt =====
-- The walk of `Response::parse` over a map, on a packet that `Request` of codec.rs has finished.
use tarant.Base.{
  ℕ, zero, suc, ◌+◌, ◌%◌, ◌^◌, ◌<◌, ◌≡◌, inl, inr, refl, sym, ap, within, true, Option, some, List,
  [], ◌++◌, length, drop, length-append, append-nil, drop-length_append, get_elem?, ok, ◌>>=◌,
  arith,
}
use mathlib.Core.Path.{subst}
use tarant.Base.Endian.{length-be_bytes}
use tarant.Error.{Outcome}
use tarant.Rmp.{Rmp, ReadsBack}
use tarant.Msgpack.{value_len}
use tarant.Msgpack.Measure.{read_len-be_bytes}
use tarant.Msgpack.Format.{Head, HeadIsValid, Value, encode_head, encode}
use tarant.Msgpack.Complete.{value_len-encode}
use tarant.Msgpack.Cursor.{Entry, new, entries_and_header, for_each}
use tarant.Codec.Layout.{
  WritesFormat, AreEntries, map_of, IsValid-map_of, IsWord, add_entries, header_entries,
  AreEntries-header, length-header, finish-add_entries,
}
use tarant.Codec.Request as Request
use tarant.Codec.Request.{finish}
use tarant.Codec.Walk.{visit, bytes_of, for_each_loop-visit}

-- The number of entries that a head announces is read back, and its width.
fixmap_read :
    (n : ℕ) (rest : List ℕ)
    → HeadIsValid (Head.fixmap n)
    → (m : ℕ) × (get_elem? (encode_head (Head.fixmap n) ++ rest) 0 ≡ some m)
      × (entries_and_header (encode_head (Head.fixmap n) ++ rest) m
          ≡ ok (n, length (encode_head (Head.fixmap n))))
unfolding encode_head entries_and_header
fixmap_read n rest h =
    let small : within 0x80 0x8f (0x80 + n) ≡ true = ground (arith, h) in
    let same : (0x80 + n) % 16 ≡ n = omega (arith, h) in (0x80 + n, refl, rw (small, same) refl)

map_read :
    (i n : ℕ) (rest : List ℕ)
    → HeadIsValid (Head.map i n)
    → (m : ℕ) × (get_elem? (encode_head (Head.map i n) ++ rest) 0 ≡ some m)
      × (entries_and_header (encode_head (Head.map i n) ++ rest) m
          ≡ ok (n, length (encode_head (Head.map i n))))
unfolding encode_head entries_and_header
map_read zero n rest h = absurd (omega (arith, h.0))
map_read (suc zero) n rest h =
    (0xde, refl, rw (read_len-be_bytes [] 0xde 2 n rest h.2, length-be_bytes 2 n) refl)
map_read (suc (suc zero)) n rest h =
    (0xdf, refl, rw (read_len-be_bytes [] 0xdf 4 n rest h.2, length-be_bytes 4 n) refl)
map_read (suc (suc (suc i))) n rest h = absurd (omega (arith, h.1))

-- A map whose head announces n entries.
abbrev Announces : ℕ → Head → Type 0
Announces n head =
    (rest : List ℕ)
    → (m : ℕ) × (get_elem? (encode_head head ++ rest) 0 ≡ some m)
      × (entries_and_header (encode_head head ++ rest) m ≡ ok (n, length (encode_head head)))

module _ (rmp : Rmp) (words : WritesFormat rmp) where
  head_read : (n : ℕ) → n < 2 ^ 32 → Announces n (words.map_head n)
  head_read n h =
      let valid = (words.write_map_len_format n h).1 in
      elim (words.map_shape n h) [
        | inl e ↦
            subst (Announces n) (sym e) (λ rest. fixmap_read n rest (subst HeadIsValid e valid))
        | inr (i, e) ↦
            subst (Announces n) (sym e) (λ rest. map_read i n rest (subst HeadIsValid e valid))
      ]

  abbrev map_bytes : List (ℕ × Value) → List ℕ
  map_bytes es = encode (map_of rmp words es)

  -- The head and the entries behind it.
  in_parts :
      (es : List (ℕ × Value))
      → encode_head (words.map_head (length es)) ++ bytes_of rmp words es ≡ map_bytes es
  unfolding map_of encode
  in_parts es = refl

  new-map :
      (es : List (ℕ × Value))
      → AreEntries es
      → length es < 2 ^ 32
      → length (map_bytes es) < 2 ^ 64
      → new (map_bytes es)
        ≡ ok (
          record {
            buf = map_bytes es;
            pos = length (rmp.write_map_len (length es));
            remaining = length es;
          },
          length (map_bytes es),
        )
  unfolding new
  new-map es w h small =
      let size : value_len (map_bytes es) ≡ ok (length (map_bytes es)) =
        rw (append-nil (map_bytes es)) at (
          value_len-encode (map_of rmp words es) [] (IsValid-map_of rmp words es w h)
            (rw (append-nil (map_bytes es)) small)) in
      let (m, at, head) = head_read (length es) h (bytes_of rmp words es) in
      let wide = ap length (words.write_map_len_format (length es) h).0 in
      rw (size, rw (in_parts es) at at, rw (in_parts es, sym wide) at head) refl

  module _ (reads : ReadsBack rmp) {S : Type 0} (body : S → Entry → Outcome S) (s : S)
      (es : List (ℕ × Value)) (w : AreEntries es) (h : length es < 2 ^ 32) where
    for_each-visit :
        length (map_bytes es) < 2 ^ 64
        → (new (map_bytes es) >>= λ r. for_each rmp body r.0 s)
          ≡ visit rmp body (length (rmp.write_map_len (length es))) es s
    unfolding for_each
    for_each-visit small =
        let wide = ap length (sym (words.write_map_len_format (length es) h).0) in
        let rounds : length es + 1 ≡ suc (length es) = omega arith in
        rw (new-map es w h small, rounds)
          (for_each_loop-visit rmp words reads body es (encode_head (words.map_head (length es))) s
            (map_bytes es) (length (rmp.write_map_len (length es))) w (in_parts es) wide small)

    -- A request with any type, sync and stream and any entries whose keys fit in 64 bits and whose
    -- values are well formed, in fewer than 2^64 bytes: behind its header, the cursor meets each entry
    -- of the finished packet once, in order, with its key, the offset of its value and its bytes,
    -- whatever the walk does with them.
    pub finish-visit :
        (ty sync : ℕ) (stream : Option ℕ)
        → ty < 2 ^ 64
        → sync < 2 ^ 64
        → IsWord rmp words stream
        → length (finish rmp (add_entries rmp (Request.new rmp ty sync stream) es)) < 2 ^ 64
        → (let packet = finish rmp (add_entries rmp (Request.new rmp ty sync stream) es) in
            (n : ℕ) × (value_len packet ≡ ok n)
            × ((new (drop n packet) >>= λ r. for_each rmp body r.0 s)
                ≡ visit rmp body (length (rmp.write_map_len (length es))) es s))
    finish-visit ty sync stream t y z small =
        let heads = header_entries rmp words ty sync stream in
        let head : Value = map_of rmp words heads in
        let whole : List ℕ = encode head ++ map_bytes es in
        let same = finish-add_entries rmp words ty sync stream es t y z w h in
        let short : length whole < 2 ^ 64 = rw same at small in
        let valid =
          IsValid-map_of rmp words heads (AreEntries-header rmp words ty sync stream t y z)
            (length-header rmp words ty sync stream) in
        let inside : length (map_bytes es) < 2 ^ 64 =
          omega (arith, short, length-append (encode head) (map_bytes es)) in
        rw same (
          length (encode head),
          value_len-encode head (map_bytes es) valid short,
          rw (drop-length_append (encode head) (map_bytes es)) (for_each-visit inside),
        )
