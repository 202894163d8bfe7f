-- ===== src/Codec/Stream.antt =====
-- What `decode` makes of a stream of encoded packets.
use tarant.Base.{
  ℕ, ◌+◌, ◌^◌, ◌≤◌, ◌<◌, ◌≡◌, ◌≢◌, refl, ap, ◌∙◌, ltb, leb, Option, none, some, List, [], ◌∷◌, ◌++◌,
  length, length-append, append_assoc, append-nil, take, drop, true, false, take-length_append,
  drop-length_append, ok, err, ◌>>=◌, arith, inl, inr,
}
use tarant.Base.Endian.{be_bytes, length-be_bytes, be_value-be_bytes}
use tarant.Error.{Error, Outcome, Settles-cases}
use tarant.Codec.{max_packet_len, take_packet, packet_len, prefix_of, decode, encode}
use tarant.Codec.Framing.{
  take_packet-append, take_packet-append_err, take_packet-Settles, cut, take_packet-cut,
}

module _ {R : Type 0} (parse : List ℕ → Outcome R) where
  decode_packet :
      (src packet rest : List ℕ)
      → take_packet src ≡ ok (some (packet, rest))
      → decode parse src ≡ (parse packet >>= λ r. ok (some r), rest)
  unfolding decode
  decode_packet src packet rest h = rw (h, decode)

  decode_waits : (src : List ℕ) → take_packet src ≡ ok none → decode parse src ≡ (ok none, src)
  unfolding decode
  decode_waits src h = rw (h, decode)

  decode_err :
      (src : List ℕ) (e : Error) → take_packet src ≡ err e → decode parse src ≡ (err e, src)
  unfolding decode
  decode_err src e h = rw (h, decode)

-- What `encode` writes for a packet.
abbrev frame : List ℕ → List ℕ
frame packet = 0xce ∷ (be_bytes 4 (length packet) ++ packet)

frame_bytes :
    (packet rest : List ℕ)
    → frame packet ++ rest ≡ 0xce ∷ (be_bytes 4 (length packet) ++ (packet ++ rest))
frame_bytes packet rest = ap (λ t. 0xce ∷ t) (append_assoc (be_bytes 4 (length packet)) packet rest)

length-frame : (packet : List ℕ) → length (frame packet) ≡ 5 + length packet
length-frame packet =
    omega
      (arith, length-append (be_bytes 4 (length packet)) packet, length-be_bytes 4 (length packet))

-- The length that `encode` wrote is read back.
packet_len-frame :
    (n : ℕ) (t : List ℕ) → n < 2 ^ 32 → packet_len (0xce ∷ (be_bytes 4 n ++ t)) 0xce 5 ≡ ok n
unfolding packet_len
packet_len-frame n t h =
    let inside : leb 5 (length (0xce ∷ (be_bytes 4 n ++ t))) ≡ true =
      ground (arith, length-append (be_bytes 4 n) t, length-be_bytes 4 n) in
    let front : take (length (be_bytes 4 n)) (be_bytes 4 n ++ t) ≡ be_bytes 4 n =
      take-length_append (be_bytes 4 n) t in
    let size : length (be_bytes 4 n) ≡ 4 = length-be_bytes 4 n in
    rw (inside, rw size at front) (ap ok (be_value-be_bytes 4 n h))

cut-frame :
    (packet rest : List ℕ)
    → length packet ≤ max_packet_len
    → cut (0xce ∷ (be_bytes 4 (length packet) ++ (packet ++ rest))) 5 (length packet)
      ≡ ok (some (packet, rest))
unfolding cut
cut-frame packet rest small =
    let n : ℕ = length packet in
    let size : length (be_bytes 4 n) ≡ 4 = length-be_bytes 4 n in
    let behind : drop 4 (be_bytes 4 n ++ (packet ++ rest)) ≡ packet ++ rest =
      rw size at (drop-length_append (be_bytes 4 n) (packet ++ rest)) in
    let fits : ltb max_packet_len n ≡ false = ground arith in
    let whole : ltb (length (0xce ∷ (be_bytes 4 n ++ (packet ++ rest)))) (5 + n) ≡ false =
      ground
        (arith, length-append (be_bytes 4 n) (packet ++ rest), length-append packet rest, size) in
    rw (fits, whole, behind, take-length_append packet rest, drop-length_append packet rest)

take_packet-frame :
    (packet rest : List ℕ)
    → length packet ≤ max_packet_len
    → take_packet (frame packet ++ rest) ≡ ok (some (packet, rest))
take_packet-frame packet rest small =
    let n : ℕ = length packet in
    let t : List ℕ = packet ++ rest in
    rw (frame_bytes packet rest) (
      take_packet-cut 0xce (be_bytes 4 n ++ t) 5 (unfold prefix_of in refl)
        (omega (arith, length-append (be_bytes 4 n) t, length-be_bytes 4 n))
      ∙ rw (packet_len-frame n t (omega arith)) (cut-frame packet rest small))

encode-frame :
    (packet dst wire : List ℕ)
    → encode packet dst ≡ ok wire
    → (wire ≡ dst ++ frame packet) × (length packet < 2 ^ 32)
unfolding encode
encode-frame packet dst wire h = ground arith

module _ {R : Type 0} (parse : List ℕ → Outcome R) where
  -- A packet that `encode` framed, of at most 2 GiB, is handed to the parser as it was, and the bytes
  -- behind it stay in the buffer.
  pub decode-encode :
      (packet wire rest : List ℕ)
      → encode packet [] ≡ ok wire
      → length packet ≤ max_packet_len
      → decode parse (wire ++ rest) ≡ (parse packet >>= λ r. ok (some r), rest)
  decode-encode packet wire rest h small =
      rw ((encode-frame packet [] wire h).0) (
        decode_packet parse (frame packet ++ rest) packet rest
          (take_packet-frame packet rest small))

  -- A proper prefix of a framed packet is waited on: nothing is taken and nothing is refused.
  pub decode_partial :
      (packet front back : List ℕ) (x : ℕ)
      → encode packet [] ≡ ok (front ++ (x ∷ back))
      → length packet ≤ max_packet_len
      → decode parse front ≡ (ok none, front)
  decode_partial packet front back x h small = elim (Settles-cases (take_packet-Settles front)) [
    | inl (none, e) ↦ decode_waits parse front e
    | inl (some (p, rest), e) ↦ absurd (
        ground (
          arith,
          whole,
          take_packet-append front (x ∷ back) p rest e,
          length-append rest (x ∷ back),
        ))
    | inr (v, e) ↦ absurd (cc (whole, take_packet-append_err front (x ∷ back) v e))
  ]
    where
      whole : take_packet (front ++ (x ∷ back)) ≡ ok (some (packet, []))
      whole =
          let e : front ++ (x ∷ back) ≡ frame packet = (encode-frame packet [] _ h).0 in
          rw (e, ← append-nil (frame packet)) (take_packet-frame packet [] small)

  -- How the stream is cut into reads does not matter: once `decode` answers anything but "wait",
  -- it gives the same answer when more bytes have arrived, and leaves those bytes behind the rest.
  pub decode-append :
      (src more : List ℕ)
      → (decode parse src).0 ≢ ok none
      → decode parse (src ++ more) ≡ ((decode parse src).0, (decode parse src).1 ++ more)
  decode-append src more answers = elim (Settles-cases (take_packet-Settles src)) [
    | inl (none, e) ↦
        absurd (answers (ap (λ (p : Outcome (Option R) × List ℕ). p.0) (decode_waits parse src e)))
    | inl (some (p, rest), e) ↦ rw (
      decode_packet parse src p rest e,
      decode_packet parse (src ++ more) p (rest ++ more) (take_packet-append src more p rest e),
    )
    | inr (v, e) ↦ rw (
      decode_err parse src v e,
      decode_err parse (src ++ more) v (take_packet-append_err src more v e),
    )
  ]
