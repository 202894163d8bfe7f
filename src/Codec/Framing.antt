-- ===== src/Codec/Framing.antt =====
-- `decode` against `encode`, and on a stream that arrives in pieces.
use tarant.Base.{
  ℕ, zero, suc, ◌+◌, ◌-◌, ◌≤◌, ◌<◌, ◌≡◌, refl, sym, ap, ◌∙◌, ltb, leb, ◌==◌, if◌then◌else◌, Option,
  none, some, List, [], ◌∷◌, ◌++◌, length, length-append, length-drop, take, drop, true, false, ok,
  err, ◌>>=◌, arith, inl, inr,
}
use tarant.Base.Endian.{be_value}
use native.Mathlib.Decide.{dec_lt}
use tarant.Error.{Error, Violation, Outcome, Settles, returns, fails, Settles-if, Settles-cases}
use tarant.Codec.{max_packet_len, prefix_of, packet_len, take_packet}

pub prefix_of_cases : (m : ℕ) (p : ℕ) → prefix_of m ≡ ok p → (1 ≤ p) × (p ≤ 9)
unfolding prefix_of
prefix_of_cases m p h = ground arith

-- A list behind a part of known length.
module _ {ℓ} {A : Type ℓ} where
  pub take-append_le : (n : ℕ) (xs ys : List A) → n ≤ length xs → take n (xs ++ ys) ≡ take n xs
  take-append_le zero xs ys h = refl
  take-append_le (suc n) [] ys h = absurd (omega arith)
  take-append_le (suc n) (x ∷ xs) ys h = ap (λ t. x ∷ t) (take-append_le n xs ys (omega arith))

  pub drop-append_le :
      (n : ℕ) (xs ys : List A) → n ≤ length xs → drop n (xs ++ ys) ≡ drop n xs ++ ys
  drop-append_le zero xs ys h = refl
  drop-append_le (suc n) [] ys h = absurd (omega arith)
  drop-append_le (suc n) (x ∷ xs) ys h = drop-append_le n xs ys (omega arith)

-- The length does not look past its prefix.
packet_len-append :
    (src more : List ℕ) (m p : ℕ)
    → 1 ≤ p
    → p ≤ length src
    → packet_len (src ++ more) m p ≡ packet_len src m p
unfolding packet_len
packet_len-append src more m p h le =
    let here : leb p (length src) ≡ true = ground arith in
    let there : leb p (length (src ++ more)) ≡ true = ground (arith, length-append src more) in
    let bytes : take (p - 1) (drop 1 (src ++ more)) ≡ take (p - 1) (drop 1 src) =
      rw (drop-append_le 1 src more (omega arith))
        (take-append_le (p - 1) (drop 1 src) more (omega (arith, length-drop 1 src))) in
    rw (here, there, bytes)

-- The choice that `take_packet` makes once it knows the length.
unfoldable pub cut : List ℕ → ℕ → ℕ → Outcome (Option (List ℕ × List ℕ))
cut src p len =
    if ltb max_packet_len len
    then err (Error.protocol (Violation.packet_too_long len))
    else if ltb (length src) (p + len)
    then ok none
    else ok (some (take len (drop p src), drop len (drop p src)))

pub take_packet-cut :
    (m : ℕ) (bytes : List ℕ) (p : ℕ)
    → prefix_of m ≡ ok p
    → p ≤ length (m ∷ bytes)
    → take_packet (m ∷ bytes) ≡ (packet_len (m ∷ bytes) m p >>= λ len. cut (m ∷ bytes) p len)
unfolding take_packet cut
take_packet-cut m bytes p e le =
    let test : ltb (length (m ∷ bytes)) p ≡ false = ground arith in rw (e, test)

-- The two ways in which a buffer is taken further than its prefix, and the answers before that.
data Front (m : ℕ) (bytes : List ℕ) : Type 0 where
  refused : (e : Error) → take_packet (m ∷ bytes) ≡ err e → prefix_of m ≡ err e → Front m bytes
  short :
      (p : ℕ)
      → prefix_of m ≡ ok p
      → length (m ∷ bytes) < p
      → take_packet (m ∷ bytes) ≡ ok none
      → Front m bytes
  known :
      (p len : ℕ)
      → prefix_of m ≡ ok p
      → 1 ≤ p
      → p ≤ length (m ∷ bytes)
      → packet_len (m ∷ bytes) m p ≡ ok len
      → take_packet (m ∷ bytes) ≡ cut (m ∷ bytes) p len
      → Front m bytes

packet_len-ok :
    (src : List ℕ) (m p : ℕ) → p ≤ length src → (len : ℕ) × (packet_len src m p ≡ ok len)
unfolding packet_len
packet_len-ok src m p le =
    let inside : leb p (length src) ≡ true = ground arith in
    (if p == 1 then m else be_value 0 (take (p - 1) (drop 1 src)), rw inside (ground arith))

prefix_of-Settles : (m : ℕ) → Settles (prefix_of m)
unfolding prefix_of
prefix_of-Settles m = Settles-if (leb m 0x7f) (returns 1) (
    Settles-if (m == 0xcc) (returns 2) (
      Settles-if (m == 0xcd) (returns 3)
        (Settles-if (m == 0xce) (returns 5) (Settles-if (m == 0xcf) (returns 9) (fails _)))))

take_packet-refused :
    (m : ℕ) (bytes : List ℕ) (e : Error) → prefix_of m ≡ err e → take_packet (m ∷ bytes) ≡ err e
unfolding take_packet
take_packet-refused m bytes e h = rw h

take_packet-short :
    (m : ℕ) (bytes : List ℕ) (p : ℕ)
    → prefix_of m ≡ ok p
    → length (m ∷ bytes) < p
    → take_packet (m ∷ bytes) ≡ ok none
unfolding take_packet
take_packet-short m bytes p e lt =
    let test : ltb (length (m ∷ bytes)) p ≡ true = ground arith in rw (e, test)

Front-all : (m : ℕ) (bytes : List ℕ) → Front m bytes
Front-all m bytes = elim (Settles-cases (prefix_of-Settles m)) [
  | inr (e, h) ↦ refused e (take_packet-refused m bytes e h) h
  | inl (p, h) ↦ elim (dec_lt (length (m ∷ bytes)) p) [
    | yes lt ↦ short p h lt (take_packet-short m bytes p h lt)
    | no ge ↦
        let le : p ≤ length (m ∷ bytes) = omega arith in
        let (len, size) = packet_len-ok (m ∷ bytes) m p le in
        known p len h (prefix_of_cases m p h).0 le size (take_packet-cut m bytes p h le ∙ (rw size))
  ]
]

-- A front that is known stays so when more bytes arrive.
known-append :
    (m : ℕ) (bytes more : List ℕ) (p len : ℕ)
    → prefix_of m ≡ ok p
    → 1 ≤ p
    → p ≤ length (m ∷ bytes)
    → packet_len (m ∷ bytes) m p ≡ ok len
    → take_packet (m ∷ (bytes ++ more)) ≡ cut (m ∷ (bytes ++ more)) p len
known-append m bytes more p len h pos le size =
    take_packet-cut m (bytes ++ more) p h (omega (arith, length-append bytes more))
    ∙ rw (packet_len-append (m ∷ bytes) more m p pos le, size)

cut-append_some :
    (src more : List ℕ) (p len : ℕ) (packet rest : List ℕ)
    → p ≤ length src
    → cut src p len ≡ ok (some (packet, rest))
    → cut (src ++ more) p len ≡ ok (some (packet, rest ++ more))
unfolding cut
cut-append_some src more p len packet rest le h = ground (
  arith,
  length-append src more,
  drop-append_le p src more le,
  length-drop p src,
  take-append_le len (drop p src) more,
  drop-append_le len (drop p src) more,
)

cut-append_err :
    (src more : List ℕ) (p len : ℕ) (e : Error)
    → cut src p len ≡ err e
    → cut (src ++ more) p len ≡ err e
unfolding cut
cut-append_err src more p len e h = ground arith

-- How the stream is cut into reads does not matter: once `decode` takes a packet, it takes the
-- same packet when more bytes follow, and leaves those bytes behind the rest.
pub take_packet-append :
    (src more packet rest : List ℕ)
    → take_packet src ≡ ok (some (packet, rest))
    → take_packet (src ++ more) ≡ ok (some (packet, rest ++ more))
take_packet-append [] more packet rest h = unfold take_packet in cc
take_packet-append (m ∷ bytes) more packet rest h = elim (Front-all m bytes) [
  | refused e t _ ↦ cc (t, h)
  | short p _ _ t ↦ cc (t, h)
  | known p len e pos le size t ↦
      known-append m bytes more p len e pos le size
      ∙ cut-append_some (m ∷ bytes) more p len packet rest le (sym t ∙ h)
]

-- An error stands, whatever arrives later.
pub take_packet-append_err :
    (src more : List ℕ) (e : Error) → take_packet src ≡ err e → take_packet (src ++ more) ≡ err e
take_packet-append_err [] more e h = unfold take_packet in cc
take_packet-append_err (m ∷ bytes) more e h = elim (Front-all m bytes) [
  | refused e' t r ↦ take_packet-refused m (bytes ++ more) e' r ∙ sym t ∙ h
  | short p _ _ t ↦ cc (t, h)
  | known p len e' pos le size t ↦
      known-append m bytes more p len e' pos le size
      ∙ cut-append_err (m ∷ bytes) more p len e (sym t ∙ h)
]

cut-Settles : (src : List ℕ) (p len : ℕ) → Settles (cut src p len)
unfolding cut
cut-Settles src p len =
    Settles-if (ltb max_packet_len len) (fails _)
      (Settles-if (ltb (length src) (p + len)) (returns none) (returns _))

pub take_packet-Settles : (src : List ℕ) → Settles (take_packet src)
take_packet-Settles [] = unfold take_packet in returns none
take_packet-Settles (m ∷ bytes) = elim (Front-all m bytes) [
  | refused e t _ ↦ rw t (fails e)
  | short p _ _ t ↦ rw t (returns none)
  | known p len _ _ _ _ t ↦ rw t (cut-Settles (m ∷ bytes) p len)
]
