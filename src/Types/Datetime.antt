-- ===== src/Types/Datetime.antt =====
-- types/datetime.rs: the payload of a point in time, in its short and its long form. Signed integers
-- go over the wire in two's complement, low byte first.
pub mod Calendar
pub mod Years
pub mod Steps
pub mod Days
pub mod Text
pub mod Numbers
pub mod Reading
pub mod Local
pub mod Whole
pub mod System
pub mod Crates
use tarant.Base.{
  ℕ, suc, ◌+◌, ◌-◌, ◌*◌, ◌/◌, ◌%◌, ◌^◌, ◌<◌, ◌≡◌, refl, sym, ap, ◌∙◌, ltb, leb, ◌==◌, if◌then◌else◌,
  Bool, true, false, ◌&&◌, List, [], ◌∷◌, ◌++◌, length, length-append, append-nil, take, drop,
  take-length_append, Result, ok, err, arith, Bool-cases, inl, inr,
}
use tarant.Base.Endian.{le_bytes, le_value, length-le_bytes, le_value-le_bytes}
use native.Mathlib.Nat.{pow-succ'}
use tarant.Base.Int.{ℤ, pos, negsuc, ◌+ℤ◌, eqb_ℤ, ltb_ℤ, plus_zero}

pub data DatetimeError : Type 0 where
  nanoseconds_out_of_range bad_length : DatetimeError

pub record Datetime : Type 0 where
  pub epoch : ℤ
  pub nsec : ℕ
  pub tz_offset : ℤ
  pub tz_index : ℤ

abbrev pub nanos_per_second : ℕ
nanos_per_second = 1000000000

-- `to_le_bytes` and `from_le_bytes` of a signed integer of `w` bytes.
unfoldable pub signed_bytes : ℕ → ℤ → List ℕ
signed_bytes w (pos n) = le_bytes w n
signed_bytes w (negsuc n) = le_bytes w (256 ^ w - 1 - n)

unfoldable pub signed_value : ℕ → List ℕ → ℤ
signed_value w bytes =
    if ltb (2 * le_value bytes) (256 ^ w)
    then pos (le_value bytes)
    else negsuc (256 ^ w - 1 - le_value bytes)

-- `i64::saturating_add` of a number that is not negative.
unfoldable pub from_unix : ℤ → ℕ → Datetime
from_unix seconds nanoseconds =
    let later = seconds +ℤ pos (nanoseconds / nanos_per_second) in
    record {
      epoch = if ltb_ℤ (pos (2 ^ 63 - 1)) later then pos (2 ^ 63 - 1) else later;
      nsec = nanoseconds % nanos_per_second;
      tz_offset = pos 0;
      tz_index = pos 0;
    }

-- Whether the tail is left out.
unfoldable pub is_short : Datetime → Bool
is_short d = (d.nsec == 0) && eqb_ℤ d.tz_offset (pos 0) && eqb_ℤ d.tz_index (pos 0)

unfoldable pub to_payload : Datetime → List ℕ
to_payload d =
    if is_short d
    then signed_bytes 8 d.epoch
    else (signed_bytes 8 d.epoch
        ++ (le_bytes 4 d.nsec ++ (signed_bytes 2 d.tz_offset ++ signed_bytes 2 d.tz_index)))

-- `payload[start..start + len]`, inside the payload by its length.
abbrev pub part : ℕ → ℕ → List ℕ → List ℕ
part start len payload = take len (drop start payload)

unfoldable pub from_payload : List ℕ → Result DatetimeError Datetime
from_payload payload =
    if length payload == 8
    then ok (from_unix (signed_value 8 (part 0 8 payload)) 0)
    else if length payload == 16
    then (if leb nanos_per_second (le_value (part 8 4 payload))
        then err nanoseconds_out_of_range
        else ok (record {
          epoch = signed_value 8 (part 0 8 payload);
          nsec = le_value (part 8 4 payload);
          tz_offset = signed_value 2 (part 12 2 payload);
          tz_index = signed_value 2 (part 14 2 payload);
        }))
    else err bad_length

-- The range of a signed integer of `w` bytes.
abbrev pub InWidth : ℕ → ℤ → Type 0
InWidth w (pos n) = 2 * n < 256 ^ w
InWidth w (negsuc n) = 2 * n < 256 ^ w

pub record IsStored (d : Datetime) : Type 0 where
  pub epoch_in : InWidth 8 d.epoch
  pub nsec_in : d.nsec < nanos_per_second
  pub offset_in : InWidth 2 d.tz_offset
  pub index_in : InWidth 2 d.tz_index

length-signed_bytes : (w : ℕ) (z : ℤ) → length (signed_bytes w z) ≡ w
unfolding signed_bytes
length-signed_bytes w (pos n) = length-le_bytes w n
length-signed_bytes w (negsuc n) = length-le_bytes w (256 ^ w - 1 - n)

signed_value-signed_bytes :
    (w : ℕ) (z : ℤ) → InWidth (suc w) z → signed_value (suc w) (signed_bytes (suc w) z) ≡ z
unfolding signed_bytes signed_value
signed_value-signed_bytes w (pos n) h =
    rw (le_value-le_bytes (suc w) n (omega arith)) (ground arith)
signed_value-signed_bytes w (negsuc n) h =
    rw (le_value-le_bytes (suc w) (256 ^ suc w - 1 - n) (omega arith))
      (ground (arith, pow-succ' 256 w, h))

-- A part in front of others, and behind one.
part-front : (n : ℕ) (xs ys : List ℕ) → length xs ≡ n → part 0 n (xs ++ ys) ≡ xs
part-front n xs ys h = rw h at (take-length_append xs ys)

drop-length_plus : (k : ℕ) (xs ys : List ℕ) → drop (length xs + k) (xs ++ ys) ≡ drop k ys
drop-length_plus k [] ys = let e : length {A = ℕ} [] + k ≡ k = omega arith in ap (λ n. drop n ys) e
drop-length_plus k (x ∷ xs) ys =
    let e : length (x ∷ xs) + k ≡ suc (length xs + k) = omega arith in
    ap (λ n. drop n (x ∷ (xs ++ ys))) e ∙ drop-length_plus k xs ys

part-behind : (m n k : ℕ) (xs ys : List ℕ) → length xs ≡ m → part (m + k) n (xs ++ ys) ≡ part k n ys
part-behind m n k xs ys h = ap (take n) (rw h at (drop-length_plus k xs ys))

eqb_zero : (z : ℤ) → eqb_ℤ z (pos 0) ≡ true → z ≡ pos 0
eqb_zero (pos n) e = ap pos (ground arith)
eqb_zero (negsuc n) e = ground arith

not_above : (z : ℤ) → InWidth 8 z → ltb_ℤ (pos (2 ^ 63 - 1)) z ≡ false
not_above (pos n) h = ground arith
not_above (negsuc n) h = ground arith

-- The two forms are read back.
module _ (d : Datetime) (s : IsStored d) where
  abbrev epoch_bytes : List ℕ
  epoch_bytes = signed_bytes 8 d.epoch

  epoch_back : signed_value 8 epoch_bytes ≡ d.epoch
  epoch_back = signed_value-signed_bytes 7 d.epoch s.epoch_in

  epoch_alone : part 0 8 epoch_bytes ≡ epoch_bytes
  epoch_alone =
      rw (append-nil epoch_bytes) at (part-front 8 epoch_bytes [] (length-signed_bytes 8 d.epoch))

  short_fields :
      is_short d ≡ true
      → d ≡ record { epoch = d.epoch; nsec = 0; tz_offset = pos 0; tz_index = pos 0 }
  unfolding is_short
  short_fields e = ground (arith, e, eqb_zero d.tz_offset, eqb_zero d.tz_index)

  from_unix_zero :
      from_unix d.epoch 0
      ≡ record { epoch = d.epoch; nsec = 0; tz_offset = pos 0; tz_index = pos 0 }
  unfolding from_unix
  from_unix_zero = rw (plus_zero d.epoch, not_above d.epoch s.epoch_in) refl

  short_back : is_short d ≡ true → from_payload (to_payload d) ≡ ok d
  unfolding from_payload to_payload
  short_back short =
      rw (short, length-signed_bytes 8 d.epoch, epoch_alone, epoch_back)
        (ap ok (from_unix_zero ∙ sym (short_fields short)))

  abbrev tail : List ℕ
  tail = le_bytes 4 d.nsec ++ (signed_bytes 2 d.tz_offset ++ signed_bytes 2 d.tz_index)

  abbrev long : List ℕ
  long = epoch_bytes ++ tail

  length-long : length long ≡ 16
  length-long = omega (
    arith,
    length-append epoch_bytes tail,
    length-signed_bytes 8 d.epoch,
    length-le_bytes 4 d.nsec,
    length-append (le_bytes 4 d.nsec) (signed_bytes 2 d.tz_offset ++ signed_bytes 2 d.tz_index),
    length-append (signed_bytes 2 d.tz_offset) (signed_bytes 2 d.tz_index),
    length-signed_bytes 2 d.tz_offset,
    length-signed_bytes 2 d.tz_index,
  )

  nsec_part : part 8 4 long ≡ le_bytes 4 d.nsec
  nsec_part =
      part-behind 8 4 0 epoch_bytes tail (length-signed_bytes 8 d.epoch)
      ∙ part-front 4 (le_bytes 4 d.nsec) _ (length-le_bytes 4 d.nsec)

  offset_part : part 12 2 long ≡ signed_bytes 2 d.tz_offset
  offset_part =
      part-behind 8 2 4 epoch_bytes tail (length-signed_bytes 8 d.epoch)
      ∙ (part-behind 4 2 0 (le_bytes 4 d.nsec) _ (length-le_bytes 4 d.nsec)
          ∙ part-front 2 (signed_bytes 2 d.tz_offset) _ (length-signed_bytes 2 d.tz_offset))

  index_part : part 14 2 long ≡ signed_bytes 2 d.tz_index
  index_part =
      part-behind 8 2 6 epoch_bytes tail (length-signed_bytes 8 d.epoch)
      ∙ (part-behind 4 2 2 (le_bytes 4 d.nsec) _ (length-le_bytes 4 d.nsec)
          ∙ (part-behind 2 2 0 (signed_bytes 2 d.tz_offset) _ (length-signed_bytes 2 d.tz_offset)
              ∙ (rw (append-nil (signed_bytes 2 d.tz_index)) at (
                  part-front 2 (signed_bytes 2 d.tz_index) [] (length-signed_bytes 2 d.tz_index)))))

  long_back : is_short d ≡ false → from_payload (to_payload d) ≡ ok d
  unfolding from_payload to_payload
  long_back e =
      let nanos : le_value (le_bytes 4 d.nsec) ≡ d.nsec =
        le_value-le_bytes 4 d.nsec (omega (arith, s.nsec_in)) in
      let small : leb nanos_per_second d.nsec ≡ false = ground (arith, s.nsec_in) in
      rw
        (
          e,
          length-long,
          part-front 8 epoch_bytes tail (length-signed_bytes 8 d.epoch),
          nsec_part,
          offset_part,
          index_part,
          nanos,
          small,
          epoch_back,
          signed_value-signed_bytes 1 d.tz_offset s.offset_in,
          signed_value-signed_bytes 1 d.tz_index s.index_in,
        )
        refl

-- A point in time in its range, with any offset and zone of 16 bits, is read back from its payload.
pub from_payload-to_payload_datetime :
    (d : Datetime) → IsStored d → from_payload (to_payload d) ≡ ok d
from_payload-to_payload_datetime d s = elim (Bool-cases (is_short d)) [
  | inl e ↦ short_back d s e
  | inr e ↦ long_back d s e
]
