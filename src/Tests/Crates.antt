-- ===== src/Tests/Crates.antt =====
-- A concrete `Rmp`, for the tests: it writes the widest forms of the format, and reads them and the
-- one-byte forms. And a concrete `Rmpv`, which decodes nothing.
use tarant.Base.{
  inr, ℕ, ◌-◌, ◌%◌, ◌^◌, ◌<◌, ◌≡◌, refl, ap, ◌∙◌, ltb, ◌==◌, Bool, true, false, length,
  append_assoc, if◌then◌else◌, within, Option, none, some, List, [], ◌∷◌, ◌++◌, take, drop,
  take-length_append, drop-length_append, arith,
}
use tarant.Base.Endian.{be_bytes, be_value, length-be_bytes, be_value-be_bytes}
use tarant.Base.Int.{ℤ, pos, negsuc}
use tarant.Rmp.{Rmp, ReadsBack, IsI64}
use tarant.Rmpv.{Rmpv}
use tarant.Msgpack.Format.{Head, encode_head, HeadIsValid, children}
use tarant.Codec.Layout.{WritesFormat}
use tarant.Codec.Packets.{WritesValues}

abbrev read_word : List ℕ → ℕ × List ℕ
read_word bytes = (be_value 0 (take 8 bytes), drop 8 bytes)

abbrev read_unsigned : List ℕ → Option (ℕ × List ℕ)
read_unsigned [] = none
read_unsigned (m ∷ bytes) =
    if m == 0xcf then some (read_word bytes) else if ltb m 128 then some (m, bytes) else none

abbrev signed : ℕ → ℤ
signed n = if ltb n (2 ^ 63) then pos n else negsuc (2 ^ 64 - 1 - n)

abbrev unsigned : ℤ → ℕ
unsigned (pos n) = n
unsigned (negsuc n) = 2 ^ 64 - 1 - n

abbrev read_signed : List ℕ → Option (ℤ × List ℕ)
read_signed [] = none
read_signed (m ∷ bytes) =
    if m == 0xd3 then some (signed (read_word bytes).0, (read_word bytes).1) else none

abbrev read_string_length : List ℕ → Option (ℕ × List ℕ)
read_string_length [] = none
read_string_length (m ∷ bytes) = if within 0xa0 0xbf m then some (m - 0xa0, bytes) else none

abbrev pub rmp_example : Rmp
rmp_example = record {
  read_u64 = read_unsigned;
  read_i64 = read_signed;
  read_str_len = read_string_length;
  write_uint = λ n. 0xcf ∷ be_bytes 8 n;
  write_sint = λ z. 0xd3 ∷ be_bytes 8 (unsigned z);
  write_map_len = λ n. 0xdf ∷ be_bytes 4 n;
  write_array_len = λ n. 0xdd ∷ be_bytes 4 n;
  write_str_len = λ n. 0xdb ∷ be_bytes 4 n;
  write_bool = λ b. (if b then 0xc3 else 0xc2) ∷ [];
  write_f64 = λ bits. 0xcb ∷ be_bytes 8 bits;
  write_ext_meta = λ n tag. 0xc9 ∷ (be_bytes 4 n ++ (unsigned tag % 256 ∷ []));
}

abbrev pub rmpv_example : Rmpv
rmpv_example = record {
  Value = Unit {0};
  read_value = λ bytes. none;
  as_map = λ v. none;
  as_array = λ v. none;
  as_u64 = λ v. none;
  as_str = λ v. none;
}

read_word-be_bytes :
    (n : ℕ) (rest : List ℕ) → n < 2 ^ 64 → read_word (be_bytes 8 n ++ rest) ≡ (n, rest)
read_word-be_bytes n rest h =
    let front : take 8 (be_bytes 8 n ++ rest) ≡ be_bytes 8 n =
      rw (length-be_bytes 8 n) at (take-length_append (be_bytes 8 n) rest) in
    let back : drop 8 (be_bytes 8 n ++ rest) ≡ rest =
      rw (length-be_bytes 8 n) at (drop-length_append (be_bytes 8 n) rest) in
    rw (front, back, be_value-be_bytes 8 n h) refl

unsigned-lt : (z : ℤ) → IsI64 z → unsigned z < 2 ^ 64
unsigned-lt (pos n) h = ground arith
unsigned-lt (negsuc n) h = ground arith

signed-unsigned : (z : ℤ) → IsI64 z → signed (unsigned z) ≡ z
signed-unsigned (pos n) h = ground arith
signed-unsigned (negsuc n) h = ground arith

pub ReadsBack_example : ReadsBack rmp_example
ReadsBack_example = record {
  read_u64-write_uint = λ n rest h. rw (read_word-be_bytes n rest h) refl;
  read_i64-write_sint = λ z rest h.
      ap (λ (r : ℕ × List ℕ). some (signed r.0, r.1))
        (read_word-be_bytes (unsigned z) rest (unsigned-lt z h))
      ∙ ap (λ v. some (v, rest)) (signed-unsigned z h);
}

pub WritesFormat_example : WritesFormat rmp_example
WritesFormat_example = record {
  uint_head = λ n. Head.uint 3 n;
  map_head = λ n. Head.map 2 n;
  write_uint_format = λ n h. unfold encode_head in (refl, (omega arith, h), refl);
  write_map_len_format = λ n h. unfold encode_head in (refl, (omega arith, omega arith, h), refl);
  map_shape = λ n h. inr (2, refl);
}

boolean_format :
    (b : Bool)
    → (rmp_example.write_bool b ≡ encode_head (Head.boolean b))
      × HeadIsValid (Head.boolean b)
      × (children (Head.boolean b) ≡ 0)
unfolding encode_head
boolean_format true = (refl, tt, refl)
boolean_format false = (refl, tt, refl)

pub WritesValues_example : WritesValues rmp_example
WritesValues_example = record {
  str_head = λ text. Head.str 2 text;
  bool_head = λ b. Head.boolean b;
  float_head = λ bits. Head.float64 bits;
  ext_head = λ tag payload. Head.ext 2 (unsigned tag % 256) payload;
  array_head = λ n. Head.array 2 n;
  write_str_format = λ text h. unfold encode_head in (refl, (omega arith, h), refl);
  write_bool_format = boolean_format;
  write_f64_format = λ bits h. unfold encode_head in (refl, h, refl);
  write_ext_format = λ tag payload h.
      unfold encode_head in
      (
        ap (λ t. 0xc9 ∷ t) (append_assoc (be_bytes 4 (length payload)) _ payload),
        (omega arith, omega arith, h),
        refl,
      );
  write_array_len_format = λ n h. unfold encode_head in (refl, (omega arith, omega arith, h), refl);
}
