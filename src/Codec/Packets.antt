-- ===== src/Codec/Packets.antt =====
-- Every packet that the operations of `Request` of codec.rs build, in any order, on the wire.
use tarant.Base.{
  ℕ, suc, ◌^◌, ◌<◌, ◌≡◌, refl, sym, ap, ◌∙◌, Bool, ◌&&◌, not, ltb, Option, List, [], ◌∷◌, ◌++◌, map,
  length, length-map, get_elem?, ok, ◌>>=◌, >>=-eq-ok, ok-injective, arith, Bool-cases, inl, inr,
  append-nil,
}
use mathlib.Core.Path.{subst}
use tarant.Base.Int.{ℤ}
use tarant.Error.{Outcome}
use tarant.Rmp.{Rmp}
use tarant.Msgpack.Format.{
  Head, HeadIsValid, children, Value, node, Values, end, more, count, encode_head, encode,
  encode_all, IsValid, AllValid,
}
use tarant.Codec.Request.{Request, entry, finish, is_array_marker, joined}
use tarant.Codec.Request as Request
use tarant.Codec.Layout.{
  WritesFormat, AreEntries, add_entries, finish-AreTwoMaps, IsWord, AreTwoMaps,
}

-- What `rmp` documents of its other writers: each writes the head of a value in the format.
pub record WritesValues (rmp : Rmp) : Type 0 where
  pub str_head : List ℕ → Head
  pub bool_head : Bool → Head
  pub float_head : ℕ → Head
  pub ext_head : ℤ → List ℕ → Head
  pub array_head : ℕ → Head
  pub write_str_format :
      (text : List ℕ)
      → length text < 2 ^ 32
      → (rmp.write_str_len (length text) ++ text ≡ encode_head (str_head text))
        × HeadIsValid (str_head text)
        × (children (str_head text) ≡ 0)
  pub write_bool_format :
      (b : Bool)
      → (rmp.write_bool b ≡ encode_head (bool_head b))
        × HeadIsValid (bool_head b)
        × (children (bool_head b) ≡ 0)
  pub write_f64_format :
      (bits : ℕ)
      → bits < 2 ^ 64
      → (rmp.write_f64 bits ≡ encode_head (float_head bits))
        × HeadIsValid (float_head bits)
        × (children (float_head bits) ≡ 0)
  pub write_ext_format :
      (tag : ℤ) (payload : List ℕ)
      → length payload < 2 ^ 32
      → (rmp.write_ext_meta (length payload) tag ++ payload ≡ encode_head (ext_head tag payload))
        × HeadIsValid (ext_head tag payload)
        × (children (ext_head tag payload) ≡ 0)
  pub write_array_len_format :
      (n : ℕ)
      → n < 2 ^ 32
      → (rmp.write_array_len n ≡ encode_head (array_head n))
        × HeadIsValid (array_head n)
        × (children (array_head n) ≡ n)

-- One operation on a request. A value that `serde` or the caller encoded is one in the format.
pub data Op : Type 0 where
  put_uint : (k v : ℕ) → Op
  put_str : (k : ℕ) (text : List ℕ) → Op
  put_bool : (k : ℕ) (b : Bool) → Op
  put_f64 : (k bits : ℕ) → Op
  put_ext : (k : ℕ) (tag : ℤ) (payload : List ℕ) → Op
  put_serialized : (k : ℕ) (v : Value) (expect_array : Bool) → Op
  put_array : (k : ℕ) (v : Value) → Op
  put_raw : (k : ℕ) (v : Value) → Op
  put_raw_array : (k : ℕ) (vs : List Value) → Op

unfoldable pub apply_op : Rmp → Request → Op → Outcome Request
apply_op rmp r (put_uint k v) = ok (Request.uint rmp r k v)
apply_op rmp r (put_str k text) = ok (Request.str rmp r k text)
apply_op rmp r (put_bool k b) = ok (Request.bool rmp r k b)
apply_op rmp r (put_f64 k bits) = ok (Request.f64 rmp r k bits)
apply_op rmp r (put_ext k tag payload) = Request.ext rmp r k tag payload
apply_op rmp r (put_serialized k v expect_array) =
    Request.serialized rmp r k (ok (encode v)) expect_array
apply_op rmp r (put_array k v) = Request.array rmp r k (ok (encode v))
apply_op rmp r (put_raw k v) = ok (Request.raw rmp r k (encode v))
apply_op rmp r (put_raw_array k vs) = Request.raw_array rmp r k (map encode vs)

unfoldable pub apply_ops : Rmp → Request → List Op → Outcome Request
apply_ops rmp r [] = ok r
apply_ops rmp r (op ∷ ops) = apply_op rmp r op >>= λ next. apply_ops rmp next ops

abbrev pub AreValid : List Value → Type 0
AreValid [] = Unit
AreValid (v ∷ vs) = IsValid v × AreValid vs

-- What the types of the arguments and the length of a text say.
abbrev pub Fits : Op → Type 0
Fits (put_uint k v) = (k < 2 ^ 64) × (v < 2 ^ 64)
Fits (put_str k text) = (k < 2 ^ 64) × (length text < 2 ^ 32)
Fits (put_bool k b) = k < 2 ^ 64
Fits (put_f64 k bits) = (k < 2 ^ 64) × (bits < 2 ^ 64)
Fits (put_ext k tag payload) = k < 2 ^ 64
Fits (put_serialized k v expect_array) = (k < 2 ^ 64) × IsValid v
Fits (put_array k v) = (k < 2 ^ 64) × IsValid v
Fits (put_raw k v) = (k < 2 ^ 64) × IsValid v
Fits (put_raw_array k vs) = (k < 2 ^ 64) × AreValid vs

abbrev pub AllFit : List Op → Type 0
AllFit [] = Unit
AllFit (op ∷ ops) = Fits op × AllFit ops

module _ (rmp : Rmp) (words : WritesFormat rmp) (laws : WritesValues rmp) where
  -- One entry more, with one value of the format.
  abbrev pub Adds : Request → Request → Type 0
  Adds r after =
      (k : ℕ) × (v : Value) × (k < 2 ^ 64) × IsValid v × (after ≡ entry rmp r k (encode v))

  leaf : (h : Head) → encode_head h ≡ encode (node h end)
  leaf h = unfold encode encode_all in sym (append-nil _)

  add_leaf :
      (r : Request) (k : ℕ) (bytes : List ℕ) (h : Head)
      → k < 2 ^ 64
      → (bytes ≡ encode_head h) × HeadIsValid h × (children h ≡ 0)
      → Adds r (entry rmp r k bytes)
  add_leaf r k bytes h inside (e, valid, alone) =
      (k, node h end, inside, (valid, sym alone, tt), ap (entry rmp r k) (e ∙ leaf h))

  add_value :
      (r after : Request) (k : ℕ) (v : Value)
      → (k < 2 ^ 64) × IsValid v
      → ◌≡◌ {A = Outcome Request} (ok (entry rmp r k (encode v))) (ok after)
      → Adds r after
  add_value r after k v (inside, valid) e = (k, v, inside, valid, sym (ok-injective e))

  abbrev values_of : List Value → Values
  values_of [] = end
  values_of (v ∷ vs) = more v (values_of vs)

  joined-map : (vs : List Value) → joined rmp (map encode vs) ≡ encode_all (values_of vs)
  unfolding encode_all
  joined-map [] = refl
  joined-map (v ∷ vs) = ap (λ t. encode v ++ t) (joined-map vs)

  count-values_of : (vs : List Value) → count (values_of vs) ≡ length vs
  count-values_of [] = refl
  count-values_of (v ∷ vs) = ap suc (count-values_of vs)

  AllValid-values_of : (vs : List Value) → AreValid vs → AllValid (values_of vs)
  AllValid-values_of [] w = tt
  AllValid-values_of (v ∷ vs) w = (w.0, AllValid-values_of vs w.1)

  abbrev array_of : List Value → Value
  array_of vs = node (laws.array_head (length vs)) (values_of vs)

  raw_array_value :
      (vs : List Value)
      → AreValid vs
      → length vs < 2 ^ 32
      → (rmp.write_array_len (length vs) ++ joined rmp (map encode vs) ≡ encode (array_of vs))
        × IsValid (array_of vs)
  raw_array_value vs w h =
      let (e, valid, many) = laws.write_array_len_format (length vs) h in
      (
        (unfold encode in rw (e, joined-map vs) refl),
        (valid, count-values_of vs ∙ sym many, AllValid-values_of vs w),
      )

  pub apply_op-Adds :
      (r after : Request) (op : Op) → Fits op → apply_op rmp r op ≡ ok after → Adds r after
  unfolding apply_op Request.uint Request.str Request.bool Request.f64 Request.raw Request.array
      Request.ext Request.serialized Request.raw_array
  apply_op-Adds r after (put_uint k v) (inside, h) e =
      subst (Adds r) (ok-injective e)
        (add_leaf r k (rmp.write_uint v) (words.uint_head v) inside (words.write_uint_format v h))
  apply_op-Adds r after (put_str k text) (inside, h) e =
      subst (Adds r) (ok-injective e)
        (add_leaf r k _ (laws.str_head text) inside (laws.write_str_format text h))
  apply_op-Adds r after (put_bool k b) inside e =
      subst (Adds r) (ok-injective e)
        (add_leaf r k _ (laws.bool_head b) inside (laws.write_bool_format b))
  apply_op-Adds r after (put_f64 k bits) (inside, h) e =
      subst (Adds r) (ok-injective e)
        (add_leaf r k _ (laws.float_head bits) inside (laws.write_f64_format bits h))
  apply_op-Adds r after (put_ext k tag payload) inside e =
      elim (Bool-cases (ltb (length payload) (2 ^ 32))) [
        | inl short ↦ subst (Adds r) (ok-injective (rw short at e)) (
            add_leaf r k _ (laws.ext_head tag payload) inside
              (laws.write_ext_format tag payload (ground (arith, short))))
        | inr long ↦ let refused = rw long at e in cc refused
      ]
  apply_op-Adds r after (put_serialized k v expect_array) w e =
      elim (Bool-cases (expect_array && not (is_array_marker (get_elem? (encode v) 0)))) [
        | inl bad ↦ let refused = rw bad at e in cc refused
        | inr good ↦ add_value r after k v w (rw good at e)
      ]
  apply_op-Adds r after (put_array k v) w e = add_value r after k v w e
  apply_op-Adds r after (put_raw k v) w e = add_value r after k v w e
  apply_op-Adds r after (put_raw_array k vs) (inside, w) e =
      let long = length-map encode vs in
      elim (Bool-cases (ltb (length vs) (2 ^ 32))) [
        | inl short ↦
            let (same, valid) = raw_array_value vs w (ground (arith, short)) in
            add_value r after k (array_of vs) (inside, valid) (rw (long, short, same) at e)
        | inr many ↦ let refused = rw (long, many) at e in cc refused
      ]

  -- The entries of a whole sequence.
  apply_ops-entries :
      (r after : Request) (ops : List Op)
      → AllFit ops
      → apply_ops rmp r ops ≡ ok after
      → (es : List (ℕ × Value)) × AreEntries es
        × (length es ≡ length ops)
        × (after ≡ add_entries rmp r es)
  unfolding apply_ops AreEntries add_entries
  apply_ops-entries r after [] w e = ([], tt, refl, sym (ok-injective e))
  apply_ops-entries r after (op ∷ ops) w e =
      let (next, first, rest) = >>=-eq-ok (apply_op rmp r op) _ e in
      let (k, v, inside, valid, same) = apply_op-Adds r next op w.0 first in
      let (es, are, long, whole) = apply_ops-entries next after ops w.1 rest in
      ((k, v) ∷ es, (inside, valid, are), ap suc long, whole ∙ ap (λ t. add_entries rmp t es) same)

  -- Whatever operations on a new request succeed, in any order, the finished packet is a header map and
  -- a body map of the format and nothing else, if the arguments fit their types and the packet is
  -- shorter than 2^64 bytes; `value_len` measures the first as the header and the rest as the body.
  pub apply_ops-AreTwoMaps :
      (ty sync : ℕ) (stream : Option ℕ) (ops : List Op) (r : Request)
      → ty < 2 ^ 64
      → sync < 2 ^ 64
      → IsWord rmp words stream
      → AllFit ops
      → length ops < 2 ^ 32
      → apply_ops rmp (Request.new rmp ty sync stream) ops ≡ ok r
      → length (finish rmp r) < 2 ^ 64
      → AreTwoMaps (finish rmp r)
  apply_ops-AreTwoMaps ty sync stream ops r t s w fit few e small =
      let start : Request = Request.new rmp ty sync stream in
      let (es, are, long, same) = apply_ops-entries start r ops fit e in
      let short : length es < 2 ^ 32 = omega (arith, long, few) in
      subst (λ packet. length packet < 2 ^ 64 → AreTwoMaps packet) (sym (ap (finish rmp) same))
        (finish-AreTwoMaps rmp words ty sync stream es t s w are short) small
