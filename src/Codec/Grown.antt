-- ===== src/Codec/Grown.antt =====
-- Requests of codec.rs that have grown from a new one by entries, and what they are on the wire.
use tarant.Base.{
  ℕ, suc, ◌^◌, ◌≤◌, ◌<◌, ◌≡◌, refl, sym, ap, ◌∙◌, Bool, ◌&&◌, not, Option, List, [], ◌∷◌, ◌++◌,
  length, map, get_elem?, ok, ◌>>=◌, >>=-eq-ok, ok-injective, length-append, arith, Bool-cases, inl,
  inr,
}
use mathlib.Core.Path.{subst}
use tarant.Error.{Outcome}
use tarant.Base.Int.{ℤ}
use tarant.Rmp.{Rmp}
use tarant.Msgpack.Format.{Value, encode, IsValid}
use tarant.Codec.Request.{Request, entry, finish, is_array_marker}
use tarant.Codec.Request as Request
use tarant.Codec.Layout.{
  WritesFormat, AreEntries, add_entries, finish-AreTwoMaps, IsWord, AreTwoMaps,
}
use tarant.Codec.Packets.{
  WritesValues, Adds, apply_op, apply_op-Adds, put_uint, put_str, put_bool, put_f64, put_ext,
  put_raw_array, AreValid,
}

-- Bytes that are one value, and an outcome that is such bytes, if any.
abbrev pub IsOne : List ℕ → Type 0
IsOne bytes = (v : Value) × (bytes ≡ encode v) × IsValid v

abbrev pub WritesOne : Outcome (List ℕ) → Type 0
WritesOne packed = (bytes : List ℕ) → packed ≡ ok bytes → IsOne bytes

abbrev pub AreOnes : List (List ℕ) → Type 0
AreOnes [] = Unit
AreOnes (bytes ∷ rest) = IsOne bytes × AreOnes rest

values_in :
    (elements : List (List ℕ))
    → AreOnes elements
    → (vs : List Value) × (map encode vs ≡ elements) × AreValid vs
values_in [] h = ([], refl, tt)
values_in (bytes ∷ rest) ((v, e, valid), h) =
    let (vs, same, good) = values_in rest h in (v ∷ vs, rw (e, same) refl, (valid, good))

module _ (rmp : Rmp) (words : WritesFormat rmp) (laws : WritesValues rmp) where
  -- At most `k` entries more.
  abbrev pub Grown : ℕ → Request → Request → Type 0
  Grown k start r =
      (es : List (ℕ × Value)) × AreEntries es × (length es ≤ k) × (r ≡ add_entries rmp start es)

  add_entries-append :
      (r : Request) (es : List (ℕ × Value)) (k : ℕ) (v : Value)
      → add_entries rmp r (es ++ ((k, v) ∷ [])) ≡ entry rmp (add_entries rmp r es) k (encode v)
  unfolding add_entries
  add_entries-append r [] k v = refl
  add_entries-append r ((j, x) ∷ es) k v = add_entries-append (entry rmp r j (encode x)) es k v

  AreEntries-append :
      (es : List (ℕ × Value)) (k : ℕ) (v : Value)
      → AreEntries es
      → k < 2 ^ 64
      → IsValid v
      → AreEntries (es ++ ((k, v) ∷ []))
  unfolding AreEntries
  AreEntries-append [] k v w h i = (h, i, tt)
  AreEntries-append (e ∷ es) k v w h i = (w.0, w.1, AreEntries-append es k v w.2 h i)

  pub start-Grown : (r : Request) → Grown 0 r r
  unfolding add_entries AreEntries
  start-Grown r = ([], tt, omega arith, refl)

  grow :
      (k : ℕ) (start r after : Request)
      → Grown k start r
      → Adds rmp words laws r after
      → Grown (suc k) start after
  grow k start r after (es, are, long, same) (key, v, inside, valid, e) = (
    es ++ ((key, v) ∷ []),
    AreEntries-append es key v are inside valid,
    omega (arith, long, length-append es ((key, v) ∷ [])),
    e ∙ (ap (λ t. entry rmp t key (encode v)) same ∙ sym (add_entries-append start es key v)),
  )

  pub Grown-weaken : (j k : ℕ) (start r : Request) → j ≤ k → Grown j start r → Grown k start r
  Grown-weaken j k start r h (es, are, long, same) = (es, are, omega (arith, long, h), same)

  module _ (k : ℕ) (start r : Request) (g : Grown k start r) (key : ℕ) (inside : key < 2 ^ 64) where
    pub uint-Grown : (v : ℕ) → v < 2 ^ 64 → Grown (suc k) start (Request.uint rmp r key v)
    unfolding apply_op
    uint-Grown v h =
        grow k start r _ g (apply_op-Adds rmp words laws r _ (put_uint key v) (inside, h) refl)

    pub str-Grown :
        (text : List ℕ) → length text < 2 ^ 32 → Grown (suc k) start (Request.str rmp r key text)
    unfolding apply_op
    str-Grown text h =
        grow k start r _ g (apply_op-Adds rmp words laws r _ (put_str key text) (inside, h) refl)

    pub bool-Grown : (b : Bool) → Grown (suc k) start (Request.bool rmp r key b)
    unfolding apply_op
    bool-Grown b =
        grow k start r _ g (apply_op-Adds rmp words laws r _ (put_bool key b) inside refl)

    pub f64-Grown : (bits : ℕ) → bits < 2 ^ 64 → Grown (suc k) start (Request.f64 rmp r key bits)
    unfolding apply_op
    f64-Grown bits h =
        grow k start r _ g (apply_op-Adds rmp words laws r _ (put_f64 key bits) (inside, h) refl)

    pub raw-Grown :
        (bytes : List ℕ) → IsOne bytes → Grown (suc k) start (Request.raw rmp r key bytes)
    unfolding Request.raw
    raw-Grown bytes (v, e, valid) =
        grow k start r _ g (key, v, inside, valid, ap (entry rmp r key) e)

    pub array-Grown :
        (packed : Outcome (List ℕ)) (after : Request)
        → WritesOne packed
        → Request.array rmp r key packed ≡ ok after
        → Grown (suc k) start after
    unfolding Request.array
    array-Grown packed after one e =
        let (bytes, f, g') = >>=-eq-ok packed _ e in
        let (v, same, valid) = one bytes f in
        grow k start r after g
          (key, v, inside, valid, sym (ok-injective g') ∙ ap (entry rmp r key) same)

    pub serialized-Grown :
        (packed : Outcome (List ℕ)) (after : Request) (demand : Bool)
        → WritesOne packed
        → Request.serialized rmp r key packed demand ≡ ok after
        → Grown (suc k) start after
    unfolding Request.serialized
    serialized-Grown packed after demand one e =
        let (bytes, f, g') = >>=-eq-ok packed _ e in
        let (v, same, valid) = one bytes f in
        elim (Bool-cases (demand && not (is_array_marker (get_elem? bytes 0)))) [
          | inl bad ↦ let refused = rw bad at g' in cc refused
          | inr good ↦ grow k start r after g (
            key,
            v,
            inside,
            valid,
            sym (ok-injective (rw good at g')) ∙ ap (entry rmp r key) same,
          )
        ]

    pub ext-Grown :
        (tag : ℤ) (payload : List ℕ) (after : Request)
        → Request.ext rmp r key tag payload ≡ ok after
        → Grown (suc k) start after
    unfolding apply_op
    ext-Grown tag payload after e =
        grow k start r after g
          (apply_op-Adds rmp words laws r after (put_ext key tag payload) inside e)

    pub raw_array-Grown :
        (elements : List (List ℕ)) (after : Request)
        → AreOnes elements
        → Request.raw_array rmp r key elements ≡ ok after
        → Grown (suc k) start after
    unfolding apply_op
    raw_array-Grown elements after ones e =
        let (vs, same, valid) = values_in elements ones in
        grow k start r after g (
          apply_op-Adds rmp words laws r after (put_raw_array key vs) (inside, valid)
            (ap (Request.raw_array rmp r key) same ∙ e))

  -- A new request with few entries more is finished as two maps.
  pub finish-Grown :
      (ty sync : ℕ) (stream : Option ℕ) (k : ℕ) (r : Request)
      → ty < 2 ^ 64
      → sync < 2 ^ 64
      → IsWord rmp words stream
      → k < 2 ^ 32
      → Grown k (Request.new rmp ty sync stream) r
      → length (finish rmp r) < 2 ^ 64
      → AreTwoMaps (finish rmp r)
  finish-Grown ty sync stream k r t y z few (es, are, long, same) small =
      subst (λ q. length (finish rmp q) < 2 ^ 64 → AreTwoMaps (finish rmp q)) (sym same)
        (finish-AreTwoMaps rmp words ty sync stream es t y z are (omega (arith, long, few))) small

  -- A finished outcome is an outcome that was finished.
  pub finished-Grown :
      (ty sync : ℕ) (stream : Option ℕ) (k : ℕ) (out : Outcome Request) (packet : List ℕ)
      → ty < 2 ^ 64
      → sync < 2 ^ 64
      → IsWord rmp words stream
      → k < 2 ^ 32
      → ((r : Request) → out ≡ ok r → Grown k (Request.new rmp ty sync stream) r)
      → (out >>= λ r. ok (finish rmp r)) ≡ ok packet
      → length packet < 2 ^ 64
      → AreTwoMaps packet
  finished-Grown ty sync stream k out packet t y z few grown e small =
      let (r, f, g) = >>=-eq-ok out _ e in
      let same = ok-injective g in
      subst AreTwoMaps same (finish-Grown ty sync stream k r t y z few (grown r f) (rw same small))
