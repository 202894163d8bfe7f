-- ===== src/Client/Wire/Parts.antt =====
-- What the builders of client.rs add to a request, entry by entry.
use tarant.Base.{
  ℕ, suc, ◌^◌, ◌≤◌, ◌<◌, ◌≡◌, Bool, true, false, if◌then◌else◌, Option, none, some, List, length,
  ok, ◌>>=◌, >>=-eq-ok, ok-injective, arith, Bool-cases, inl, inr, ltb,
}
use mathlib.Core.Path.{subst}
use tarant.Error.{Outcome}
use tarant.Iproto.Key
use tarant.Iproto.Request as Types
use tarant.Iproto.Code.{iterator_code, isolation_code, Iter, Isolation}
use tarant.Codec.Layout.{AreTwoMaps}
use tarant.Codec.Request.{Request, finish}
use tarant.Codec.Request as Request
use tarant.Codec.Layout.{WritesFormat, IsWord}
use tarant.Codec.Packets.{WritesValues}
use tarant.Codec.Grown.{
  WritesOne, Grown, start-Grown, Grown-weaken, uint-Grown, str-Grown, bool-Grown, f64-Grown,
  raw-Grown, array-Grown, finished-Grown,
}
use tarant.Client.{Outside}
use tarant.Client.Select.{
  Select, IndexRef, id, name, After, position, tuple, with_index, with_offset, with_after,
  with_position, entries, or_max,
}
use tarant.Client.Stream.{is_default}
use tarant.Client.Wire.{IsSized, IsText, IsIndex, IsAfter, IsTimeout, IsStreamId, select}

iterator_code-lt : (i : Iter) → iterator_code i < 2 ^ 64
unfolding iterator_code
iterator_code-lt Iter.eq = omega arith
iterator_code-lt Iter.req = omega arith
iterator_code-lt Iter.all = omega arith
iterator_code-lt Iter.lt = omega arith
iterator_code-lt Iter.le = omega arith
iterator_code-lt Iter.ge = omega arith
iterator_code-lt Iter.gt = omega arith
iterator_code-lt Iter.bits_all_set = omega arith
iterator_code-lt Iter.bits_any_set = omega arith
iterator_code-lt Iter.bits_all_not_set = omega arith
iterator_code-lt Iter.overlaps = omega arith
iterator_code-lt Iter.neighbor = omega arith

isolation_code-lt : (i : Isolation) → isolation_code i < 2 ^ 64
unfolding isolation_code
isolation_code-lt Isolation.default = omega arith
isolation_code-lt Isolation.read_committed = omega arith
isolation_code-lt Isolation.read_confirmed = omega arith
isolation_code-lt Isolation.best_effort = omega arith

abbrev pub done : {A : Type 0} → A → Outcome A
done a = ok a

module _ (w : Outside) (words : WritesFormat w.rmp) (laws : WritesValues w.rmp) where
  abbrev pub IsGrown : ℕ → Request → Request → Type 0
  IsGrown k start r = Grown w.rmp words laws k start r

  pub fresh : (start : Request) → IsGrown 0 start start
  fresh start = start-Grown w.rmp words laws start

  pub from_ok :
      (k : ℕ) (start r q : Request) → IsGrown k start r → done r ≡ ok q → IsGrown k start q
  from_ok k start r q g e = subst (λ t. IsGrown k start t) (ok-injective e) g

  pub index-Grown :
      (start : Request) (space : List ℕ) (i : IndexRef)
      → IsText space
      → IsIndex i
      → IsGrown 2 start (with_index w space i start)
  unfolding with_index
  index-Grown start space (id n) s h =
      uint-Grown w.rmp words laws 1 start _
        (str-Grown w.rmp words laws 0 start start (fresh start) Key.space_name (omega arith) space
          s)
        Key.index_id (omega arith) n h
  index-Grown start space (name n) s h =
      str-Grown w.rmp words laws 1 start _
        (str-Grown w.rmp words laws 0 start start (fresh start) Key.space_name (omega arith) space
          s)
        Key.index_name (omega arith) n h

  offset-Grown :
      (k : ℕ) (start r : Request) (n : ℕ)
      → n < 2 ^ 64
      → IsGrown k start r
      → IsGrown (suc k) start (with_offset w n r)
  unfolding with_offset
  offset-Grown k start r n h g = elim (Bool-cases (ltb 0 n)) [
    | inl set ↦ rw set (uint-Grown w.rmp words laws k start r g Key.offset (omega arith) n h)
    | inr unset ↦ rw unset (Grown-weaken w.rmp words laws k (suc k) start r (omega arith) g)
  ]

  after-Grown :
      (k : ℕ) (start r : Request) (a : Option After) (q : Request)
      → IsAfter a
      → IsGrown k start r
      → with_after w a r ≡ ok q
      → IsGrown (suc k) start q
  unfolding with_after
  after-Grown k start r none q h g e =
      from_ok (suc k) start r q (Grown-weaken w.rmp words laws k (suc k) start r (omega arith) g) e
  after-Grown k start r (some (position p)) q h g e =
      from_ok (suc k) start _ q
        (str-Grown w.rmp words laws k start r g Key.after_position (omega arith) p h) e
  after-Grown k start r (some (tuple t)) q h g e =
      let (bytes, f, last) = >>=-eq-ok t _ e in
      from_ok (suc k) start _ q
        (raw-Grown w.rmp words laws k start r g Key.after_tuple (omega arith) bytes (h bytes f))
        last

  position-Grown :
      (k : ℕ) (start r : Request) (b : Bool)
      → IsGrown k start r
      → IsGrown (suc k) start (with_position w b r)
  unfolding with_position
  position-Grown k start r true g =
      bool-Grown w.rmp words laws k start r g Key.fetch_position (omega arith) true
  position-Grown k start r false g = Grown-weaken w.rmp words laws k (suc k) start r (omega arith) g

  pub select-Grown :
      (s : Select) (key : List ℕ) (sync : ℕ) (q : Request)
      → IsSized (select s key)
      → entries w s key sync ≡ ok q
      → IsGrown 9 (Request.new w.rmp Types.select sync none) q
  unfolding entries
  select-Grown s key sync q (text, at, skip, most, after, one) e =
      let start = Request.new w.rmp Types.select sync none in
      let indexed = index-Grown start s.space s.index text at in
      let iterated =
        uint-Grown w.rmp words laws 2 start _ indexed Key.iterator (omega arith)
          (iterator_code s.iter) (iterator_code-lt s.iter) in
      let ranged = offset-Grown 3 start _ s.offset skip iterated in
      let limited =
        uint-Grown w.rmp words laws 4 start _ ranged Key.limit (omega arith) (or_max s.limit)
          most in
      let keyed = raw-Grown w.rmp words laws 5 start _ limited Key.key (omega arith) key one in
      let (r, f, last) = >>=-eq-ok (with_after w s.after _) _ e in
      let placed = after-Grown 6 start _ s.after r after keyed f in
      let shown = position-Grown 7 start r s.fetch_position placed in
      from_ok 9 start _ q (Grown-weaken w.rmp words laws 8 9 start _ (omega arith) shown) last

  pub isolation-Grown :
      (start : Request) (i : Isolation)
      → IsGrown 1 start (
          if is_default i
          then start
          else Request.uint w.rmp start Key.txn_isolation (isolation_code i))
  isolation-Grown start i = elim (Bool-cases (is_default i)) [
    | inl usual ↦
        rw usual (Grown-weaken w.rmp words laws 0 1 start start (omega arith) (fresh start))
    | inr other ↦ rw other (
        uint-Grown w.rmp words laws 0 start start (fresh start) Key.txn_isolation (omega arith)
          (isolation_code i) (isolation_code-lt i))
  ]

  -- What `finished` sends has at most nine entries.
  pub sent :
      (ty sync : ℕ) (stream : Option ℕ) (out : Outcome Request) (packet : List ℕ)
      → ty < 2 ^ 64
      → sync < 2 ^ 64
      → IsWord w.rmp words stream
      → ((r : Request) → out ≡ ok r → IsGrown 9 (Request.new w.rmp ty sync stream) r)
      → (out >>= λ r. ok (finish w.rmp r)) ≡ ok packet
      → length packet < 2 ^ 64
      → AreTwoMaps packet
  sent ty sync stream out packet t y z grown =
      finished-Grown w.rmp words laws ty sync stream 9 out packet t y z (omega arith) grown

  pub plain :
      (ty sync : ℕ) (stream : Option ℕ) (k : ℕ) (q : Request) (packet : List ℕ)
      → ty < 2 ^ 64
      → sync < 2 ^ 64
      → IsWord w.rmp words stream
      → k ≤ 9
      → IsGrown k (Request.new w.rmp ty sync stream) q
      → done (finish w.rmp q) ≡ ok packet
      → length packet < 2 ^ 64
      → AreTwoMaps packet
  plain ty sync stream k q packet t y z few g =
      sent ty sync stream (ok q) packet t y z
        (λ r e. from_ok 9 _ q r (Grown-weaken w.rmp words laws k 9 _ q few g) e)

  pub IsWord-stream : (stream : Option ℕ) → IsStreamId stream → IsWord w.rmp words stream
  IsWord-stream none h = h
  IsWord-stream (some n) h = h

  pub timeout-Grown :
      (k : ℕ) (start r : Request) (timeout : Option ℕ)
      → IsTimeout timeout
      → IsGrown k start r
      → IsGrown
          (suc k)
          start
          (elim timeout [ none ↦ r | some t ↦ Request.f64 w.rmp r Key.timeout t ])
  timeout-Grown k start r none h g = Grown-weaken w.rmp words laws k (suc k) start r (omega arith) g
  timeout-Grown k start r (some t) h g =
      f64-Grown w.rmp words laws k start r g Key.timeout (omega arith) t h

  pub synchronous-Grown :
      (k : ℕ) (start r : Request) (b : Bool)
      → IsGrown k start r
      → IsGrown (suc k) start (if b then Request.bool w.rmp r Key.is_sync true else r)
  synchronous-Grown k start r true g =
      bool-Grown w.rmp words laws k start r g Key.is_sync (omega arith) true
  synchronous-Grown k start r false g =
      Grown-weaken w.rmp words laws k (suc k) start r (omega arith) g

  pub named :
      (ty sync : ℕ) (stream : Option ℕ) (k : ℕ) (text : List ℕ)
      → k < 2 ^ 64
      → IsText text
      → IsGrown 1
          (Request.new w.rmp ty sync stream)
          (Request.str w.rmp (Request.new w.rmp ty sync stream) k text)
  named ty sync stream k text h = str-Grown w.rmp words laws 0 _ _ (fresh _) k h text

  pub with_array :
      (ty sync : ℕ) (stream : Option ℕ) (n : ℕ) (r : Request) (k : ℕ) (packed : Outcome (List ℕ))
      (packet : List ℕ)
      → ty < 2 ^ 64
      → sync < 2 ^ 64
      → IsWord w.rmp words stream
      → n ≤ 8
      → k < 2 ^ 64
      → WritesOne packed
      → IsGrown n (Request.new w.rmp ty sync stream) r
      → (Request.array w.rmp r k packed >>= λ q. ok (finish w.rmp q)) ≡ ok packet
      → length packet < 2 ^ 64
      → AreTwoMaps packet
  with_array ty sync stream n r k packed packet t y z few inside one g =
      sent ty sync stream _ packet t y z (λ q e.
        Grown-weaken w.rmp words laws (suc n) 9 _ q (omega (arith, few))
          (array-Grown w.rmp words laws n _ r g k inside packed q one e))
