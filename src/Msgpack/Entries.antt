-- ===== src/Msgpack/Entries.antt =====
-- The cursor over a map that `new` accepted never panics: every slice it takes lies in the buffer.
use tarant.Base.{
  ℕ, zero, suc, ◌+◌, ◌-◌, ◌*◌, ◌%◌, ◌≤◌, ◌<◌, ◌≡◌, ◌≢◌, ◌⊎◌, inl, inr, refl, sym, ap, ◌∙◌, ◌==◌,
  within, Option, none, some, List, [], ◌∷◌, length, get_elem?, take, drop, ok, err, ◌>>=◌,
  or_panic, leb, arith, true, false, >>=-eq-ok, ok-injective, length-take, length-drop,
}
use native.Mathlib.Numerals.{add-one}
use native.Mathlib.Decide.{ℕ_discrete}
use mathlib.Core.Path.{subst}
use tarant.Error.{Error, Violation, Outcome, Settles, returns, fails, Settles-if, Settles-bind}
use tarant.Rmp.{Rmp}
use tarant.Msgpack.{
  truncated, slice_from, read_len, value_len, measure_loop, measure_step, payload_and_children,
  length_prefix_width,
}
use tarant.Msgpack.Total.{
  measure_loop-suc, measure_loop-range, measure_loop-after, measure_loop-Parted,
  measure_loop-refuel, Parted, read_len-Settles, value_len-Settles,
}
use tarant.Msgpack.Shift.{value_len-drop}
use tarant.Msgpack.Cursor.{
  MapCursor, Entry, new, entries_and_header, read_uint, next_entry, next, for_each_loop, for_each,
}

-- What is left of the map: `2 * remaining` values stand from `pos` on, up to `total`.
pub record IsWithin (total : ℕ) (c : MapCursor) : Type 0 where
  pub placed : c.pos ≤ length c.buf
  pub ends : measure_loop c.buf (length c.buf + 1) c.pos (2 * c.remaining) ≡ ok total

-- What a round of a walk relies on.
record Takes (rmp : Rmp) (total : ℕ) (c : MapCursor) (e : Entry) (c' : MapCursor) : Type 0 where
  pub returns : next_entry rmp c ≡ ok (e, c')
  pub same_buf : c'.buf ≡ c.buf
  pub one_less : suc c'.remaining ≡ c.remaining
  pub advances : c.pos < e.1
  pub covers : c'.pos ≡ e.1 + length e.2
  pub bytes : e.2 ≡ take (length e.2) (drop e.1 c.buf)
  pub later : IsWithin total c'

take-inside : (k n : ℕ) (xs : List ℕ) → k + n ≤ length xs → length (take n (drop k xs)) ≡ n
take-inside k n xs h = omega (arith, length-take n (drop k xs), length-drop k xs)

-- Two values of the format that stand in the buffer from the cursor on, as `value_len` measures them, with
-- the rest of the map behind them.
pub record Pair (total : ℕ) (c : MapCursor) : Type 0 where
  pub key_end : ℕ
  pub value_end : ℕ
  pub key_after : c.pos < key_end
  pub value_after : key_end < value_end
  pub inside : value_end ≤ length c.buf
  pub key_len : value_len (drop c.pos c.buf) ≡ ok (key_end - c.pos)
  pub val_len : value_len (drop key_end c.buf) ≡ ok (value_end - key_end)
  pub rest : measure_loop c.buf (length c.buf + 1) value_end (2 * (c.remaining - 1)) ≡ ok total

-- What `next` makes of a pair, by what `read_u64` makes of the bytes of the first value.
abbrev pub Yields :
    (rmp : Rmp) (total : ℕ) (c : MapCursor) → Pair total c → Option (ℕ × List ℕ) → Type 0
Yields rmp total c p none = next_entry rmp c ≡ err (Error.protocol Violation.not_a_uint)
Yields rmp total c p (some (key, left)) =
    let later : MapCursor = record c { pos = p.value_end; remaining = c.remaining - 1 } in
    (next_entry rmp c
      ≡ ok ((key, p.key_end, take (p.value_end - p.key_end) (drop p.key_end c.buf)), later))
    × IsWithin total later

IsWithin-Pair : (total : ℕ) (c : MapCursor) → c.remaining ≢ 0 → IsWithin total c → Pair total c
IsWithin-Pair total c some_left w =
    let fuel : ℕ = length c.buf + 1 in
    let two : 2 * c.remaining ≡ 1 + (1 + 2 * (c.remaining - 1)) = omega arith in
    let key : Parted c.buf fuel c.pos 1 (1 + 2 * (c.remaining - 1)) total =
      measure_loop-Parted c.buf fuel c.pos 1 _ total w.placed (omega arith) (rw two at w.ends) in
    let value : Parted c.buf fuel key.mid 1 (2 * (c.remaining - 1)) total =
      measure_loop-Parted c.buf fuel key.mid 1 _ total key.inside (omega arith) key.second in
    record {
      key_end = key.mid;
      value_end = value.mid;
      key_after = measure_loop-after c.buf fuel c.pos 0 key.mid w.placed key.first;
      value_after = measure_loop-after c.buf fuel key.mid 0 value.mid key.inside value.first;
      inside = value.inside;
      key_len = value_len-drop c.buf c.pos w.placed fuel key.mid key.first;
      val_len = value_len-drop c.buf key.mid key.inside fuel value.mid value.first;
      rest = value.second;
    }

slice_from-inside : (buf : List ℕ) (k : ℕ) → k ≤ length buf → slice_from buf k ≡ ok (drop k buf)
slice_from-inside buf k h = ground arith

module _ (rmp : Rmp) where
  -- All of `next_entry` but the decoding of the key.
  next_entry-Pair :
      (total : ℕ) (c : MapCursor) (p : Pair total c)
      → next_entry rmp c ≡ (
          read_uint rmp (take (p.key_end - c.pos) (drop c.pos c.buf)) >>= λ key. ok (
            (key, p.key_end, take (p.value_end - p.key_end) (drop p.key_end c.buf)),
            record c { pos = p.value_end; remaining = c.remaining - 1 },
          ))
  unfolding next_entry
  next_entry-Pair total c p =
      let open_key : slice_from c.buf c.pos ≡ ok (drop c.pos c.buf) =
        slice_from-inside c.buf c.pos (omega (arith, p.key_after, p.value_after, p.inside)) in
      let open_value : slice_from c.buf p.key_end ≡ ok (drop p.key_end c.buf) =
        slice_from-inside c.buf p.key_end (omega (arith, p.value_after, p.inside)) in
      let key_in : leb p.key_end (length c.buf) ≡ true = ground (arith, p.value_after, p.inside) in
      let value_in : leb p.value_end (length c.buf) ≡ true = ground (arith, p.inside) in
      let to_key : c.pos + (p.key_end - c.pos) ≡ p.key_end = omega (arith, p.key_after) in
      let to_end : p.key_end + (p.value_end - p.key_end) ≡ p.value_end =
        omega (arith, p.value_after) in
      simp (open_key, p.key_len, to_key, key_in, open_value, p.val_len, to_end, value_in)

  next_entry-by_key :
      (total : ℕ) (c : MapCursor) (p : Pair total c) (r : Option (ℕ × List ℕ))
      → rmp.read_u64 (take (p.key_end - c.pos) (drop c.pos c.buf)) ≡ r
      → Yields rmp total c p r
  next_entry-by_key total c p none e = next_entry-Pair total c p ∙ (unfold read_uint in rw e)
  next_entry-by_key total c p (some (key, left)) e = (
    next_entry-Pair total c p ∙ (unfold read_uint in rw e),
    record { placed = p.inside; ends = p.rest },
  )

  -- `next` with an entry left, on a map that `new` measured: two values stand at the cursor. If the first
  -- is read as an unsigned number, `next` returns that number, the offset and the bytes of the second
  -- value, and a cursor behind it, over the rest of the map. If not, it refuses the key.
  pub next_entry-Yields :
      (total : ℕ) (c : MapCursor)
      → c.remaining ≢ 0
      → IsWithin total c
      → (p : Pair total c) × Yields rmp total c p
          (rmp.read_u64 (take (p.key_end - c.pos) (drop c.pos c.buf)))
  next_entry-Yields total c some_left w =
      let p = IsWithin-Pair total c some_left w in (p, next_entry-by_key total c p _ refl)

  next_entry_cases :
      (total : ℕ) (c : MapCursor)
      → c.remaining ≢ 0
      → IsWithin total c
      → ((e : Entry) × (c' : MapCursor) × Takes rmp total c e c')
        ⊎ (next_entry rmp c ≡ err (Error.protocol Violation.not_a_uint))
  next_entry_cases total c some_left w = go (rmp.read_u64 key_bytes) refl
    where
      p : Pair total c
      p = IsWithin-Pair total c some_left w

      key_bytes : List ℕ
      key_bytes = take (p.key_end - c.pos) (drop c.pos c.buf)

      go :
          (r : Option (ℕ × List ℕ))
          → rmp.read_u64 key_bytes ≡ r
          → ((e : Entry) × (c' : MapCursor) × Takes rmp total c e c')
            ⊎ (next_entry rmp c ≡ err (Error.protocol Violation.not_a_uint))
      go none e = inr (next_entry-Pair total c p ∙ (unfold read_uint in rw e))
      go (some (k, left)) e = inl (
        (k, p.key_end, take (p.value_end - p.key_end) (drop p.key_end c.buf)),
        record c { pos = p.value_end; remaining = c.remaining - 1 },
        record {
          returns = next_entry-Pair total c p ∙ (unfold read_uint in rw e);
          same_buf = refl;
          one_less = omega arith;
          advances = p.key_after;
          covers = omega (
            arith,
            p.value_after,
            p.inside,
            take-inside p.key_end (p.value_end - p.key_end) c.buf,
          );
          bytes =
              ap (λ n. take n (drop p.key_end c.buf))
                (sym (
                  take-inside p.key_end (p.value_end - p.key_end) c.buf
                    (omega (arith, p.value_after, p.inside))));
          later = record { placed = p.inside; ends = p.rest };
        },
      )

fixmap_head :
    (len : ℕ → Outcome ℕ) (m : ℕ)
    → within 0x80 0x8f m ≡ true
    → (payload_and_children len m ≡ ok (0, 2 * (m % 16))) × (length_prefix_width m ≡ 0)
unfolding payload_and_children length_prefix_width
fixmap_head len m h = ground arith

wide_head :
    (len : ℕ → Outcome ℕ)
    → (payload_and_children len 0xde ≡ (len 2 >>= λ n. ok (0, 2 * n)))
      × (payload_and_children len 0xdf ≡ (len 4 >>= λ n. ok (0, 2 * n)))
      × (length_prefix_width 0xde ≡ 2)
      × (length_prefix_width 0xdf ≡ 4)
unfolding payload_and_children length_prefix_width
wide_head len = (refl, refl, refl, refl)

-- The head that `new` reads is the one that the first round of `value_len` reads.
head_round :
    (buf : List ℕ) (m n header : ℕ) (r : ℕ × ℕ)
    → get_elem? buf 0 ≡ some m
    → entries_and_header buf m ≡ ok (n, header)
    → measure_step buf 0 0 ≡ ok r
    → (r.0 ≡ header) × (r.1 ≡ 2 * n)
unfolding measure_step entries_and_header
head_round buf m n header r at head step =
    ground (arith, fixmap_head (read_len buf 1) m, wide_head (read_len buf 1))

abbrev start_of : List ℕ → ℕ → ℕ → MapCursor
start_of buf n header = record { buf = buf; pos = header; remaining = n }

start-IsWithin :
    (buf : List ℕ) (total m n header : ℕ)
    → value_len buf ≡ ok total
    → get_elem? buf 0 ≡ some m
    → entries_and_header buf m ≡ ok (n, header)
    → (total ≤ length buf) × IsWithin total (start_of buf n header)
unfolding value_len
start-IsWithin buf total m n header size at head =
    let loop : measure_loop buf (suc (length buf)) 0 1 ≡ ok total =
      rw (← add-one (length buf)) size in
    let (r, d, later) = measure_loop-suc buf (length buf) 0 0 total loop in
    let (stands, holds) =
      head_round buf m n header r at head
        (d.fewer 0 (omega arith) ∙ ap (λ k. ok (r.0, k)) (sym d.counts)) in
    let later' : measure_loop buf (length buf) header (2 * n) ≡ ok total =
      rw (stands, holds) at later in
    (
      (measure_loop-range buf (length buf) r.0 r.1 total d.inside later).1,
      record {
        placed = omega (arith, d.inside);
        ends =
            measure_loop-refuel buf (length buf) (length buf + 1) header (2 * n) total
              (omega (arith, d.inside)) (omega (arith, d.inside)) later';
      },
    )

-- What `new` returned, in parts.
new-eq-ok :
    (buf : List ℕ) (c : MapCursor) (total : ℕ)
    → new buf ≡ ok (c, total)
    → (m n header : ℕ) × (value_len buf ≡ ok total)
      × (get_elem? buf 0 ≡ some m)
      × (entries_and_header buf m ≡ ok (n, header))
      × (c ≡ start_of buf n header)
unfolding new
new-eq-ok buf c total h =
    let (end, size, h1) = >>=-eq-ok (value_len buf) _ h in
    let (m, at, h2) = >>=-eq-ok (or_panic (get_elem? buf 0)) _ h1 in
    let (r, head, h3) = >>=-eq-ok (entries_and_header buf m) _ h2 in
    (m, r.0, r.1, ground arith, ground arith, head, ground arith)

-- A cursor that `new` returns stands before the entries that its head announces, and all of them
-- lie in the buffer, up to the end that `new` returns beside it.
pub new-IsWithin :
    (buf : List ℕ) (c : MapCursor) (total : ℕ)
    → new buf ≡ ok (c, total)
    → (c.buf ≡ buf) × (total ≤ length buf) × IsWithin total c
new-IsWithin buf c total h =
    let (m, n, header, size, at, head, e) = new-eq-ok buf c total h in
    let (bound, within) = start-IsWithin buf total m n header size at head in
    (ap (λ (k : MapCursor). k.buf) e, bound, subst (IsWithin total) (sym e) within)

module _ (rmp : Rmp) {S : Type 0} (body : S → Entry → Outcome S) where
  pub for_each_loop_done :
      (fuel : ℕ) (c : MapCursor) (s : S)
      → c.remaining ≡ 0
      → for_each_loop rmp body (suc fuel) c s ≡ ok s
  unfolding for_each_loop next
  for_each_loop_done fuel c s e = ground arith

  for_each_loop_err :
      (fuel : ℕ) (c : MapCursor) (s : S) (x : Error)
      → c.remaining ≢ 0
      → next_entry rmp c ≡ err x
      → for_each_loop rmp body (suc fuel) c s ≡ err x
  unfolding for_each_loop next
  for_each_loop_err fuel c s x left e = ground arith

  pub for_each_loop_entry :
      (fuel : ℕ) (c : MapCursor) (s : S) (e : Entry) (c' : MapCursor)
      → c.remaining ≢ 0
      → next_entry rmp c ≡ ok (e, c')
      → for_each_loop rmp body (suc fuel) c s
        ≡ (body s e >>= λ s'. for_each_loop rmp body fuel c' s')
  unfolding for_each_loop next
  for_each_loop_entry fuel c s e c' left h =
      let test : (c.remaining == 0) ≡ false = ground arith in rw (test, h)

module _ (rmp : Rmp) {S : Type 0} (body : S → Entry → Outcome S)
    (settles : (s : S) (e : Entry) → Settles (body s e)) where
  for_each_loop-Settles :
      (total fuel : ℕ) (c : MapCursor) (s : S)
      → c.remaining < fuel
      → IsWithin total c
      → Settles (for_each_loop rmp body fuel c s)
  for_each_loop-Settles total zero c s lt w = absurd (omega arith)
  for_each_loop-Settles total (suc fuel) c s lt w = elim (ℕ_discrete c.remaining 0) [
    | yes e ↦ rw (for_each_loop_done rmp body fuel c s e) (returns s)
    | no left ↦ elim (next_entry_cases rmp total c left w) [
      | inl (e, c', y) ↦ rw (for_each_loop_entry rmp body fuel c s e c' left y.returns) (
          Settles-bind _ (settles s e)
            (λ s'. for_each_loop-Settles total fuel c' s' (omega (arith, y.one_less)) y.later))
      | inr x ↦ rw (for_each_loop_err rmp body fuel c s _ left x) (fails _)
    ]
  ]

  -- A walk over a map of any bytes that `new` accepts returns a value or an error: it neither
  -- panics nor fails to end, if the loop's body does neither.
  pub for_each-Settles :
      (buf : List ℕ) (c : MapCursor) (total : ℕ) (s : S)
      → new buf ≡ ok (c, total)
      → Settles (for_each rmp body c s)
  unfolding for_each
  for_each-Settles buf c total s h =
      for_each_loop-Settles total (c.remaining + 1) c s (omega arith) (new-IsWithin buf c total h).2

entries_and_header-Settles : (buf : List ℕ) (m : ℕ) → Settles (entries_and_header buf m)
unfolding entries_and_header
entries_and_header-Settles buf m = Settles-if (within 0x80 0x8f m) (returns _) (
    Settles-if (m == 0xde) (Settles-bind _ (read_len-Settles buf 1 2) (λ n. returns (n, 3))) (
      Settles-if (m == 0xdf) (Settles-bind _ (read_len-Settles buf 1 4) (λ n. returns (n, 5)))
        (fails _)))

new_empty : new [] ≡ err truncated
unfolding new value_len measure_loop measure_step
new_empty = refl

-- On any bytes `new` answers.
pub new-Settles : (buf : List ℕ) → Settles (new buf)
unfolding new
new-Settles [] = rw new_empty (fails truncated)
new-Settles (b ∷ bs) =
    Settles-bind _ (value_len-Settles (b ∷ bs))
      (λ total. Settles-bind _ (entries_and_header-Settles (b ∷ bs) b) (λ r. returns _))

-- An entry that a walk hands to its body lies in the buffer.
abbrev pub LiesIn : ℕ → Entry → Type 0
LiesIn n e = e.1 + length e.2 ≤ n

module _ (rmp : Rmp) {S : Type 0} (body : S → Entry → Outcome S) (P : S → Type 0) (n : ℕ)
    (keeps : (s s' : S) (e : Entry) → P s → LiesIn n e → body s e ≡ ok s' → P s') where
  for_each_loop_inv :
      (total fuel : ℕ) (c : MapCursor) (s s' : S)
      → length c.buf ≡ n
      → IsWithin total c
      → P s
      → for_each_loop rmp body fuel c s ≡ ok s'
      → P s'
  for_each_loop_inv total zero c s s' size w p h = unfold for_each_loop in cc
  for_each_loop_inv total (suc fuel) c s s' size w p h = elim (ℕ_discrete c.remaining 0) [
    | yes e ↦ subst P (ok-injective (sym (for_each_loop_done rmp body fuel c s e) ∙ h)) p
    | no left ↦ elim (next_entry_cases rmp total c left w) [
      | inl (e, c', y) ↦
          let (t, here, later) =
            >>=-eq-ok (body s e) _
              (sym (for_each_loop_entry rmp body fuel c s e c' left y.returns) ∙ h) in
          let size' : length c'.buf ≡ n = rw y.same_buf size in
          for_each_loop_inv total fuel c' t s' size' y.later
            (keeps s t e p (omega (arith, y.covers, y.later.placed, size')) here) later
      | inr x ↦ absurd (cc (for_each_loop_err rmp body fuel c s _ left x, h))
    ]
  ]

  -- What every round keeps holds at the end of a walk over a map of `n` bytes.
  pub for_each_inv :
      (buf : List ℕ) (c : MapCursor) (total : ℕ) (s s' : S)
      → length buf ≡ n
      → new buf ≡ ok (c, total)
      → P s
      → for_each rmp body c s ≡ ok s'
      → P s'
  unfolding for_each
  for_each_inv buf c total s s' size h p e =
      let start : (c.buf ≡ buf) × (total ≤ length buf) × IsWithin total c =
        new-IsWithin buf c total h in
      for_each_loop_inv total (c.remaining + 1) c s s' (rw (start.0) size) start.2 p e
