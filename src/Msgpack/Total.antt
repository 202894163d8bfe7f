-- ===== src/Msgpack/Total.antt =====
-- `value_len` on any bytes, well formed or not.
use tarant.Base.{
  ℕ, zero, suc, ◌+◌, ◌-◌, ◌*◌, ◌^◌, ◌≤◌, ◌<◌, ◌≡◌, refl, sym, ap, ◌∙◌, List, length, get_elem?,
  arith, ok, err, ◌>>=◌, ok_or, ltb, leb, >>=-eq-ok, inl, inr, ◌||◌, ◌==◌, within,
}
use tarant.Error.{
  Error, Outcome, Settles, returns, fails, Settles-if, Settles-bind, Settles-cases, Settles-ok_or,
}
use tarant.Msgpack.{
  truncated, read_len, payload_and_children, length_prefix_width, measure_step, measure_loop,
  value_len, checked_add, get_range,
}
use native.Mathlib.Nat.{zero-add, suc-add}

-- What a round that succeeds tells: the position grew and stayed in the buffer, and `kids` values
-- were added to those pending, as they are with fewer pending.
pub record Round (buf : List ℕ) (pos pending : ℕ) (r : ℕ × ℕ) : Type 0 where
  pub kids : ℕ
  pub counts : r.1 ≡ pending + kids
  pub few : pending + kids < 2 ^ 64
  pub grows : pos < r.0
  pub inside : r.0 ≤ length buf
  pub fewer : (q : ℕ) → q ≤ pending → measure_step buf pos q ≡ ok (r.0, q + kids)

checked_add-eq-ok : (a b c : ℕ) → checked_add a b ≡ ok c → (c ≡ a + b) × (a + b < 2 ^ 64)
checked_add-eq-ok a b c h = ground arith

checked_add-lt : (a b : ℕ) → a + b < 2 ^ 64 → checked_add a b ≡ ok (a + b)
checked_add-lt a b h = ground arith

pub measure_step-Round :
    (buf : List ℕ) (pos pending : ℕ) (r : ℕ × ℕ)
    → measure_step buf pos pending ≡ ok r
    → Round buf pos pending r
unfolding measure_step
measure_step-Round buf pos pending (pos', pending') h =
    let (m, at, h1) = >>=-eq-ok (ok_or (get_elem? buf pos) truncated) _ h in
    let ((payload, kids), reads, h2) =
      >>=-eq-ok (payload_and_children (read_len buf (pos + 1)) m) _ h1 in
    let (p, adds, h3) = >>=-eq-ok (checked_add (pos + 1 + length_prefix_width m) payload) _ h2 in
    record {
      kids = kids;
      counts = ground arith;
      few = ground arith;
      grows = ground arith;
      inside = ground arith;
      fewer = λ q le. rw (at, reads, adds) (ground arith);
    }

-- A loop that ends has run through its first round.
pub measure_loop-suc :
    (buf : List ℕ) (fuel pos pending e : ℕ)
    → measure_loop buf (suc fuel) pos (suc pending) ≡ ok e
    → (r : ℕ × ℕ) × Round buf pos pending r × (measure_loop buf fuel r.0 r.1 ≡ ok e)
unfolding measure_loop
measure_loop-suc buf fuel pos pending e h =
    let (r, first, later) = >>=-eq-ok (measure_step buf pos pending) _ h in
    (r, measure_step-Round buf pos pending r first, later)

-- The first round of a loop, with as many values pending or fewer.
pub measure_loop-Round :
    {buf : List ℕ} {pos pending : ℕ} {r : ℕ × ℕ} (fuel q : ℕ) (d : Round buf pos pending r)
    → q ≤ pending
    → measure_loop buf (suc fuel) pos (suc q) ≡ measure_loop buf fuel r.0 (q + d.kids)
unfolding measure_loop
measure_loop-Round fuel q d le = rw (d.fewer q le)

-- The answer lies in the buffer, and behind `pos` if anything is pending.
pub measure_loop-range :
    (buf : List ℕ) (fuel pos pending e : ℕ)
    → pos ≤ length buf
    → measure_loop buf fuel pos pending ≡ ok e
    → (pos ≤ e) × (e ≤ length buf)
measure_loop-range buf fuel pos zero e le h = unfold measure_loop in ground arith
measure_loop-range buf zero pos (suc p) e le h = unfold measure_loop in cc
measure_loop-range buf (suc fuel) pos (suc p) e le h =
    let (r, d, later) = measure_loop-suc buf fuel pos p e h in
    omega (arith, d.grows, d.inside, measure_loop-range buf fuel r.0 r.1 e d.inside later)

pub measure_loop-after :
    (buf : List ℕ) (fuel pos pending e : ℕ)
    → pos ≤ length buf
    → measure_loop buf fuel pos (suc pending) ≡ ok e
    → pos < e
measure_loop-after buf zero pos p e le h = unfold measure_loop in cc
measure_loop-after buf (suc fuel) pos p e le h =
    let (r, d, later) = measure_loop-suc buf fuel pos p e h in
    omega (arith, d.grows, measure_loop-range buf fuel r.0 r.1 e d.inside later)

-- A loop that ends, ends with any fuel above the bytes left.
pub measure_loop-refuel :
    (buf : List ℕ) (fuel g pos pending e : ℕ)
    → pos ≤ length buf
    → length buf - pos < g
    → measure_loop buf fuel pos pending ≡ ok e
    → measure_loop buf g pos pending ≡ ok e
measure_loop-refuel buf fuel g pos zero e le hg h = unfold measure_loop in h
measure_loop-refuel buf zero g pos (suc p) e le hg h = unfold measure_loop in cc
measure_loop-refuel buf (suc fuel) zero pos (suc p) e le hg h = absurd (omega arith)
measure_loop-refuel buf (suc fuel) (suc g) pos (suc p) e le hg h =
    let (r, d, later) = measure_loop-suc buf fuel pos p e h in
    measure_loop-Round g p d (omega arith)
    ∙ ap (measure_loop buf g r.0) (sym d.counts)
    ∙ measure_loop-refuel buf fuel g r.0 r.1 e d.inside (omega (arith, d.grows, d.inside)) later

-- `a + b` pending values are `a` values, and `b` values behind them.
pub record Parted (buf : List ℕ) (fuel pos a b e : ℕ) : Type 0 where
  pub mid : ℕ
  pub first : measure_loop buf fuel pos a ≡ ok mid
  pub inside : mid ≤ length buf
  pub after : pos ≤ mid
  pub second : measure_loop buf fuel mid b ≡ ok e

pub measure_loop-Parted :
    (buf : List ℕ) (fuel pos a b e : ℕ)
    → pos ≤ length buf
    → length buf - pos < fuel
    → measure_loop buf fuel pos (a + b) ≡ ok e
    → Parted buf fuel pos a b e
measure_loop-Parted buf fuel pos zero b e le hf h = record {
  mid = pos;
  first = unfold measure_loop in refl;
  inside = le;
  after = omega arith;
  second = rw zero-add at h;
}
measure_loop-Parted buf zero pos (suc a) b e le hf h = absurd (omega arith)
measure_loop-Parted buf (suc fuel) pos (suc a) b e le hf h =
    let (r, d, later) = measure_loop-suc buf fuel pos (a + b) e (rw suc-add at h) in
    let regroup : r.1 ≡ (a + d.kids) + b = omega (arith, d.counts) in
    let parts : Parted buf fuel r.0 (a + d.kids) b e =
      measure_loop-Parted buf fuel r.0 (a + d.kids) b e d.inside (omega (arith, d.grows, d.inside))
        (rw regroup at later) in
    record {
      mid = parts.mid;
      first = measure_loop-Round fuel a d (omega arith) ∙ parts.first;
      inside = parts.inside;
      after = omega (arith, parts.after, d.grows);
      second =
          measure_loop-refuel buf fuel (suc fuel) parts.mid b e parts.inside
            (omega (arith, parts.after, d.grows)) parts.second;
    }

pub read_len-Settles : (buf : List ℕ) (pos w : ℕ) → Settles (read_len buf pos w)
unfolding read_len
read_len-Settles buf pos w =
    Settles-bind _ (Settles-ok_or (get_range buf pos (pos + w)) truncated) (λ bs. returns _)

plus_len-Settles : (f : ℕ → ℕ × ℕ) {m : Outcome ℕ} → Settles m → Settles (m >>= λ n. ok (f n))
plus_len-Settles f s = Settles-bind _ s (λ n. returns (f n))

payload_and_children-Settles :
    (len : ℕ → Outcome ℕ) (m : ℕ)
    → ((w : ℕ) → Settles (len w))
    → Settles (payload_and_children len m)
unfolding payload_and_children
payload_and_children-Settles len m s =
    Settles-if (leb m 0x7f || (m == 0xc0) || (m == 0xc2) || (m == 0xc3) || within 0xe0 0xff m)
      (returns _)
      (Settles-if (within 0x80 0x8f m) (returns _) (
        Settles-if (within 0x90 0x9f m) (returns _) (
          Settles-if (within 0xa0 0xbf m) (returns _) (
            Settles-if (m == 0xc1) (fails _) (
              Settles-if ((m == 0xc4) || (m == 0xd9)) (plus_len-Settles (λ n. (n, 0)) (s 1)) (
                Settles-if ((m == 0xc5) || (m == 0xda)) (plus_len-Settles (λ n. (n, 0)) (s 2)) (
                  Settles-if ((m == 0xc6) || (m == 0xdb)) (plus_len-Settles (λ n. (n, 0)) (s 4)) (
                    Settles-if (m == 0xc7) (plus_len-Settles (λ n. (1 + n, 0)) (s 1)) (
                      Settles-if (m == 0xc8) (plus_len-Settles (λ n. (1 + n, 0)) (s 2)) (
                        Settles-if (m == 0xc9) (plus_len-Settles (λ n. (1 + n, 0)) (s 4)) (
                          Settles-if ((m == 0xca) || (m == 0xcc) || (m == 0xd0)) (returns _) (
                            Settles-if ((m == 0xcb) || (m == 0xcd) || (m == 0xd1)) (returns _) (
                              Settles-if ((m == 0xce) || (m == 0xd2)) (returns _) (
                                Settles-if ((m == 0xcf) || (m == 0xd3)) (returns _) (
                                  Settles-if (m == 0xd4) (returns _) (
                                    Settles-if (m == 0xd5) (returns _) (
                                      Settles-if (m == 0xd6) (returns _) (
                                        Settles-if (m == 0xd7) (returns _) (
                                          Settles-if (m == 0xd8) (returns _) (
                                            Settles-if (m == 0xdc)
                                              (plus_len-Settles (λ n. (0, n)) (s 2))
                                              (Settles-if (m == 0xdd)
                                                (plus_len-Settles (λ n. (0, n)) (s 4))
                                                (Settles-if (m == 0xde)
                                                  (plus_len-Settles (λ n. (0, 2 * n)) (s 2))
                                                  (plus_len-Settles (λ n. (0, 2 * n))
                                                    (s 4))))))))))))))))))))))))

checked_add-Settles : (a b : ℕ) → Settles (checked_add a b)
checked_add-Settles a b = Settles-if (ltb (a + b) (2 ^ 64)) (returns _) (fails _)

measure_step-Settles : (buf : List ℕ) (pos pending : ℕ) → Settles (measure_step buf pos pending)
unfolding measure_step
measure_step-Settles buf pos pending =
    Settles-bind _ (Settles-ok_or (get_elem? buf pos) truncated) (λ m.
      Settles-bind _ (payload_and_children-Settles _ m (read_len-Settles buf (pos + 1))) (λ r.
        Settles-bind _ (checked_add-Settles (pos + 1 + length_prefix_width m) r.0) (λ p.
          Settles-if (ltb (length buf) p) (fails _)
            (Settles-bind _ (checked_add-Settles pending r.1) (λ k. returns _)))))

measure_loop-step_err :
    (buf : List ℕ) (fuel pos pending : ℕ) (e : Error)
    → measure_step buf pos pending ≡ err e
    → measure_loop buf (suc fuel) pos (suc pending) ≡ err e
unfolding measure_loop
measure_loop-step_err buf fuel pos pending e h = rw h

measure_loop-Settles :
    (buf : List ℕ) (fuel pos pending : ℕ)
    → pos ≤ length buf
    → length buf - pos < fuel
    → Settles (measure_loop buf fuel pos pending)
measure_loop-Settles buf fuel pos zero le lt = unfold measure_loop in returns pos
measure_loop-Settles buf zero pos (suc p) le lt = absurd (omega arith)
measure_loop-Settles buf (suc fuel) pos (suc p) le lt =
    elim (Settles-cases (measure_step-Settles buf pos p)) [
      | inr (e, h) ↦ rw (measure_loop-step_err buf fuel pos p e h) (fails e)
      | inl (r, h) ↦
          let d : Round buf pos p r = measure_step-Round buf pos p r h in
          rw (measure_loop-Round fuel p d (omega arith), ← d.counts)
            (measure_loop-Settles buf fuel r.0 r.1 d.inside (omega (arith, d.grows, d.inside)))
    ]

-- On any bytes `value_len` ends with a length or an error.
pub value_len-Settles : (buf : List ℕ) → Settles (value_len buf)
unfolding value_len
value_len-Settles buf = measure_loop-Settles buf (length buf + 1) 0 1 (omega arith) (omega arith)

-- A length that `value_len` returns is at least one byte and lies in the buffer.
pub value_len-range : (buf : List ℕ) (n : ℕ) → value_len buf ≡ ok n → (0 < n) × (n ≤ length buf)
unfolding value_len
value_len-range buf n h = (
  measure_loop-after buf (length buf + 1) 0 0 n (omega arith) h,
  (measure_loop-range buf (length buf + 1) 0 1 n (omega arith) h).1,
)
