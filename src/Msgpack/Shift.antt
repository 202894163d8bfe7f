-- ===== src/Msgpack/Shift.antt =====
-- Measuring a value inside a buffer and at the front of the buffer's tail is the same.
use tarant.Base.{
  ℕ, zero, suc, ◌+◌, ◌-◌, ◌≤◌, ◌≡◌, refl, ap, ◌∙◌, List, [], ◌∷◌, length, length-drop, drop,
  get_elem?, arith, ok, ok_or, leb, >>=-eq-ok,
}
use tarant.Msgpack.{
  truncated, read_len, payload_and_children, length_prefix_width, measure_step, measure_loop,
  value_len, checked_add,
}
use tarant.Msgpack.Total.{measure_loop-suc, measure_loop-refuel}
use mathlib.Core.Path.{fun_ext}
use native.Mathlib.Nat.{zero-add, suc-add, add-zero}

module _ {ℓ} {A : Type ℓ} where
  drop-drop : (k i : ℕ) (xs : List A) → drop i (drop k xs) ≡ drop (k + i) xs
  drop-drop zero i xs = rw zero-add
  drop-drop (suc k) zero [] = rw suc-add
  drop-drop (suc k) (suc i) [] = rw suc-add
  drop-drop (suc k) i (x ∷ xs) = rw suc-add (drop-drop k i xs)

  get_elem?-drop : (k i : ℕ) (xs : List A) → get_elem? (drop k xs) i ≡ get_elem? xs (k + i)
  get_elem?-drop zero i xs = rw zero-add
  get_elem?-drop (suc k) i [] = refl
  get_elem?-drop (suc k) i (x ∷ xs) = rw suc-add (get_elem?-drop k i xs)

pub measure_loop-ok :
    (buf : List ℕ) (fuel pos q : ℕ) (r : ℕ × ℕ)
    → measure_step buf pos q ≡ ok r
    → measure_loop buf (suc fuel) pos (suc q) ≡ measure_loop buf fuel r.0 r.1
unfolding measure_loop
measure_loop-ok buf fuel pos q r h = rw h

module _ (buf : List ℕ) (k : ℕ) (le : k ≤ length buf) where
  read_len-drop : (pos w : ℕ) → read_len (drop k buf) pos w ≡ read_len buf (k + pos) w
  unfolding read_len
  read_len-drop pos w =
      let ends : leb (pos + w) (length (drop k buf)) ≡ leb (k + pos + w) (length buf) =
        ground (arith, length-drop k buf) in
      let width : k + pos + w - (k + pos) ≡ pos + w - pos = omega arith in
      rw (ends, drop-drop k pos buf, width)

  measure_step-drop :
      (pos q : ℕ) (r : ℕ × ℕ)
      → measure_step buf (k + pos) q ≡ ok r
      → measure_step (drop k buf) pos q ≡ ok (r.0 - k, r.1)
  unfolding measure_step
  measure_step-drop pos q r h =
      let (m, at, h1) = >>=-eq-ok (ok_or (get_elem? buf (k + pos)) truncated) _ h in
      let ((payload, kids), reads, h2) =
        >>=-eq-ok (payload_and_children (read_len buf (k + pos + 1)) m) _ h1 in
      let (p, adds, h3) =
        >>=-eq-ok (checked_add (k + pos + 1 + length_prefix_width m) payload) _ h2 in
      let here : ok_or (get_elem? (drop k buf) pos) truncated ≡ ok m =
        rw (get_elem?-drop k pos buf) at in
      let same : read_len (drop k buf) (pos + 1) ≡ read_len buf (k + pos + 1) =
        fun_ext (λ w. read_len-drop (pos + 1) w ∙ ap (λ n. read_len buf n w) (omega arith)) in
      rw (here, same, reads) (ground (arith, length-drop k buf))

  measure_loop-drop :
      (fuel pos q e : ℕ)
      → measure_loop buf fuel (k + pos) q ≡ ok e
      → measure_loop (drop k buf) fuel pos q ≡ ok (e - k)
  measure_loop-drop fuel pos zero e h = unfold measure_loop in ground arith
  measure_loop-drop zero pos (suc q) e h = unfold measure_loop in cc
  measure_loop-drop (suc fuel) pos (suc q) e h =
      let (r, d, later) = measure_loop-suc buf fuel (k + pos) q e h in
      let here : measure_step (drop k buf) pos q ≡ ok (r.0 - k, q + d.kids) =
        measure_step-drop pos q _ (d.fewer q (omega arith)) in
      let back : k + (r.0 - k) ≡ r.0 = omega (arith, d.grows) in
      measure_loop-ok (drop k buf) fuel pos q _ here
      ∙ measure_loop-drop fuel (r.0 - k) (q + d.kids) e (rw (back, ← d.counts) later)

  -- A value that the loop measures inside the buffer is measured at the front of the tail.
  pub value_len-drop :
      (fuel e : ℕ) → measure_loop buf fuel k 1 ≡ ok e → value_len (drop k buf) ≡ ok (e - k)
  unfolding value_len
  value_len-drop fuel e h =
      measure_loop-refuel (drop k buf) fuel (length (drop k buf) + 1) 0 1 (e - k) (omega arith)
        (omega arith) (measure_loop-drop fuel 0 1 e (rw add-zero h))
