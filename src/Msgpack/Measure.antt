-- ===== src/Msgpack/Measure.antt =====
-- `value_len` against the format.
use tarant.Base.{
  ℕ, suc, ◌+◌, ◌-◌, ◌^◌, ◌≤◌, ◌<◌, ◌≡◌, refl, ap, ◌∙◌, true, List, [], ◌∷◌, ◌++◌, length,
  length-append, append_assoc, drop, take-length_append, drop-length_append,
  get_elem?-length_append, arith, ok, leb, ◌>>=◌,
}
use tarant.Base.Endian.{be_bytes, length-be_bytes, be_value-be_bytes}
use tarant.Error.{Outcome}
use tarant.Msgpack.{read_len, length_prefix_width, payload_and_children, measure_step}

-- A buffer that goes on with the marker `m` behind `pre`.
module _ (pre : List ℕ) (m : ℕ) where
  drop-marker : (t : List ℕ) → drop (length pre + 1) (pre ++ (m ∷ t)) ≡ t
  drop-marker t =
      let split : (pre ++ (m ∷ [])) ++ t ≡ pre ++ (m ∷ t) = append_assoc pre (m ∷ []) t in
      let size : length (pre ++ (m ∷ [])) ≡ length pre + 1 = length-append pre (m ∷ []) in
      rw (← size, ← split) (drop-length_append (pre ++ (m ∷ [])) t)

  -- A length prefix of `w` bytes behind the marker is read back.
  pub read_len-be_bytes :
      (w n : ℕ) (t : List ℕ)
      → n < 256 ^ w
      → read_len (pre ++ (m ∷ (be_bytes w n ++ t))) (length pre + 1) w ≡ ok n
  unfolding read_len
  read_len-be_bytes w n t h =
      let whole : List ℕ = m ∷ (be_bytes w n ++ t) in
      let inside : leb (length pre + 1 + w) (length (pre ++ whole)) ≡ true =
        ground
          (arith, length-append pre whole, length-append (be_bytes w n) t, length-be_bytes w n) in
      let width : length pre + 1 + w - (length pre + 1) ≡ length (be_bytes w n) =
        omega (arith, length-be_bytes w n) in
      rw (inside, width, drop-marker (be_bytes w n ++ t), take-length_append (be_bytes w n) t)
        (ap ok (be_value-be_bytes w n h))

  -- One round at a marker whose prefix, payload and children are known.
  measure_step-marker :
      (t : List ℕ) (pending w payload kids : ℕ)
      → payload_and_children (read_len (pre ++ (m ∷ t)) (length pre + 1)) m ≡ ok (payload, kids)
      → length_prefix_width m ≡ w
      → w + payload ≤ length t
      → length (pre ++ (m ∷ t)) < 2 ^ 64
      → pending + kids < 2 ^ 64
      → measure_step (pre ++ (m ∷ t)) (length pre) pending
        ≡ ok (length pre + 1 + w + payload, pending + kids)
  unfolding measure_step
  measure_step-marker t pending w payload kids reads prefix inside small few =
      let total : length (pre ++ (m ∷ t)) ≡ length pre + suc (length t) =
        length-append pre (m ∷ t) in
      rw (get_elem?-length_append pre m t) (ground (arith, reads, prefix, total))

-- Where a head stands at the end of `pre`, one round skips it and counts its children.
abbrev pub Steps : List ℕ → List ℕ → ℕ → ℕ → Type 0
Steps pre h kids pending =
    (t : List ℕ)
    → length (pre ++ (h ++ t)) < 2 ^ 64
    → pending + kids < 2 ^ 64
    → measure_step (pre ++ (h ++ t)) (length pre) pending
      ≡ ok (length pre + length h, pending + kids)

module _ (pre : List ℕ) (pending : ℕ) where
  -- A marker whose payload has a fixed size, and one with a length prefix.
  pub Steps-fixed :
      (m : ℕ) (body : List ℕ) (kids : ℕ)
      → ((len : ℕ → Outcome ℕ) → payload_and_children len m ≡ ok (length body, kids))
      → length_prefix_width m ≡ 0
      → Steps pre (m ∷ body) kids pending
  Steps-fixed m body kids reads prefix t small few =
      measure_step-marker pre m (body ++ t) pending 0 (length body) kids (reads _) prefix
        (omega (arith, length-append body t)) small few
      ∙ ap (λ n. ok (n, pending + kids)) (omega arith)

  pub Steps-prefixed :
      (m w n : ℕ) (body : List ℕ) (payload kids : ℕ → ℕ)
      → n < 256 ^ w
      → ((len : ℕ → Outcome ℕ)
          → payload_and_children len m ≡ (len w >>= λ k. ok (payload k, kids k)))
      → length_prefix_width m ≡ w
      → payload n ≡ length body
      → Steps pre (m ∷ (be_bytes w n ++ body)) (kids n) pending
  Steps-prefixed m w n body payload kids h reads prefix size t small few =
      let regroup : (be_bytes w n ++ body) ++ t ≡ be_bytes w n ++ (body ++ t) =
        append_assoc (be_bytes w n) body t in
      let len : length (be_bytes w n ++ body) ≡ w + length body =
        omega (arith, length-append (be_bytes w n) body, length-be_bytes w n) in
      measure_step-marker pre m ((be_bytes w n ++ body) ++ t) pending w (payload n) (kids n)
        (reads _ ∙ rw (regroup, read_len-be_bytes pre m w n (body ++ t) h) refl) prefix
        (omega (arith, len, size, length-append (be_bytes w n ++ body) t)) small few
      ∙ ap (λ k. ok (k, pending + kids n)) (omega (arith, len, size))
