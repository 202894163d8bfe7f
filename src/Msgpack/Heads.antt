-- ===== src/Msgpack/Heads.antt =====
-- One round of the loop of `value_len` on each head of the format.
use tarant.Base.{
  ℕ, zero, suc, ◌+◌, ◌*◌, ◌^◌, ◌<◌, ◌≡◌, refl, true, false, List, [], ◌∷◌, length, append-nil,
  arith, ok, ◌>>=◌,
}
use tarant.Base.Endian.{be_bytes, length-be_bytes}
use tarant.Error.{Outcome}
use tarant.Msgpack.{length_prefix_width, payload_and_children}
use tarant.Msgpack.Measure.{Steps, Steps-fixed, Steps-prefixed}
use tarant.Msgpack.Format.{
  Head, positive_fixint, negative_fixint, nil, boolean, uint, sint, float32, float64, fixstr, str,
  bin, fixext, ext, fixarray, fixmap, array, map, encode_head, HeadIsValid, children,
}

module _ (pre : List ℕ) (pending : ℕ) where
  Steps-number :
      (m w n : ℕ)
      → ((len : ℕ → Outcome ℕ) → payload_and_children len m ≡ ok (w, 0))
      → length_prefix_width m ≡ 0
      → Steps pre (m ∷ be_bytes w n) 0 pending
  Steps-number m w n reads prefix =
      Steps-fixed pre pending m (be_bytes w n) 0 (rw (length-be_bytes w n) reads) prefix

  Steps-announced :
      (m w n : ℕ) (kids : ℕ → ℕ)
      → n < 256 ^ w
      → ((len : ℕ → Outcome ℕ) → payload_and_children len m ≡ (len w >>= λ k. ok (0, kids k)))
      → length_prefix_width m ≡ w
      → Steps pre (m ∷ be_bytes w n) (kids n) pending
  Steps-announced m w n kids h reads prefix =
      rw (← append-nil (be_bytes w n))
        (Steps-prefixed pre pending m w n [] (λ _. 0) kids h reads prefix refl)

  pub Steps-head : (h : Head) → HeadIsValid h → Steps pre (encode_head h) (children h) pending
  unfolding payload_and_children length_prefix_width encode_head
  Steps-head (positive_fixint n) v =
      Steps-fixed pre pending n [] 0 (λ len. ground arith) (ground arith)
  Steps-head (negative_fixint n) v =
      Steps-fixed pre pending (0xe0 + n) [] 0 (λ len. ground arith) (ground arith)
  Steps-head nil v = Steps-fixed pre pending 0xc0 [] 0 (λ _. refl) refl
  Steps-head (boolean false) v = Steps-fixed pre pending 0xc2 [] 0 (λ _. refl) refl
  Steps-head (boolean true) v = Steps-fixed pre pending 0xc3 [] 0 (λ _. refl) refl
  Steps-head (float32 n) v = Steps-number 0xca 4 n (λ _. refl) refl
  Steps-head (float64 n) v = Steps-number 0xcb 8 n (λ _. refl) refl
  Steps-head (uint zero n) v = Steps-number 0xcc 1 n (λ _. refl) refl
  Steps-head (uint (suc zero) n) v = Steps-number 0xcd 2 n (λ _. refl) refl
  Steps-head (uint (suc (suc zero)) n) v = Steps-number 0xce 4 n (λ _. refl) refl
  Steps-head (uint (suc (suc (suc zero))) n) v = Steps-number 0xcf 8 n (λ _. refl) refl
  Steps-head (uint (suc (suc (suc (suc i)))) n) v = absurd (omega arith)
  Steps-head (sint zero n) v = Steps-number 0xd0 1 n (λ _. refl) refl
  Steps-head (sint (suc zero) n) v = Steps-number 0xd1 2 n (λ _. refl) refl
  Steps-head (sint (suc (suc zero)) n) v = Steps-number 0xd2 4 n (λ _. refl) refl
  Steps-head (sint (suc (suc (suc zero))) n) v = Steps-number 0xd3 8 n (λ _. refl) refl
  Steps-head (sint (suc (suc (suc (suc i)))) n) v = absurd (omega arith)
  Steps-head (fixstr bs) v =
      Steps-fixed pre pending (0xa0 + length bs) bs 0 (λ len. ground arith) (ground arith)
  Steps-head (str zero bs) v =
      Steps-prefixed pre pending 0xd9 1 (length bs) bs (λ k. k) (λ _. 0) v.1 (λ _. refl) refl refl
  Steps-head (str (suc zero) bs) v =
      Steps-prefixed pre pending 0xda 2 (length bs) bs (λ k. k) (λ _. 0) v.1 (λ _. refl) refl refl
  Steps-head (str (suc (suc zero)) bs) v =
      Steps-prefixed pre pending 0xdb 4 (length bs) bs (λ k. k) (λ _. 0) v.1 (λ _. refl) refl refl
  Steps-head (str (suc (suc (suc i))) bs) v = absurd (omega arith)
  Steps-head (bin zero bs) v =
      Steps-prefixed pre pending 0xc4 1 (length bs) bs (λ k. k) (λ _. 0) v.1 (λ _. refl) refl refl
  Steps-head (bin (suc zero) bs) v =
      Steps-prefixed pre pending 0xc5 2 (length bs) bs (λ k. k) (λ _. 0) v.1 (λ _. refl) refl refl
  Steps-head (bin (suc (suc zero)) bs) v =
      Steps-prefixed pre pending 0xc6 4 (length bs) bs (λ k. k) (λ _. 0) v.1 (λ _. refl) refl refl
  Steps-head (bin (suc (suc (suc i))) bs) v = absurd (omega arith)
  Steps-head (fixext zero ty bs) v = Steps-fixed pre pending 0xd4 (ty ∷ bs) 0 (λ _. rw v.2) refl
  Steps-head (fixext (suc zero) ty bs) v =
      Steps-fixed pre pending 0xd5 (ty ∷ bs) 0 (λ _. rw v.2) refl
  Steps-head (fixext (suc (suc zero)) ty bs) v =
      Steps-fixed pre pending 0xd6 (ty ∷ bs) 0 (λ _. rw v.2) refl
  Steps-head (fixext (suc (suc (suc zero))) ty bs) v =
      Steps-fixed pre pending 0xd7 (ty ∷ bs) 0 (λ _. rw v.2) refl
  Steps-head (fixext (suc (suc (suc (suc zero)))) ty bs) v =
      Steps-fixed pre pending 0xd8 (ty ∷ bs) 0 (λ _. rw v.2) refl
  Steps-head (fixext (suc (suc (suc (suc (suc i))))) ty bs) v = absurd (omega arith)
  Steps-head (ext zero ty bs) v =
      Steps-prefixed pre pending 0xc7 1 (length bs) (ty ∷ bs) (λ k. 1 + k) (λ _. 0) v.2 (λ _. refl)
        refl (omega arith)
  Steps-head (ext (suc zero) ty bs) v =
      Steps-prefixed pre pending 0xc8 2 (length bs) (ty ∷ bs) (λ k. 1 + k) (λ _. 0) v.2 (λ _. refl)
        refl (omega arith)
  Steps-head (ext (suc (suc zero)) ty bs) v =
      Steps-prefixed pre pending 0xc9 4 (length bs) (ty ∷ bs) (λ k. 1 + k) (λ _. 0) v.2 (λ _. refl)
        refl (omega arith)
  Steps-head (ext (suc (suc (suc i))) ty bs) v = absurd (omega arith)
  Steps-head (fixarray n) v =
      Steps-fixed pre pending (0x90 + n) [] n (λ len. ground arith) (ground arith)
  Steps-head (fixmap n) v =
      Steps-fixed pre pending (0x80 + n) [] (2 * n) (λ len. ground arith) (ground arith)
  Steps-head (array zero n) v = absurd (omega arith)
  Steps-head (array (suc zero) n) v = Steps-announced 0xdc 2 n (λ k. k) v.2 (λ _. refl) refl
  Steps-head (array (suc (suc zero)) n) v = Steps-announced 0xdd 4 n (λ k. k) v.2 (λ _. refl) refl
  Steps-head (array (suc (suc (suc i))) n) v = absurd (omega arith)
  Steps-head (map zero n) v = absurd (omega arith)
  Steps-head (map (suc zero) n) v = Steps-announced 0xde 2 n (λ k. 2 * k) v.2 (λ _. refl) refl
  Steps-head (map (suc (suc zero)) n) v = Steps-announced 0xdf 4 n (λ k. 2 * k) v.2 (λ _. refl) refl
  Steps-head (map (suc (suc (suc i))) n) v = absurd (omega arith)
