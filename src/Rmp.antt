-- ===== src/Rmp.antt =====
-- The functions of the crates `rmp` and `std::str` that the codec calls. `rmp` is no part of the
-- repository, so it is a parameter: a record of functions, and the laws that the code relies on.
use tarant.Base.{ℕ, ◌-◌, ◌^◌, ◌<◌, ◌≡◌, Option, some, Bool, List, ◌++◌}
use tarant.Base.Int.{ℤ, pos, negsuc, ◌≤ℤ◌}

-- A reader takes the front of a slice and returns what is left. An integer reader refuses a value
-- out of its type's range.
pub record Rmp : Type 0 where
  pub read_u64 : List ℕ → Option (ℕ × List ℕ)
  pub read_i64 : List ℕ → Option (ℤ × List ℕ)
  pub read_str_len : List ℕ → Option (ℕ × List ℕ)
  pub write_uint : ℕ → List ℕ
  pub write_sint : ℤ → List ℕ
  pub write_map_len : ℕ → List ℕ
  pub write_array_len : ℕ → List ℕ
  pub write_str_len : ℕ → List ℕ
  pub write_bool : Bool → List ℕ
  pub write_f64 : (bits : ℕ) → List ℕ
  pub write_ext_meta : ℕ → ℤ → List ℕ

abbrev pub IsI64 : ℤ → Type 0
IsI64 z = (negsuc (2 ^ 63 - 1) ≤ℤ z) × (z ≤ℤ pos (2 ^ 63 - 1))

-- What a writer wrote is read back, and the bytes behind it are left.
pub record ReadsBack (r : Rmp) : Type 0 where
  pub read_u64-write_uint :
      (n : ℕ) (rest : List ℕ) → n < 2 ^ 64 → r.read_u64 (r.write_uint n ++ rest) ≡ some (n, rest)
  pub read_i64-write_sint :
      (z : ℤ) (rest : List ℕ) → IsI64 z → r.read_i64 (r.write_sint z ++ rest) ≡ some (z, rest)
