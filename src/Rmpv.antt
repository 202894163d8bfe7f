-- ===== src/Rmpv.antt =====
-- The functions of the crate `rmpv` that the code calls, as a parameter: its values, their decoder,
-- and the accessors that answer `None` on a value of another kind.
use tarant.Base.{ℕ, Option, List}

pub record Rmpv : Type 1 where
  pub Value : Type 0
  pub read_value : List ℕ → Option (Value × List ℕ)
  pub as_map : Value → Option (List (Value × Value))
  pub as_array : Value → Option (List Value)
  pub as_u64 : Value → Option ℕ
  pub as_str : Value → Option (List ℕ)
