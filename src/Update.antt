-- ===== src/Update.antt =====
-- `Update` of update.rs: an ordered list of operations, each encoded when it is added. What serde makes
-- of an operation is an argument: its bytes, or the failure.

pub mod Ops
use tarant.Base.{
  ℕ, ◌+◌, ◌-◌, Option, none, some, List, [], ◌∷◌, ◌++◌, length, Bool, true, false, ok, err, panic,
  stuck, ltb, if◌then◌else◌, ◌^◌,
}
use tarant.Base.Int.{ℤ, pos}
use tarant.Error.{Error, Outcome}
use tarant.Rmp.{Rmp}

pub data FieldRef : Type 0 where
  number : ℤ → FieldRef
  path : List ℕ → FieldRef

-- `From<u32>` saturates at the largest `i32`.
unfoldable pub from_u32 : ℕ → FieldRef
from_u32 n = if ltb n (2 ^ 31) then FieldRef.number (pos n) else FieldRef.number (pos (2 ^ 31 - 1))

-- Of an encoding error's message only whether there is one.
pub record Update : Type 0 where
  pub ops : List (List ℕ)
  pub error : Bool

unfoldable pub empty : Update
empty = record { ops = []; error = false }

-- `to_msgpack` returns bytes or an error.
unfoldable pub push : Update → Outcome (List ℕ) → Update
push u (ok bytes) = record u { ops = u.ops ++ (bytes ∷ []) }
push u (err e) = record u { error = true }
push u panic = record u { error = true }
push u stuck = record u { error = true }

unfoldable pub into_ops : Update → Outcome (List (List ℕ))
into_ops u = if u.error then err Error.encode_failed else ok u.ops

unfoldable pub len : Update → ℕ
len u = length u.ops

unfoldable pub is_empty : Update → Bool
is_empty u = elim (u.ops) [ [] ↦ true | op ∷ rest ↦ false ]

-- What an operation carries behind its field; a value is known by its own serde.
pub data Operand (V : Type 0) : Type 0 where
  value : V → Operand V
  mask : ℕ → Operand V
  count : ℕ → Operand V
  cut : (offset : ℤ) (len : ℕ) (replacement : List ℕ) → Operand V

module _ {V : Type 0} (to_msgpack : (symbol : ℕ) → FieldRef → Operand V → Outcome (List ℕ)) where
  abbrev pub Modifier : Type 0 → Type 0
  Modifier A = Update → FieldRef → A → Update

  unfoldable pub set : Modifier V
  unfolding push
  set u field v = push u (to_msgpack b'=' field (value v))

  unfoldable pub add : Modifier V
  unfolding push
  add u field delta = push u (to_msgpack b'+' field (value delta))

  unfoldable pub sub : Modifier V
  unfolding push
  sub u field delta = push u (to_msgpack b'-' field (value delta))

  unfoldable pub bit_and : Modifier ℕ
  unfolding push
  bit_and u field m = push u (to_msgpack b'&' field (mask m))

  unfoldable pub bit_or : Modifier ℕ
  unfolding push
  bit_or u field m = push u (to_msgpack b'|' field (mask m))

  unfoldable pub bit_xor : Modifier ℕ
  unfolding push
  bit_xor u field m = push u (to_msgpack b'^' field (mask m))

  unfoldable pub insert : Modifier V
  unfolding push
  insert u field v = push u (to_msgpack b'!' field (value v))

  unfoldable pub delete : Modifier ℕ
  unfolding push
  delete u field n = push u (to_msgpack b'#' field (count n))

  unfoldable pub splice : Update → FieldRef → ℤ → ℕ → List ℕ → Update
  unfolding push
  splice u field offset n text = push u (to_msgpack b':' field (cut offset n text))
