-- ===== src/Sql/Columns.antt =====
-- sql.rs: a named parameter, and the columns of a result set. Reading the maps of the metadata is
-- serde's, and an argument; the accessors of `rmpv` that the code asks are parameters.
use tarant.Base.{
  ℕ, ◌==◌, ◌||◌, if◌then◌else◌, Bool, false, Option, none, some, List, [], ◌∷◌, ◌++◌, ok, ok_or,
  map, get_elem?,
}
use tarant.Base as Base
use tarant.Error.{Error, Outcome}

-- Whether a text starts with `:`, `@` or `$`.
unfoldable pub has_prefix : List ℕ → Bool
has_prefix [] = false
has_prefix (c ∷ rest) = (c == 58) || (c == 64) || (c == 36)

-- The key of the map of one entry that a `Named` is serialised to.
unfoldable pub parameter_name : List ℕ → List ℕ
parameter_name name = if has_prefix name then name else 58 ∷ name

pub record Column : Type 0 where
  pub name : List ℕ
  pub type_name : List ℕ
  pub collation : Option (List ℕ)
  pub nullable : Option Bool
  pub autoincrement : Option Bool
  pub span : Option (List ℕ)

abbrev field_name : ℕ
field_name = 0

abbrev field_type : ℕ
field_type = 1

abbrev field_coll : ℕ
field_coll = 2

abbrev field_is_nullable : ℕ
field_is_nullable = 3

abbrev field_is_autoincrement : ℕ
field_is_autoincrement = 4

abbrev field_span : ℕ
field_span = 5

-- `unwrap_or_default` of a text.
abbrev or_empty : Option (List ℕ) → List ℕ
or_empty none = []
or_empty (some text) = text

module _ {Value : Type 0} (as_str : Value → Option (List ℕ)) (as_bool : Value → Option Bool) where
  -- `entry.get(&k)?` and an accessor.
  unfoldable pub field : {A : Type 0} → (Value → Option A) → ℕ → List (ℕ × Value) → Option A
  field read k [] = none
  field read k ((j, v) ∷ rest) = let later = field read k rest in if j == k then read v else later

  unfoldable pub column_of : List (ℕ × Value) → Column
  unfolding field
  column_of entry = record {
    name = or_empty (field as_str field_name entry);
    type_name = or_empty (field as_str field_type entry);
    collation = field as_str field_coll entry;
    nullable = field as_bool field_is_nullable entry;
    autoincrement = field as_bool field_is_autoincrement entry;
    span = field as_str field_span entry;
  }

  unfoldable pub columns :
      (List ℕ → Option (List (List (ℕ × Value)))) → Option (List ℕ) → Outcome (List Column)
  unfolding column_of
  columns read_maps none = ok []
  columns read_maps (some bytes) =
      Base.◌>>=◌ (ok_or (read_maps bytes) Error.decode_failed) λ entries. ok (map column_of entries)
