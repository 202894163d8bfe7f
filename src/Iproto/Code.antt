-- ===== src/Iproto/Code.antt =====
-- Codes of features, iterators and isolation levels of iproto.rs.
use tarant.Base.{ℕ, ◌≡◌, refl, ◌==◌, if◌then◌else◌, Option, none, some, List, [], ◌∷◌}

pub data Feature : Type 0 where
  streams transactions error_extension watchers pagination space_and_index_names : Feature
  watch_once dml_tuple_extension call_ret_tuple_extension call_arg_tuple_extension
        fetch_snapshot_cursor is_sync :
      Feature
  insert_arrow : Feature

unfoldable pub code : Feature → ℕ
code Feature.streams = 0
code Feature.transactions = 1
code Feature.error_extension = 2
code Feature.watchers = 3
code Feature.pagination = 4
code Feature.space_and_index_names = 5
code Feature.watch_once = 6
code Feature.dml_tuple_extension = 7
code Feature.call_ret_tuple_extension = 8
code Feature.call_arg_tuple_extension = 9
code Feature.fetch_snapshot_cursor = 10
code Feature.is_sync = 11
code Feature.insert_arrow = 12

abbrev pub all_features : List Feature
all_features =
    Feature.streams ∷ Feature.transactions ∷ Feature.error_extension ∷ Feature.watchers
    ∷ Feature.pagination ∷ Feature.space_and_index_names ∷ Feature.watch_once
    ∷ Feature.dml_tuple_extension ∷ Feature.call_ret_tuple_extension
    ∷ Feature.call_arg_tuple_extension ∷ Feature.fetch_snapshot_cursor ∷ Feature.is_sync
    ∷ Feature.insert_arrow ∷ []

abbrev pub announced : List Feature
announced =
    Feature.streams ∷ Feature.transactions ∷ Feature.error_extension ∷ Feature.watchers
    ∷ Feature.pagination ∷ Feature.space_and_index_names ∷ Feature.watch_once ∷ Feature.is_sync
    ∷ Feature.insert_arrow ∷ []

abbrev pub protocol_version : ℕ
protocol_version = 10

-- `find(|feature| feature.code() == code)`
unfoldable pub find_code : ℕ → List Feature → Option Feature
unfolding code
find_code n [] = none
find_code n (f ∷ rest) = if code f == n then some f else find_code n rest

unfoldable pub from_code : ℕ → Option Feature
unfolding find_code
from_code n = find_code n all_features

-- The code of every feature is read back as that feature.
pub from_code-code : (f : Feature) → from_code (code f) ≡ some f
unfolding from_code code
from_code-code Feature.streams = refl
from_code-code Feature.transactions = refl
from_code-code Feature.error_extension = refl
from_code-code Feature.watchers = refl
from_code-code Feature.pagination = refl
from_code-code Feature.space_and_index_names = refl
from_code-code Feature.watch_once = refl
from_code-code Feature.dml_tuple_extension = refl
from_code-code Feature.call_ret_tuple_extension = refl
from_code-code Feature.call_arg_tuple_extension = refl
from_code-code Feature.fetch_snapshot_cursor = refl
from_code-code Feature.is_sync = refl
from_code-code Feature.insert_arrow = refl

pub data Iter : Type 0 where
  eq req all lt le ge : Iter
  gt bits_all_set bits_any_set bits_all_not_set overlaps neighbor : Iter

unfoldable pub iterator_code : Iter → ℕ
iterator_code Iter.eq = 0
iterator_code Iter.req = 1
iterator_code Iter.all = 2
iterator_code Iter.lt = 3
iterator_code Iter.le = 4
iterator_code Iter.ge = 5
iterator_code Iter.gt = 6
iterator_code Iter.bits_all_set = 7
iterator_code Iter.bits_any_set = 8
iterator_code Iter.bits_all_not_set = 9
iterator_code Iter.overlaps = 10
iterator_code Iter.neighbor = 11

pub data Isolation : Type 0 where
  default read_committed read_confirmed best_effort : Isolation

unfoldable pub isolation_code : Isolation → ℕ
isolation_code Isolation.default = 0
isolation_code Isolation.read_committed = 1
isolation_code Isolation.read_confirmed = 2
isolation_code Isolation.best_effort = 3
