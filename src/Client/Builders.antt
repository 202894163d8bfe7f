-- ===== src/Client/Builders.antt =====
-- The builders of client.rs: what `Space`, `Index`, `Select` and `TxOptions` are set to, what
-- `Client`, `ServerInfo` and `PushCall` tell, and the SQL of a stream.
use tarant.Base.{ℕ, Bool, true, Option, none, some, List, ok_or, ok}
use tarant.Base as Base
use tarant.Error.{Error, Outcome}
use tarant.Iproto.Code.{Feature, Iter, Isolation}
use tarant.Client.{has_feature}
use tarant.Client.Select.{Select, IndexRef, id, name, After, position, tuple}
use tarant.Client.Select as Selects
use tarant.Client.Stream.{TxOptions, plain}

-- `Space`, less the handle.
pub record Space : Type 0 where
  pub name : List ℕ

pub record Index : Type 0 where
  pub space : List ℕ
  pub reference : IndexRef

unfoldable pub space : List ℕ → Space
space n = record { name = n }

unfoldable pub index : Space → List ℕ → Index
index s n = record { space = s.name; reference = name n }

-- `Space::select`, on the primary index, and `Index::select`.
unfoldable pub select_primary : Space → Outcome (List ℕ) → Select
select_primary s key = Selects.new s.name (id 0) key

unfoldable pub select_index : Index → Outcome (List ℕ) → Select
select_index i key = Selects.new i.space i.reference key

unfoldable pub iterator : Iter → Select → Select
iterator i s = record s { iter = i }

unfoldable pub limit : ℕ → Select → Select
limit n s = record s { limit = some n }

unfoldable pub offset : ℕ → Select → Select
offset n s = record s { offset = n }

unfoldable pub after : List ℕ → Select → Select
after p s = record s { after = some (position p) }

-- `packed` is what `to_msgpack_array` makes of the tuple.
unfoldable pub after_tuple : Outcome (List ℕ) → Select → Select
after_tuple packed s = record s { after = some (tuple packed) }

unfoldable pub paged : Select → Select
paged s = record s { fetch_position = true }

unfoldable pub isolation : Isolation → TxOptions → TxOptions
isolation i o = record o { isolation = i }

unfoldable pub timeout : ℕ → TxOptions → TxOptions
timeout seconds o = record o { timeout = some seconds }

unfoldable pub synchronous : TxOptions → TxOptions
synchronous o = record o { synchronous = true }

unfoldable pub of_isolation : Isolation → TxOptions
of_isolation i = isolation i plain

-- `Negotiated`, what the handshake has told.
pub record ServerInfo : Type 0 where
  pub version : List ℕ
  pub protocol_version : ℕ
  pub features : List Feature

unfoldable pub supports_feature : ServerInfo → Feature → Bool
supports_feature i f = has_feature f i.features

-- What the channel of pushes gives: bytes of an array of one, or its end.
unfoldable pub next_push : {T : Type 0} → (List ℕ → Option T) → Option (List ℕ) → Outcome (Option T)
next_push decode none = ok none
next_push decode (some bytes) =
    Base.◌>>=◌ (ok_or (decode bytes) Error.decode_failed) (λ v. ok (some v))
