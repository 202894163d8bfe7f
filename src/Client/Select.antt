-- ===== src/Client/Select.antt =====
-- `Select` of client.rs: the builder of a select request, and its packet.
use tarant.Base.{
  ℕ, ◌+◌, ◌^◌, ◌-◌, ltb, if◌then◌else◌, not, Bool, true, false, Option, none, some, List, [], ◌∷◌,
  ◌++◌, ok, err, panic, stuck,
}
use tarant.Base as Base
use tarant.Error.{Outcome}
use tarant.Iproto.Key
use tarant.Iproto.Request as Types
use tarant.Codec.Request
use tarant.Codec.Request.{Request, finish}
use tarant.Codec.Response.{Response, decoded_data}
use tarant.Client.{M, ◌>>=◌, lift, return, Outside, submit}
use tarant.Iproto.Code.{Iter, iterator_code}
use tarant.Client.Calls.{finished}

pub data IndexRef : Type 0 where
  id : ℕ → IndexRef
  name : List ℕ → IndexRef

pub data After : Type 0 where
  position : List ℕ → After
  tuple : Outcome (List ℕ) → After

-- `key` and an `After::Tuple` hold the outcome of their encoding until the packet is built.
pub record Select : Type 0 where
  pub space : List ℕ
  pub index : IndexRef
  pub key : Outcome (List ℕ)
  pub iter : Iter
  pub limit : Option ℕ
  pub offset : ℕ
  pub after : Option After
  pub fetch_position : Bool

unfoldable pub new : List ℕ → IndexRef → Outcome (List ℕ) → Select
new space index key = record {
  space = space;
  index = index;
  key = key;
  iter = Iter.eq;
  limit = none;
  offset = 0;
  after = none;
  fetch_position = false;
}

abbrev pub or_max : Option ℕ → ℕ
or_max none = 2 ^ 32 - 1
or_max (some n) = n

module _ (w : Outside) where
  unfoldable pub with_index : List ℕ → IndexRef → Request → Request
  with_index space (id n) r =
      Request.uint w.rmp (Request.str w.rmp r Key.space_name space) Key.index_id n
  with_index space (name n) r =
      Request.str w.rmp (Request.str w.rmp r Key.space_name space) Key.index_name n

  unfoldable pub with_offset : ℕ → Request → Request
  with_offset n r = if ltb 0 n then Request.uint w.rmp r Key.offset n else r

  unfoldable pub with_after : Option After → Request → Outcome Request
  with_after none r = ok r
  with_after (some (position p)) r = ok (Request.str w.rmp r Key.after_position p)
  with_after (some (tuple t)) r =
      Base.◌>>=◌ t (λ bytes. ok (Request.raw w.rmp r Key.after_tuple bytes))

  unfoldable pub with_position : Bool → Request → Request
  with_position b r = if b then Request.bool w.rmp r Key.fetch_position true else r

  -- The entries of `build`, from the header on.
  unfoldable pub entries : Select → List ℕ → ℕ → Outcome Request
  unfolding with_index with_offset with_after with_position
  entries s key sync =
      let start = with_index s.space s.index (Request.new w.rmp Types.select sync none) in
      let ranged =
        with_offset s.offset (Request.uint w.rmp start Key.iterator (iterator_code s.iter)) in
      let keyed =
        Request.raw w.rmp (Request.uint w.rmp ranged Key.limit (or_max s.limit)) Key.key key in
      Base.◌>>=◌ (with_after s.after keyed) (λ r. ok (with_position s.fetch_position r))

  unfoldable pub packet_of : Select → List ℕ → ℕ → Outcome (List ℕ)
  unfolding entries
  packet_of s key sync = finished w (entries s key sync)

  -- `build` and the request behind it: a key that cannot be encoded is reported before a sync is drawn.
  unfoldable pub run : Select → M (Response w.Value)
  unfolding packet_of submit
  run s = do key ← lift s.key; submit w (packet_of s key)

  -- Awaiting a `Select`, and a `Paged`, which also reads the position.
  unfoldable pub rows : {T : Type 0} → (List ℕ → Option T) → Select → M T
  unfolding run
  rows decode s = do r ← run s; lift (decoded_data decode r)

  unfoldable pub page : {T : Type 0} → (List ℕ → Option T) → Select → M (T × Option (List ℕ))
  unfolding run
  page decode s = do
    r ← run (record s { fetch_position = true })
    rows ← lift (decoded_data decode r)
    return (rows, r.position)
