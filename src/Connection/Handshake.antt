-- ===== src/Connection/Handshake.antt =====
-- `handshake_inner` of connection.rs: greeting, IPROTO_ID and IPROTO_AUTH. What the peer and the socket
-- do is an argument, and so are SHA-1 and what serde makes of the list of features.
use tarant.Base.{
  ℕ, ◌+◌, ◌==◌, ◌||◌, ◌&&◌, within, not, if◌then◌else◌, ◌≡◌, ◌≢◌, refl, Bool, true, false, Option,
  none, some, List, [], ◌∷◌, ◌++◌, map, ok, err, panic, stuck, ok_or, take, drop, length,
  Bool-cases, inl, inr,
}
use tarant.Base as Base
use tarant.Error.{Error, Violation, Outcome}
use tarant.Rmp.{Rmp}
use tarant.Rmpv.{Rmpv}
use tarant.Iproto.Key
use tarant.Iproto.Request as Types
use tarant.Iproto.Code.{Feature, code, from_code, announced, protocol_version}
use tarant.Codec.Request
use tarant.Codec.Request.{finish}
use tarant.Codec.Response.{Response, Kind, body_map}
use tarant.Auth.{chap_sha1}
use tarant.Options.{ConnectOptions, password_str, strip_prefix}
use tarant.Connection.{eq_bytes}

pub record Negotiated : Type 0 where
  pub server_version : List ℕ
  pub protocol_version : ℕ
  pub features : List Feature

-- What the outside does: connecting and setting the option, the greeting of 128 bytes, whether a packet
-- can be sent, and the packets that come back, `none` for the end of the stream.
pub record Peer (V : Type 0) : Type 0 where
  pub connects : Outcome (Unit {0})
  pub greeting : Outcome (List ℕ)
  pub takes_id : Outcome (Unit {0})
  pub takes_auth : Outcome (Unit {0})
  pub id_reply : Option (Outcome (Response V))
  pub auth_reply : Option (Outcome (Response V))

-- An action that may send packets.
abbrev pub Talk : Type 0 → Type 0
Talk A = List (List ℕ) → Outcome A × List (List ℕ)

abbrev pub go_on : {A B : Type 0} → Outcome A → (A → Talk B) → Talk B
go_on (ok a) f sent = f a sent
go_on (err e) f sent = (err e, sent)
go_on panic f sent = (panic, sent)
go_on stuck f sent = (stuck, sent)

infixl 5 ◌>>=◌ ◌>>◌
abbrev pub ◌>>=◌ : {A B : Type 0} → Talk A → (A → Talk B) → Talk B
◌>>=◌ m f sent = go_on (m sent).0 f (m sent).1

abbrev pub ◌>>◌ : {B : Type 0} → Talk (Unit {0}) → Talk B → Talk B
m >> k = m >>= λ u. k

abbrev pub pure : {A : Type 0} → Outcome A → Talk A
pure r sent = (r, sent)

unfoldable pub send : Outcome (Unit {0}) → List ℕ → Talk (Unit {0})
send outcome packet sent = (outcome, sent ++ (packet ∷ []))

-- The text of a greeting is ASCII, on which the lossy conversion is the identity.
unfoldable pub is_space : ℕ → Bool
is_space c = within 0x09 0x0d c || (c == 0x20)

unfoldable pub is_end : ℕ → Bool
is_end c = (c == 0) || (c == 0x0a)

unfoldable pub trim_end : List ℕ → List ℕ
unfolding is_end
trim_end [] = []
trim_end (c ∷ cs) = elim (trim_end cs) [
  | [] ↦ (if is_end c then [] else c ∷ [])
  | d ∷ ds ↦ c ∷ d ∷ ds
]

unfoldable pub first_word : List ℕ → List ℕ
unfolding is_space
first_word [] = []
first_word (c ∷ cs) = let rest = first_word cs in if is_space c then [] else c ∷ rest

unfoldable pub skip_spaces : List ℕ → List ℕ
unfolding is_space
skip_spaces [] = []
skip_spaces (c ∷ cs) = let rest = skip_spaces cs in if is_space c then rest else c ∷ cs

-- `split_whitespace().next()`
unfoldable pub next_word : List ℕ → Option (List ℕ)
unfolding first_word skip_spaces
next_word text = elim (skip_spaces text) [ [] ↦ none | c ∷ cs ↦ some (first_word (c ∷ cs)) ]

-- "Tarantool "
abbrev tarantool : List ℕ
tarantool = b'T' ∷ b'a' ∷ b'r' ∷ b'a' ∷ b'n' ∷ b't' ∷ b'o' ∷ b'o' ∷ b'l' ∷ b' ' ∷ []

unfoldable pub version_of : List ℕ → Outcome (List ℕ)
unfolding trim_end next_word strip_prefix
version_of greeting = elim (strip_prefix tarantool (trim_end (take 64 greeting))) [
  | none ↦ err (Error.protocol Violation.unexpected_greeting)
  | some rest ↦ ok_or (next_word rest) (Error.protocol Violation.unexpected_greeting)
]

-- "chap-sha1"
abbrev chap_sha1_name : List ℕ
chap_sha1_name = b'c' ∷ b'h' ∷ b'a' ∷ b'p' ∷ b'-' ∷ b's' ∷ b'h' ∷ b'a' ∷ b'1' ∷ []

abbrev scramble_len : ℕ
scramble_len = 20

-- "guest"
abbrev guest : List ℕ
guest = b'g' ∷ b'u' ∷ b'e' ∷ b's' ∷ b't' ∷ []

-- `options.user_name().filter(|user| *user != "guest")`
unfoldable pub not_guest : Option (List ℕ) → Option (List ℕ)
unfolding eq_bytes
not_guest none = none
not_guest (some user) = if eq_bytes user guest then none else some user

unfoldable pub next_reply : {V : Type 0} → Option (Outcome (Response V)) → Outcome (Response V)
next_reply none = err Error.closed
next_reply (some r) = r

module _ (rmp : Rmp) (rmpv : Rmpv) where
  unfoldable pub find_value : ℕ → List (ℕ × rmpv.Value) → Option rmpv.Value
  find_value k [] = none
  find_value k ((j, v) ∷ rest) = let later = find_value k rest in if j == k then some v else later

  -- The two `filter_map` over the codes.
  unfoldable pub known_features : List rmpv.Value → List Feature
  unfolding from_code
  known_features [] = []
  known_features (v ∷ vs) =
      let rest = known_features vs in
      elim (rmpv.as_u64 v) [
        | none ↦ rest
        | some n ↦ elim (from_code n) [ none ↦ rest | some f ↦ f ∷ rest ]
      ]

  abbrev number_or_zero : Option rmpv.Value → ℕ
  number_or_zero none = 0
  number_or_zero (some v) = elim (rmpv.as_u64 v) [ none ↦ 0 | some n ↦ n ]

  unfoldable pub features_of : Option rmpv.Value → List Feature
  unfolding known_features
  features_of none = []
  features_of (some v) = elim (rmpv.as_array v) [ none ↦ [] | some codes ↦ known_features codes ]

  unfoldable pub parse_id : Response rmpv.Value → List ℕ → Outcome Negotiated
  unfolding body_map find_value features_of
  parse_id reply server_version = Base.◌>>=◌ (body_map rmp rmpv reply) λ body. ok (record {
    server_version = server_version;
    protocol_version = number_or_zero (find_value Key.version body);
    features = features_of (find_value Key.features body);
  })

  -- What the reply to IPROTO_ID comes to; an old server refuses the request.
  unfoldable pub negotiated_of : Kind → Response rmpv.Value → List ℕ → Outcome Negotiated
  unfolding parse_id
  negotiated_of Kind.reply r version = parse_id r version
  negotiated_of Kind.failure r version =
      ok (record { server_version = version; protocol_version = 0; features = [] })
  negotiated_of Kind.chunk r version = err (Error.protocol Violation.unexpected_reply)
  negotiated_of Kind.event r version = err (Error.protocol Violation.unexpected_reply)

  unfoldable pub id_packet : (List ℕ → Outcome (List ℕ)) → Outcome (List ℕ)
  unfolding code
  id_packet to_msgpack =
      Base.◌>>=◌
        (Request.serialized rmp
          (Request.uint rmp (Request.new rmp Types.id 0 none) Key.version protocol_version)
          Key.features (to_msgpack (map code announced)) true)
        λ r. ok (finish rmp (Request.str rmp r Key.auth_type chap_sha1_name))

  unfoldable pub auth_packet : (List ℕ → List ℕ) → List ℕ → List ℕ → List ℕ → Outcome (List ℕ)
  unfolding chap_sha1
  auth_packet sha1 salt_line user password =
      Base.◌>>=◌ (chap_sha1 sha1 salt_line password) λ scramble. ok (
        finish rmp (
          Request.raw rmp (Request.str rmp (Request.new rmp Types.auth 1 none) Key.user_name user)
            Key.tuple
            (rmp.write_array_len 2
              ++ ((rmp.write_str_len (length chap_sha1_name) ++ chap_sha1_name)
                  ++ (rmp.write_str_len scramble_len ++ scramble)))))

  module _ (to_msgpack : List ℕ → Outcome (List ℕ)) (sha1 : List ℕ → List ℕ) where
    unfoldable pub announce : Peer rmpv.Value → Option (List ℕ) → List ℕ → List ℕ → Talk (Unit {0})
    unfolding auth_packet send
    announce peer none password salt_line = pure (ok tt)
    announce peer (some user) password salt_line = do
      packet ← pure (auth_packet sha1 salt_line user password)
      send (peer.takes_auth) packet

    -- The reply to IPROTO_AUTH, which is waited for last.
    unfoldable pub check_auth : Peer rmpv.Value → Option (List ℕ) → Negotiated → Talk Negotiated
    unfolding next_reply
    check_auth peer none n = pure (ok n)
    check_auth peer (some user) n = do
      r ← pure (next_reply peer.auth_reply)
      pure (elim (r.kind) [ Kind.failure ↦ err Error.auth | _ ↦ ok n ])

    unfoldable pub handshake_inner : Peer rmpv.Value → ConnectOptions → Talk Negotiated
    unfolding version_of id_packet send not_guest announce next_reply negotiated_of check_auth
        password_str
    handshake_inner peer options = do
      pure (peer.connects)
      greeting ← pure (peer.greeting)
      version ← pure (version_of greeting)
      packet ← pure (id_packet to_msgpack)
      send (peer.takes_id) packet
      announce peer (not_guest options.user) (password_str options) (take 64 (drop 64 greeting))
      reply ← pure (next_reply peer.id_reply)
      n ← pure (negotiated_of reply.kind reply version)
      check_auth peer (not_guest options.user) n
