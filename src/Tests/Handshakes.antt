-- ===== src/Tests/Handshakes.antt =====
-- The theorem on the handshake of connection.rs at a server that admits a user.
use tarant.Base.{ℕ, ◌≡◌, refl, some, List, [], ◌∷◌, ◌++◌, ok, replicate}
use tarant.Error.{Outcome}
use tarant.Codec.Response.{body_map}
use tarant.Options.{ConnectOptions, new, strip_prefix, password_str}
use tarant.Codec.Request.{serialized, is_array_marker}
use tarant.Auth.{chap_sha1}
use tarant.Connection.{eq_bytes}
use tarant.Connection.Handshake.{
  Negotiated, Peer, handshake_inner, version_of, not_guest, next_reply, negotiated_of, id_packet,
  auth_packet, announce, check_auth, parse_id, send, trim_end, next_word,
}
use tarant.Connection.Accepting.{AnswersId, Admits, handshake_inner-Admits}
use tarant.Tests.Crates.{rmp_example, rmpv_example}
use tarant.Tests.Clients.{reply_example}

-- "Tarantool 2", and a salt of zeros.
abbrev greeting_example : List ℕ
greeting_example =
    (b'T' ∷ b'a' ∷ b'r' ∷ b'a' ∷ b'n' ∷ b't' ∷ b'o' ∷ b'o' ∷ b'l' ∷ b' ' ∷ b'2' ∷ [])
    ++ (replicate 53 0 ++ (replicate 44 b'A' ++ replicate 20 0))

abbrev peer_example : Peer (Unit {0})
peer_example = record {
  connects = ok tt;
  greeting = ok greeting_example;
  takes_id = ok tt;
  takes_auth = ok tt;
  id_reply = some (ok reply_example);
  auth_reply = some (ok reply_example);
}

abbrev options_example : ConnectOptions
options_example = record (new (b'h' ∷ [])) { user = some (b'u' ∷ []) }

abbrev no_features : List ℕ → Outcome (List ℕ)
no_features codes = ok (0x90 ∷ [])

abbrev digest_example : List ℕ → List ℕ
digest_example bytes = replicate 20 7

abbrev negotiated_example : Negotiated
negotiated_example = record { server_version = b'2' ∷ []; protocol_version = 0; features = [] }

handshake_succeeds :
    (handshake_inner rmp_example rmpv_example no_features digest_example peer_example
      options_example []).0
    ≡ ok negotiated_example
unfolding handshake_inner version_of not_guest next_reply negotiated_of id_packet auth_packet
    announce check_auth parse_id send trim_end next_word new strip_prefix password_str body_map
    chap_sha1 eq_bytes serialized is_array_marker
handshake_succeeds = refl

handshake_inner-Admits_example :
    AnswersId rmp_example rmpv_example peer_example
    × Admits rmp_example rmpv_example peer_example (not_guest options_example.user)
handshake_inner-Admits_example =
    handshake_inner-Admits rmp_example rmpv_example no_features digest_example peer_example
      options_example negotiated_example [] handshake_succeeds
