-- ===== src/Connection/Accepting.antt =====
-- What a handshake of connection.rs that succeeds says of the server.
use tarant.Base.{
  ℕ, ◌≡◌, ◌≢◌, ◌⊎◌, inl, inr, refl, ap, Option, none, some, List, ok, err, panic, stuck, take, drop,
}
use tarant.Error.{Error, Outcome}
use tarant.Rmp.{Rmp}
use tarant.Rmpv.{Rmpv}
use tarant.Codec.Response.{Response, Kind}
use tarant.Options.{ConnectOptions, password_str}
use tarant.Connection.Handshake.{
  Negotiated, Peer, Talk, go_on, send, version_of, not_guest, next_reply, negotiated_of, id_packet,
  announce, ◌>>=◌, check_auth, handshake_inner,
}

go_on-ok :
    {A B : Type 0} (r : Outcome A) (f : A → Talk B) (sent : List (List ℕ)) (b : B)
    → (go_on r f sent).0 ≡ ok b
    → (a : A) × ((r ≡ ok a) × ((f a sent).0 ≡ ok b))
go_on-ok (ok a) f sent b h = (a, (refl, h))
go_on-ok (err e) f sent b h = cc h
go_on-ok panic f sent b h = cc h
go_on-ok stuck f sent b h = cc h

bind-ok :
    {A B : Type 0} (m : Talk A) (f : A → Talk B) (sent : List (List ℕ)) (b : B)
    → ((m >>= f) sent).0 ≡ ok b
    → (a : A) × (((m sent).0 ≡ ok a) × ((f a (m sent).1).0 ≡ ok b))
bind-ok m f sent b h = go_on-ok (m sent).0 f (m sent).1 b h

next_reply-ok :
    {V : Type 0} (o : Option (Outcome (Response V))) (r : Response V)
    → next_reply o ≡ ok r
    → o ≡ some (ok r)
unfolding next_reply
next_reply-ok none r h = cc h
next_reply-ok (some x) r h = ap some h

module _ (rmp : Rmp) (rmpv : Rmpv) where
  -- The server answered IPROTO_ID, with a reply or by refusing the request.
  abbrev pub AnswersId : Peer rmpv.Value → Type 0
  AnswersId peer =
      (r : Response rmpv.Value) × ((peer.id_reply ≡ some (ok r))
        × ((r.kind ≡ Kind.reply) ⊎ (r.kind ≡ Kind.failure)))

  -- It answered IPROTO_AUTH of a user, and not by a failure.
  abbrev pub Admits : Peer rmpv.Value → Option (List ℕ) → Type 0
  Admits peer none = Unit
  Admits peer (some user) =
      (r : Response rmpv.Value) × ((peer.auth_reply ≡ some (ok r)) × (r.kind ≢ Kind.failure))

  negotiated_of-ok :
      (k : Kind) (r : Response rmpv.Value) (version : List ℕ) (n : Negotiated)
      → negotiated_of rmp rmpv k r version ≡ ok n
      → (k ≡ Kind.reply) ⊎ (k ≡ Kind.failure)
  unfolding negotiated_of
  negotiated_of-ok Kind.reply r version n h = inl refl
  negotiated_of-ok Kind.failure r version n h = inr refl
  negotiated_of-ok Kind.chunk r version n h = cc h
  negotiated_of-ok Kind.event r version n h = cc h

  unrefused :
      (k : Kind) (m n : Negotiated)
      → (elim k as (λ x. Outcome Negotiated) [ Kind.failure ↦ err Error.auth | _ ↦ ok m ]) ≡ ok n
      → k ≢ Kind.failure
  unrefused Kind.reply m n h = λ e. cc e
  unrefused Kind.chunk m n h = λ e. cc e
  unrefused Kind.event m n h = λ e. cc e
  unrefused Kind.failure m n h = cc h

  module _ (to_msgpack : List ℕ → Outcome (List ℕ)) (sha1 : List ℕ → List ℕ) where
    check_auth-Admits :
        (peer : Peer rmpv.Value) (user : Option (List ℕ)) (m n : Negotiated) (sent : List (List ℕ))
        → (check_auth rmp rmpv to_msgpack sha1 peer user m sent).0 ≡ ok n
        → Admits peer user
    unfolding check_auth
    check_auth-Admits peer none m n sent h = tt
    check_auth-Admits peer (some user) m n sent h =
        let (r, (e, h1)) = go_on-ok (next_reply peer.auth_reply) _ sent n h in
        (r, (next_reply-ok peer.auth_reply r e, unrefused r.kind m n h1))

    -- A handshake that succeeds, whatever was sent before it: the server answered IPROTO_ID, and if the
    -- user is not the guest it answered IPROTO_AUTH as well, and not by a failure.
    pub handshake_inner-Admits :
        (peer : Peer rmpv.Value) (options : ConnectOptions) (n : Negotiated) (sent : List (List ℕ))
        → (handshake_inner rmp rmpv to_msgpack sha1 peer options sent).0 ≡ ok n
        → AnswersId peer × Admits peer (not_guest options.user)
    unfolding handshake_inner
    handshake_inner-Admits peer options n sent h0 =
        let (u1, (e1, h1)) = go_on-ok peer.connects _ _ n h0 in
        let (greeting, (e2, h2)) = go_on-ok peer.greeting _ _ n h1 in
        let (version, (e3, h3)) = go_on-ok (version_of greeting) _ _ n h2 in
        let (packet, (e4, h4)) = go_on-ok (id_packet rmp rmpv to_msgpack) _ _ n h3 in
        let (u2, (e5, h5)) = bind-ok (send peer.takes_id packet) _ _ n h4 in
        let (u3, (e6, h6)) =
          bind-ok
            (announce rmp rmpv to_msgpack sha1 peer (not_guest options.user) (password_str options)
              (take 64 (drop 64 greeting)))
            _ _ n h5 in
        let (reply, (e7, h7)) = go_on-ok (next_reply peer.id_reply) _ _ n h6 in
        let (m, (e8, h8)) = go_on-ok (negotiated_of rmp rmpv reply.kind reply version) _ _ n h7 in
        (
          (
            reply,
            (next_reply-ok peer.id_reply reply e7, negotiated_of-ok reply.kind reply version m e8),
          ),
          check_auth-Admits peer (not_guest options.user) m n _ h8,
        )
