-- ===== src/Client/Transactions.antt =====
-- The transaction of a stream over whatever is done on it: `Stream` of client.rs, up to its drop.
use tarant.Base.{
  ℕ, ◌≡◌, refl, sym, ◌∙◌, ap, Bool, true, false, some, List, [], ◌∷◌, ◌++◌, ok, err, panic, stuck,
  inl, inr, if◌then◌else◌, ◌&&◌, Bool-cases,
}
use tarant.Error.{Outcome}
use tarant.Iproto.Request as Types
use tarant.Codec.Request
use tarant.Codec.Request.{finish}
use tarant.Connection.{Command}
use tarant.Client.{Handle, Outside, submit, draw_sync, fire}
use tarant.Client.Stream.{
  Stream, TxOptions, begin, begin_request, bare_packet, conclude, commit, rollback, end_with, call,
  eval, drop_stream,
}

-- What a user does on a stream.
pub data Act : Type 0 where
  begins : TxOptions → Act
  commits rolls_back : Act
  calls evals : (text : List ℕ) (args : Outcome (List ℕ)) → Act

unfoldable pub is_ok : {A : Type 0} → Outcome A → Bool
is_ok (ok a) = true
is_ok r = false

module _ (w : Outside) where
  -- Whether the act succeeded, the stream after it, and the handle.
  unfoldable pub act : Act → Stream → Handle → (Bool × Stream) × Handle
  unfolding is_ok
  act (begins options) s h = let ran = begin w s options h in ((is_ok ran.0.0, ran.0.1), ran.1)
  act commits s h = let ran = commit w s h in ((is_ok ran.0.0, ran.0.1), ran.1)
  act rolls_back s h = let ran = rollback w s h in ((is_ok ran.0.0, ran.0.1), ran.1)
  act (calls text args) s h =
      let ran = call w (λ bytes. some bytes) s text args h in ((is_ok ran.0, s), ran.1)
  act (evals text args) s h =
      let ran = eval w (λ bytes. some bytes) s text args h in ((is_ok ran.0, s), ran.1)

  -- A session with the record of what succeeded.
  unfoldable pub session : List Act → Stream → Handle → (List (Act × Bool) × Stream) × Handle
  unfolding act
  session [] s h = (([], s), h)
  session (a ∷ acts) s h =
      let done = act a s h in
      let rest = session acts done.0.1 done.1 in (((a, done.0.0) ∷ rest.0.0, rest.0.1), rest.1)

-- Whether a transaction is open after an act, by its success alone.
unfoldable pub opens : Act → Bool → Bool → Bool
opens (begins options) true before = true
opens commits true before = false
opens rolls_back true before = false
opens a success before = before

-- After the acts of a record.
unfoldable pub is_open : Bool → List (Act × Bool) → Bool
unfolding opens
is_open before [] = before
is_open before ((a, success) ∷ rest) = is_open (opens a success before) rest

-- What is known of a stream after an act that succeeded or not.
abbrev Follows : Act → Stream → Bool × Stream → Type 0
Follows a s r = (r.1.id ≡ s.id) × (r.1.in_transaction ≡ opens a r.0 s.in_transaction)

begun-Follows :
    (options : TxOptions) (r : Outcome (Unit {0})) (s : Stream)
    → Follows (begins options) s (is_ok (end_with true r s).0, (end_with true r s).1)
unfolding end_with is_ok opens
begun-Follows options (ok a) s = (refl, refl)
begun-Follows options (err e) s = (refl, refl)
begun-Follows options panic s = (refl, refl)
begun-Follows options stuck s = (refl, refl)

ended-Follows :
    {A : Type 0} (a : Act) (r : Outcome A) (s : Stream)
    → opens a true s.in_transaction ≡ false
    → opens a false s.in_transaction ≡ s.in_transaction
    → Follows a s (is_ok (end_with false r s).0, (end_with false r s).1)
unfolding end_with is_ok
ended-Follows a (ok x) s e f = (refl, sym e)
ended-Follows a (err x) s e f = (refl, sym f)
ended-Follows a panic s e f = (refl, sym f)
ended-Follows a stuck s e f = (refl, sym f)

module _ (w : Outside) where
  act-Follows : (a : Act) (s : Stream) (h : Handle) → Follows a s (act w a s h).0
  unfolding act begin conclude commit rollback
  act-Follows (begins options) s h = begun-Follows options (begin_request w s.id options h).0 s
  act-Follows commits s h =
      ended-Follows commits (submit w (bare_packet w Types.commit s.id) h).0 s
        (unfold opens in refl) (unfold opens in refl)
  act-Follows rolls_back s h =
      ended-Follows rolls_back (submit w (bare_packet w Types.rollback s.id) h).0 s
        (unfold opens in refl) (unfold opens in refl)
  act-Follows (calls text args) s h = unfold opens in (refl, refl)
  act-Follows (evals text args) s h = unfold opens in (refl, refl)

  session-is_open :
      (acts : List Act) (s : Stream) (h : Handle)
      → ((session w acts s h).0.1.id ≡ s.id)
        × ((session w acts s h).0.1.in_transaction
            ≡ is_open s.in_transaction (session w acts s h).0.0)
  unfolding session is_open
  session-is_open [] s h = (refl, refl)
  session-is_open (a ∷ acts) s h =
      let done = act w a s h in
      let first : Follows a s done.0 = act-Follows a s h in
      let rest = session-is_open acts done.0.1 done.1 in
      (rest.0 ∙ first.0, rest.1 ∙ ap (λ b. is_open b (session w acts done.0.1 done.1).0.0) first.1)

  -- Whatever was done on a stream that had no transaction when it was opened: dropping it sends one
  -- ROLLBACK of its id, under a new sync, if by the acts that succeeded a transaction is open and the
  -- channel takes it, and otherwise sends nothing.
  pub drop_stream-session :
      (acts : List Act) (s : Stream) (h : Handle)
      → s.in_transaction ≡ false
      → (let ran = session w acts s h in
          (drop_stream w ran.0.1 ran.1).1.outbox ≡ (
            if is_open false ran.0.0 && w.room (draw_sync ran.1).1
            then ran.1.outbox
              ++ (Command.fire
                    (finish w.rmp (Request.new w.rmp Types.rollback ran.1.next_sync (some s.id)))
                  ∷ [])
            else ran.1.outbox))
  unfolding drop_stream draw_sync fire
  drop_stream-session acts s h closed =
      let ran = session w acts s h in
      let now = session-is_open acts s h in
      let flag : ran.0.1.in_transaction ≡ is_open false ran.0.0 =
        now.1 ∙ ap (λ b. is_open b ran.0.0) closed in
      rw (flag, now.0)
        (elim (Bool-cases (is_open false ran.0.0)) [
          | inl e ↦ elim (Bool-cases (w.room (draw_sync ran.1).1)) [
            | inl f ↦ rw (e, f) refl
            | inr f ↦ rw (e, f) refl
          ]
          | inr e ↦ rw e refl
        ])
