-- ===== src/Codec/Ranges.antt =====
-- The ranges that `Response::parse` stores lie in the body, so the accessors never panic.
use tarant.Base.{
  ℕ, ◌≤◌, ◌≡◌, refl, leb, Option, none, some, List, [], ◌∷◌, length, true, ok, ◌>>=◌, ok_or, arith,
  >>=-eq-ok, ok-injective,
}
use tarant.Error.{Outcome, Settles, returns, Settles-bind}
use tarant.Rmp.{Rmp}
use tarant.Rmpv.{Rmpv}
use tarant.Codec.ServerError.{or_default}
use tarant.Msgpack.{slice_from}
use tarant.Msgpack.Cursor.{Entry, new, for_each}
use tarant.Msgpack.Entries.{LiesIn, for_each_inv}
use tarant.Codec.Response.{
  Range, Response, kind_of, Located, no_header, nothing, header_entry, body_entry, locate, error_of,
  parse, slice, data_bytes, event_of,
}
use mathlib.Core.Path.{subst}

-- A stored range, if there is one, ends in a body of `n` bytes.
abbrev EndsIn : ℕ → Option Range → Type 0
EndsIn n none = Unit
EndsIn n (some (start, end)) = end ≤ n

record AllEndIn (n : ℕ) (b : Located) : Type 0 where
  data_in : EndsIn n b.data_at
  event_in : EndsIn n b.event_data
  metadata_in : EndsIn n b.metadata
  bind_in : EndsIn n b.bind_metadata
  info_in : EndsIn n b.sql_info

module _ (rmp : Rmp) (n : ℕ) where
  body_entry-AllEndIn :
      (b b' : Located) (e : Entry)
      → AllEndIn n b
      → LiesIn n e
      → body_entry rmp b e ≡ ok b'
      → AllEndIn n b'
  unfolding body_entry
  body_entry-AllEndIn b b' (k, start, v) h lies e = ground arith

nothing-AllEndIn : (n : ℕ) → AllEndIn n nothing
nothing-AllEndIn n = record {
  data_in = tt;
  event_in = tt;
  metadata_in = tt;
  bind_in = tt;
  info_in = tt;
}

locate-AllEndIn :
    (rmp : Rmp) (body : List ℕ) (b : Located) → locate rmp body ≡ ok b → AllEndIn (length body) b
unfolding locate
locate-AllEndIn rmp [] b h = subst (AllEndIn 0) (ok-injective h) (nothing-AllEndIn 0)
locate-AllEndIn rmp (x ∷ xs) b h =
    let ((c, total), opened, walk) = >>=-eq-ok (new (x ∷ xs)) _ h in
    for_each_inv rmp (body_entry rmp) (AllEndIn (length (x ∷ xs))) (length (x ∷ xs))
      (λ s s' e. body_entry-AllEndIn rmp (length (x ∷ xs)) s s' e) (x ∷ xs) c total nothing b refl
      opened (nothing-AllEndIn _) walk

-- The part of a parsed response that the accessors use.
record Stored {V : Type 0} (r : Response V) : Type 0 where
  data_in : EndsIn (length r.body) r.data_at
  event_in : EndsIn (length r.body) r.event_data
  metadata_in : EndsIn (length r.body) r.metadata
  bind_in : EndsIn (length r.body) r.bind_metadata
  info_in : EndsIn (length r.body) r.sql_info

parse-Stored :
    (rmp : Rmp) (rmpv : Rmpv) (packet : List ℕ) (r : Response rmpv.Value)
    → parse rmp rmpv packet ≡ ok r
    → Stored r
unfolding parse
parse-Stored rmp rmpv packet r h =
    let ((c, total), opened, h1) = >>=-eq-ok (new packet) _ h in
    let (hd, walked, h2) = >>=-eq-ok (for_each rmp (header_entry rmp) c no_header) _ h1 in
    let (t, typed, h3) = >>=-eq-ok (ok_or hd.request_type _) _ h2 in
    let (k, kind, h4) = >>=-eq-ok (kind_of t) _ h3 in
    let (body, cut, h5) = >>=-eq-ok (slice_from packet total) _ h4 in
    let (b, located, h6) = >>=-eq-ok (locate rmp body) _ h5 in
    let (e, error, h7) = >>=-eq-ok (error_of rmp rmpv k t body b) _ h6 in
    let ends : AllEndIn (length body) b = locate-AllEndIn rmp body b located in
    subst Stored (ok-injective h7) (record {
      data_in = ends.data_in;
      event_in = ends.event_in;
      metadata_in = ends.metadata_in;
      bind_in = ends.bind_in;
      info_in = ends.info_in;
    })

module _ {V : Type 0} (r : Response V) where
  slice-Settles : (o : Option Range) → EndsIn (length r.body) o → Settles (slice r o)
  unfolding slice
  slice-Settles none h = returns none
  slice-Settles (some (start, end)) h =
      let inside : leb end (length r.body) ≡ true = ground arith in rw inside (returns _)

  -- The accessor of events, by the case of its key.
  event_of-Settles : EndsIn (length r.body) r.event_data → Settles (event_of r)
  unfolding event_of
  event_of-Settles h = go r.event_key
    where
      go :
          (key : Option (List ℕ))
          → Settles (elim key as (λ _. Outcome (Option (List ℕ × List ℕ))) [
            | none ↦ ok none
            | some k ↦ slice r r.event_data >>= λ d. ok (some (k, or_default (0xc0 ∷ []) d))
          ])
      go none = returns none
      go (some k) = Settles-bind _ (slice-Settles r.event_data h) (λ d. returns _)

-- The accessors of a response that `parse` returned never panic: each range that it stored lies in
-- the body.
pub parse-accessors :
    (rmp : Rmp) (rmpv : Rmpv) (packet : List ℕ) (r : Response rmpv.Value)
    → parse rmp rmpv packet ≡ ok r
    → Settles (data_bytes r)
      × Settles (event_of r)
      × Settles (slice r r.metadata)
      × Settles (slice r r.bind_metadata)
      × Settles (slice r r.sql_info)
unfolding data_bytes
parse-accessors rmp rmpv packet r h =
    let s : Stored r = parse-Stored rmp rmpv packet r h in
    (
      Settles-bind _ (slice-Settles r r.data_at s.data_in) (λ d. returns _),
      event_of-Settles r s.event_in,
      slice-Settles r r.metadata s.metadata_in,
      slice-Settles r r.bind_metadata s.bind_in,
      slice-Settles r r.sql_info s.info_in,
    )
