-- ===== src/Codec/Parse.antt =====
-- `Response::parse` on any bytes: it answers, and the ranges that it stores lie in the body.
use tarant.Base.{
  ℕ, ◌≤◌, ◌≡◌, leb, ◌==◌, none, some, List, [], ◌∷◌, length, drop, true, ok, ◌>>=◌, arith, inl, inr,
  Option-cases,
}
use tarant.Base.Utf8.{is_utf8}
use tarant.Error.{Settles, returns, fails, Settles-if, Settles-bind, Settles-cases, Settles-ok_or}
use tarant.Rmp.{Rmp}
use tarant.Rmpv.{Rmpv}
use tarant.Iproto.Key
use tarant.Msgpack.{get_range}
use tarant.Msgpack.Cursor.{Entry, read_uint}
use tarant.Msgpack.Entries.{for_each-Settles, new-IsWithin, new-Settles, IsWithin}
use tarant.Codec.ServerError.{decode_error_map, decode_frames, decode_error_frame}
use tarant.Codec.Response.{
  Kind, kind_of, Header, Located, no_header, nothing, read_str, header_entry, body_entry, locate,
  error_of, parse, key_byte, has_error_flag,
}

module _ (rmp : Rmp) where
  read_uint-Settles : (v : List ℕ) → Settles (read_uint rmp v)
  unfolding read_uint
  read_uint-Settles v = Settles-bind _ (Settles-ok_or (rmp.read_u64 v) _) (λ r. returns r.0)

  read_str-Settles : (v : List ℕ) → Settles (read_str rmp v)
  unfolding read_str
  read_str-Settles v = Settles-bind _ (Settles-ok_or (rmp.read_str_len v) _) (λ r.
      Settles-bind _ (Settles-ok_or (get_range r.1 0 r.0) _)
        (λ bytes. Settles-if (is_utf8 bytes) (returns bytes) (fails _)))

  -- A branch of the two `match` on a key: a number or a text of the entry goes into the record.
  uint_branch : {S : Type 0} (v : List ℕ) (f : ℕ → S) → Settles (read_uint rmp v >>= λ n. ok (f n))
  uint_branch v f = Settles-bind _ (read_uint-Settles v) (λ n. returns (f n))

  str_branch :
      {S : Type 0} (v : List ℕ) (f : List ℕ → S) → Settles (read_str rmp v >>= λ n. ok (f n))
  str_branch v f = Settles-bind _ (read_str-Settles v) (λ n. returns (f n))

  header_entry-Settles : (h : Header) (e : Entry) → Settles (header_entry rmp h e)
  unfolding header_entry
  header_entry-Settles h (k, at, v) =
      Settles-if (key_byte k == Key.request_type) (uint_branch v _) (
        Settles-if (key_byte k == Key.sync) (uint_branch v _)
          (Settles-if (key_byte k == Key.schema_version) (uint_branch v _) (returns h)))

  body_entry-Settles : (b : Located) (e : Entry) → Settles (body_entry rmp b e)
  unfolding body_entry
  body_entry-Settles b (k, at, v) =
      let c = key_byte k in
      Settles-if (c == Key.data_key) (returns _) (
        Settles-if (c == Key.position) (str_branch v _) (
          Settles-if (c == Key.error_24) (str_branch v _) (
            Settles-if (c == Key.error) (returns _) (
              Settles-if (c == Key.event_key) (str_branch v _) (
                Settles-if (c == Key.event_data) (returns _) (
                  Settles-if (c == Key.metadata) (returns _) (
                    Settles-if (c == Key.bind_metadata) (returns _) (
                      Settles-if (c == Key.sql_info) (returns _) (
                        Settles-if (c == Key.bind_count) (uint_branch v _)
                          (Settles-if (c == Key.stmt_id) (uint_branch v _) (returns b)))))))))))

  locate-Settles : (body : List ℕ) → Settles (locate rmp body)
  unfolding locate
  locate-Settles [] = returns nothing
  locate-Settles (b ∷ bs) = elim (Settles-cases (new-Settles (b ∷ bs))) [
    | inr (e, h) ↦ rw h (fails e)
    | inl ((c, total), h) ↦
        rw h (for_each-Settles rmp (body_entry rmp) body_entry-Settles (b ∷ bs) c total nothing h)
  ]

module _ (rmpv : Rmpv) where
  open rmpv use {Value, read_value, as_map, as_array}

  decode_error_frame-Settles : (v : Value) → Settles (decode_error_frame rmpv v)
  unfolding decode_error_frame
  decode_error_frame-Settles v = Settles-bind _ (Settles-ok_or (as_map v) _) (λ es. returns _)

  decode_frames-Settles : (vs : List Value) → Settles (decode_frames rmpv vs)
  unfolding decode_frames
  decode_frames-Settles [] = returns []
  decode_frames-Settles (v ∷ vs) =
      Settles-bind _ (decode_error_frame-Settles v)
        (λ f. Settles-bind _ (decode_frames-Settles vs) (λ fs. returns (f ∷ fs)))

  decode_error_map-Settles :
      (bytes : List ℕ) (code : ℕ) → Settles (decode_error_map rmpv bytes code)
  unfolding decode_error_map
  decode_error_map-Settles bytes code = Settles-bind _ (Settles-ok_or (read_value bytes) _) (λ v.
      Settles-bind _ (Settles-ok_or _ _)
        (λ stack. Settles-bind _ (decode_frames-Settles stack) (λ fs. returns _)))

  error_of-Settles :
      (rmp : Rmp) (k : Kind) (t : ℕ) (body : List ℕ) (b : Located)
      → Settles (error_of rmp rmpv k t body b)
  unfolding error_of
  error_of-Settles rmp Kind.failure t [] b = returns none
  error_of-Settles rmp Kind.failure t (x ∷ xs) b = elim (Option-cases b.error_ext) [
    | inl e ↦ rw e (returns _)
    | inr (bytes, e) ↦
        rw e (Settles-bind _ (decode_error_map-Settles bytes _) (λ s. returns (some s)))
  ]
  error_of-Settles rmp Kind.reply t body b = returns none
  error_of-Settles rmp Kind.chunk t body b = returns none
  error_of-Settles rmp Kind.event t body b = returns none

  kind_of-Settles : (t : ℕ) → Settles (kind_of t)
  unfolding kind_of
  kind_of-Settles t = Settles-if (t == 0) (returns _) (
      Settles-if (t == 0x80) (returns _)
        (Settles-if (t == 0x4c) (returns _) (Settles-if (has_error_flag t) (returns _) (fails _))))

  -- On any bytes that the server sends, `Response::parse` answers with a response or an error: no
  -- slice is out of range and every loop ends.
  pub parse-Settles : (rmp : Rmp) (packet : List ℕ) → Settles (parse rmp rmpv packet)
  unfolding parse
  parse-Settles rmp packet = elim (Settles-cases (new-Settles packet)) [
    | inr (e, h) ↦ rw h (fails e)
    | inl ((c, total), h) ↦
        let start : (c.buf ≡ packet) × (total ≤ length packet) × IsWithin total c =
          new-IsWithin packet c total h in
        let inside : leb total (length packet) ≡ true = ground (arith, start.1) in
        rw (h, inside)
          (Settles-bind _
            (for_each-Settles rmp (header_entry rmp) (header_entry-Settles rmp) packet c total
              no_header h)
            (λ hd. Settles-bind _ (Settles-ok_or hd.request_type _) (λ t.
              Settles-bind _ (kind_of-Settles t) (λ k.
                Settles-bind _ (locate-Settles rmp (drop total packet)) (λ b.
                  Settles-bind _ (error_of-Settles rmp k t (drop total packet) b)
                    (λ e. returns _))))))
  ]
