-- ===== src/Msgpack/Cursor.antt =====
-- `MapCursor` of msgpack.rs, with the slices that panic out of range written out.
use tarant.Base.{
  ℕ, zero, suc, ◌+◌, ◌-◌, ◌%◌, ◌==◌, within, if◌then◌else◌, Option, none, some, List, get_elem?, ok,
  err, stuck, ◌>>=◌, ok_or, or_panic,
}
use tarant.Error.{Error, Violation, Outcome}
use tarant.Rmp.{Rmp}
use tarant.Msgpack.{get_range, slice_from, read_len, value_len}

pub record MapCursor : Type 0 where
  pub buf : List ℕ
  pub pos : ℕ
  pub remaining : ℕ

-- A key, the offset of its value, and the value's bytes.
abbrev pub Entry : Type 0
Entry = ℕ × ℕ × List ℕ

-- The `match marker` of `new`: the number of entries and the width of the head.
unfoldable pub entries_and_header : List ℕ → ℕ → Outcome (ℕ × ℕ)
entries_and_header buf m =
    if within 0x80 0x8f m
    then ok (m % 16, 1)
    else if m == 0xde
    then (read_len buf 1 2 >>= λ n. ok (n, 3))
    else if m == 0xdf
    then (read_len buf 1 4 >>= λ n. ok (n, 5))
    else err (Error.protocol Violation.not_a_map)

unfoldable pub new : List ℕ → Outcome (MapCursor × ℕ)
new buf = do
  total ← value_len buf
  marker ← or_panic (get_elem? buf 0)
  (remaining, header) ← entries_and_header buf marker
  ok (record { buf = buf; pos = header; remaining = remaining }, total)

module _ (rmp : Rmp) where
  unfoldable pub read_uint : List ℕ → Outcome ℕ
  read_uint value = ok_or (rmp.read_u64 value) (Error.protocol Violation.not_a_uint) >>= λ r. ok r.0

  -- `next` on a cursor with an entry left.
  unfoldable pub next_entry : MapCursor → Outcome (Entry × MapCursor)
  next_entry c = do
    rest ← slice_from c.buf c.pos
    key_len ← value_len rest
    key_bytes ← or_panic (get_range c.buf c.pos (c.pos + key_len))
    key ← read_uint key_bytes
    let offset = c.pos + key_len
    behind ← slice_from c.buf offset
    len ← value_len behind
    value ← or_panic (get_range c.buf offset (offset + len))
    ok ((key, offset, value), record c { pos = offset + len; remaining = c.remaining - 1 })

  unfoldable pub next : MapCursor → Outcome (Option Entry × MapCursor)
  next c = if c.remaining == 0 then ok (none, c) else (next_entry c >>= λ r. ok (some r.0, r.1))

  -- `while let Some(entry) = cursor.next()? { … }` over a state `s`. Every round but the last takes
  -- an entry, so `remaining + 1` rounds are enough.
  unfoldable pub for_each_loop :
      {S : Type 0} → (S → Entry → Outcome S) → ℕ → MapCursor → S → Outcome S
  for_each_loop body zero c s = stuck
  for_each_loop body (suc fuel) c s = next c >>= λ r. elim (r.0) [
    | none ↦ ok s
    | some e ↦ body s e >>= λ s'. for_each_loop body fuel r.1 s'
  ]

  unfoldable pub for_each : {S : Type 0} → (S → Entry → Outcome S) → MapCursor → S → Outcome S
  unfolding for_each_loop
  for_each body c s = for_each_loop body (c.remaining + 1) c s
