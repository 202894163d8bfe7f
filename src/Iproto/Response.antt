-- ===== src/Iproto/Response.antt =====
-- Response types: the module `response` of iproto.rs.
use Prim.Native.Nat.{ℕ}

abbrev pub ok : ℕ
ok = 0x00

abbrev pub chunk : ℕ
chunk = 0x80

abbrev pub event : ℕ
event = 0x4c

abbrev pub error_flag : ℕ
error_flag = 0x8000
