-- ===== src/Iproto/Request.antt =====
-- Request types: the module `request` of iproto.rs.
use Prim.Native.Nat.{ℕ}

abbrev pub select : ℕ
select = 0x01

abbrev pub insert : ℕ
insert = 0x02

abbrev pub replace : ℕ
replace = 0x03

abbrev pub update : ℕ
update = 0x04

abbrev pub delete : ℕ
delete = 0x05

abbrev pub auth : ℕ
auth = 0x07

abbrev pub eval : ℕ
eval = 0x08

abbrev pub upsert : ℕ
upsert = 0x09

abbrev pub call : ℕ
call = 0x0a

abbrev pub execute : ℕ
execute = 0x0b

abbrev pub prepare : ℕ
prepare = 0x0d

abbrev pub begin : ℕ
begin = 0x0e

abbrev pub commit : ℕ
commit = 0x0f

abbrev pub rollback : ℕ
rollback = 0x10

abbrev pub insert_arrow : ℕ
insert_arrow = 0x11

abbrev pub ping : ℕ
ping = 0x40

abbrev pub id : ℕ
id = 0x49

abbrev pub watch : ℕ
watch = 0x4a

abbrev pub unwatch : ℕ
unwatch = 0x4b

abbrev pub watch_once : ℕ
watch_once = 0x4d
