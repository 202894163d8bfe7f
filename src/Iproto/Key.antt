-- ===== src/Iproto/Key.antt =====
-- Keys of the header and body maps: the module `key` of iproto.rs.
use Prim.Native.Nat.{ℕ}

abbrev pub request_type : ℕ
request_type = 0x00

abbrev pub sync : ℕ
sync = 0x01

abbrev pub schema_version : ℕ
schema_version = 0x05

abbrev pub stream_id : ℕ
stream_id = 0x0a

abbrev pub space_id : ℕ
space_id = 0x10

abbrev pub index_id : ℕ
index_id = 0x11

abbrev pub limit : ℕ
limit = 0x12

abbrev pub offset : ℕ
offset = 0x13

abbrev pub iterator : ℕ
iterator = 0x14

abbrev pub index_base : ℕ
index_base = 0x15

abbrev pub fetch_position : ℕ
fetch_position = 0x1f

abbrev pub key : ℕ
key = 0x20

abbrev pub tuple : ℕ
tuple = 0x21

abbrev pub function_name : ℕ
function_name = 0x22

abbrev pub user_name : ℕ
user_name = 0x23

abbrev pub expr : ℕ
expr = 0x27

abbrev pub ops : ℕ
ops = 0x28

abbrev pub options : ℕ
options = 0x2b

abbrev pub after_position : ℕ
after_position = 0x2e

abbrev pub after_tuple : ℕ
after_tuple = 0x2f

abbrev pub data_key : ℕ
data_key = 0x30

abbrev pub error_24 : ℕ
error_24 = 0x31

abbrev pub metadata : ℕ
metadata = 0x32

abbrev pub bind_metadata : ℕ
bind_metadata = 0x33

abbrev pub bind_count : ℕ
bind_count = 0x34

abbrev pub position : ℕ
position = 0x35

abbrev pub arrow : ℕ
arrow = 0x36

abbrev pub sql_text : ℕ
sql_text = 0x40

abbrev pub sql_bind : ℕ
sql_bind = 0x41

abbrev pub sql_info : ℕ
sql_info = 0x42

abbrev pub stmt_id : ℕ
stmt_id = 0x43

abbrev pub error : ℕ
error = 0x52

abbrev pub version : ℕ
version = 0x54

abbrev pub features : ℕ
features = 0x55

abbrev pub timeout : ℕ
timeout = 0x56

abbrev pub event_key : ℕ
event_key = 0x57

abbrev pub event_data : ℕ
event_data = 0x58

abbrev pub txn_isolation : ℕ
txn_isolation = 0x59

abbrev pub auth_type : ℕ
auth_type = 0x5b

abbrev pub space_name : ℕ
space_name = 0x5e

abbrev pub index_name : ℕ
index_name = 0x5f

abbrev pub tuple_formats : ℕ
tuple_formats = 0x60

abbrev pub is_sync : ℕ
is_sync = 0x61
