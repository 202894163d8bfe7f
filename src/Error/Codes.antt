-- ===== src/Error/Codes.antt =====
-- The error codes that error.rs names.
use Prim.Native.Nat.{ℕ}

abbrev pub unknown : ℕ
unknown = 0

abbrev pub illegal_params : ℕ
illegal_params = 1

abbrev pub unsupported : ℕ
unsupported = 5

abbrev pub tuple_found : ℕ
tuple_found = 3

abbrev pub tuple_not_found : ℕ
tuple_not_found = 4

abbrev pub readonly : ℕ
readonly = 7

abbrev pub space_exists : ℕ
space_exists = 10

abbrev pub field_type : ℕ
field_type = 23

abbrev pub proc_lua : ℕ
proc_lua = 32

abbrev pub no_such_proc : ℕ
no_such_proc = 33

abbrev pub no_such_index : ℕ
no_such_index = 35

abbrev pub no_such_space : ℕ
no_such_space = 36

abbrev pub access_denied : ℕ
access_denied = 42

abbrev pub no_such_user : ℕ
no_such_user = 45

abbrev pub creds_mismatch : ℕ
creds_mismatch = 47

abbrev pub timeout : ℕ
timeout = 78

abbrev pub transaction_conflict : ℕ
transaction_conflict = 97

abbrev pub no_such_field_name_in_space : ℕ
no_such_field_name_in_space = 153

abbrev pub sql_execute : ℕ
sql_execute = 159

abbrev pub sql_prepare : ℕ
sql_prepare = 210

abbrev pub wrong_query_id : ℕ
wrong_query_id = 211

abbrev pub sync_quorum_timeout : ℕ
sync_quorum_timeout = 216
