-- ===== src/Options/Settings.antt =====
-- options.rs: the setters and accessors of `ConnectOptions`, and what `Debug` shows of it. Durations
-- are in milliseconds.
use tarant.Base.{ℕ, Bool, Option, none, some, List}
use tarant.Connection.Loop.{Reconnect}
use tarant.Options.{ConnectOptions}

unfoldable pub user : List ℕ → ConnectOptions → ConnectOptions
user name o = record o { user = some name }

unfoldable pub password : List ℕ → ConnectOptions → ConnectOptions
password secret o = record o { password = some secret }

unfoldable pub connect_timeout : ℕ → ConnectOptions → ConnectOptions
connect_timeout timeout o = record o { connect_timeout = timeout }

unfoldable pub request_timeout : ℕ → ConnectOptions → ConnectOptions
request_timeout timeout o = record o { request_timeout = some timeout }

unfoldable pub reconnect : Reconnect → ConnectOptions → ConnectOptions
reconnect policy o = record o { reconnect = policy }

unfoldable pub tcp_nodelay : Bool → ConnectOptions → ConnectOptions
tcp_nodelay enabled o = record o { tcp_nodelay = enabled }

-- The fields that `Debug` prints: of the password only whether there is one.
pub record Shown : Type 0 where
  pub addr : List ℕ
  pub user : Option (List ℕ)
  pub password : Option (Unit {0})
  pub connect_timeout : ℕ
  pub request_timeout : Option ℕ
  pub reconnect : Reconnect
  pub tcp_nodelay : Bool

unfoldable pub redacted : Option (List ℕ) → Option (Unit {0})
redacted none = none
redacted (some secret) = some tt

unfoldable pub debug : ConnectOptions → Shown
debug o = record {
  addr = o.addr;
  user = o.user;
  password = redacted o.password;
  connect_timeout = o.connect_timeout;
  request_timeout = o.request_timeout;
  reconnect = o.reconnect;
  tcp_nodelay = o.tcp_nodelay;
}
