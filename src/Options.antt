-- ===== src/Options.antt =====
-- options.rs: how to reach a server. A text is its list of bytes, a duration a number of milliseconds.
pub mod Url
pub mod Settings
pub mod Address
use tarant.Base.{
  ℕ, ◌+◌, ◌*◌, ◌==◌, if◌then◌else◌, Bool, true, false, ◌||◌, Option, none, some, List, [], ◌∷◌,
  ◌++◌, ok, err, panic, stuck, ◌>>=◌, ok_or,
}
use tarant.Base.Utf8.{is_utf8}
use tarant.Error.{Error, Outcome}
use tarant.Types.Uuid.{nibble}
use tarant.Connection.Loop.{Reconnect}

pub record ConnectOptions : Type 0 where
  pub addr : List ℕ
  pub user : Option (List ℕ)
  pub password : Option (List ℕ)
  pub connect_timeout : ℕ
  pub request_timeout : Option ℕ
  pub reconnect : Reconnect
  pub tcp_nodelay : Bool

-- `DEFAULT_PORT` as text.
abbrev default_port : List ℕ
default_port = b'3' ∷ b'3' ∷ b'0' ∷ b'1' ∷ []

-- "tarantool://"
abbrev pub scheme : List ℕ
scheme = b't' ∷ b'a' ∷ b'r' ∷ b'a' ∷ b'n' ∷ b't' ∷ b'o' ∷ b'o' ∷ b'l' ∷ b':' ∷ b'/' ∷ b'/' ∷ []

-- `str::contains`, `split_once`, `rsplit_once` and `strip_prefix` of the standard library.
unfoldable pub contains : ℕ → List ℕ → Bool
contains c [] = false
contains c (x ∷ xs) = (x == c) || contains c xs

unfoldable pub split_once : ℕ → List ℕ → Option (List ℕ × List ℕ)
split_once c [] = none
split_once c (x ∷ xs) =
    let rest = split_once c xs in
    if x == c then some ([], xs) else elim rest [ none ↦ none | some (a, b) ↦ some (x ∷ a, b) ]

unfoldable pub rsplit_once : ℕ → List ℕ → Option (List ℕ × List ℕ)
rsplit_once c [] = none
rsplit_once c (x ∷ xs) = elim (rsplit_once c xs) [
  | none ↦ (if x == c then some ([], xs) else none)
  | some (a, b) ↦ some (x ∷ a, b)
]

unfoldable pub strip_prefix : List ℕ → List ℕ → Option (List ℕ)
strip_prefix [] s = some s
strip_prefix (p ∷ ps) [] = none
strip_prefix (p ∷ ps) (x ∷ xs) = let rest = strip_prefix ps xs in if p == x then rest else none

unfoldable pub default_reconnect : Reconnect
default_reconnect = Reconnect.backoff 100 5000

unfoldable pub new : List ℕ → ConnectOptions
unfolding contains default_reconnect
new addr = record {
  addr = if contains b':' addr then addr else addr ++ (b':' ∷ default_port);
  user = none;
  password = none;
  connect_timeout = 5000;
  request_timeout = none;
  reconnect = default_reconnect;
  tcp_nodelay = true;
}

-- `u8::from_str_radix(h, 16)` of two bytes, which takes a sign of plus before a single digit.
unfoldable pub from_hex : ℕ → ℕ → Option ℕ
from_hex a b = elim (is_utf8 (a ∷ b ∷ [])) [
  | false ↦ none
  | true ↦
      (if a == b'+' then nibble b else elim (nibble a) [
        | none ↦ none
        | some hi ↦ elim (nibble b) [ none ↦ none | some lo ↦ some (hi * 16 + lo) ]
      ])
]

abbrev pub prepend : ℕ → Option (List ℕ) → Option (List ℕ)
prepend b none = none
prepend b (some l) = some (b ∷ l)

-- An escape and what stands behind it.
abbrev pub escaped : Option ℕ → Option (List ℕ) → Option (List ℕ)
escaped none rest = none
escaped (some b) rest = prepend b rest

-- The loop of `percent_decode`: `get(i + 1..i + 3)` fails where fewer than two bytes are left.
unfoldable pub unescape : List ℕ → Option (List ℕ)
unfolding from_hex
unescape [] = some []
unescape (b ∷ []) = if b == b'%' then none else some (b ∷ [])
unescape (b ∷ c ∷ []) = elim (b == b'%') [ true ↦ none | false ↦ prepend b (unescape (c ∷ [])) ]
unescape (b ∷ c ∷ d ∷ rest) = elim (b == b'%') [
  | true ↦ escaped (from_hex c d) (unescape rest)
  | false ↦ prepend b (unescape (c ∷ d ∷ rest))
]

unfoldable pub percent_decode : List ℕ → Outcome (List ℕ)
unfolding unescape
percent_decode input = do
  out ← ok_or (unescape input) Error.url
  if is_utf8 out then ok out else err Error.url

-- The user and the password of the credentials.
unfoldable pub credentials_of : List ℕ → List ℕ × Option (List ℕ)
unfolding split_once
credentials_of text = elim (split_once b':' text) [
  | none ↦ (text, none)
  | some (user, password) ↦ (user, some password)
]

-- `password.map(percent_decode).transpose()?`
unfoldable pub decode_password : Option (List ℕ) → Outcome (Option (List ℕ))
unfolding percent_decode
decode_password none = ok none
decode_password (some p) = percent_decode p >>= λ d. ok (some d)

unfoldable pub with_credentials : Option (List ℕ) → ConnectOptions → Outcome ConnectOptions
unfolding credentials_of percent_decode decode_password
with_credentials none options = ok options
with_credentials (some text) options = do
  user ← percent_decode (credentials_of text).0
  password ← decode_password (credentials_of text).1
  ok (record options { user = some user; password = password })

-- `rest.rsplit_once('@')`
unfoldable pub host_of : List ℕ → Option (List ℕ) × List ℕ
unfolding rsplit_once
host_of rest = elim (rsplit_once b'@' rest) [
  | none ↦ (none, rest)
  | some (credentials, host) ↦ (some credentials, host)
]

-- The checks of the host.
unfoldable pub checked_host : List ℕ → Outcome (List ℕ)
unfolding contains
checked_host [] = err Error.url
checked_host (c ∷ cs) = if contains b'/' (c ∷ cs) then err Error.url else ok (c ∷ cs)

-- `strip_prefix("tarantool://").unwrap_or(url)`
unfoldable pub without_scheme : List ℕ → List ℕ
unfolding strip_prefix
without_scheme url = elim (strip_prefix scheme url) [ none ↦ url | some rest ↦ rest ]

unfoldable pub parse : List ℕ → Outcome ConnectOptions
unfolding new host_of checked_host with_credentials without_scheme
parse url = do
  host ← checked_host (host_of (without_scheme url)).1
  with_credentials (host_of (without_scheme url)).0 (new host)

unfoldable pub user_name : ConnectOptions → Option (List ℕ)
user_name o = o.user

unfoldable pub password_str : ConnectOptions → List ℕ
password_str o = elim (o.password) [ none ↦ [] | some p ↦ p ]
