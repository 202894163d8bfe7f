-- ===== src/Lib.antt =====
-- tarant, an asynchronous client of the Tarantool database: a model of its protocol core, and the
-- theorems that make it correct. Paths are from the root of the repository.
--
-- The program. A `Handle` sends commands over a channel to one task per connection
-- (src/connection.rs). The task owns the socket behind a codec (src/codec.rs), which cuts the stream
-- into packets, parses the header and the body of a response as MessagePack maps (src/msgpack.rs) and
-- builds requests. Keys and types of the protocol are constants (src/iproto.rs), errors are values
-- (src/error.rs). Field types of tuples have modules of their own (src/types/).
--
-- The model.
--   Base       lists, outcomes, integers, byte order and UTF-8 that the parts share; an outcome is
--              `ok`, `err`, `panic` (a slice out of range, an `expect`) or `stuck` (no fuel left)
--   Error      `Error` of src/error.rs; the messages of protocol errors are constructors
--   Rmp, Rmpv  the crates rmp and rmpv, as parameters with the laws that the code relies on
--   Iproto     the constants of src/iproto.rs; `data` is called `data_key`; the codes
--              of features, iterators and isolation levels
--   Msgpack    `value_len` and `MapCursor` of src/msgpack.rs. Msgpack/Format is the format as a
--              grammar, Measure to Complete measure it, Total is about any bytes, Entries about walks
--   Codec      `Codec::decode` and `Codec::encode` of src/codec.rs; Codec/Request is `Request`,
--              Codec/Response is `Response`, Codec/ServerError the error stack. Layout and Packets are
--              what a request is on the wire, Grown a request after further entries, Walk and Visited
--              what a cursor reads of it
--   Connection the task of src/connection.rs: its state, `handle_command`, `handle_response`,
--              `fail_pending`, `fail_deferred`, `defer`. Connection/Loop has one turn of `Task::run` and
--              of `Task::reconnect`, and `run`, which folds turns over a list of inputs. Connection/Handshake
--              is `handshake_inner`, over what the peer does
--   Client     `Handle` of src/connection.rs, the user's side of the channel, and the calls of
--              src/client.rs: Client/Calls, Client/Space, Client/Select and Client/Stream. Client/Script
--              is any sequence of operations, Order and Rising the syncs that it draws, Served the
--              task at the other end of the channel, Transactions a stream from its opening to its drop,
--              Wire the packets of all the requests
--   Sql        `Statement` and the text queries of src/sql.rs; Sql/Results is what is read of replies
--   Tuple      `ArrayLike` of src/tuple.rs, by the shapes that have an implementation
--   Update     `Update` of src/update.rs
--   Watcher    `Watcher` of src/watcher.rs
--   Options    `ConnectOptions` of src/options.rs: a URL and what is read of it, and the setters
--   Auth       `chap_sha1` and `decode_base64` of src/auth.rs, over a parameter for SHA-1; Auth/Base64 is the
--              encoding that the decoder is held against
--   Types      `Uuid`, `Interval`, `Datetime` and `Decimal` of src/types/. Types/Datetime/Calendar is
--              `civil_from_days` beside the rules of the calendar, Years to Days hold the one against the
--              other, Local the seconds of a value against a day; Text of Datetime, Decimal and Interval
--              is `Display`, with `FromStr`; System and
--              Crates are the conversions; Values is a type as a value of rmpv
--   Tests      concrete crates, and the theorems at concrete inputs
--
-- How the state corresponds. Bytes are a list of numbers. The task is a record with the fields of
-- `Task`; its hash maps are association lists with each key once. A channel end is a number. What the
-- task does to channels and to the socket is a list of effects, and what it is done to is an input:
-- which command or packet arrives, whether a write succeeds, whether a receiver is alive, how a
-- handshake ends. A reply is settled when it is answered, refused, or dropped, which its receiver
-- sees as `Closed`. A handle is a record of its counters and of the commands that it put into the
-- channel, and its methods are functions from a handle to a result and a handle. What a request comes
-- to is an argument, by the sync of the request.
--
-- Bounds and fuel. `usize` has 64 bits, and `checked_add` refuses sums beyond it. The loop of
-- `value_len` runs on one unit of fuel for each byte of the buffer and one more: every round takes a
-- byte or ends. A walk over a map runs on one unit for each entry and one more. The counters of a
-- handle have 64 bits and wrap. A magnitude of 128 bits has at most 39 decimal digits, and 40 rounds
-- of division write it.
--
-- Texts of numbers: a year of an `i64` of seconds has at most 12 digits, so that 40 rounds of division
-- write it too. The days of `civil_from_days` are unbounded integers: `Display` asks it only for the
-- days of an `i64` of seconds, whose sums stay far inside `i64`.
--
-- Not modelled: sockets, timers and tokio, serde and what is built on it (src/types/ext.rs, `Serialize`
-- and `Deserialize`), hashing, `to_f64`, logging, the texts of `Debug` and of errors, and the crates
-- uuid and rust_decimal, which one call each converts to.
pub mod Base
pub mod Error
pub mod Rmp
pub mod Rmpv
pub mod Iproto
pub mod Msgpack
pub mod Codec
pub mod Connection
pub mod Tuple
pub mod Update
pub mod Options
pub mod Client
pub mod Sql
pub mod Watcher
pub mod Auth
pub mod Types
pub mod Tests
