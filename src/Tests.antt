-- ===== src/Tests.antt =====
-- Concrete functions for the parameters, and the theorems at concrete inputs.
pub mod Crates
pub mod Bytes
pub mod Links
pub mod Fields
pub mod Clients
pub mod Wire
pub mod Urls
pub mod Packets
pub mod Decimals
pub mod Datetimes
pub mod Handshakes
pub mod Auths
