-- ===== src/Ec.antt =====
-- The External Connections (EC) protocol of amuled:
-- packages/crawler/src/emule_indexer/adapters/mule_ec.
pub mod Codes
pub mod Tag
pub mod Value
pub mod Integers
pub mod Encode
pub mod Reader
pub mod Decode
pub mod Cursor
pub mod Frame
pub mod RoundTrip
pub mod Packets
pub mod Took
pub mod Children
pub mod Canonical
mod Tests
