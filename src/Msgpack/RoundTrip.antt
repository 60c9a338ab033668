-- ===== src/Msgpack/RoundTrip.antt =====
-- What as_msgpack.c packs, it unpacks.
pub mod Number
pub mod Integer
pub mod Header
pub mod Blob
pub mod Value
