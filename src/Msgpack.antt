-- ===== src/Msgpack.antt =====
-- src/main/aerospike/as_msgpack.c: values to and from MessagePack bytes.
pub mod Packer
pub mod Pack
pub mod Unpacker
pub mod Unpack
pub mod RoundTrip
mod Tests
