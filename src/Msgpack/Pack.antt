-- ===== src/Msgpack/Pack.antt =====
-- The pack functions of as_msgpack.c over the raw writes, by the kind of value that they write.
pub mod Number
pub mod Blob
pub mod Header
pub mod Value
