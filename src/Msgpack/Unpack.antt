-- ===== src/Msgpack/Unpack.antt =====
-- The unpack functions of as_msgpack.c for one value or header, by the kind of value.
pub mod Number
pub mod Blob
pub mod Header
pub mod Kind
pub mod Size
pub mod Value
