-- ===== src/Lib.antt =====
-- aerospike-common: the containers and the MessagePack serialisation that the Aerospike C client and
-- server share (C, under src/main and src/include). This library models them part by part.
--
-- Msgpack models src/main/aerospike/as_msgpack.c and src/include/aerospike/as_msgpack.h.
--   Msgpack/Packer: `as_packer` and the raw writes (`pack_append`, `pack_byte`, `pack_type_*`,
--   `pack_resize`, `advance_offset`). A buffer is the list of the bytes allocated for it, `none` is
--   the NULL buffer that only counts; a write past a block makes its list longer; `malloc` is an
--   argument. Output says what a packer has written.
--   Msgpack/Pack: the pack functions by kind of value, and the size functions.
--   Msgpack/Unpacker: `as_unpacker` and its reads, in a monad where `none` is a read outside the
--   buffer. Msgpack/Unpack: the unpack and peek functions. A return code is a `Result`: `ok` is 0 with
--   the output, `err` a negative code.
--   Pack/Value is `as_pack_val`, Unpack/Value `as_unpack_val`, with the depth of its calls as fuel
--   (the nesting of a value and one more is enough), and Unpack/Size `as_unpack_size`, whose deep part
--   has as fuel the length of the buffer and one more, since each of its rounds reads a byte.
--   Msgpack/RoundTrip: packing and unpacking together; Value has the packed form of a value, Write
--   that it is written, Read that it is read, by its children Heads (first bytes), Types (the
--   switch on the type), Leaves, Lists, Maps, Filling (the entries of a map) and Flags.
-- Val models the values of src/include/aerospike/as_val.h as trees, and Val/Compare `as_val_cmp` and
-- what it calls in src/main/aerospike/as_msgpack.c.
-- OrderedMap models src/main/aerospike/as_orderedmap.c and src/include/aerospike/as_orderedmap.h, the
-- map that `as_unpack_val` builds: Find the binary search, with the number of entries and one more as
-- fuel, which is enough since each round halves what is left; Append the insertion of keys in order;
-- Sorted, Place, Set and Lookup the map as a sorted list with its `get` after `set`, while the table
-- of held entries is not in use; Keys the order of the values that are keys, Iterate the iteration
-- functions.
-- Ring has the lemmas on circular arrays. Queue models src/main/aerospike/as_queue.c and the inline
-- functions of src/include/aerospike/as_queue.h: Contents has the invariant and the items in order,
-- Grow the doubling of a full array, Refine and Runs the comparison with a double-ended list. Items
-- are opaque values; sizes in bytes appear where memory is asked for, with their 32-bit wrap.
-- QueueMt models src/main/aerospike/as_queue_mt.c and src/include/aerospike/as_queue_mt.h, as_queue
-- under a lock: Refine compares the pops that wait with a deque, while other threads call.
-- CfLl models src/main/citrusleaf/cf_ll.c and src/include/citrusleaf/cf_ll.h, the doubly linked list, on
-- addresses: Segments and Links have runs of linked elements, Lists, Insert and Delete the operations,
-- Walk the search and the iterator, with a bound on their steps as fuel. A call of the destructor is a
-- mark in the list.
-- CfQueue models src/main/citrusleaf/cf_queue.c and src/include/citrusleaf/cf_queue.h, an older queue
-- with the same array: Ring compares it with as_queue and has the invariant, Push the ends, Shift,
-- Insert and Index the insertion at an index, Delete and Remove the deletion of an offset, Reduce and
-- Scan the calls with a callback, Erase the deletion by value, whose loop has the number of elements
-- as fuel (enough by Fuel), Wait, Wakes, Pop and Best the calls that may wait, with the acts of other
-- threads as an argument, Start, Sound and Reach the states that calls reach.
-- Vector models src/main/aerospike/as_vector.c and src/include/aerospike/as_vector.h. The value `none`
-- is an access outside of the array. Contents has the invariant, Grow the doubling, Change, Access
-- and Unique the operations, Empty the vector of capacity 0.
-- Base64 models src/main/citrusleaf/cf_b64.c and src/include/citrusleaf/cf_b64.h: Tables has the tables,
-- Bytes the bit arithmetic, Validate the test of a text, InPlace the decoders that share one buffer.
-- StringBuilder models src/main/aerospike/as_string_builder.c and its header, the append of texts and
-- characters; Append has what fits a buffer that may not grow.
-- Memory states what `malloc` and `realloc` are relied on for. Common has numbers, words, masks and
-- lists.
--
-- Words are native numbers with their wrap written out (`% 2 ^ 32`); `float` and `double` are bit
-- patterns. Other loops are structural recursions. Freeing memory leaves no trace in the
-- models.
-- Not modelled: the comparison of packed values, reference counts, the arrays behind lists, the
-- other map, the byte buffers, the reductions of linked lists, and the parts that only call the
-- system or other libraries, such as encryption and TLS, threads and clocks.
pub mod Common
pub mod Msgpack
pub mod Ring
pub mod Queue
pub mod Memory
pub mod Vector
pub mod Base64
pub mod CfLl
pub mod CfQueue
pub mod QueueMt
pub mod Val
pub mod StringBuilder
pub mod OrderedMap
