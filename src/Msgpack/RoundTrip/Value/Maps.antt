-- ===== src/Msgpack/RoundTrip/Value/Maps.antt =====
-- A packed map with its keys in order, read by `as_unpack_val` where its entries are read.
use aerospike_common.Common.{
  ℕ, ◌+◌, ◌-◌, ◌*◌, ◌/◌, ◌%◌, ◌<◌, ◌^◌, ◌≡◌, ◌∙◌, sym, refl, ap, arith, List, [], ◌∷◌, ◌++◌, Bool,
  true, false, inl, inr, some, length, ◌==◌, negsuc, bit_and, add32, length-append, append_assoc,
}
use aerospike_common.Val.{Val, Entries, map, as_map_size}
use aerospike_common.OrderedMap.{
  OrderedMap, as_orderedmap_new, as_orderedmap_cons, as_orderedmap_set_flags, merge_from,
}
use aerospike_common.Msgpack.Unpacker.{Unpacker, M, Result, ok, err, pure, ◌>>=◌}
use aerospike_common.Msgpack.Unpacker.Reads.{At, bind-some, advance, At-advance_append}
use aerospike_common.Msgpack.Unpack.Header.{as_unpack_peek_is_ext, as_unpack_ext}
use aerospike_common.Msgpack.Unpack.Size.{as_unpack_size}
use aerospike_common.Msgpack.Unpack.Value.{
  unpack_next, or_null, map_val, as_packed_map_flag_preserve_order, unpack_map, map_of,
  unpack_orderedmap, unpack_entries,
}
use aerospike_common.Msgpack.RoundTrip.Header.{
  map_header_bytes, as_unpack_map-At, read_map_header_bytes, length-map_header_bytes,
}
use aerospike_common.Msgpack.RoundTrip.Value.{map_start_bytes}
use aerospike_common.Msgpack.RoundTrip.Value.Heads.{map_header_bytes-Headed}
use aerospike_common.Msgpack.RoundTrip.Value.Types.{unpack_val_as-map}
use aerospike_common.Msgpack.RoundTrip.Value.Leaves.{Reads, unpack_next-Headed, advance-advance}
use aerospike_common.Msgpack.RoundTrip.Value.Lists.{IsPlain}
use aerospike_common.Msgpack.RoundTrip.Value.Storable.{HasMapFlags}
use aerospike_common.Msgpack.RoundTrip.Value.Filling.{
  from_entries, to_entries-from_entries, Roomy, ReadsEntries,
}
use aerospike_common.Msgpack.RoundTrip.Value.Flags.{peek_ext, flags_ext, read_ext, read_nil_size}

module _ (malloc realloc : ℕ → Bool) (sizeof_map : ℕ) (widen : ℕ → ℕ) (double_lt : ℕ → ℕ → Bool)
    (next : M (Result Val)) where
  -- Where the map begins with an empty table.
  abbrev pub ReadsMap : Unpacker → Entries → ℕ → Type 0
  ReadsMap pk es n =
      (m : OrderedMap Val Val)
      → Roomy m (as_map_size es)
      → m.table ≡ []
      → ReadsEntries malloc realloc sizeof_map widen double_lt next pk es m n

  abbrev room_for : ℕ → ℕ
  room_for n = add32 n 8 / 8 * 8

  abbrev empty_map : ℕ → OrderedMap Val Val
  empty_map n = record {
    flags = 1;
    capacity = room_for n;
    room = room_for n;
    table = [];
    hold_ready = false;
    hold = [];
  }

  new_map :
      (n : ℕ)
      → ((k : ℕ) → malloc k ≡ true)
      → as_orderedmap_new malloc sizeof_map n ≡ some (empty_map n)
  unfolding as_orderedmap_new as_orderedmap_cons
  new_map n memory = rw (memory sizeof_map, memory (room_for n * 16)) refl

  unpack_orderedmap-entries :
      (flags : ℕ) (pk : Unpacker) (es : Entries) (b : ℕ)
      → ((n : ℕ) → malloc n ≡ true)
      → as_map_size es < 2 ^ 32 - 1001
      → as_orderedmap_set_flags flags ≡ flags
      → ReadsMap pk es b
      → unpack_orderedmap malloc realloc sizeof_map widen double_lt next flags (as_map_size es) pk
        ≡ some (ok (map flags es), advance pk b)
  unfolding unpack_orderedmap as_orderedmap_new as_orderedmap_cons merge_from
  unpack_orderedmap-entries flags pk es b memory small kept reads =
      let n : ℕ = as_map_size es in
      let roomy : Roomy (empty_map n) n = record {
        fits = omega arith;
        room = omega arith;
        small = omega arith;
        nothing_held = refl;
      } in
      bind-some (λ pk'. some (as_orderedmap_new {K = Val} {V = Val} malloc sizeof_map n, pk'))
        (λ m. or_null (negsuc 1) m (filling n)) pk pk (some (empty_map n))
        (ap (λ m. some (m, pk)) (new_map n memory))
      ∙ bind-some (unpack_entries malloc realloc sizeof_map widen double_lt next n (empty_map n)) _
          pk (advance pk b) (ok (record (empty_map n) { table = from_entries es }))
          (reads (empty_map n) roomy refl)
      ∙ rw (kept, to_entries-from_entries es) refl
    where
      filling : ℕ → OrderedMap Val Val → M (Result Val)
      filling n m = unpack_entries malloc realloc sizeof_map widen double_lt next n m >>= λ filled.
          pure (elim filled [
            | ok m' ↦ ok (map_val malloc realloc sizeof_map widen double_lt next flags m')
            | err rc ↦ err rc
          ])

  plain_map :
      (n : ℕ) (pk : Unpacker)
      → IsPlain n pk
      → unpack_map malloc realloc sizeof_map widen double_lt next n pk
        ≡ unpack_orderedmap malloc realloc sizeof_map widen double_lt next 0 n pk
  unfolding unpack_map map_of
  plain_map n pk (inl nothing) = rw nothing refl
  plain_map n pk (inr (something, plain)) =
      rw something (bind-some as_unpack_peek_is_ext _ pk pk false plain)

  ordered_map :
      (flags n : ℕ) (pk : Unpacker) (r : List ℕ)
      → bit_and flags as_packed_map_flag_preserve_order ≡ 0
      → At pk (0xc7 ∷ 0 ∷ flags ∷ 0xc0 ∷ r)
      → unpack_map malloc realloc sizeof_map widen double_lt next (n + 1) pk
        ≡ unpack_orderedmap malloc realloc sizeof_map widen double_lt next flags n (advance pk 4)
  unfolding unpack_map map_of
  ordered_map flags n pk r no_order h =
      let more : (n + 1 == 0) ≡ false = ground arith in
      let same : n + 1 - 1 ≡ n = omega arith in
      rw more (
        bind-some as_unpack_peek_is_ext _ pk pk true (peek_ext pk h)
        ∙ bind-some as_unpack_ext _ pk (advance pk 3) (ok (flags_ext pk flags))
            (read_ext pk flags h)
        ∙ bind-some as_unpack_size _ (advance pk 3) (advance pk 4) (ok 1) (
            read_nil_size (advance pk 3) (At-advance_append pk (0xc7 ∷ 0 ∷ flags ∷ []) h)
            ∙ rw (advance-advance pk 3 1) refl)
        ∙ rw (same, no_order) refl)

  -- Behind the header of a map.
  unpack_next-map :
      (n : ℕ) (pk : Unpacker) (r : List ℕ)
      → n < 2 ^ 32
      → At pk (map_header_bytes n ++ r)
      → unpack_next malloc realloc sizeof_map widen double_lt next pk
        ≡ unpack_map malloc realloc sizeof_map widen double_lt next n
            (advance pk (length (map_header_bytes n)))
  unpack_next-map n pk r small here =
      let headed = map_header_bytes-Headed n in
      let (first, on) =
        unpack_next-Headed malloc realloc sizeof_map widen double_lt next pk r headed here in
      let size =
        sym (as_unpack_map-At pk r n headed.head (rw (headed.splits) at here))
        ∙ read_map_header_bytes pk r n small here in
      on
      ∙ unpack_val_as-map widen _ _ _ headed.head (advance pk 1)
          (advance pk (length (map_header_bytes n))) n headed.byte
          (rw (length-map_header_bytes n) size)

  module _ (pk : Unpacker) (es : Entries) (src rest : List ℕ) (memory : (n : ℕ) → malloc n ≡ true)
      (small : as_map_size es < 2 ^ 32 - 1001) where
    Reads-plain_map :
        At pk ((map_header_bytes (as_map_size es) ++ src) ++ rest)
        → IsPlain (as_map_size es) (advance pk (length (map_header_bytes (as_map_size es))))
        → ReadsMap (advance pk (length (map_header_bytes (as_map_size es)))) es (length src)
        → Reads malloc realloc sizeof_map widen double_lt next pk
            (map 0 es)
            (length (map_header_bytes (as_map_size es) ++ src))
    unfolding as_orderedmap_set_flags
    Reads-plain_map here plain entries =
        let n : ℕ = as_map_size es in
        let header : List ℕ = map_header_bytes n in
        let pk' : Unpacker = advance pk (length header) in
        unpack_next-map n pk (src ++ rest) (omega arith) (rw (append_assoc header src rest) at here)
        ∙ plain_map n pk' plain
        ∙ unpack_orderedmap-entries 0 pk' es (length src) memory small refl entries
        ∙ rw (advance-advance pk (length header) (length src), length-append header src) refl

    Reads-ordered_map :
        (flags : ℕ)
        → as_orderedmap_set_flags flags ≡ flags
        → bit_and flags as_packed_map_flag_preserve_order ≡ 0
        → let start = map_header_bytes (as_map_size es + 1) ++ (0xc7 ∷ 0 ∷ flags ∷ 0xc0 ∷ []) in
          At pk ((start ++ src) ++ rest)
          → ReadsMap (advance pk (length start)) es (length src)
          → Reads malloc realloc sizeof_map widen double_lt next pk
              (map flags es)
              (length (start ++ src))
    Reads-ordered_map flags kept no_order here entries =
        let n : ℕ = as_map_size es in
        let header : List ℕ = map_header_bytes (n + 1) in
        let ext : List ℕ = 0xc7 ∷ 0 ∷ flags ∷ 0xc0 ∷ [] in
        let at : At pk (header ++ (ext ++ (src ++ rest))) =
          rw (append_assoc (header ++ ext) src rest, append_assoc header ext (src ++ rest)) at
            here in
        let pk' : Unpacker = advance pk (length header) in
        let both : advance pk' 4 ≡ advance pk (length (header ++ ext)) =
          rw (advance-advance pk (length header) 4, length-append header ext) refl in
        unpack_next-map (n + 1) pk (ext ++ (src ++ rest)) (omega arith) at
        ∙ ordered_map flags n pk' (src ++ rest) no_order (At-advance_append pk header at)
        ∙ ap (unpack_orderedmap malloc realloc sizeof_map widen double_lt next flags n) both
        ∙ unpack_orderedmap-entries flags (advance pk (length (header ++ ext))) es (length src)
            memory small kept entries
        ∙ rw
            (
              advance-advance pk (length (header ++ ext)) (length src),
              length-append (header ++ ext) src,
            )
            refl

    pub Reads-map :
        (flags : ℕ)
        → HasMapFlags flags
        → At pk ((map_start_bytes flags (as_map_size es) ++ src) ++ rest)
        → IsPlain (as_map_size es) (advance pk (length (map_start_bytes flags (as_map_size es))))
        → ReadsMap (advance pk (length (map_start_bytes flags (as_map_size es)))) es (length src)
        → Reads malloc realloc sizeof_map widen double_lt next pk
            (map flags es)
            (length (map_start_bytes flags (as_map_size es) ++ src))
    unfolding map_start_bytes
    Reads-map flags (kept, byte, no_order, inl no_flags) here plain entries =
        rw no_flags
          (Reads-plain_map (rw no_flags at here) (rw no_flags at plain) (rw no_flags at entries))
    Reads-map flags (kept, byte, no_order, inr ordered) here plain entries =
        let whole : flags % 2 ^ 8 ≡ flags = omega arith in
        rw (ordered, whole)
          (Reads-ordered_map flags kept no_order (rw (ordered, whole) at here)
            (rw (ordered, whole) at entries))
