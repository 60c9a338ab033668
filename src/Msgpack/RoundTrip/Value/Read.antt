-- ===== src/Msgpack/RoundTrip/Value/Read.antt =====
-- `as_unpack_val` reads what `as_pack_val` wrote.
use aerospike_common.Common.{
  ℕ, ◌%◌, ◌^◌, zero, suc, ◌+◌, ◌≤◌, ◌<◌, ◌≡◌, refl, ap, arith, List, [], ◌∷◌, ◌++◌, Bool, true,
  false, inl, some, length, length-append, append_assoc, ◌==◌,
}
use aerospike_common.Val.{
  Val, Elements, Entries, null, undef, nil, cmp_wildcard, cmp_inf, rec, boolean, integer, double,
  string, geojson, bytes, list, map, pair, no_elements, element, no_entries, entry, as_list_size,
  as_map_size,
}
use aerospike_common.OrderedMap.{MapEntry, OrderedMap}
use aerospike_common.Msgpack.Packer.{Packer, Malloc}
use aerospike_common.Msgpack.Packer.Output.{IsReady, IsSized, IsTotal, added, added-Appended}
use aerospike_common.Msgpack.Pack.Blob.{as_bytes_string, as_bytes_geojson}
use aerospike_common.Msgpack.Pack.Value.{as_pack_val}
use aerospike_common.Msgpack.Unpacker.{Unpacker, M, Result, ok}
use aerospike_common.Msgpack.Unpacker.Reads.{At, advance, At-advance_append}
use aerospike_common.Msgpack.Unpack.Value.{as_unpack_val, blob_val, c_string}
use aerospike_common.Msgpack.RoundTrip.Header.{list_header_bytes}
use aerospike_common.Msgpack.RoundTrip.Value.{
  val_bytes, elements_bytes, entries_bytes, map_start_bytes, IsPackable,
}
use aerospike_common.Msgpack.RoundTrip.Value.Leaves.{
  Reads, Reads-nil, Reads-boolean, Reads-double, Reads-integer, Reads-blob,
}
use aerospike_common.Msgpack.RoundTrip.Value.Storable.{
  depth, depth_elements, depth_entries, IsStorable, AreStorable, AreAscending, IsStorable-is_null,
  IsStorable-or_nil, val_bytes-Headed,
}
use aerospike_common.Msgpack.RoundTrip.Value.Lists.{
  IsPlain, IsPlain-Headed, ReadsElements, ReadsElements-no_elements, ReadsElements-element,
  Reads-list,
}
use aerospike_common.Msgpack.RoundTrip.Value.Filling.{
  Roomy, Roomy-with_table, ReadsEntries, ReadsEntries-no_entries, ReadsEntries-entry,
}
use aerospike_common.Msgpack.RoundTrip.Value.Maps.{Reads-map}
use aerospike_common.Msgpack.RoundTrip.Value.Write.{as_pack_val_lem}

module _ (malloc realloc : ℕ → Bool) (sizeof_map : ℕ) (widen : ℕ → ℕ) (double_lt : ℕ → ℕ → Bool)
    (memory : (n : ℕ) → malloc n ≡ true) where
  abbrev unpack : ℕ → M (Result Val)
  unpack levels = as_unpack_val malloc realloc sizeof_map widen double_lt levels

  -- What stands behind the start of a list or map is plain.
  elements-IsPlain :
      (xs : Elements) (pk : Unpacker) (rest : List ℕ)
      → AreStorable double_lt xs
      → At pk (elements_bytes xs ++ rest)
      → IsPlain (as_list_size xs) pk
  unfolding IsStorable val_bytes as_list_size
  elements-IsPlain no_elements pk rest h here = inl refl
  elements-IsPlain (element x xs) pk rest h here =
      IsPlain-Headed (as_list_size xs) pk (elements_bytes xs ++ rest)
        (val_bytes-Headed double_lt x h.0)
        (rw (append_assoc (val_bytes x) (elements_bytes xs) rest) at here)

  entries-IsPlain :
      (es : Entries) (before : List (MapEntry Val Val)) (pk : Unpacker) (rest : List ℕ)
      → AreAscending double_lt before es
      → At pk (entries_bytes es ++ rest)
      → IsPlain (as_map_size es) pk
  unfolding IsStorable val_bytes as_map_size
  entries-IsPlain no_entries before pk rest h here = inl refl
  entries-IsPlain (entry k v es) before pk rest (valid, above, hk, hv, h) here =
      IsPlain-Headed (as_map_size es) pk (val_bytes v ++ (entries_bytes es ++ rest))
        (val_bytes-Headed double_lt k hk)
        (rw
          (
            append_assoc (val_bytes k ++ val_bytes v) (entries_bytes es) rest,
            append_assoc (val_bytes k) (val_bytes v) (entries_bytes es ++ rest),
          )
          at here)

  blob_val-bytes :
      (type : ℕ) (b : List ℕ)
      → (type == as_bytes_string) ≡ false
      → (type == as_bytes_geojson) ≡ false
      → blob_val type b ≡ bytes type b
  unfolding blob_val
  blob_val-bytes type b no_string no_geojson = rw (no_string, no_geojson) refl

  blob_val-string : (s : List ℕ) → c_string s ≡ s → blob_val as_bytes_string s ≡ string s
  unfolding blob_val
  blob_val-string s whole = ap string whole

  blob_val-geojson : (s : List ℕ) → c_string s ≡ s → blob_val as_bytes_geojson s ≡ geojson s
  unfolding blob_val
  blob_val-geojson s whole = ap geojson whole

  -- What `as_unpack_val` does with one call less deep.
  step :
      (levels : ℕ) (up : Unpacker) (v : Val) (n : ℕ)
      → Reads malloc realloc sizeof_map widen double_lt (unpack levels) up v n
      → unpack (suc levels) up ≡ some (ok v, advance up n)
  unfolding as_unpack_val
  step levels up v n h = h

  mutual
    unfolding IsStorable val_bytes depth as_list_size as_map_size

    reads :
        (v : Val) (levels : ℕ) (up : Unpacker) (rest : List ℕ)
        → depth v ≤ levels
        → IsStorable double_lt v
        → At up (val_bytes v ++ rest)
        → Reads malloc realloc sizeof_map widen double_lt
            (unpack levels)
            up
            v
            (length (val_bytes v))
    reads nil levels up rest deep h here =
        Reads-nil malloc realloc sizeof_map widen double_lt (unpack levels) up rest here
    reads (boolean b) levels up rest deep h here =
        Reads-boolean malloc realloc sizeof_map widen double_lt (unpack levels) up b rest here
    reads (integer i) levels up rest deep h here =
        Reads-integer malloc realloc sizeof_map widen double_lt (unpack levels) up i rest h here
    reads (double d) levels up rest deep h here =
        Reads-double malloc realloc sizeof_map widen double_lt (unpack levels) up d rest h here
    reads (string s) levels up rest deep h here =
        Reads-blob malloc realloc sizeof_map widen double_lt (unpack levels) up memory
          as_bytes_string s (string s) rest (omega (arith, h.0)) (blob_val-string s h.1) here
    reads (geojson s) levels up rest deep h here =
        Reads-blob malloc realloc sizeof_map widen double_lt (unpack levels) up memory
          as_bytes_geojson s (geojson s) rest (omega (arith, h.0)) (blob_val-geojson s h.1) here
    reads (bytes type b) levels up rest deep h here =
        let byte : type % 2 ^ 8 ≡ type = omega (arith, h.1) in
        Reads-blob malloc realloc sizeof_map widen double_lt (unpack levels) up memory
          (type % 2 ^ 8) b (bytes type b) rest (omega (arith, h.0))
          (rw byte (blob_val-bytes type b h.2 h.3)) here
    reads (list flags xs) zero up rest deep h here = absurd (omega arith)
    reads (list flags xs) (suc levels) up rest deep h here =
        let header : List ℕ = list_header_bytes (as_list_size xs) in
        let at =
          At-advance_append up header (rw (append_assoc header (elements_bytes xs) rest) at here) in
        let pk : Unpacker = advance up (length header) in
        rw (h.0) (
          Reads-list malloc realloc sizeof_map widen double_lt (unpack (suc levels)) up xs
            (elements_bytes xs) rest h.1 here (elements-IsPlain xs pk rest h.2 at)
            (reads_elements xs levels pk rest (omega arith) h.2 at))
    reads (map flags es) zero up rest deep h here = absurd (omega arith)
    reads (map flags es) (suc levels) up rest deep h here =
        let start : List ℕ = map_start_bytes flags (as_map_size es) in
        let at =
          At-advance_append up start (rw (append_assoc start (entries_bytes es) rest) at here) in
        let pk : Unpacker = advance up (length start) in
        Reads-map malloc realloc sizeof_map widen double_lt (unpack (suc levels)) up es
          (entries_bytes es) rest memory h.1 flags h.0 here (entries-IsPlain es [] pk rest h.2 at)
          (λ m roomy empty. reads_entries es levels pk rest m (omega arith) roomy (rw empty h.2) at)
    reads null levels up rest deep h here = absurd h
    reads undef levels up rest deep h here = absurd h
    reads rec levels up rest deep h here = absurd h
    reads (pair x y) levels up rest deep h here = absurd h
    reads cmp_wildcard levels up rest deep h here = absurd h
    reads cmp_inf levels up rest deep h here = absurd h

    reads_elements :
        (xs : Elements) (levels : ℕ) (up : Unpacker) (rest : List ℕ)
        → depth_elements xs ≤ levels
        → AreStorable double_lt xs
        → At up (elements_bytes xs ++ rest)
        → ReadsElements malloc realloc sizeof_map widen double_lt
            (unpack (suc levels))
            up
            xs
            (length (elements_bytes xs))
    reads_elements no_elements levels up rest deep h here =
        ReadsElements-no_elements malloc realloc sizeof_map widen double_lt (unpack (suc levels)) up
    reads_elements (element x xs) levels up rest deep h here =
        let at : At up (val_bytes x ++ (elements_bytes xs ++ rest)) =
          rw (append_assoc (val_bytes x) (elements_bytes xs) rest) at here in
        let first =
          step levels up x _ (reads x levels up (elements_bytes xs ++ rest) (omega arith) h.0 at) in
        let others =
          reads_elements xs levels (advance up (length (val_bytes x))) rest (omega arith) h.1
            (At-advance_append up (val_bytes x) at) in
        rw (length-append (val_bytes x) (elements_bytes xs)) (
          ReadsElements-element malloc realloc sizeof_map widen double_lt (unpack (suc levels)) up x
            xs _ _ (IsStorable-is_null double_lt x h.0) first others)

    reads_entries :
        (es : Entries) (levels : ℕ) (up : Unpacker) (rest : List ℕ) (m : OrderedMap Val Val)
        → depth_entries es ≤ levels
        → Roomy m (as_map_size es)
        → AreAscending double_lt m.table es
        → At up (entries_bytes es ++ rest)
        → ReadsEntries malloc realloc sizeof_map widen double_lt
            (unpack (suc levels))
            up
            es
            m
            (length (entries_bytes es))
    reads_entries no_entries levels up rest m deep roomy h here =
        ReadsEntries-no_entries malloc realloc sizeof_map widen double_lt (unpack (suc levels)) up m
    reads_entries (entry k v es) levels up rest m deep roomy (valid, above, hk, hv, h) here =
        let a : ℕ = length (val_bytes k) in
        let b : ℕ = length (val_bytes v) in
        let e : MapEntry Val Val = record { key = k; value = v } in
        let pair_at : At up ((val_bytes k ++ val_bytes v) ++ (entries_bytes es ++ rest)) =
          rw (append_assoc (val_bytes k ++ val_bytes v) (entries_bytes es) rest) at here in
        let at : At up (val_bytes k ++ (val_bytes v ++ (entries_bytes es ++ rest))) =
          rw (append_assoc (val_bytes k) (val_bytes v) (entries_bytes es ++ rest)) at pair_at in
        let at_v = At-advance_append up (val_bytes k) at in
        let at_rest =
          rw (length-append (val_bytes k) (val_bytes v)) at
            (At-advance_append up (val_bytes k ++ val_bytes v) pair_at) in
        let first = step levels up k a (reads k levels up _ (omega arith) hk at) in
        let second =
          step levels (advance up a) v b (reads v levels (advance up a) _ (omega arith) hv at_v) in
        let others =
          reads_entries es levels (advance up (a + b)) rest
            (record m { table = m.table ++ (e ∷ []) }) (omega arith)
            (Roomy-with_table malloc realloc sizeof_map widen double_lt (unpack (suc levels)) m e
              (as_map_size es) roomy)
            h at_rest in
        rw
          (
            length-append (val_bytes k ++ val_bytes v) (entries_bytes es),
            length-append (val_bytes k) (val_bytes v),
          )
          (ReadsEntries-entry malloc realloc sizeof_map widen double_lt (unpack (suc levels)) up k v
            es m a b _ roomy (IsStorable-is_null double_lt k hk) (IsStorable-is_null double_lt v hv)
            (IsStorable-or_nil double_lt v hv) valid above first second others)

  -- While memory can be had, and with room on the stack for one call more than the nesting of the value,
  -- `as_unpack_val` reads a packable and storable value from the bytes that `as_pack_val` adds to a ready
  -- packer for it, whatever follows them, and moves on by as many bytes as were added.
  pub as_unpack_val-as_pack_val :
      (get : Malloc) (pk : Packer) (v : Val) (up : Unpacker) (rest : List ℕ) (levels : ℕ)
      → IsSized get
      → IsTotal get
      → IsReady pk
      → IsPackable v
      → IsStorable double_lt v
      → depth v < levels
      → At up (added pk (as_pack_val get pk v).1 ++ rest)
      → as_unpack_val malloc realloc sizeof_map widen double_lt levels up
        ≡ some (ok v, advance up (length (added pk (as_pack_val get pk v).1)))
  as_unpack_val-as_pack_val get pk v up rest zero sized total ready packable storable deep here =
      absurd (omega arith)
  as_unpack_val-as_pack_val get pk v up rest (suc levels) sized total ready packable storable deep
        here =
      let (done, ready', out) = as_pack_val_lem get sized pk v total ready packable in
      let bytes =
        added-Appended pk (val_bytes v) (as_pack_val get pk v) (λ success. (ready', out)) done in
      step levels up v _
        (rw bytes (reads v levels up rest (omega arith) storable (rw bytes at here)))
