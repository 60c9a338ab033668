-- ===== src/Msgpack/Unpack/Value.antt =====
-- `as_unpack_val` and the unpack functions of composite values. Memory for the struct of a number, a
-- Boolean or a list is not refused; a list is its elements, a map the table of an `as_orderedmap`.
use aerospike_common.Common.{
  ℕ, zero, suc, ◌-◌, Bool, true, false, leb, ltb, ◌==◌, ◌||◌, ◌&&◌, if◌then◌else◌, List, [], ◌∷◌,
  Option, some, none, ℤ, pos, negsuc, bit_and, to_signed, length, take, drop,
}
use aerospike_common.Val.{
  Val, Elements, Entries, null, nil, cmp_wildcard, cmp_inf, boolean, integer, double, string,
  geojson, bytes, list, map, no_elements, element, no_entries, entry,
}
use aerospike_common.Val.Compare.{as_val_cmp}
use aerospike_common.OrderedMap.{
  OrderedMap, MapEntry, as_orderedmap_new, as_orderedmap_set, as_orderedmap_set_flags, merge_from,
}
use aerospike_common.Msgpack.Pack.Blob.{as_bytes_string, as_bytes_blob, as_bytes_geojson}
use aerospike_common.Msgpack.Unpacker.{
  M, pure, ◌>>=◌, ◌>>◌, Result, ok, err, skip, next_byte, extract_uint16, extract_uint32,
  extract_uint64,
}
use aerospike_common.Msgpack.Unpack.Header.{as_unpack_peek_is_ext, as_unpack_ext}
use aerospike_common.Msgpack.Unpack.Size.{as_unpack_size}

abbrev pub as_packed_map_flag_preserve_order : ℕ
as_packed_map_flag_preserve_order = 0x08

-- `is_valid_key_type` of as_orderedmap.c
unfoldable pub is_valid_key_type : Val → Bool
is_valid_key_type (integer i) = true
is_valid_key_type (string s) = true
is_valid_key_type (bytes type b) = type == as_bytes_blob
is_valid_key_type _ = false

-- `val != NULL ? val : &as_nil`
unfoldable pub or_nil : Val → Val
or_nil null = nil
or_nil v = v

abbrev pub is_null : Val → Bool
is_null null = true
is_null v = false

-- The bytes that `strndup` copies: those before a NUL.
unfoldable pub c_string : List ℕ → List ℕ
c_string [] = []
c_string (c ∷ s) = let rest = c_string s in if c == 0 then [] else c ∷ rest

-- The next `size` bytes.
abbrev pub next_bytes : ℕ → M (List ℕ)
next_bytes size pk =
    let contents = take size (drop pk.offset pk.buffer) in
    if length contents == size then some (contents, pk) else none

unfoldable pub blob_val : ℕ → List ℕ → Val
unfolding c_string
blob_val type contents =
    if type == as_bytes_string
    then string (c_string contents)
    else if type == as_bytes_geojson
    then geojson (c_string contents)
    else bytes type contents

-- Of as_bytes.h, as_string.h and as_geojson.h, on a 64-bit machine.
abbrev pub sizeof_blob_val : ℕ
sizeof_blob_val = 32

-- What can make a call of `cf_malloc` fail is left to `malloc`. A failing `cf_strndup`, which gives a
-- string without a text, is not modelled.
module _ (malloc : ℕ → Bool) where
  -- The contents in a value, or `code` where there is no memory for the value itself.
  unfoldable pub wrap_contents : ℤ → ℕ → ℕ → M (Result Val)
  unfolding blob_val
  wrap_contents code type size = do
    contents ← next_bytes size
    if malloc sizeof_blob_val
        then (do skip size; pure (ok (blob_val type contents)))
        else pure (err code)

  unfoldable pub unpack_blob_contents : ℕ → ℕ → M (Result Val)
  unfolding wrap_contents
  unpack_blob_contents type size =
      if type == as_bytes_string || type == as_bytes_geojson
      then wrap_contents (negsuc 3) type size
      else if size == 0
      then wrap_contents (negsuc 2) type size
      else if malloc size
      then wrap_contents (negsuc 1) type size
      else pure (err (negsuc 0))

  unfoldable pub unpack_blob : ℕ → M (Result Val)
  unfolding unpack_blob_contents
  unpack_blob size =
      if size == 0
      then unpack_blob_contents 0 0
      else do type ← next_byte; unpack_blob_contents type (size - 1)

-- `unpack_ext`, which a call of `as_unpack_val` does not reach: it has taken a fixext before.
unfoldable pub unpack_ext : M (Result Val)
unpack_ext = do
  ext_type ← next_byte
  contents ← next_byte
  pure (
      if ext_type == 0xff && contents == 0x00
      then ok cmp_wildcard
      else if ext_type == 0xff && contents == 0x01
      then ok cmp_inf
      else err (negsuc 0))

-- The `switch` of `as_unpack_val`, with `unpack_blob`, `unpack_list` and `unpack_map` for `blobs`, `lists`
-- and `maps`; `widen` is the conversion of a float's bits to a double's. A packed ext is not seen here
-- but by `as_unpack_peek_is_ext`.
module _ (widen : ℕ → ℕ) (blobs lists maps : ℕ → M (Result Val)) where
  unfoldable pub unpack_val_as : ℕ → M (Result Val)
  unpack_val_as type =
      if type == 0xc0
      then pure (ok nil)
      else if type == 0xc3
      then pure (ok (boolean true))
      else if type == 0xc2
      then pure (ok (boolean false))
      else if type == 0xca
      then (do u ← extract_uint32; pure (ok (double (widen u))))
      else if type == 0xcb
      then (do u ← extract_uint64; pure (ok (double u)))
      else if type == 0xd0
      then (do u ← next_byte; pure (ok (integer (to_signed 8 u))))
      else if type == 0xcc
      then (do u ← next_byte; pure (ok (integer (pos u))))
      else if type == 0xd1
      then (do u ← extract_uint16; pure (ok (integer (to_signed 16 u))))
      else if type == 0xcd
      then (do u ← extract_uint16; pure (ok (integer (pos u))))
      else if type == 0xd2
      then (do u ← extract_uint32; pure (ok (integer (to_signed 32 u))))
      else if type == 0xce
      then (do u ← extract_uint32; pure (ok (integer (pos u))))
      else if type == 0xd3 || type == 0xcf
      then (do u ← extract_uint64; pure (ok (integer (to_signed 64 u))))
      else if type == 0xc4 || type == 0xd9
      then (do size ← next_byte; blobs size)
      else if type == 0xc5 || type == 0xda
      then (do size ← extract_uint16; blobs size)
      else if type == 0xc6 || type == 0xdb
      then (do size ← extract_uint32; blobs size)
      else if type == 0xdc
      then (do size ← extract_uint16; lists size)
      else if type == 0xdd
      then (do size ← extract_uint32; lists size)
      else if type == 0xde
      then (do size ← extract_uint16; maps size)
      else if type == 0xdf
      then (do size ← extract_uint32; maps size)
      else if type == 0xd4
      then unpack_ext
      else if bit_and type 0xe0 == 0xa0
      then blobs (bit_and type 0x1f)
      else if bit_and type 0xf0 == 0x80
      then maps (bit_and type 0x0f)
      else if bit_and type 0xf0 == 0x90
      then lists (bit_and type 0x0f)
      else if ltb type 0x80
      then pure (ok (integer (pos type)))
      else if leb 0xe0 type
      then pure (ok (integer (negsuc (31 - bit_and type 0x1f))))
      else pure (err (negsuc 1))

-- `if (f(pk) != 0) { return code; }` before `then_do`
abbrev pub or_return : {R S : Type 0} → ℤ → Result R → (R → M (Result S)) → M (Result S)
or_return code (ok r) then_do = then_do r
or_return code (err rc) then_do = pure (err code)

-- `if (x == NULL) { return code; }` before `then_do`
abbrev pub or_null : {A S : Type 0} → ℤ → Option A → (A → M (Result S)) → M (Result S)
or_null code none then_do = pure (err code)
or_null code (some x) then_do = then_do x

-- A table as what `as_map_foreach` visits.
abbrev pub to_entries : List (MapEntry Val Val) → Entries
to_entries [] = no_entries
to_entries (e ∷ es) = entry e.key e.value (to_entries es)

-- What follows a change of the table: the fault, the return of its code, or the rest.
abbrev pub with_entry :
    Option (Result (OrderedMap Val Val))
    → (OrderedMap Val Val → M (Result (OrderedMap Val Val)))
    → M (Result (OrderedMap Val Val))
with_entry none rest pk = none
with_entry (some (err rc)) rest pk = some (err rc, pk)
with_entry (some (ok m)) rest pk = rest m pk

-- What can make a call of `cf_malloc` or `cf_realloc` fail is left to `malloc` and `realloc`,
-- `double_lt` is the order of doubles.
module _ (malloc realloc : ℕ → Bool) (sizeof_map : ℕ) (widen : ℕ → ℕ)
    (double_lt : ℕ → ℕ → Bool) where
  abbrev pub set_entry : OrderedMap Val Val → Val → Val → Option (ℤ × OrderedMap Val Val)
  set_entry = as_orderedmap_set (as_val_cmp double_lt) is_valid_key_type malloc realloc or_nil

  -- The loops, with `as_unpack_val` for `next`.
  module _ (next : M (Result Val)) where
    -- `as_arraylist_set(list, i, v)` at the size of the list puts `v` behind the others.
    unfoldable pub unpack_elements : ℕ → M (Result Elements)
    unpack_elements zero = pure (ok no_elements)
    unpack_elements (suc n) = do
      v ← next
      elim v [
        | err rc ↦ pure (err (negsuc 2))
        | ok x ↦
            let others = unpack_elements n in
            if is_null x then pure (err (negsuc 2)) else (do
              rest ← others
              pure (elim rest [ ok xs ↦ ok (element x xs) | err rc ↦ err rc ]))
      ]

    unfoldable pub list_of : ℕ → ℕ → M (Result Val)
    unfolding unpack_elements
    list_of flags size = do
      xs ← unpack_elements size
      pure (elim xs [ ok vs ↦ ok (list flags vs) | err rc ↦ err rc ])

    unfoldable pub unpack_list : ℕ → M (Result Val)
    unfolding list_of
    unpack_list size = if size == 0 then list_of 0 size else (do
      is_ext ← as_unpack_peek_is_ext
      if is_ext
          then (do ext ← as_unpack_ext; or_return (negsuc 0) ext (λ e. list_of e.type (size - 1)))
          else list_of 0 size)

    -- The keys and values one after the other; a pair with a NULL is left out.
    unfoldable pub unpack_pairs : ℕ → M (Result Elements)
    unpack_pairs zero = pure (ok no_elements)
    unpack_pairs (suc n) = do
      k ← next
      or_return (negsuc 1) k (λ k'. do
        v ← next
        or_return (negsuc 2) v (λ v'. do
          rest ← unpack_pairs n
          pure (elim rest [ ok xs ↦ ok (kept k' v' xs) | err rc ↦ err rc ])))
      where
        kept : Val → Val → Elements → Elements
        kept k v xs = if is_null k || is_null v then xs else element k (element v xs)

    unfoldable pub unpack_map_create_list : ℕ → M (Result Val)
    unfolding unpack_pairs
    unpack_map_create_list size = do
      xs ← unpack_pairs size
      pure (elim xs [ ok vs ↦ ok (list 0 vs) | err rc ↦ err rc ])

    -- What the loop does with one key and its value; a NULL fails too.
    unfoldable pub entry_into :
        OrderedMap Val Val → Val → Val → Option (Result (OrderedMap Val Val))
    entry_into m k v =
        if is_null k || is_null v then some (err (negsuc 4)) else elim (set_entry m k v) [
          | none ↦ none
          | some (pos n, m') ↦ some (ok m')
          | some (negsuc n, m') ↦ some (err (negsuc 4))
        ]

    unfoldable pub unpack_entries : ℕ → OrderedMap Val Val → M (Result (OrderedMap Val Val))
    unfolding entry_into
    unpack_entries zero m = pure (ok m)
    unpack_entries (suc n) m = do
      k ← next
      or_return (negsuc 2) k (λ k'. do
        v ← next
        or_return (negsuc 3) v (λ v'. with_entry (entry_into m k' v') (unpack_entries n)))

    -- The map that a table with what it holds back stands for.
    abbrev pub map_val : ℕ → OrderedMap Val Val → Val
    map_val flags m = map (as_orderedmap_set_flags flags) (to_entries (merge_from 0 m.hold m.table))

    unfoldable pub unpack_orderedmap : ℕ → ℕ → M (Result Val)
    unfolding unpack_entries
    unpack_orderedmap flags ele_count =
        or_null (negsuc 1) (as_orderedmap_new {K = Val} {V = Val} malloc sizeof_map ele_count) (λ m.
          do
            filled ← unpack_entries ele_count m
            pure (elim filled [ ok m' ↦ ok (map_val flags m') | err rc ↦ err rc ]))

    unfoldable pub map_of : ℕ → ℕ → M (Result Val)
    unfolding unpack_map_create_list unpack_orderedmap
    map_of flags ele_count =
        if bit_and flags as_packed_map_flag_preserve_order == 0
        then unpack_orderedmap flags ele_count
        else unpack_map_create_list ele_count

    unfoldable pub unpack_map : ℕ → M (Result Val)
    unfolding map_of
    unpack_map ele_count = if ele_count == 0 then map_of 0 ele_count else (do
      is_ext ← as_unpack_peek_is_ext
      if is_ext
          then (do
            ext ← as_unpack_ext
            or_return (negsuc 0) ext (λ e. do
              size ← as_unpack_size
              or_return (negsuc 0) size (λ n. map_of e.type (ele_count - 1))))
          else map_of 0 ele_count)

    unfoldable pub unpack_next : M (Result Val)
    unfolding unpack_blob unpack_list unpack_map unpack_val_as
    unpack_next = do
      is_ext ← as_unpack_peek_is_ext
      if is_ext then (do size ← as_unpack_size; pure (ok null)) else (do
        type ← next_byte
        unpack_val_as widen (unpack_blob malloc) unpack_list unpack_map type)

  -- The calls below one another are at most `levels`; a stack of more of them is a fault.
  unfoldable pub as_unpack_val : ℕ → M (Result Val)
  unfolding unpack_next
  as_unpack_val zero pk = none
  as_unpack_val (suc levels) pk = unpack_next (as_unpack_val levels) pk
