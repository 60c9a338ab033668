-- ===== src/Msgpack/Unpack/Size.antt =====
-- `as_unpack_size`: how many bytes the next value has. It moves past them, and does not compare with
-- the length of the buffer but at the start of a value.
use aerospike_common.Common.{
  ℕ, zero, suc, ◌+◌, Bool, true, false, leb, ltb, ◌==◌, ◌||◌, ◌&&◌, if◌then◌else◌, List, none, [],
  ◌∷◌, some, ℤ, negsuc, bit_and, add32, sub32,
}
use aerospike_common.Msgpack.Unpacker.{
  M, pure, ◌>>=◌, ◌>>◌, Result, ok, err, skip, next_byte, extract_uint16, extract_uint32,
}
use aerospike_common.Msgpack.Unpack.Kind.{ValType, as_unpack_peek_type}
use aerospike_common.Msgpack.Unpack.Header.{
  as_unpack_list_header_element_count, as_unpack_map_header_element_count,
}

abbrev pub msgpack_compare_max_depth : ℕ
msgpack_compare_max_depth = 256

-- `if (ret < 0) { return code; } return n + ret;`
abbrev pub add_size : ℕ → ℤ → Result ℕ → Result ℕ
add_size n code (ok ret) = ok (n + ret)
add_size n code (err rc) = err code

-- The `switch` of `unpack_size_internal`, and what follows it; `lists` and `maps` are
-- `unpack_list_elements_size` and `unpack_map_elements_size` at the depth of the call. A sum with a
-- `uint32_t` wraps.
module _ (lists maps : ℕ → M (Result ℕ)) where
  unfoldable pub size_as : ℕ → M (Result ℕ)
  size_as type =
      if type == 0xc0 || (type == 0xc3 || type == 0xc2)
      then pure (ok 1)
      else if type == 0xd0 || type == 0xcc
      then skip 1 >> pure (ok 2)
      else if type == 0xd1 || type == 0xcd
      then skip 2 >> pure (ok 3)
      else if type == 0xca || (type == 0xd2 || type == 0xce)
      then skip 4 >> pure (ok 5)
      else if type == 0xcb || (type == 0xd3 || type == 0xcf)
      then skip 8 >> pure (ok 9)
      else if type == 0xc4 || type == 0xd9
      then (do length ← next_byte; skip length; pure (ok (2 + length)))
      else if type == 0xc5 || type == 0xda
      then (do length ← extract_uint16; skip length; pure (ok (3 + length)))
      else if type == 0xc6 || type == 0xdb
      then (do length ← extract_uint32; skip length; pure (ok (add32 5 length)))
      else if type == 0xdc
      then (do length ← extract_uint16; ret ← lists length; pure (add_size 3 (negsuc 1) ret))
      else if type == 0xdd
      then (do length ← extract_uint32; ret ← lists length; pure (add_size 5 (negsuc 2) ret))
      else if type == 0xde
      then (do length ← extract_uint16; ret ← maps length; pure (add_size 3 (negsuc 3) ret))
      else if type == 0xdf
      then (do length ← extract_uint32; ret ← maps length; pure (add_size 5 (negsuc 4) ret))
      else if type == 0xd4
      then skip 2 >> pure (ok 3)
      else if type == 0xd5
      then skip 3 >> pure (ok 4)
      else if type == 0xd6
      then skip 5 >> pure (ok 6)
      else if type == 0xd7
      then skip 9 >> pure (ok 10)
      else if type == 0xd8
      then skip 17 >> pure (ok 18)
      else if type == 0xc7
      then (do length ← next_byte; skip (1 + length); pure (ok (3 + length)))
      else if type == 0xc8
      then (do length ← extract_uint16; skip (1 + length); pure (ok (4 + length)))
      else if type == 0xc9
      then (do length ← extract_uint32; skip (add32 1 length); pure (ok (add32 6 length)))
      else if bit_and type 0xe0 == 0xa0
      then (skip (bit_and type 0x1f) >> pure (ok (1 + bit_and type 0x1f)))
      else if bit_and type 0xf0 == 0x80
      then (do ret ← maps (bit_and type 0x0f); pure (add_size 1 (negsuc 5) ret))
      else if bit_and type 0xf0 == 0x90
      then (do ret ← lists (bit_and type 0x0f); pure (add_size 1 (negsuc 6) ret))
      else if ltb type 0x80
      then pure (ok 1)
      else if leb 0xe0 type
      then pure (ok 1)
      else pure (err (negsuc 7))

  unfoldable pub size_of_next : M (Result ℕ)
  unfolding size_as
  size_of_next pk =
      if leb pk.length pk.offset
      then some (err (negsuc 0), pk)
      else (do type ← next_byte; size_as type) pk

-- The recursive loops of `unpack_list_elements_size` and `unpack_map_elements_size`, with
-- `unpack_size_internal` for `next`.
module _ (next : M (Result ℕ)) where
  -- `if (ret < 0) { return code; }`, and else the rest with its total.
  abbrev pub and_total : ℤ → M (Result ℕ) → M (Result ℕ) → M (Result ℕ)
  and_total code first rest = do
    ret ← first
    elim ret [
      | err rc ↦ pure (err code)
      | ok n ↦ do total ← rest; pure (elim total [ ok t ↦ ok (n + t) | err rc ↦ err rc ])
    ]

  unfoldable pub list_loop : ℕ → M (Result ℕ)
  list_loop zero = pure (ok 0)
  list_loop (suc n) = and_total (negsuc 0) next (list_loop n)

  unfoldable pub map_loop : ℕ → M (Result ℕ)
  map_loop zero = pure (ok 0)
  map_loop (suc n) = and_total (negsuc 0) next (and_total (negsuc 1) next (map_loop n))

-- `msgpack_parse_state`, as far as sizes use it; `is_map` is `type == AS_MAP`.
pub record ParseState : Type 0 where
  pub len : ℕ
  pub index : ℕ
  pub map_pair : ℕ
  pub is_map : Bool

abbrev pub start_state : Bool → ℕ → ParseState
start_state is_map len = record { len = len; index = 0; map_pair = 0; is_map = is_map }

-- The states in the blocks of `msgpack_parse_memblock`, the current one first; those that are at their
-- end are taken off.
unfoldable pub unfinished : List ParseState → List ParseState
unfinished [] = []
unfinished (state ∷ block) =
    let rest = unfinished block in if leb state.len state.index then rest else state ∷ block

-- `state->index++`, for a map after the second of two values.
unfoldable pub count_value : ParseState → ParseState
count_value state =
    if state.is_map && state.map_pair == 0
    then record state { map_pair = 1 }
    else record state { map_pair = 0; index = add32 state.index 1 }

-- `msgpack_parse_state_list_size_init` and `msgpack_parse_state_map_size_init`
abbrev push_state : Bool → ℤ → Result ℕ → List ParseState → Result (List ParseState)
push_state is_map code (err rc) block = err code
push_state is_map code (ok len) block = ok (start_state is_map len ∷ block)

-- What one value does to the states; a list or map is entered, another value passed.
unfoldable pub enter_value : List ParseState → M (Result (List ParseState))
unfolding size_of_next
enter_value block = do
  type ← as_unpack_peek_type
  elim type [
    | ValType.undef ↦ pure (err (negsuc 1))
    | ValType.list ↦ do
      len ← as_unpack_list_header_element_count
      pure (push_state false (negsuc 2) len block)
    | ValType.map ↦ do
      len ← as_unpack_map_header_element_count
      pure (push_state true (negsuc 3) len block)
    | _ ↦ do
      ret ← size_of_next no_elements no_elements
      pure (elim ret [ ok n ↦ ok block | err rc ↦ err (negsuc 4) ])
  ]
  where
    no_elements : ℕ → M (Result ℕ)
    no_elements n = pure (err (negsuc 0))

-- `unpack_size_non_recursive`, with fuel; every round but the last reads a byte at least.
unfoldable pub unpack_size_non_recursive : ℕ → ℕ → List ParseState → M (Result ℕ)
unfolding enter_value unfinished count_value
unpack_size_non_recursive zero start block pk = none
unpack_size_non_recursive (suc fuel) start block pk = elim (unfinished block) [
  | [] ↦ some (ok (sub32 pk.offset start), pk)
  | state ∷ rest ↦ elim (enter_value (count_value state ∷ rest) pk) [
    | none ↦ none
    | some (err rc, pk') ↦ some (err rc, pk')
    | some (ok block', pk') ↦ unpack_size_non_recursive fuel start block' pk'
  ]
]

abbrev pub deep_size : Bool → ℕ → M (Result ℕ)
deep_size is_map len pk =
    unpack_size_non_recursive (suc pk.length) pk.offset (start_state is_map len ∷ []) pk

-- `unpack_size_internal`, with the levels of recursion left, `MSGPACK_COMPARE_MAX_DEPTH - depth`.
unfoldable pub unpack_size_internal : ℕ → M (Result ℕ)
unfolding size_of_next list_loop map_loop unpack_size_non_recursive
unpack_size_internal zero = size_of_next (deep_size false) (deep_size true)
unpack_size_internal (suc levels) =
    size_of_next (list_loop (unpack_size_internal levels)) (map_loop (unpack_size_internal levels))

unfoldable pub as_unpack_size : M (Result ℕ)
unfolding unpack_size_internal
as_unpack_size = unpack_size_internal msgpack_compare_max_depth
