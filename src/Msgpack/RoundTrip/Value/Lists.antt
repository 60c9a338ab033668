-- ===== src/Msgpack/RoundTrip/Value/Lists.antt =====
-- A packed list, read by `as_unpack_val` where its elements are read.
use aerospike_common.Common.{
  ℕ, suc, ◌+◌, ◌<◌, ◌^◌, ◌≡◌, ◌∙◌, sym, refl, arith, List, ◌++◌, Bool, false, ◌⊎◌, inl, inr, some,
  length, ◌==◌, length-append, append_assoc,
}
use native.Mathlib.Nat.{add-zero}
use aerospike_common.Val.{Val, Elements, list, element, no_elements, as_list_size}
use aerospike_common.Msgpack.Unpacker.{Unpacker, M, Result, ok}
use aerospike_common.Msgpack.Unpacker.Reads.{At, bind-some, advance}
use aerospike_common.Msgpack.Unpack.Header.{as_unpack_peek_is_ext}
use aerospike_common.Msgpack.Unpack.Value.{is_null, unpack_list, list_of, unpack_elements}
use aerospike_common.Msgpack.RoundTrip.Header.{
  list_header_bytes, as_unpack_list-At, read_list_header_bytes, length-list_header_bytes,
}
use aerospike_common.Msgpack.RoundTrip.Value.Heads.{Headed, list_header_bytes-Headed}
use aerospike_common.Msgpack.RoundTrip.Value.Types.{as_unpack_peek_is_ext-At, unpack_val_as-list}
use aerospike_common.Msgpack.RoundTrip.Value.Leaves.{Reads, unpack_next-Headed, advance-advance}

-- What stands first is no ext, or nothing is there.
abbrev pub IsPlain : ℕ → Unpacker → Type 0
IsPlain n pk = (n ≡ 0) ⊎ ((n == 0 ≡ false) × (as_unpack_peek_is_ext pk ≡ some (false, pk)))

pub IsPlain-Headed :
    (n : ℕ) (pk : Unpacker) {src : List ℕ} (rest : List ℕ)
    → Headed src
    → At pk (src ++ rest)
    → IsPlain (suc n) pk
IsPlain-Headed n pk rest h here =
    inr (ground arith, as_unpack_peek_is_ext-At pk h.head h.other (rw (h.splits) at here))

module _ (malloc realloc : ℕ → Bool) (sizeof_map : ℕ) (widen : ℕ → ℕ) (double_lt : ℕ → ℕ → Bool)
    (next : M (Result Val)) where
  -- The elements `xs` are to come, in the next `n` bytes.
  abbrev pub ReadsElements : Unpacker → Elements → ℕ → Type 0
  ReadsElements pk xs n =
      unpack_elements malloc realloc sizeof_map widen double_lt next (as_list_size xs) pk
      ≡ some (ok xs, advance pk n)

  pub ReadsElements-no_elements : (pk : Unpacker) → ReadsElements pk no_elements 0
  unfolding unpack_elements as_list_size
  ReadsElements-no_elements pk = rw add-zero refl

  pub ReadsElements-element :
      (pk : Unpacker) (x : Val) (xs : Elements) (a b : ℕ)
      → is_null x ≡ false
      → next pk ≡ some (ok x, advance pk a)
      → ReadsElements (advance pk a) xs b
      → ReadsElements pk (element x xs) (a + b)
  unfolding unpack_elements as_list_size
  ReadsElements-element pk x xs a b value first others =
      bind-some next _ pk (advance pk a) (ok x) first
      ∙ rw value (
          bind-some
            (unpack_elements malloc realloc sizeof_map widen double_lt next (as_list_size xs)) _
            (advance pk a) (advance (advance pk a) b) (ok xs) others
          ∙ rw (advance-advance pk a b) refl)

  plain_list :
      (n : ℕ) (pk : Unpacker)
      → IsPlain n pk
      → unpack_list malloc realloc sizeof_map widen double_lt next n pk
        ≡ list_of malloc realloc sizeof_map widen double_lt next 0 n pk
  unfolding unpack_list
  plain_list n pk (inl nothing) = rw nothing refl
  plain_list n pk (inr (something, plain)) =
      rw something (bind-some as_unpack_peek_is_ext _ pk pk false plain)

  pub Reads-list :
      (pk : Unpacker) (xs : Elements) (src rest : List ℕ)
      → as_list_size xs < 2 ^ 32
      → At pk ((list_header_bytes (as_list_size xs) ++ src) ++ rest)
      → IsPlain (as_list_size xs) (advance pk (length (list_header_bytes (as_list_size xs))))
      → ReadsElements (advance pk (length (list_header_bytes (as_list_size xs)))) xs (length src)
      → Reads malloc realloc sizeof_map widen double_lt next pk
          (list 0 xs)
          (length (list_header_bytes (as_list_size xs) ++ src))
  unfolding list_of
  Reads-list pk xs src rest small here plain elements =
      let n : ℕ = as_list_size xs in
      let header : List ℕ = list_header_bytes n in
      let headed = list_header_bytes-Headed n in
      let pk' : Unpacker = advance pk (length header) in
      let at : At pk (header ++ (src ++ rest)) = rw (append_assoc header src rest) at here in
      let (first, on) =
        unpack_next-Headed malloc realloc sizeof_map widen double_lt next pk (src ++ rest) headed
          at in
      let size =
        sym (as_unpack_list-At pk rest n headed.head (rw (headed.splits) at at))
        ∙ read_list_header_bytes pk (src ++ rest) n small at in
      on
      ∙ unpack_val_as-list widen _ _ _ headed.head (advance pk 1) pk' n headed.byte
          (rw (length-list_header_bytes n) size)
      ∙ plain_list n pk' plain
      ∙ bind-some (unpack_elements malloc realloc sizeof_map widen double_lt next n) _ pk'
          (advance pk' (length src)) (ok xs) elements
      ∙ rw (advance-advance pk (length header) (length src), length-append header src) refl
