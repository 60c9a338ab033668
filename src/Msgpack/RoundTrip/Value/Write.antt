-- ===== src/Msgpack/RoundTrip/Value/Write.antt =====
-- `as_pack_val` writes the packed form of a value.
use aerospike_common.Common.{
  ℕ, zero, suc, ◌+◌, ◌-◌, ◌≤◌, ◌<◌, ◌^◌, ◌%◌, ◌≡◌, refl, arith, List, [], ◌∷◌, ◌++◌, Bool, true,
  false, not, ◌&&◌, ◌==◌, if◌then◌else◌, bit_and, length, ℤ, pos, negsuc, is_zero, append_assoc,
  add32, sym, Bool-cases, inl, inr, append-nil,
}
use aerospike_common.Val.{
  Val, Elements, Entries, null, undef, nil, cmp_wildcard, cmp_inf, rec, boolean, integer, double,
  string, geojson, bytes, list, map, pair, no_elements, element, no_entries, entry, as_list_size,
  as_map_size,
}
use aerospike_common.Msgpack.Packer.{
  Packer, Malloc, and_then, int32_max, pack_append, pack_byte, pack_type_uint8, pack_type_uint64,
}
use aerospike_common.Msgpack.Packer.Output.{
  Appended, Appended-and_then, IsReady, IsSized, IsTotal, output, pack_append-Appended,
  pack_append-IsTotal,
}
use aerospike_common.Msgpack.Pack.Number.{
  pack_double, pack_nil_internal, as_pack_inf_internal, as_pack_wildcard_internal,
}
use aerospike_common.Msgpack.Pack.Blob.{
  pack_string, pack_geojson, pack_bytes, pack_string_header, pack_byte_array_header,
  as_bytes_string, as_bytes_geojson,
}
use aerospike_common.Msgpack.Pack.Header.{
  pack_map_header_internal, pack_ext_header_internal, pack_ext_size,
}
use aerospike_common.Msgpack.Pack.Value.{
  as_packed_map_flag_k_ordered, as_packed_map_flag_v_ordered, pack_as_boolean, pack_as_integer,
  pack_as_double, pack_list_header, pack_map_start, as_pack_val, pack_list_foreach,
  pack_map_foreach,
}
use aerospike_common.Msgpack.RoundTrip.Number.{int64_bytes, pack_int64-bytes}
use aerospike_common.Msgpack.RoundTrip.Integer.{bytes_small}
use aerospike_common.Msgpack.RoundTrip.Blob.{
  string_header_bytes, string_header_bounds, string_header-bytes,
}
use aerospike_common.Msgpack.RoundTrip.Header.{
  list_header_bytes, map_header_bytes, list_header_bytes_small, map_header_bytes_small,
  map_header-bytes, pack_list_header-bytes,
}
use aerospike_common.Msgpack.RoundTrip.Value.{
  blob_bytes, map_start_bytes, val_bytes, elements_bytes, entries_bytes, IsPackable, ArePackable,
  AreEntriesPackable,
}

-- A function that appends `src` where it succeeds, and succeeds while there is memory.
pub record Writes (malloc : Malloc) (src : List ℕ) (f : Packer → ℤ × Packer) : Type 0 where
  pub appends : (pk : Packer) → IsReady pk → Appended pk src (f pk)
  pub succeeds : (pk : Packer) → IsReady pk → IsTotal malloc → (f pk).0 ≡ pos 0

not-false : (b : Bool) → not b ≡ false → b ≡ true
not-false true h = refl
not-false false h = sym h

-- `rc == 0 ? rc : code`
abbrev failing_with : ℤ → ℤ × Packer → ℤ × Packer
failing_with code r = if is_zero r.0 then r else (code, r.1)

Appended-failing_with :
    (code : ℤ) (pk : Packer) (src : List ℕ) (r : ℤ × Packer)
    → is_zero code ≡ false
    → Appended pk src r
    → Appended pk src (failing_with code r)
Appended-failing_with code pk src (pos zero, pk') fails h = h
Appended-failing_with code pk src (pos (suc n), pk') fails h = λ done. absurd (ground arith)
Appended-failing_with code pk src (negsuc n, pk') fails h = λ done. absurd (ground arith)

module _ (malloc : Malloc) (sized : IsSized malloc) where
  Writes-as :
      (src : List ℕ) (f : Packer → ℤ × Packer)
      → length src ≤ int32_max
      → ((pk : Packer) → f pk ≡ pack_append malloc pk src true)
      → Writes malloc src f
  Writes-as src f small same = record {
    appends = λ pk ready. rw (same pk) (pack_append-Appended malloc pk src true sized ready small);
    succeeds =
        λ pk ready total. rw (same pk) (pack_append-IsTotal malloc pk src sized total ready small);
  }

  Writes-pack_append :
      (src : List ℕ)
      → length src ≤ int32_max
      → Writes malloc src (λ pk. pack_append malloc pk src true)
  Writes-pack_append src small =
      Writes-as src (λ pk. pack_append malloc pk src true) small (λ pk. refl)

  Writes-nothing : Writes malloc [] (λ pk. (pos 0, pk))
  Writes-nothing = record {
    appends = λ pk ready done. (ready, sym (append-nil (output pk)));
    succeeds = λ pk ready total. refl;
  }

  Writes-and_then :
      {a b : List ℕ} {f g : Packer → ℤ × Packer}
      → Writes malloc a f
      → Writes malloc b g
      → Writes malloc (a ++ b) (λ pk. and_then (f pk) g)
  Writes-and_then {a} {b} {f} {g} first second = record {
    appends = λ pk ready.
        Appended-and_then pk a b (f pk) g (first.appends pk ready) (second.appends (f pk).1);
    succeeds = λ pk ready total.
        (let done = first.succeeds pk ready total in
          rw done (second.succeeds (f pk).1 (first.appends pk ready done).0 total));
  }

  Writes-failing_with :
      (code : ℤ) {src : List ℕ} {f : Packer → ℤ × Packer}
      → is_zero code ≡ false
      → Writes malloc src f
      → Writes malloc src (λ pk. failing_with code (f pk))
  Writes-failing_with code {src} {f} fails writes = record {
    appends = λ pk ready. Appended-failing_with code pk src (f pk) fails (writes.appends pk ready);
    succeeds = λ pk ready total. (let done = writes.succeeds pk ready total in rw done refl);
  }

  Writes-blob :
      (type : ℕ) (s : List ℕ)
      → length s ≤ int32_max
      → Writes malloc (blob_bytes type s) (λ pk.
        and_then
          (and_then
            (pack_string_header malloc pk (add32 (length s) 1) true)
            (λ pk'. pack_append malloc pk' (type ∷ []) true))
          (λ pk'. pack_append malloc pk' s true))
  Writes-blob type s small =
      let n : ℕ = length s + 1 in
      let wraps : add32 (length s) 1 ≡ n = omega arith in
      let header =
        Writes-as (string_header_bytes n) (λ pk. pack_string_header malloc pk n true)
          (omega (arith, string_header_bounds n)) (λ pk. string_header-bytes malloc pk n true) in
      rw (wraps, ← append_assoc (string_header_bytes n) (type ∷ []) s)
        (Writes-and_then (Writes-and_then header (Writes-pack_append (type ∷ []) (omega arith)))
          (Writes-pack_append s small))

  Writes-list_header :
      (n : ℕ) → Writes malloc (list_header_bytes n) (λ pk. pack_list_header malloc pk n)
  Writes-list_header n =
      Writes-as (list_header_bytes n) (λ pk. pack_list_header malloc pk n)
        (omega (arith, list_header_bytes_small n)) (λ pk. pack_list_header-bytes malloc pk n)

  Writes-map_header :
      (n : ℕ) → Writes malloc (map_header_bytes n) (λ pk. pack_map_header_internal malloc pk n true)
  Writes-map_header n =
      Writes-as (map_header_bytes n) (λ pk. pack_map_header_internal malloc pk n true)
        (omega (arith, map_header_bytes_small n)) (λ pk. map_header-bytes malloc pk n true)

  Writes-map_start :
      (flags n : ℕ)
      → n < 2 ^ 32 - 1
      → ((bit_and flags as_packed_map_flag_k_ordered == 0)
            && not (bit_and flags as_packed_map_flag_v_ordered == 0)
          ≡ false)
      → Writes malloc (map_start_bytes flags n) (λ pk. pack_map_start malloc pk flags n)
  unfolding pack_map_start map_start_bytes pack_ext_header_internal pack_ext_size pack_nil_internal
      pack_byte pack_type_uint8
  Writes-map_start flags n small orders =
      elim (Bool-cases (bit_and flags as_packed_map_flag_k_ordered == 0)) [
        | inl unordered ↦
            let no_order : (bit_and flags as_packed_map_flag_v_ordered == 0) ≡ true =
              not-false _ (rw unordered at orders) in
            rw (unordered, no_order) (Writes-failing_with (negsuc 0) refl (Writes-map_header n))
        | inr ordered ↦
            let one_more : add32 n 1 ≡ n + 1 = omega arith in
            let ext =
              Writes-and_then (Writes-pack_append (0xc7 ∷ 0 ∷ []) (omega arith))
                (Writes-pack_append (flags % 2 ^ 8 ∷ []) (omega arith)) in
            rw
              (
                ordered,
                one_more,
                ← append_assoc (map_header_bytes (n + 1)) (0xc7 ∷ 0 ∷ flags % 2 ^ 8 ∷ [])
                    (0xc0 ∷ []),
              )
              (Writes-and_then (Writes-and_then (Writes-map_header (n + 1)) ext)
                (Writes-pack_append (0xc0 ∷ []) (omega arith)))
      ]

  mutual
    unfolding val_bytes as_pack_val IsPackable pack_as_boolean pack_as_integer pack_as_double
        pack_byte pack_type_uint64 pack_double as_pack_inf_internal as_pack_wildcard_internal
        pack_string pack_geojson pack_bytes pack_byte_array_header

    as_pack_val-Writes :
        (v : Val) → IsPackable v → Writes malloc (val_bytes v) (λ pk. as_pack_val malloc pk v)
    as_pack_val-Writes null h = absurd h
    as_pack_val-Writes undef h = absurd h
    as_pack_val-Writes rec h = absurd h
    as_pack_val-Writes nil h = Writes-pack_append _ (omega arith)
    as_pack_val-Writes (boolean b) h = Writes-pack_append _ (omega arith)
    as_pack_val-Writes (integer i) h =
        Writes-as (int64_bytes i) _ (bytes_small i) (λ pk. pack_int64-bytes malloc pk true i)
    as_pack_val-Writes (double d) h = Writes-pack_append _ (omega arith)
    as_pack_val-Writes (string s) h = Writes-blob as_bytes_string s h
    as_pack_val-Writes (geojson s) h = Writes-blob as_bytes_geojson s h
    as_pack_val-Writes (bytes type b) h = Writes-blob (type % 2 ^ 8) b h
    as_pack_val-Writes (list flags xs) h =
        Writes-and_then (Writes-list_header (as_list_size xs))
          (Writes-failing_with (pos 1) refl (pack_list_foreach-Writes xs h))
    as_pack_val-Writes (map flags es) h =
        Writes-and_then (Writes-map_start flags (as_map_size es) h.0 h.1)
          (Writes-failing_with (pos 1) refl (pack_map_foreach-Writes es h.2))
    as_pack_val-Writes (pair x y) h =
        Writes-and_then
          (Writes-and_then (Writes-pack_append (0x92 ∷ []) (omega arith))
            (as_pack_val-Writes x h.0))
          (as_pack_val-Writes y h.1)
    as_pack_val-Writes cmp_wildcard h = Writes-pack_append _ (omega arith)
    as_pack_val-Writes cmp_inf h = Writes-pack_append _ (omega arith)

    pack_list_foreach-Writes :
        (xs : Elements)
        → ArePackable xs
        → Writes malloc (elements_bytes xs) (λ pk. pack_list_foreach malloc pk xs)
    pack_list_foreach-Writes no_elements h = Writes-nothing
    pack_list_foreach-Writes (element x xs) h =
        Writes-and_then (as_pack_val-Writes x h.0) (pack_list_foreach-Writes xs h.1)

    pack_map_foreach-Writes :
        (es : Entries)
        → AreEntriesPackable es
        → Writes malloc (entries_bytes es) (λ pk. pack_map_foreach malloc pk es)
    pack_map_foreach-Writes no_entries h = Writes-nothing
    pack_map_foreach-Writes (entry k v es) h =
        Writes-and_then (Writes-and_then (as_pack_val-Writes k h.0) (as_pack_val-Writes v h.1))
          (pack_map_foreach-Writes es h.2)

  -- While `malloc` gives memory, `as_pack_val` of a packable value into a ready packer returns 0 and adds
  -- the packed form of the value to what the packer holds, over as many buffers as it takes.
  pub as_pack_val_lem :
      (pk : Packer) (v : Val)
      → IsTotal malloc
      → IsReady pk
      → IsPackable v
      → let r = as_pack_val malloc pk v in
        (r.0 ≡ pos 0) × IsReady r.1 × (output r.1 ≡ output pk ++ val_bytes v)
  as_pack_val_lem pk v total ready packable =
      let writes = as_pack_val-Writes v packable in
      let done = writes.succeeds pk ready total in
      let (ready', out) = writes.appends pk ready done in (done, ready', out)
