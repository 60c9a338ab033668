-- ===== src/StringBuilder/Tests.antt =====
-- A text put into a buffer of four bytes.
use aerospike_common.Common.{ℕ, ◌≡◌, refl, arith, List, [], ◌∷◌, none, false, Option}
use aerospike_common.StringBuilder.{
  StringBuilder, as_string_builder_assign, as_string_builder_append,
}
use aerospike_common.StringBuilder.Append.{IsSized, Holds, as_string_builder_append_lem}

abbrev four_bytes : StringBuilder
four_bytes = record {
  chars = 65 ∷ 0 ∷ 7 ∷ 7 ∷ [];
  capacity = 4;
  length = 1;
  resize = false;
  free = false;
}

four_bytes-IsSized : IsSized four_bytes
four_bytes-IsSized = record { sized = refl; inside = omega arith; small = omega arith }

abbrev no_block : ℕ → Option (List ℕ)
no_block n = none

as_string_builder_append_lem_example :
    let r = as_string_builder_append no_block (λ d. no_block) four_bytes (66 ∷ 67 ∷ 68 ∷ []) in
    (r.0 ≡ false) × Holds r.1 4 (65 ∷ 66 ∷ 67 ∷ 68 ∷ [])
as_string_builder_append_lem_example =
    as_string_builder_append_lem no_block (λ d. no_block) four_bytes (66 ∷ 67 ∷ 68 ∷ []) refl
      four_bytes-IsSized

assign_empty :
    as_string_builder_assign 4 (1 ∷ 2 ∷ 3 ∷ 4 ∷ [])
    ≡ record { chars = 0 ∷ 2 ∷ 3 ∷ 4 ∷ []; capacity = 4; length = 0; resize = false; free = false }
unfolding as_string_builder_assign
assign_empty = refl
