-- ===== src/StringBuilder.antt =====
-- src/main/aerospike/as_string_builder.c and src/include/aerospike/as_string_builder.h. A block is the
-- list of its bytes, a text the bytes before its NUL. `malloc` and `realloc` are those of the C library,
-- `none` for NULL; a NULL from the `cf_malloc` of `as_string_builder_init` is written through.
pub mod Append
mod Tests
use aerospike_common.Common.{
  ℕ, zero, suc, ◌+◌, ◌-◌, ◌*◌, ◌/◌, ◌%◌, ◌^◌, List, [], ◌∷◌, Option, none, some, Bool, true, false,
  ltb, if◌then◌else◌, add32, sub32, length, take, write, bit_and,
}

-- `as_string_builder`; `chars` is the block `data`.
pub record StringBuilder : Type 0 where
  pub chars : List ℕ
  pub capacity : ℕ
  pub length : ℕ
  pub resize : Bool
  pub free : Bool

-- `sb->data[i] = c`
abbrev pub put_char : StringBuilder → ℕ → ℕ → List ℕ
put_char sb i c = write sb.chars i (c ∷ [])

unfoldable pub as_string_builder_assign : ℕ → List ℕ → StringBuilder
as_string_builder_assign buffer_size buffer = record {
  chars = write buffer 0 (0 ∷ []);
  capacity = buffer_size;
  length = 0;
  resize = false;
  free = false;
}

unfoldable pub as_string_builder_reset : StringBuilder → StringBuilder
as_string_builder_reset sb = record sb { chars = put_char sb 0 0; length = 0 }

unfoldable pub as_sb_append_char : StringBuilder → ℕ → Bool × StringBuilder
as_sb_append_char sb value =
    if ltb (add32 sb.length 1) sb.capacity
    then (
      true,
      record sb {
        chars = write (put_char sb sb.length value) (sb.length + 1) (0 ∷ []);
        length = sb.length + 1;
      },
    )
    else (false, sb)

module _ (malloc : ℕ → Option (List ℕ)) (realloc : List ℕ → ℕ → Option (List ℕ)) where
  unfoldable pub as_string_builder_init : ℕ → Bool → Option StringBuilder
  as_string_builder_init capacity resize = elim (malloc capacity) [
    | none ↦ none
    | some chars ↦ some (record {
      chars = write chars 0 (0 ∷ []);
      capacity = capacity;
      length = 0;
      resize = resize;
      free = true;
    })
  ]

  unfoldable pub as_sb_increase_capacity : StringBuilder → ℕ → Bool × StringBuilder
  as_sb_increase_capacity sb min_capacity =
      let doubled = sb.capacity * 2 % 2 ^ 32 in
      let capacity = if ltb doubled min_capacity then min_capacity else doubled in
      if sb.free
      then elim (realloc sb.chars capacity) [
        | none ↦ (false, sb)
        | some chars ↦ (true, record sb { chars = chars; capacity = capacity })
      ]
      else elim (malloc capacity) [
        | none ↦ (false, sb)
        | some chars ↦ (
          true,
          record sb {
            chars = write (write chars 0 (take sb.length sb.chars)) sb.length (0 ∷ []);
            capacity = capacity;
            free = true;
          },
        )
      ]

  unfoldable pub as_sb_expand : StringBuilder → List ℕ → Bool × StringBuilder
  unfolding as_sb_increase_capacity
  as_sb_expand sb src =
      let min_capacity = add32 (add32 sb.length (length src)) 1 in
      let (grown, sb') = as_sb_increase_capacity sb min_capacity in
      let sum = add32 sb'.length (length src) in
      if grown
      then (
        true,
        record sb' { chars = write (write sb'.chars sb'.length src) sum (0 ∷ []); length = sum },
      )
      else (false, sb')

  -- The loop writes at `&data[length]`, and the NUL where it ends.
  unfoldable pub as_string_builder_append : StringBuilder → List ℕ → Bool × StringBuilder
  unfolding as_sb_expand
  as_string_builder_append sb [] = (true, record sb { chars = put_char sb sb.length 0 })
  as_string_builder_append sb (c ∷ src) =
      let rest =
        as_string_builder_append
          (record sb { chars = put_char sb sb.length c; length = sb.length + 1 }) src in
      if ltb (add32 sb.length 1) sb.capacity
      then rest
      else if sb.resize
      then as_sb_expand sb (c ∷ src)
      else (false, record sb { chars = put_char sb sb.length 0 })

  unfoldable pub as_string_builder_append_char : StringBuilder → ℕ → Bool × StringBuilder
  unfolding as_sb_append_char as_sb_expand
  as_string_builder_append_char sb value =
      let (fits, sb') = as_sb_append_char sb value in
      if fits then (true, sb') else if sb.resize then as_sb_expand sb (value ∷ []) else (false, sb)
