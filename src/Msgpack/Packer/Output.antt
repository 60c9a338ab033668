-- ===== src/Msgpack/Packer/Output.antt =====
-- What a packer has written, and what one raw write adds to it.
use aerospike_common.Common.{
  ℕ, zero, suc, refl, ◌∙◌, ◌+◌, ◌≤◌, ◌<◌, ◌≡◌, ◌≢◌, sym, List, [], ◌∷◌, ◌++◌, append_assoc,
  append-nil,
}
use aerospike_common.Common.{
  Option, none, some, Bool, true, false, ltb, arith, if◌then◌else◌, Bool-cases, Option-cases, inl,
  inr,
}
use aerospike_common.Common.{
  length, take, drop, drop-append, leb, length-append, length-take, length-drop, take_append, ℤ,
  pos, negsuc,
}
use aerospike_common.Msgpack.Packer.{
  Packer, PackerBuffer, Malloc, and_then, int32_max, overwrite, store, advance_offset,
}
use aerospike_common.Msgpack.Packer.{pack_resize, pack_append}

-- The first `n` bytes of a buffer.
abbrev pub filled : Option (List ℕ) → ℕ → List ℕ
filled none n = []
filled (some b) n = take n b

abbrev pub chunks : List PackerBuffer → List ℕ
chunks [] = []
chunks (e ∷ es) = filled e.buffer e.length ++ chunks es

-- All the bytes packed so far: those of the full buffers, then those of the current one.
abbrev pub output : Packer → List ℕ
output pk = chunks pk.entries ++ filled pk.buffer pk.offset

abbrev pub Holds : Option (List ℕ) → ℕ → ℕ → Type 0
Holds none offset capacity = ⊥
Holds (some b) offset capacity =
    (length b ≡ capacity) × (offset ≤ capacity) × (capacity ≤ int32_max)

-- A packer with a buffer of its capacity, and not past its end.
abbrev pub IsReady : Packer → Type 0
IsReady pk = Holds pk.buffer pk.offset pk.capacity

-- The result of a write, if it is 0, leaves the packer ready with `src` added to its output.
abbrev pub Appended : Packer → List ℕ → ℤ × Packer → Type 0
Appended pk src r = r.0 ≡ pos 0 → IsReady r.1 × (output r.1 ≡ output pk ++ src)

-- `malloc(n)` gives blocks of `n` bytes.
abbrev pub IsSized : Malloc → Type 0
IsSized malloc = (n : ℕ) (b : List ℕ) → malloc n ≡ some b → length b ≡ n

chunks-append :
    (es : List PackerBuffer) (e : PackerBuffer)
    → chunks (es ++ (e ∷ [])) ≡ chunks es ++ filled e.buffer e.length
chunks-append [] e = append-nil (filled e.buffer e.length)
chunks-append (d ∷ es) e =
    rw (chunks-append es e) (sym (append_assoc (filled d.buffer d.length) (chunks es) _))

-- A write that fits the block.
length-overwrite :
    (b src : List ℕ) (i : ℕ) → i + length src ≤ length b → length (overwrite b i src) ≡ length b
length-overwrite b src i fits = omega (
  arith,
  length-append (take i b) (src ++ drop (i + length src) b),
  length-append src (drop (i + length src) b),
  length-take i b,
  length-drop (i + length src) b,
)

take-overwrite :
    (b src : List ℕ) (i : ℕ)
    → i + length src ≤ length b
    → take (i + length src) (overwrite b i src) ≡ take i b ++ src
take-overwrite b src i fits =
    let written : List ℕ = take i b ++ src in
    let size : length written ≡ i + length src =
      omega (arith, length-append (take i b) src, length-take i b) in
    rw (← append_assoc (take i b) src (drop (i + length src) b))
      (rw size at (take_append written (drop (i + length src) b)))

store_fits_block :
    (pk : Packer) (src b : List ℕ)
    → pk.buffer ≡ some b
    → IsReady pk
    → pk.offset + length src ≤ pk.capacity
    → let r = advance_offset (store pk src) (length src) in
      (r.0 ≡ pos 0) × IsReady r.1 × (output r.1 ≡ output pk ++ src)
unfolding advance_offset store
store_fits_block pk src b e ready fits = ground (
  arith,
  length-overwrite b src pk.offset,
  take-overwrite b src pk.offset,
  append_assoc (chunks pk.entries) (take pk.offset b) src,
)

-- A store that fits the current buffer is appended to the output.
store_fits :
    (pk : Packer) (src : List ℕ)
    → IsReady pk
    → pk.offset + length src ≤ pk.capacity
    → let r = advance_offset (store pk src) (length src) in
      (r.0 ≡ pos 0) × IsReady r.1 × (output r.1 ≡ output pk ++ src)
store_fits pk src ready fits = elim (Option-cases pk.buffer) [
  | inl no_block ↦ absurd (ground arith)
  | inr (b, block) ↦ store_fits_block pk src b block ready fits
]

pack_append_fits :
    (malloc : Malloc) (pk : Packer) (src : List ℕ) (resize : Bool)
    → IsReady pk
    → pk.offset + length src ≤ pk.capacity
    → pack_append malloc pk src resize ≡ advance_offset (store pk src) (length src)
unfolding pack_append
pack_append_fits malloc pk src resize ready fits = ground arith

pack_append_full :
    (malloc : Malloc) (pk : Packer) (src : List ℕ)
    → IsReady pk
    → length src ≤ int32_max
    → pk.capacity < pk.offset + length src
    → pack_append malloc pk src false ≡ (negsuc 0, pk)
unfolding pack_append
pack_append_full malloc pk src ready small full = ground arith

pack_resize-IsReady :
    (malloc : Malloc) (pk : Packer) (sz : ℕ)
    → IsSized malloc
    → IsReady pk
    → sz ≤ int32_max
    → let r = pack_resize malloc pk sz in
      r.0 ≡ pos 0 → IsReady r.1 × (r.1.offset + sz ≤ r.1.capacity) × (output r.1 ≡ output pk)
unfolding pack_resize
pack_resize-IsReady malloc pk sz sized ready small h =
    let newcap : ℕ = if ltb pk.capacity sz then sz else pk.capacity in
    elim (Option-cases (malloc newcap)) [
      | inl no_block ↦ ground arith
      | inr (b, block) ↦ ground (
        arith,
        sized newcap b block,
        chunks-append pk.entries (record { buffer = pk.buffer; length = pk.offset }),
        append-nil (chunks pk.entries ++ filled pk.buffer pk.offset),
      )
    ]

-- One raw write adds its bytes to the output.
pub pack_append-Appended :
    (malloc : Malloc) (pk : Packer) (src : List ℕ) (resize : Bool)
    → IsSized malloc
    → IsReady pk
    → length src ≤ int32_max
    → Appended pk src (pack_append malloc pk src resize)
unfolding pack_append
pack_append-Appended malloc pk src resize sized ready small = λ h. ground (
  arith,
  store_fits pk src,
  pack_resize-IsReady malloc pk (length src) sized ready small,
  store_fits (pack_resize malloc pk (length src)).1 src,
)

-- The outcome of a write into a buffer that may not grow: all of `src` is added where it fits, and
-- nothing where it does not.
abbrev pub seen : ℤ × Packer → ℤ × List ℕ
seen r = (r.0, output r.1)

abbrev pub Bounded : Packer → ℕ → List ℕ → ℤ × Packer → Type 0
Bounded pk n src r =
    IsReady r.1
    × (seen r ≡ (
        if leb (pk.offset + n) pk.capacity
        then (pos 0, output pk ++ src)
        else (negsuc 0, output pk)))

pub pack_append-Bounded :
    (malloc : Malloc) (pk : Packer) (src : List ℕ)
    → IsReady pk
    → length src ≤ int32_max
    → Bounded pk (length src) src (pack_append malloc pk src false)
pack_append-Bounded malloc pk src ready small =
    elim (Bool-cases (leb (pk.offset + length src) pk.capacity)) [
      | inl fits ↦ ground (arith, pack_append_fits malloc pk src false, store_fits pk src)
      | inr full ↦ ground (arith, pack_append_full malloc pk src)
    ]

-- The bytes that `pk'` has and `pk` has not.
abbrev pub added : Packer → Packer → List ℕ
added pk pk' = drop (length (output pk)) (output pk')

pub added-Appended :
    (pk : Packer) (src : List ℕ) (r : ℤ × Packer)
    → Appended pk src r
    → r.0 ≡ pos 0
    → added pk r.1 ≡ src
added-Appended pk src r h done = rw ((h done).1) (drop-append (output pk) src)

-- `malloc(n)` never answers NULL.
abbrev pub IsTotal : Malloc → Type 0
IsTotal malloc = (n : ℕ) → malloc n ≢ none

pack_resize-IsTotal :
    (malloc : Malloc) (pk : Packer) (sz : ℕ) → IsTotal malloc → (pack_resize malloc pk sz).0 ≡ pos 0
unfolding pack_resize
pack_resize-IsTotal malloc pk sz total =
    ground (arith, total 24, total (if ltb pk.capacity sz then sz else pk.capacity))

-- While memory lasts, a write into a buffer that may grow succeeds.
pub pack_append-IsTotal :
    (malloc : Malloc) (pk : Packer) (src : List ℕ)
    → IsSized malloc
    → IsTotal malloc
    → IsReady pk
    → length src ≤ int32_max
    → (pack_append malloc pk src true).0 ≡ pos 0
unfolding pack_append
pack_append-IsTotal malloc pk src sized total ready small = ground (
  arith,
  store_fits pk src,
  pack_resize-IsTotal malloc pk (length src) total,
  pack_resize-IsReady malloc pk (length src) sized ready small,
  store_fits (pack_resize malloc pk (length src)).1 src,
)

-- With no buffer a write only counts.
pub pack_append_counts :
    (malloc : Malloc) (pk : Packer) (src : List ℕ) (resize : Bool)
    → pk.buffer ≡ none
    → pk.offset + length src ≤ int32_max
    → pack_append malloc pk src resize ≡ (pos 0, record pk { offset = pk.offset + length src })
unfolding pack_append advance_offset
pack_append_counts malloc pk src resize e fits = ground arith

-- Two writes, one after the other.
pub Appended-and_then :
    (pk : Packer) (a b : List ℕ) (r : ℤ × Packer) (f : Packer → ℤ × Packer)
    → Appended pk a r
    → (IsReady r.1 → Appended r.1 b (f r.1))
    → Appended pk (a ++ b) (and_then r f)
Appended-and_then pk a b (negsuc n, pk') f first second = λ h. cc
Appended-and_then pk a b (pos zero, pk') f first second = λ h.
    let (ready, out) = first refl in
    let (ready', out') = second ready h in (ready', out' ∙ rw (out, append_assoc (output pk) a b))
Appended-and_then pk a b (pos (suc n), pk') f first second = λ h. absurd (ground arith)
