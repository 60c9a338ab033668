-- ===== src/OrderedMap/Find.antt =====
-- The search of `key_find`.
use aerospike_common.Common.{
  ℕ, zero, suc, ◌+◌, ◌-◌, ◌≤◌, ◌<◌, ◌≡◌, refl, ap, ◌∙◌, Option-cases, arith, List, Option, none,
  some, Bool, true, false, length, leb, inl, inr,
}
use native.Mathlib.Decide.{dec_lt}
use aerospike_common.Val.Compare.{Comparison, less, equal, greater}
use aerospike_common.OrderedMap.{MapEntry, key_at, probe_ix, find_loop, key_find}

module _ {ℓ} {K V : Type ℓ} (cmp : K → K → Comparison) (table : List (MapEntry K V)) (key : K) where
  -- What the key compares to at an index.
  abbrev pub side : ℕ → Option Comparison
  side i = elim (key_at table i) [ none ↦ none | some k ↦ some (cmp key k) ]

  -- The place of the key: it is greater than the keys before `p` and less than those behind.
  pub record Divides (p : ℕ) : Type ℓ where
    pub place : p ≤ length table
    pub before : (i : ℕ) → i < p → side i ≡ some greater
    pub behind : (i : ℕ) → p < i → i < length table → side i ≡ some less

  -- The key is at `p`, or would go there.
  abbrev pub IsAt : ℕ → Bool → Type 0
  IsAt p true = (p < length table) × (side p ≡ some equal)
  IsAt p false = p < length table → side p ≡ some less

  probe :
      (i : ℕ) (c : Comparison)
      → side i ≡ some c
      → (k : K) × (key_at table i ≡ some k) × (cmp key k ≡ c)
  probe i c e = elim (Option-cases (key_at table i)) [
    | inl outside ↦ let broken : none ≡ some c = rw (outside, side) at e in cc
    | inr (k, here) ↦ let same : some (cmp key k) ≡ some c = rw (here, side) at e in (k, here, cc)
  ]

  -- One round of the loop, by what its probe compares to.
  module _ (fuel low stop : ℕ) (last : Bool) where
    abbrev ix : ℕ
    ix = probe_ix last low stop

    stops : stop ≤ low → find_loop cmp table key (suc fuel) low stop last ≡ some (false, low)
    unfolding find_loop
    stops h = ground arith

    goes_up :
        low < stop
        → side ix ≡ some greater
        → find_loop cmp table key (suc fuel) low stop last
          ≡ find_loop cmp table key fuel (ix + 1) stop false
    unfolding find_loop
    goes_up h e =
        let (k, here, c) = probe ix greater e in
        let more : leb stop low ≡ false = ground arith in rw (more, here, c) refl

    goes_down :
        low < stop
        → side ix ≡ some less
        → find_loop cmp table key (suc fuel) low stop last
          ≡ find_loop cmp table key fuel low ix false
    unfolding find_loop
    goes_down h e =
        let (k, here, c) = probe ix less e in
        let more : leb stop low ≡ false = ground arith in rw (more, here, c) refl

    hits :
        low < stop
        → side ix ≡ some equal
        → find_loop cmp table key (suc fuel) low stop last ≡ some (true, ix)
    unfolding find_loop
    hits h e =
        let (k, here, c) = probe ix equal e in
        let more : leb stop low ≡ false = ground arith in rw (more, here, c) refl

    inside : low < stop → (low ≤ ix) × (ix < stop)
    unfolding probe_ix
    inside h = ground arith

  module _ (p : ℕ) (d : Divides p) where
    find_loop_hit :
        (fuel low stop : ℕ) (last : Bool)
        → side p ≡ some equal
        → low ≤ p
        → p < stop
        → stop ≤ length table
        → stop - low < fuel
        → find_loop cmp table key fuel low stop last ≡ some (true, p)
    find_loop_hit zero low stop last e h1 h2 h3 h4 = absurd (omega arith)
    find_loop_hit (suc fuel) low stop last e h1 h2 h3 h4 =
        let more : low < stop = omega arith in
        let i = probe_ix last low stop in
        let (from, to) = inside fuel low stop last more in
        elim (dec_lt i p) [
          | yes under ↦
              goes_up fuel low stop last more (d.before i under)
              ∙ find_loop_hit fuel (i + 1) stop false e (omega arith) h2 h3 (omega arith)
          | no upper ↦ elim (dec_lt p i) [
            | yes over ↦
                goes_down fuel low stop last more (d.behind i over (omega arith))
                ∙ find_loop_hit fuel low i false e h1 over (omega arith) (omega arith)
            | no exact ↦
                let same : i ≡ p = omega arith in
                hits fuel low stop last more (rw same e) ∙ ap (λ n. some (true, n)) same
          ]
        ]

    not_before :
        (p < length table → side p ≡ some less)
        → (i : ℕ) → p ≤ i
        → i < length table
        → side i ≡ some less
    not_before at i h inner = elim (dec_lt p i) [
      | yes over ↦ d.behind i over inner
      | no exact ↦ let same : i ≡ p = omega arith in rw same (at (omega arith))
    ]

    find_loop_miss :
        (fuel low stop : ℕ) (last : Bool)
        → (p < length table → side p ≡ some less)
        → low ≤ p
        → p ≤ stop
        → stop ≤ length table
        → stop - low < fuel
        → find_loop cmp table key fuel low stop last ≡ some (false, p)
    find_loop_miss zero low stop last e h1 h2 h3 h4 = absurd (omega arith)
    find_loop_miss (suc fuel) low stop last e h1 h2 h3 h4 = elim (dec_lt low stop) [
      | no done ↦
          stops fuel low stop last (omega arith)
          ∙ ap (λ n. some (false, n)) (let same : low ≡ p = omega arith in same)
      | yes more ↦
          let i = probe_ix last low stop in
          let (from, to) = inside fuel low stop last more in
          elim (dec_lt i p) [
            | yes under ↦
                goes_up fuel low stop last more (d.before i under)
                ∙ find_loop_miss fuel (i + 1) stop false e (omega arith) h2 h3 (omega arith)
            | no upper ↦
                goes_down fuel low stop last more (not_before e i (omega arith) (omega arith))
                ∙ find_loop_miss fuel low i false e h1 (omega arith) (omega arith) (omega arith)
          ]
    ]

  -- Where the key divides the table, `key_find` reads only entries of the table, ends, and tells whether
  -- the key is there and at which place, wherever it probes first.
  pub key_find-Divides :
      (p : ℕ) (found last : Bool)
      → Divides p
      → IsAt p found
      → key_find cmp table key last ≡ some (found, p)
  unfolding key_find
  key_find-Divides p true last d (h, e) =
      find_loop_hit p d (suc (length table)) 0 (length table) last e (omega arith) h (omega arith)
        (omega arith)
  key_find-Divides p false last d e =
      find_loop_miss p d (suc (length table)) 0 (length table) last e (omega arith) d.place
        (omega arith) (omega arith)
