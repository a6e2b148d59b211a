-- ===== src/Refcnt/Counts.antt =====
-- What a change does to the counts, and what it returns.
use mlx5_netperf.Prelude.Update.{get_elem?-set}
use mlx5_netperf.Prelude.{
  inl, inr, ℕ, zero, suc, ◌+◌, ◌-◌, ◌*◌, ◌/◌, ◌%◌, ◌^◌, ◌<◌, ◌≡◌, refl, ap, ◌∙◌, true, false,
  Option, none, some, arith, ltb, ◌==◌, ◌&&◌, if◌then◌else◌, get_elem?, set, replicate,
  Option-cases, Bool-cases,
}
use mlx5_netperf.Prelude.Word.{u16}
use mlx5_netperf.Prelude.Outcome.{ok}
use mlx5_netperf.Refcnt.{
  Refcnts, read_count, write_count, server_change_refcnt, alloc_arrays, server_init_refcnt_array,
}

-- The count of a virtual segment: segment `index % n` of array `index / n`.
abbrev pub count : Refcnts → ℕ → Option ℕ
count r index = read_count r (index / r.num_total_segments) (index % r.num_total_segments)

-- Writing one physical count changes it and no other.
read-write :
    (r : Refcnts) (a s a' s' n : ℕ) {c : ℕ}
    → read_count r a s ≡ some c
    → read_count (write_count r a s n) a' s'
      ≡ (if (a == a') && (s == s') then some n else read_count r a' s')
unfolding read_count write_count
read-write r a s a' s' n {c} h = elim (Option-cases (get_elem? r.arrays a)) [
  | inl missing ↦ ground (arith, missing)
  | inr (counts, found) ↦
      let there : get_elem? counts s ≡ some c = ground (arith, found) in
      ground (
        arith,
        found,
        there,
        get_elem?-set r.arrays a a' (set counts s n) found,
        get_elem?-set counts s s' n there,
      )
]

-- Two virtual segments are the same if both parts are.
same_segment : (i j n : ℕ) → 0 < n → ((i / n == j / n) && (i % n == j % n)) ≡ (i == j)
same_segment i j n p = grind arith

total-write :
    (r : Refcnts) (a s n : ℕ) → (write_count r a s n).num_total_segments ≡ r.num_total_segments
unfolding write_count
total-write r a s n = elim (Option-cases (get_elem? r.arrays a)) [
  | inl missing ↦ ground (arith, missing)
  | inr (counts, found) ↦ ground (arith, found)
]

count-write :
    (r : Refcnts) (i j n : ℕ) {c : ℕ}
    → 0 < r.num_total_segments
    → count r i ≡ some c
    → count (write_count r (i / r.num_total_segments) (i % r.num_total_segments) n) j
      ≡ (if i == j then some n else count r j)
unfolding write_count
count-write r i j n p h =
    let t = r.num_total_segments in
    rw (total-write r (i / t) (i % t) n) (
      read-write r (i / t) (i % t) (j / t) (j % t) n h
      ∙ ap (λ b. if b then some n else count r j) (same_segment i j t p))

-- A segment with a count has it counted up by `server_change_refcnt(index, 1)`, modulo 2^16: the
-- new count is returned, and no other virtual segment's count changes.
pub change_up :
    (r : Refcnts) (i c : ℕ)
    → 0 < r.num_total_segments
    → count r i ≡ some c
    → (r' : Refcnts) × (server_change_refcnt r i 1 ≡ ok (u16 (c + 1), r'))
      × ((j : ℕ) → count r' j ≡ (if i == j then some (u16 (c + 1)) else count r j))
      × (r'.num_total_segments ≡ r.num_total_segments)
unfolding server_change_refcnt
change_up r i c p h =
    let t = r.num_total_segments in
    let nonzero : (t == 0) ≡ false = ground arith in
    (
      write_count r (i / t) (i % t) (u16 (c + 1)),
      rw (nonzero, h) (ground arith),
      λ j. count-write r i j (u16 (c + 1)) p h,
      total-write r (i / t) (i % t) (u16 (c + 1)),
    )

-- `server_change_refcnt(index, -1)` counts a positive count down by one and leaves every other
-- virtual segment's count alone; but what it returns is 2^16 less the new count (0 for 0), where
-- counting up returns the new count itself.
pub change_down :
    (r : Refcnts) (i c : ℕ)
    → 0 < r.num_total_segments
    → c < 2 ^ 16
    → 0 < c
    → count r i ≡ some c
    → (r' : Refcnts) × (server_change_refcnt r i (2 ^ 16 - 1)
        ≡ ok ((2 ^ 16 - (c - 1)) % 2 ^ 16, r'))
      × ((j : ℕ) → count r' j ≡ (if i == j then some (c - 1) else count r j))
      × (r'.num_total_segments ≡ r.num_total_segments)
unfolding server_change_refcnt
change_down r i c p b q h =
    let t = r.num_total_segments in
    let nonzero : (t == 0) ≡ false = ground arith in
    let new : u16 (c + 2 ^ 16 - 1) ≡ c - 1 = omega arith in
    (
      write_count r (i / t) (i % t) (c - 1),
      rw (nonzero, h, new),
      λ j. count-write r i j (c - 1) p h,
      total-write r (i / t) (i % t) (c - 1),
    )

get_elem?-replicate {ℓ} :
    {A : Type ℓ} (n i : ℕ) (a : A)
    → get_elem? (replicate n a) i ≡ (if ltb i n then some a else none)
get_elem?-replicate zero i a = ground arith
get_elem?-replicate (suc n) zero a = ground arith
get_elem?-replicate (suc n) (suc i) a = ground (arith, get_elem?-replicate n i a)

alloc_arrays_lem :
    (n items : ℕ)
    → alloc_arrays (replicate n true) n items ≡ ok (replicate n (replicate {A = ℕ} items 1))
unfolding alloc_arrays
alloc_arrays_lem zero items = refl
alloc_arrays_lem (suc n) items = rw (alloc_arrays_lem n items)

in_range : (i n t : ℕ) → 0 < t → ltb (i / t) n ≡ ltb i (n * t)
in_range i n t p = grind arith

-- With memory for every array, `server_init_refcnt_array` gives every virtual segment below
-- arrays times segments the count 1, and none to those beyond.
pub init_counts :
    (r : Refcnts) (i : ℕ)
    → 0 < r.num_total_segments
    → (r' : Refcnts) × (server_init_refcnt_array
          (replicate (suc r.num_refcnt_arrays) true)
          r
          r.num_total_segments
        ≡ ok r')
      × (count r' i ≡ (if ltb i (r.num_refcnt_arrays * r.num_total_segments) then some 1 else none))
unfolding server_init_refcnt_array read_count alloc_arrays
init_counts r i p =
    let t = r.num_total_segments in
    let n = r.num_refcnt_arrays in
    (
      record r { arrays = replicate n (replicate {A = ℕ} t 1) },
      rw (alloc_arrays_lem n t),
      elim (Bool-cases (ltb (i / t) n)) [
        | inl within ↦ ground (
          arith,
          get_elem?-replicate n (i / t) (replicate {A = ℕ} t 1),
          get_elem?-replicate {A = ℕ} t (i % t) 1,
          in_range i n t p,
        )
        | inr beyond ↦
            ground (arith, get_elem?-replicate n (i / t) (replicate {A = ℕ} t 1), in_range i n t p)
      ],
    )
